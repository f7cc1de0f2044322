-- ===== src/Startup/Args.antt =====
-- The search of a flag in the arguments: `--config` in the main.rs of elan-central, elan-query,
-- elan-coordinator and elan-executor, and the flags of elan-tui.
use elan.Common.{[], ◌∷◌, List, Option, none, some, Text, codes, text_eq, if◌then◌else◌}

-- `args.windows(2).find(|w| w[0] == flag).map(|w| w[1])`
unfoldable pub flag_value : Text → List Text → Option Text
flag_value flag [] = none
flag_value flag (a ∷ []) = none
flag_value flag (a ∷ b ∷ rest) =
    let later = flag_value flag (b ∷ rest) in if text_eq a flag then some b else later

abbrev pub config_path : List Text → Option Text
config_path args = flag_value (codes "--config") args

-- The arguments of elan-tui.
or_default : Option Text → Text → Text
or_default none t = t
or_default (some v) t = v

unfoldable pub query_url : List Text → Text
unfolding or_default
query_url args =
    or_default (flag_value (codes "--query-endpoint") args) (codes "http://localhost:3000")

abbrev pub central_url : List Text → Option Text
central_url args = flag_value (codes "--central-endpoint") args

unfoldable pub username : List Text → Text
unfolding or_default
username args = or_default (flag_value (codes "--user") args) (codes "alice")

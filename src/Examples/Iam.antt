-- ===== src/Examples/Iam.antt =====
-- Examples for the policies and their engine.
use mathlib.Core.List.Memᴰ
use elan.Common.{
  ◌≡◌, refl, ap, [], ◌∷◌, List, Memᴰ, inl, inr, ◌↔◌, Bool, true, none, codes, strip_suffix,
}
use elan.Common.Signed.{pos}
use elan.Iam.Types.{
  Subject, ResourceId, SubjectType, PolicyEffect, Policy, is_allowed, matches_resource,
  matches_action, matches_subject,
}
use elan.Iam.Types.Matching.{Covers, Concerns, matches_resource_iff}
use elan.Iam.Engine
use elan.Iam.Engine.{check}
use elan.Iam.Engine.Ambiguity.{NamesDatasets, inner, outer, check_ambiguous}
use elan.Iam.Engine.Decision.{Justified, check_allowed_iff, check-Justified}
use elan.Examples.Codecs.{uuids, serde}

abbrev pub alice : Subject
alice = record { user_id = codes "alice"; groups = codes "quants" ∷ [] }

abbrev pub trades : ResourceId
trades = record { namespace = codes "finance"; name = codes "trades" }

-- All of finance, for everyone.
abbrev pub open_finance : Policy
open_finance = record {
  id = 1;
  subject_name = codes "*";
  subject_type = SubjectType.user;
  resource_pattern = codes "finance.*";
  action = codes "select";
  effect = PolicyEffect.allow;
  row_filter = none;
  column_mask_json = none;
  priority = pos 10;
}

-- No trades for the group of alice.
abbrev pub no_trades : Policy
no_trades = record {
  id = 2;
  subject_name = codes "quants";
  subject_type = SubjectType.group;
  resource_pattern = codes "finance.trades";
  action = codes "*";
  effect = PolicyEffect.deny;
  row_filter = none;
  column_mask_json = none;
  priority = pos 0;
}

abbrev pub both : List Policy
both = open_finance ∷ no_trades ∷ []

alice_is_denied : is_allowed (check uuids serde both alice trades (codes "SELECT")) ≡ Bool.false
unfolding check Engine.decide Engine.applies matches_subject matches_resource matches_action
    strip_suffix Engine.before
alice_is_denied = refl

check_allowed_iff_example :
    (is_allowed (check uuids serde both alice trades (codes "SELECT")) ≡ true) ↔ (
      ((p : Policy) × Memᴰ p both × Concerns alice trades (codes "SELECT") p)
      × ((q : Policy)
          → Memᴰ q both
          → Concerns alice trades (codes "SELECT") q
          → q.effect ≡ PolicyEffect.allow))
check_allowed_iff_example = check_allowed_iff uuids serde both alice trades (codes "SELECT")

check-Justified_example :
    Justified uuids serde both alice trades
      (codes "SELECT")
      (check uuids serde both alice trades (codes "SELECT"))
check-Justified_example = check-Justified uuids serde both alice trades (codes "SELECT")

matches_resource_iff_example :
    (matches_resource open_finance (codes "finance") (codes "trades") ≡ true)
    ↔ Covers (codes "finance.*") trades
matches_resource_iff_example = matches_resource_iff open_finance trades

-- A policy for dataset "b.c" of namespace "a".
abbrev one_dataset : Policy
one_dataset = record open_finance { resource_pattern = codes "a.b.c" }

exact : NamesDatasets one_dataset
unfolding strip_suffix
exact = refl

all_allow : (q : Policy) → Memᴰ q (one_dataset ∷ []) → q.effect ≡ PolicyEffect.allow
all_allow q m = ap (λ (p : Policy). p.effect) (Memᴰ.eq_of_singleton m)

check_ambiguous_example :
    (check uuids serde
        (one_dataset ∷ [])
        alice
        (inner (codes "a") (codes "b") (codes "c"))
        (codes "SELECT")
      ≡ check uuids serde
          (one_dataset ∷ [])
          alice
          (outer (codes "a") (codes "b") (codes "c"))
          (codes "SELECT"))
    × (is_allowed (
          check uuids serde
            (one_dataset ∷ [])
            alice
            (outer (codes "a") (codes "b") (codes "c"))
            (codes "SELECT"))
        ≡ true)
check_ambiguous_example =
    check_ambiguous (codes "a") (codes "b") (codes "c") alice (codes "SELECT") uuids serde
      (one_dataset ∷ []) one_dataset (exact, tt) (Memᴰ.head refl) exact refl (inl refl) (inr refl)
      all_allow

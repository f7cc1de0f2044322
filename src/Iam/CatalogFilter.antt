-- ===== src/Iam/CatalogFilter.antt =====
-- crates/elan-iam/src/catalog_filter.rs
use elan.Common.{Bool, Text, codes}
use elan.Iam.Types.{Subject, is_allowed}
use elan.Iam.Engine.{IamEngine}

unfoldable pub is_visible : IamEngine → Subject → Text → Text → Bool
is_visible engine subject namespace name =
    is_allowed
      (engine.check subject (record { namespace = namespace; name = name }) (codes "SELECT"))

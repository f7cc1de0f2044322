-- ===== src/Query/Catalog/CatalogProvider.antt =====
-- crates/elan-query/src/catalog/provider.rs: `ElanCatalogProvider`, the schemas of a session.
use elan.Common.{
  ◌≡◌, refl, List, Option, none, some, Text, codes, Result, ok, err, text_eq, if◌then◌else◌,
}
use elan.Iam.Optimizer.{DfError}
use elan.Query.Catalog.Provider.{ElanSchemaProvider, get, insert, keys}
use elan.Query.Catalog.Provider.Tables.{get-insert}

pub record ElanCatalogProvider : Type 0 where
  pub schemas : List (Text × ElanSchemaProvider)

unfoldable pub schema_names : ElanCatalogProvider → List Text
schema_names catalog = keys catalog.schemas

unfoldable pub schema : Text → ElanCatalogProvider → Option ElanSchemaProvider
schema name catalog = get name catalog.schemas

-- `register_schema`, with the result of the downcast of the given provider: none for a provider of
-- another type. The result has the provider that was replaced.
unfoldable pub register_schema :
    Text
    → Option ElanSchemaProvider
    → ElanCatalogProvider
    → Result DfError (Option ElanSchemaProvider) × ElanCatalogProvider
register_schema name none catalog = (err (codes "expected ElanSchemaProvider"), catalog)
register_schema name (some provider) catalog =
    (ok (get name catalog.schemas), record { schemas = insert name provider catalog.schemas })

-- A registered schema is found under its name, the one that it replaces is returned, and the other
-- names are left alone.
schema-register_schema :
    (name other : Text) (provider : ElanSchemaProvider) (catalog : ElanCatalogProvider)
    → ((register_schema name (some provider) catalog).0 ≡ ok (schema name catalog))
      × (schema other (register_schema name (some provider) catalog).1
          ≡ (if text_eq name other then some provider else schema other catalog))
unfolding register_schema schema
schema-register_schema name other provider catalog =
    (refl, get-insert name other provider catalog.schemas)

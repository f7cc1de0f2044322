-- ===== src/Examples/Served.antt =====
-- Examples for elan-query over the catalog of elan-central.
use elan.Common.{
  ◌≡◌, refl, [], ◌∷◌, List, Memᴰ, ◌↔◌, Bool, true, false, Option, none, some, Text, codes, Result,
  ok, err, filter, strip_suffix,
}
use elan.Domain.Catalog.{DatasetInfo, try_from}
use elan.Iam.Types.{Subject, matches_subject, matches_resource, matches_action}
use elan.Iam.Engine
use elan.Iam.Engine.{snapshot_engine, check}
use elan.Iam.CatalogFilter.{is_visible}
use elan.Central.CatalogStore
use elan.Central.CatalogStore.{CatalogStore, list_datasets}
use elan.Central.CatalogService
use elan.Query.Catalog.Table.{ArrowIpc}
use elan.Query.Catalog.Provider.{ElanSchemaProvider, table}
use elan.Query.Catalog.Provider.Fetched.{seen, table-get_dataset}
use elan.Query.Catalog.Provider.Tables.{names}
use elan.Query.Session.{SessionFactory, Session, build_for_user}
use elan.Query.Session.Datasets.{under}
use elan.Query.Http.{extract_subject, handle_catalog}
use elan.Query.Http.Listing.{listed, handle_catalog_iff}
use elan.Examples.Iam.{alice, both, open_finance}
use elan.Examples.Catalog.{db_text, c1, old_trades, shown}
use elan.Examples.Codecs.{uuids, serde}

abbrev pub ipc : ArrowIpc
ipc = record { read_schema = λ bytes. none; project = λ schema columns. ok schema }

abbrev pub s : CatalogStore
s = record {
  coordinators = c1 ∷ [];
  datasets = record old_trades { name = codes "prices"; is_active = true } ∷ [];
}

abbrev provider : ElanSchemaProvider
provider = record {
  namespace = codes "finance";
  datasets = [];
  iam_engine = snapshot_engine uuids serde both;
  subject = alice;
}

prices_visible :
    is_visible provider.iam_engine provider.subject (codes "finance") (codes "prices") ≡ true
unfolding is_visible snapshot_engine check Engine.decide Engine.applies Engine.before
    matches_subject matches_resource matches_action strip_suffix
prices_visible = refl

table-get_dataset_example :
    table uuids serde ipc
      (λ ns n. CatalogService.get_dataset uuids serde db_text ns n s)
      (codes "prices")
      provider
    ≡ seen uuids serde db_text ipc s
        (codes "prices")
        provider
        (CatalogStore.get_dataset uuids serde (codes "finance") (codes "prices") s)
table-get_dataset_example =
    table-get_dataset uuids serde db_text ipc s (codes "prices") provider prices_visible refl

abbrev pub prices : DatasetInfo
prices = record shown {
  name = codes "prices";
  source_type = elan.Domain.Catalog.parquet;
  executor_endpoint = codes "10.0.0.4:50051";
  schema_ipc = 1 ∷ [];
  metadata = elan.Common.External.null;
}

pub prices_listed : list_datasets uuids serde none s ≡ ok (prices ∷ [])
unfolding list_datasets try_from
prices_listed = refl

abbrev pub factory : SessionFactory
factory = record {
  iam_engine = open_finance ∷ [];
  datasets_by_ns = (codes "finance", prices ∷ []) ∷ (codes "sales", []) ∷ [];
}

abbrev pub build : Subject → Result Text Session
build subject = ok (build_for_user uuids serde ipc subject factory)

handle_catalog_iff_example :
    Memᴰ
      (codes "prices")
      (listed (codes "finance") (handle_catalog build (some (codes "Bearer bob"))))
    ↔ (Memᴰ (codes "prices") (names (under (codes "finance") factory.datasets_by_ns))
        × (is_visible
              (snapshot_engine uuids serde (open_finance ∷ []))
              (extract_subject (some (codes "Bearer bob")))
              (codes "finance")
              (codes "prices")
            ≡ true))
handle_catalog_iff_example =
    handle_catalog_iff uuids serde ipc factory build (some (codes "Bearer bob")) (codes "finance")
      (codes "prices") (refl, (refl, tt)) refl

-- ===== src/Query/Catalog/Provider/Fetched.antt =====
-- What a schema provider answers when the central catalog that it asks is that of elan-central.
use elan.Common.{◌≡◌, refl, true, Option, none, some, Text, Result, ok, err}
use elan.Common.External.{UuidCodec, Serde}
use elan.Domain.Catalog.{DatasetInfo, display, try_from_iff}
use elan.Central.Database.{DbError, to_status}
use elan.Central.CatalogStore
use elan.Central.CatalogStore.{CatalogStore}
use elan.Central.CatalogService
use elan.Central.CatalogService.{dataset_to_proto, missing}
use elan.Iam.CatalogFilter.{is_visible}
use elan.Query.Catalog.Table.{ArrowIpc, new_table}
use elan.Query.Catalog.Provider.{
  get, insert, ElanSchemaProvider, is_offered, remote, dataset_of_proto, metadata_or_null,
  TableResult, store_table, is_not_found, fetched, cached_or_fetched, table,
}

module _ (uuids : UuidCodec) (serde : Serde) (db_text : DbError → Text) where
  -- A dataset that the service sends is read as it was.
  pub dataset_of_proto-to_proto :
      (d : DatasetInfo)
      → dataset_of_proto uuids serde (dataset_to_proto uuids serde db_text d) ≡ ok d
  unfolding dataset_of_proto dataset_to_proto metadata_or_null
  dataset_of_proto-to_proto d =
      let typed = (try_from_iff (display d.source_type) d.source_type).1 refl in
      rw (uuids.parse_str-to_string d.id, typed, serde.from_str-to_string d.metadata) refl

  module _ (ipc : ArrowIpc) (s : CatalogStore) (name : Text) (provider : ElanSchemaProvider) where
    -- The answer that the stored dataset, its absence or an error of the database stands for.
    abbrev pub seen : Result DbError (Option DatasetInfo) → TableResult uuids serde ipc
    seen (err e) = (err (remote (to_status db_text e)), provider)
    seen (ok none) = (ok none, provider)
    seen (ok (some d)) = (
      ok (some (new_table ipc d)),
      record provider { datasets = insert name (new_table ipc d) provider.datasets },
    )

    seen_at :
        (r : Result DbError (Option DatasetInfo))
        → CatalogStore.get_dataset uuids serde provider.namespace name s ≡ r
        → fetched uuids serde ipc provider name
            (CatalogService.get_dataset uuids serde db_text provider.namespace name s)
          ≡ seen r
    unfolding fetched CatalogService.get_dataset store_table is_not_found
    seen_at (err e) h = rw h refl
    seen_at (ok none) h = rw h refl
    seen_at (ok (some d)) h = rw (h, dataset_of_proto-to_proto d) refl

    -- A visible table that is not cached is what the central store shows under its name: its dataset,
    -- which is then cached, no table if the store shows none, or the error of the database.
    pub table-get_dataset :
        is_visible provider.iam_engine provider.subject provider.namespace name ≡ true
        → get name provider.datasets ≡ none
        → table uuids serde ipc
            (λ ns n. CatalogService.get_dataset uuids serde db_text ns n s)
            name
            provider
          ≡ seen (CatalogStore.get_dataset uuids serde provider.namespace name s)
    unfolding table cached_or_fetched is_offered
    table-get_dataset visible uncached =
        rw (visible, uncached)
          (seen_at (CatalogStore.get_dataset uuids serde provider.namespace name s) refl)

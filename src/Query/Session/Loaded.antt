-- ===== src/Query/Session/Loaded.antt =====
-- What elan-query loads from the catalog service of elan-central.
use elan.Common.{◌≡◌, refl, [], ◌∷◌, List, none, Text, ok, map, filter}
use elan.Common.External.{UuidCodec, Serde}
use elan.Domain.Catalog.{DatasetInfo}
use elan.Central.Database.{DbError}
use elan.Central.CatalogStore
use elan.Central.CatalogStore.{CatalogStore}
use elan.Central.CatalogService
use elan.Central.CatalogService.{dataset_to_proto}
use elan.Query.Catalog.Provider.Fetched.{dataset_of_proto-to_proto}
use elan.Query.Session.{load_datasets}
use elan.Query.Session.Policies.{streamed}
use elan.Query.Session.Datasets.{under, is_of, Reads, load_datasets-under}

module _ (uuids : UuidCodec) (serde : Serde) (db_text : DbError → Text) where
  sent-Reads :
      (ds : List DatasetInfo)
      → Reads uuids serde (map ok (map (dataset_to_proto uuids serde db_text) ds)) ds
  sent-Reads [] = tt
  sent-Reads (d ∷ ds) = (
    (dataset_to_proto uuids serde db_text d, refl, dataset_of_proto-to_proto uuids serde db_text d),
    sent-Reads ds,
  )

  -- If the central store can be listed, the catalog that elan-query loads holds under each namespace
  -- exactly the listed datasets of that namespace, in order.
  pub load_datasets-list_datasets :
      (s : CatalogStore) (ds : List DatasetInfo)
      → CatalogStore.list_datasets uuids serde none s ≡ ok ds
      → (by_ns : List (Text × List DatasetInfo)) × (load_datasets uuids serde
            (streamed (CatalogService.list_datasets uuids serde db_text [] s))
          ≡ ok by_ns)
        × ((ns : Text) → under ns by_ns ≡ filter (is_of ns) ds)
  unfolding CatalogService.list_datasets
  load_datasets-list_datasets s ds h =
      let (by_ns, loaded, holds) =
        load_datasets-under uuids serde (map ok (map (dataset_to_proto uuids serde db_text) ds)) ds
          (sent-Reads ds) in
      (by_ns, rw h loaded, holds)

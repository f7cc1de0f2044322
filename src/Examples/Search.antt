-- ===== src/Examples/Search.antt =====
-- A search of the catalog, run on the store of the catalog's examples.
use elan.Common.{
  ◌+◌, ◌≡◌, refl, ◌∷◌, [], none, List, Memᴰ, Text, codes, map, ◌↔◌, ok, leb, ltb, ◌&&◌,
  if◌then◌else◌,
}
use elan.Domain.Proto.{DatasetProto}
use elan.Domain.Catalog.{DatasetInfo, try_from}
use elan.Central.CatalogStore.{DatasetRow, list_datasets, upsert_dataset}
use elan.Central.CatalogStore.Reads.{Shows}
use elan.Central.CatalogService.{dataset_to_proto, search_datasets}
use elan.Central.CatalogService.Search.{Found, search_datasets_iff}
use elan.Examples.Codecs.{uuids, serde, run, write}
use elan.Examples.Catalog.{db_text, upserted, shown, listed}

-- The lower case of ASCII letters.
abbrev lower : Text → Text
lower t = map (λ c. if leb 65 c && ltb c 91 then c + 32 else c) t

search_datasets_iff_example :
    (ps : List DatasetProto) × (search_datasets uuids serde db_text lower (codes "RADE") upserted.1
      ≡ ok ps)
    × ((p : DatasetProto)
        → Memᴰ p ps ↔ (
            (d : DatasetInfo) × (p ≡ dataset_to_proto uuids serde db_text d)
            × Found lower (codes "RADE") d
            × ((row : DatasetRow) × Shows uuids serde upserted.1 none d row)))
search_datasets_iff_example =
    search_datasets_iff uuids serde db_text lower (codes "RADE") upserted.1 (shown ∷ []) listed

-- The search finds the dataset, by a part of its name in other letters.
found :
    search_datasets uuids serde db_text lower (codes "RADE") upserted.1
    ≡ ok (dataset_to_proto uuids serde db_text shown ∷ [])
unfolding search_datasets list_datasets upsert_dataset try_from run write
found = refl

-- ===== src/Query/Session/Distinct.antt =====
-- The namespaces of the loaded catalog are distinct.
use elan.Common.{
  ◌≡◌, refl, subst, [], ◌∷◌, List, false, Option, none, some, Text, Bool-cases, inl, inr, Result,
  ok, >>=-eq-ok, map_err, arith, text_eq, text_eq_iff,
}
use elan.Common.External.{UuidCodec, Serde}
use elan.Domain.Catalog.{DatasetInfo}
use elan.Domain.Errors.{Status}
use elan.Domain.Proto.{DatasetProto}
use elan.Query.Catalog.Provider.{get, remote, dataset_of_proto}
use elan.Query.Catalog.Provider.Tables.{IsMap}
use elan.Query.Session.{push, grouped, load_datasets}

get-none :
    (k n : Text) (l : List DatasetInfo) (m : List (Text × List DatasetInfo))
    → get k ((n, l) ∷ m) ≡ none
    → (text_eq n k ≡ false) × (get k m ≡ none)
get-none k n l m h = elim (Bool-cases (text_eq n k)) [
  | inl here ↦
      let never : ◌≡◌ {A = Option (List DatasetInfo)} (some l) none = rw (here, get) at h in cc
  | inr there ↦ (there, rw (there, get) at h)
]

get-push :
    (k : Text) (ds : DatasetInfo) (m : List (Text × List DatasetInfo))
    → get k m ≡ none
    → text_eq ds.namespace k ≡ false
    → get k (push ds m) ≡ none
get-push k ds [] free other = rw other refl
get-push k ds ((n, l) ∷ m) free other = elim (Bool-cases (text_eq n ds.namespace)) [
  | inl same ↦ let (apart, rest) = get-none k n l m free in rw (same, apart) rest
  | inr differ ↦
      let (apart, rest) = get-none k n l m free in rw (differ, apart) (get-push k ds m rest other)
]

IsMap-push : (ds : DatasetInfo) (m : List (Text × List DatasetInfo)) → IsMap m → IsMap (push ds m)
IsMap-push ds [] h = (refl, tt)
IsMap-push ds ((n, l) ∷ m) (free, h) = elim (Bool-cases (text_eq n ds.namespace)) [
  | inl same ↦ rw same (free, h)
  | inr differ ↦
      let apart : text_eq ds.namespace n ≡ false =
        ground (arith, text_eq_iff n ds.namespace, text_eq_iff ds.namespace n) in
      rw differ (get-push n ds m free apart, IsMap-push ds m h)
]

module _ (uuids : UuidCodec) (serde : Serde) where
  grouped-IsMap :
      (m by_ns : List (Text × List DatasetInfo)) (items : List (Result Status DatasetProto))
      → IsMap m
      → grouped uuids serde m items ≡ ok by_ns
      → IsMap by_ns
  unfolding grouped
  grouped-IsMap m by_ns [] h e = let same : m ≡ by_ns = cc in subst IsMap same h
  grouped-IsMap m by_ns (item ∷ items) h e =
      let (proto, got, e1) = >>=-eq-ok (map_err remote item) _ e in
      let (ds, read, e2) = >>=-eq-ok (dataset_of_proto uuids serde proto) _ e1 in
      grouped-IsMap (push ds m) by_ns items (IsMap-push ds m h) e2

  pub load_datasets-IsMap :
      (response : Result Status (List (Result Status DatasetProto)))
      (by_ns : List (Text × List DatasetInfo))
      → load_datasets uuids serde response ≡ ok by_ns
      → IsMap by_ns
  unfolding load_datasets
  load_datasets-IsMap response by_ns e =
      let (items, got, e1) = >>=-eq-ok (map_err remote response) _ e in
      grouped-IsMap [] by_ns items tt e1

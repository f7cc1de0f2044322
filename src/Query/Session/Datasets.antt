-- ===== src/Query/Session/Datasets.antt =====
-- How elan-query groups the datasets of the catalog by namespace.
use elan.Common.{
  ◌≡◌, refl, sym, ◌∙◌, ◌++◌, [], ◌∷◌, List, Bool, true, false, none, some, Text, inl, inr, filter,
  arith, Bool-cases, text_eq, text_eq_iff, text_eq_refl, append_assoc, append-nil, Result, ok,
  if◌then◌else◌,
}
use elan.Common.External.{UuidCodec, Serde}
use elan.Domain.Catalog.{DatasetInfo}
use elan.Domain.Errors.{Status}
use elan.Domain.Proto.{DatasetProto}
use elan.Query.Catalog.Provider.{get, dataset_of_proto}
use elan.Query.Session.{push, grouped, load_datasets}

-- The datasets that are kept under a namespace.
abbrev pub under : Text → List (Text × List DatasetInfo) → List DatasetInfo
under ns by_ns = elim (get ns by_ns) [ none ↦ [] | some l ↦ l ]

abbrev pub is_of : Text → DatasetInfo → Bool
is_of ns ds = text_eq ds.namespace ns

under_here :
    (ns m : Text) (l : List DatasetInfo) (by_ns : List (Text × List DatasetInfo))
    → text_eq m ns ≡ true
    → under ns ((m, l) ∷ by_ns) ≡ l
under_here ns m l by_ns h = rw (under, h) refl

under_there :
    (ns m : Text) (l : List DatasetInfo) (by_ns : List (Text × List DatasetInfo))
    → text_eq m ns ≡ false
    → under ns ((m, l) ∷ by_ns) ≡ under ns by_ns
under_there ns m l by_ns h = rw (under, h) refl

push_here :
    (ds : DatasetInfo) (m : Text) (l : List DatasetInfo) (by_ns : List (Text × List DatasetInfo))
    → text_eq m ds.namespace ≡ true
    → push ds ((m, l) ∷ by_ns) ≡ (m, l ++ ds ∷ []) ∷ by_ns
push_here ds m l by_ns h = rw h refl

push_there :
    (ds : DatasetInfo) (m : Text) (l : List DatasetInfo) (by_ns : List (Text × List DatasetInfo))
    → text_eq m ds.namespace ≡ false
    → push ds ((m, l) ∷ by_ns) ≡ (m, l) ∷ push ds by_ns
push_there ds m l by_ns h = rw h refl

true-ne : true ≡ false → ⊥
true-ne h = cc

other_of : (m a b : Text) → text_eq m a ≡ false → text_eq m b ≡ true → text_eq a b ≡ false
other_of m a b h k = elim (Bool-cases (text_eq a b)) [
  | inr no_match ↦ no_match
  | inl e ↦
      let same_ab = (text_eq_iff a b).0 e in
      let same_mb = (text_eq_iff m b).0 k in
      absurd (true-ne (sym ((text_eq_iff m a).1 (same_mb ∙ sym same_ab)) ∙ h))
]

under-push :
    (ns : Text) (ds : DatasetInfo) (by_ns : List (Text × List DatasetInfo))
    → under ns (push ds by_ns) ≡ under ns by_ns ++ (if is_of ns ds then ds ∷ [] else [])
under-push ns ds [] = ground arith
under-push ns ds ((m, l) ∷ by_ns) = elim (Bool-cases (text_eq m ds.namespace)) [
  | inl a ↦ elim (Bool-cases (text_eq m ns)) [
    | inl b ↦
        let c : is_of ns ds ≡ true =
          ground (arith, text_eq_iff m ns, text_eq_iff m ds.namespace, text_eq_refl ns) in
        rw
          (
            push_here ds m l by_ns a,
            under_here ns m (l ++ ds ∷ []) by_ns b,
            under_here ns m l by_ns b,
            c,
          )
          refl
    | inr b ↦
        let c : is_of ns ds ≡ false = rw (← (text_eq_iff m ds.namespace).0 a) b in
        rw
          (
            push_here ds m l by_ns a,
            under_there ns m (l ++ ds ∷ []) by_ns b,
            under_there ns m l by_ns b,
            c,
          )
          (sym (append-nil (under ns by_ns)))
  ]
  | inr a ↦ elim (Bool-cases (text_eq m ns)) [
    | inl b ↦
        let c : is_of ns ds ≡ false = other_of m ds.namespace ns a b in
        rw
          (
            push_there ds m l by_ns a,
            under_here ns m l (push ds by_ns) b,
            under_here ns m l by_ns b,
            c,
          )
          (sym (append-nil l))
    | inr b ↦
        rw
          (
            push_there ds m l by_ns a,
            under_there ns m (l) (push ds by_ns) b,
            under_there ns m l by_ns b,
          )
          (under-push ns ds by_ns)
  ]
]

-- All items of the stream are datasets, and these are their values.
abbrev pub Reads : UuidCodec → Serde → List (Result Status DatasetProto) → List DatasetInfo → Type 0
Reads uuids serde [] [] = Unit
Reads uuids serde (item ∷ items) (ds ∷ rest) =
    ((proto : DatasetProto) × (item ≡ ok proto) × (dataset_of_proto uuids serde proto ≡ ok ds))
    × Reads uuids serde items rest
Reads uuids serde _ _ = ⊥

module _ (uuids : UuidCodec) (serde : Serde) where
  grouped-under :
      (by_ns : List (Text × List DatasetInfo)) (items : List (Result Status DatasetProto))
      (dss : List DatasetInfo)
      → Reads uuids serde items dss
      → (by_ns' : List (Text × List DatasetInfo)) × (grouped uuids serde by_ns items ≡ ok by_ns')
        × ((ns : Text) → under ns by_ns' ≡ under ns by_ns ++ filter (is_of ns) dss)
  unfolding grouped
  grouped-under by_ns [] [] h = (by_ns, refl, λ ns. sym (append-nil (under ns by_ns)))
  grouped-under by_ns [] (ds ∷ rest) h = absurd h
  grouped-under by_ns (item ∷ items) [] h = absurd h
  grouped-under by_ns (item ∷ items) (ds ∷ rest) ((proto, e, e'), h) =
      let (by_ns', ran, holds) = grouped-under (push ds by_ns) items rest h in
      (by_ns', rw (e, e') ran, λ ns. holds ns ∙ pushed ns ds rest by_ns)
    where
      pushed :
          (ns : Text) (ds : DatasetInfo) (rest : List DatasetInfo)
          (by_ns : List (Text × List DatasetInfo))
          → under ns (push ds by_ns) ++ filter (is_of ns) rest
            ≡ under ns by_ns ++ filter (is_of ns) (ds ∷ rest)
      pushed ns ds rest by_ns = rw (under-push ns ds by_ns) (elim (Bool-cases (is_of ns ds)) [
        | inl b ↦ rw b (append_assoc (under ns by_ns) (ds ∷ []) (filter (is_of ns) rest))
        | inr b ↦ rw (b, append-nil (under ns by_ns)) refl
      ])

  -- If every item of the stream can be read, the cache holds under each namespace exactly the
  -- datasets of that namespace, in the order of the stream.
  pub load_datasets-under :
      (items : List (Result Status DatasetProto)) (dss : List DatasetInfo)
      → Reads uuids serde items dss
      → (by_ns : List (Text × List DatasetInfo)) × (load_datasets uuids serde (ok items) ≡ ok by_ns)
        × ((ns : Text) → under ns by_ns ≡ filter (is_of ns) dss)
  unfolding load_datasets
  load_datasets-under items dss h = grouped-under [] items dss h

-- ===== src/Executor/Config/Providers/Registered.antt =====
-- The tables of a request's session (crates/elan-executor/src/services/sql_service.rs): the
-- registration of the providers, and what the new context's names resolve to.
use elan.Common.{
  ◌≡◌, ◌≢◌, refl, sym, ap, ◌∙◌, subst, [], ◌∷◌, List, Option, none, some, Text, map, All, ok,
  >>=-eq-ok, Bool-cases, true, false, inl, inr, text_eq, text_eq_iff,
}
use elan.Query.Catalog.Provider.{get}
use elan.Executor.Config.{
  ObjectStoreConfig, DatasetMount, table_name, ExecutorConfig, SessionApi, register_store,
  with_store, register_all,
}
use elan.Executor.Config.Providers.Opened.{IsSession, ref_of, IsOpen, IsOther, AreDistinct, AreOf}

distinct_names : (l n : Text) → text_eq l n ≡ false → l ≢ n
distinct_names l n other e = let same = (text_eq_iff l n).1 e in cc

module _ {C P S : Type 0} (api : SessionApi C P S) (law : IsSession api) where
  abbrev Resolves : C → Text × P → Type 0
  Resolves c e = law.table (law.ref e.0) c ≡ some e.1

  -- The providers under the references of their names.
  abbrev pub references : List (Text × P) → List (Text × P)
  references ps = map (λ e. (law.ref e.0, e.1)) ps

  abbrev pub IsPlaced : C → Text × P → Type 0
  IsPlaced c e = law.has_schema (law.ref e.0) c ≡ true

  kept_resolves :
      (c c' : C) (ms : List DatasetMount) (n : Text) (ps : List (Text × P))
      → AreOf api law ms ps
      → All (IsOther api law n) ms
      → ((k : Text) → k ≢ n → law.table k c' ≡ law.table k c)
      → All (λ e. law.table (law.ref e.0) c ≡ none) ps
      → All (λ e. law.table (law.ref e.0) c' ≡ none) ps
  kept_resolves c c' ms n [] of o keeps h = tt
  kept_resolves c c' [] n (e ∷ ps) of o keeps h = absurd of
  kept_resolves c c' (m ∷ ms) n (e ∷ ps) (same, of) (a, o) keeps (b, h) = (
    keeps (law.ref e.0) (λ q. a (ap law.ref (sym same) ∙ q)) ∙ b,
    kept_resolves c c' ms n ps of o keeps h,
  )

  others_of :
      (n : Text) (ms : List DatasetMount) (ps : List (Text × P))
      → AreOf api law ms ps
      → All (IsOther api law n) ms
      → All (λ e. n ≢ law.ref e.0) ps
  others_of n ms [] of h = tt
  others_of n [] (e ∷ ps) of h = absurd of
  others_of n (m ∷ ms) (e ∷ ps) (same, of) (a, h) =
      (λ q. a (ap law.ref (sym same) ∙ sym q), others_of n ms ps of h)

  still-IsPlaced :
      (c c' : C) (ps : List (Text × P))
      → ((r : Text) → law.has_schema r c' ≡ law.has_schema r c)
      → All (IsPlaced c) ps
      → All (IsPlaced c') ps
  still-IsPlaced c c' [] schemas h = tt
  still-IsPlaced c c' (e ∷ ps) schemas (a, h) =
      (schemas (law.ref e.0) ∙ a, still-IsPlaced c c' ps schemas h)

  -- The schemas in which mounts are open are those of the context before them.
  pub placed :
      (c c' : C) (ms : List DatasetMount) (ps : List (Text × P))
      → ((r : Text) → law.has_schema r c' ≡ law.has_schema r c)
      → AreOf api law ms ps
      → All (IsOpen api law c') ms
      → All (IsPlaced c) ps
  placed c c' ms [] schemas of h = tt
  placed c c' [] (e ∷ ps) schemas of h = absurd of
  placed c c' (m ∷ ms) (e ∷ ps) schemas (same, of) ((p, here), h) = (
    ap (λ n. law.has_schema (law.ref n) c) same
        ∙ sym (schemas (ref_of api law m))
        ∙ law.table_in_schema (ref_of api law m) p c' here,
    placed c c' ms ps schemas of h,
  )

  pub register_all_lem :
      (ms : List DatasetMount) (ps : List (Text × P)) (c : C)
      → AreDistinct api law ms
      → AreOf api law ms ps
      → All (λ e. law.table (law.ref e.0) c ≡ none) ps
      → All (IsPlaced c) ps
      → (c' : C) × (register_all api ps c ≡ ok c')
        × All (Resolves c') ps
        × ((n : Text) → All (λ e. n ≢ law.ref e.0) ps → law.table n c' ≡ law.table n c)
  unfolding register_all
  register_all_lem ms [] c d of h at = (c, refl, tt, λ n k. refl)
  register_all_lem [] (e ∷ ps) c d of h at = absurd of
  register_all_lem (m ∷ ms) (e ∷ ps) c (others, d) (same, of) (free, h) (at, ats) =
      let (c1, e1, here, keeps, schemas) = law.register_new e.0 e.1 c at free in
      let elsewhere =
        λ (k : Text) (q : k ≢ ref_of api law m). keeps k (λ r. q (r ∙ ap law.ref same)) in
      let (c2, e2, resolved, kept) =
        register_all_lem ms ps c1 d of
          (kept_resolves c c1 ms (ref_of api law m) ps of others elsewhere h)
          (still-IsPlaced c c1 ps schemas ats) in
      (
        c2,
        rw (e1, e2) refl,
        (
          kept (law.ref e.0) (
                others_of (law.ref e.0) ms ps of
                  (subst (λ n. All (IsOther api law (law.ref n)) ms) (sym same) others))
              ∙ here,
          resolved,
        ),
        λ n (a, k). kept n k ∙ keeps n a,
      )

  pub with_store-empty :
      (cfg : ExecutorConfig) (c : C)
      → with_store api cfg.object_store api.new ≡ ok c
      → (n : Text) → law.table n c ≡ none
  unfolding with_store register_store
  with_store-empty cfg c e n = empty_of cfg.object_store e
    where
      empty_of :
          (o : Option ObjectStoreConfig) → with_store api o api.new ≡ ok c → law.table n c ≡ none
      empty_of none e = let same : api.new ≡ c = cc in ap (law.table n) (sym same) ∙ law.table-new n
      empty_of (some s3_cfg) e =
          let (store, _, e1) = >>=-eq-ok (api.build_store _) _ e in
          let (url, _, e2) = >>=-eq-ok (api.parse_url _) _ e1 in
          let same : api.register_object_store url store api.new ≡ c = cc in
          ap (law.table n) (sym same) ∙ law.table-store n url store api.new ∙ law.table-new n

  pub names_of :
      (ms : List DatasetMount) (ps : List (Text × P))
      → AreOf api law ms ps
      → map (λ e. e.0) ps ≡ map table_name ms
  names_of [] [] of = refl
  names_of [] (e ∷ ps) of = absurd of
  names_of (m ∷ ms) [] of = absurd of
  names_of (m ∷ ms) (e ∷ ps) (same, of) = λ i. same i ∷ names_of ms ps of i

  pub All-free :
      (c : C) (ps : List (Text × P))
      → ((n : Text) → law.table n c ≡ none)
      → All (λ e. law.table (law.ref e.0) c ≡ none) ps
  All-free c [] h = tt
  All-free c (e ∷ ps) h = (h (law.ref e.0), All-free c ps h)

  pub lookup_of :
      (n : Text) (c : C) (ps : List (Text × P))
      → All (λ e. law.table (law.ref e.0) c ≡ some e.1) ps
      → (All (λ e. n ≢ law.ref e.0) ps → law.table n c ≡ none)
      → law.table n c ≡ get n (references ps)
  lookup_of n c [] resolved unknown = unknown tt
  lookup_of n c ((l, p) ∷ ps) (here, rest) unknown = elim (Bool-cases (text_eq (law.ref l) n)) [
    | inl same ↦
        rw same (subst (λ t. law.table t c ≡ some p) ((text_eq_iff (law.ref l) n).0 same) here)
    | inr other ↦
        rw other (
          lookup_of n c ps rest (λ h. unknown (λ e. distinct_names (law.ref l) n other (sym e), h)))
  ]

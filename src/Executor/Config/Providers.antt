-- ===== src/Executor/Config/Providers.antt =====
-- The tables that an executor opens at its start (context.rs) and the session of a request
-- (sql_service.rs), over what DataFusion is relied on for.
pub mod Opened
pub mod Registered
use elan.Common.{
  ◌≡◌, ◌≢◌, refl, sym, ap, ◌∙◌, subst, [], ◌∷◌, List, Option, none, some, Text, map, All, ok, ◌>>=◌,
  >>=-eq-ok, Bool-cases, false, inl, inr, text_eq, text_eq_iff,
}
use elan.Query.Catalog.Provider.{get}
use elan.Executor.Config.{
  ObjectStoreConfig, DatasetMount, table_name, ExecutorConfig, SessionApi, register_store,
  with_store, register_mount, register_mounts, pushed, collect_mounts, build_providers,
  register_all,
}
use elan.Executor.SqlService.{session}
use elan.Executor.Config.Providers.Opened.{
  IsSession, AreOf, register_mounts_lem, collect_mounts_lem,
}
use elan.Executor.Config.Providers.Registered.{
  register_all_lem, with_store-empty, references, placed, names_of, lookup_of, All-free,
}

module _ {C P S : Type 0} (api : SessionApi C P S) (law : IsSession api) where
  pub build_providers_served :
      (cfg : ExecutorConfig) (ps : List (Text × P))
      → build_providers api cfg ≡ ok ps
      → (map (λ e. e.0) ps ≡ map table_name cfg.datasets)
        × (ctx : C) × (session api (record { providers = ps; object_store = cfg.object_store })
            ≡ ok ctx)
        × ((r : Text) → law.table r ctx ≡ get r (references api law ps))
  unfolding build_providers session
  build_providers_served cfg ps e =
      let (c0, stored, e1) = >>=-eq-ok (with_store api cfg.object_store api.new) _ e in
      let (c1, mounted, e2) = >>=-eq-ok (register_mounts api cfg.datasets c0) _ e1 in
      let (distinct, _, opens, _, schemas) =
        register_mounts_lem api law cfg.datasets c0 c1 mounted in
      let (qs, collected, of) = collect_mounts_lem api law cfg.datasets c1 distinct opens in
      let is_ps : qs ≡ ps = cc in
      let of' = subst (AreOf api law cfg.datasets) is_ps of in
      let empty = with_store-empty api law cfg c0 stored in
      let (ctx, registered, resolved, kept) =
        register_all_lem api law cfg.datasets ps c0 distinct of' (All-free api law c0 ps empty)
          (placed api law c0 c1 cfg.datasets ps schemas of' opens) in
      (
        names_of api law cfg.datasets ps of',
        ctx,
        ap (λ o. o >>= λ c. register_all api ps c) stored ∙ registered,
        λ n. lookup_of api law n ctx ps resolved (λ h. kept n h ∙ empty n),
      )

-- ===== src/Startup/Layers/CentralLayers.antt =====
-- What elan-central is configured with.
use elan.Common.{◌≡◌, refl, Option, Text, codes, ok, >>=-eq-ok, subst}
use elan.Startup.Layers.{
  ConfigApi, layered, required, CentralConfig, central_defaults, central_of, load_central,
}
use elan.Startup.Layers.Precedence.{IsLayered, effective, IsRead, layered_at, required_eq}

module _ {B : Type 0} (api : ConfigApi B) (law : IsLayered api) where
  pub record IsConfiguredCentral (path : Option Text) (cfg : CentralConfig) : Type 0 where
    pub grpc_addr :
        IsRead api law api.as_text
          (effective api law central_defaults (codes "ELAN_CENTRAL") path (codes "grpc_addr"))
          cfg.grpc_addr
    pub http_addr :
        IsRead api law api.as_text
          (effective api law central_defaults (codes "ELAN_CENTRAL") path (codes "http_addr"))
          cfg.http_addr
    pub database_url :
        IsRead api law api.as_text
          (effective api law central_defaults (codes "ELAN_CENTRAL") path (codes "database_url"))
          cfg.database_url

  -- A configuration that elan-central loads has each setting from the environment, and else from the
  -- file, if one is named and has it, and else the default, if the crate layers its sources.
  pub load_central-IsConfiguredCentral :
      (path : Option Text) (cfg : CentralConfig)
      → load_central api path ≡ ok cfg
      → IsConfiguredCentral path cfg
  unfolding load_central central_of
  load_central-IsConfiguredCentral path cfg e =
      let (settings, built, e0) =
        >>=-eq-ok (layered api central_defaults (codes "ELAN_CENTRAL") path) _ e in
      let at = λ (k : Text).
        layered_at api law central_defaults (codes "ELAN_CENTRAL") path settings k
          (refl, (refl, (refl, tt))) built in
      let (a, read_a, e1) =
        >>=-eq-ok (required api.as_text (codes "grpc_addr") (settings (codes "grpc_addr"))) _ e0 in
      let (b, read_b, e2) =
        >>=-eq-ok (required api.as_text (codes "http_addr") (settings (codes "http_addr"))) _ e1 in
      let (c, read_c, e3) =
        >>=-eq-ok (required api.as_text (codes "database_url") (settings (codes "database_url"))) _
          e2 in
      let same : record { grpc_addr = a; http_addr = b; database_url = c } ≡ cfg = cc in
      subst (IsConfiguredCentral path) same (record {
        grpc_addr =
            subst (λ o. IsRead api law api.as_text o a) (at (codes "grpc_addr"))
              (required_eq api law api.as_text _ _ a read_a);
        http_addr =
            subst (λ o. IsRead api law api.as_text o b) (at (codes "http_addr"))
              (required_eq api law api.as_text _ _ b read_b);
        database_url =
            subst (λ o. IsRead api law api.as_text o c) (at (codes "database_url"))
              (required_eq api law api.as_text _ _ c read_c);
      })

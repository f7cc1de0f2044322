-- ===== src/Startup/Layers/QueryLayers.antt =====
-- What elan-query is configured with.
use elan.Common.{◌≡◌, refl, Option, Text, codes, ok, >>=-eq-ok, subst}
use elan.Startup.Layers.{
  ConfigApi, layered, required, optional, QueryConfig, query_defaults, query_of, load_query,
}
use elan.Startup.Layers.Precedence.{
  IsLayered, effective, IsRead, IsReadOption, layered_at, required_eq, optional_eq,
}

module _ {B : Type 0} (api : ConfigApi B) (law : IsLayered api) where
  pub record IsConfigured (path : Option Text) (cfg : QueryConfig) : Type 0 where
    pub http_addr :
        IsRead api law api.as_text
          (effective api law query_defaults (codes "ELAN_QUERY") path (codes "http_addr"))
          cfg.http_addr
    pub central_endpoint :
        IsRead api law api.as_text
          (effective api law query_defaults (codes "ELAN_QUERY") path (codes "central_endpoint"))
          cfg.central_endpoint
    pub kafka_brokers :
        IsReadOption api law
          (effective api law query_defaults (codes "ELAN_QUERY") path (codes "kafka_brokers"))
          cfg.kafka_brokers
    pub instance_name :
        IsRead api law api.as_text
          (effective api law query_defaults (codes "ELAN_QUERY") path (codes "instance_name"))
          cfg.instance_name
    pub iam_refresh_secs :
        IsRead api law api.as_u64
          (effective api law query_defaults (codes "ELAN_QUERY") path (codes "iam_refresh_secs"))
          cfg.iam_refresh_secs

  -- A configuration that elan-query loads has each setting from the environment, and else from the
  -- file, if one is named and has it, and else the default, if the crate layers its sources.
  pub load_query-IsConfigured :
      (path : Option Text) (cfg : QueryConfig)
      → load_query api path ≡ ok cfg
      → IsConfigured path cfg
  unfolding load_query query_of
  load_query-IsConfigured path cfg e =
      let (settings, built, e0) =
        >>=-eq-ok (layered api query_defaults (codes "ELAN_QUERY") path) _ e in
      let at = λ (k : Text).
        layered_at api law query_defaults (codes "ELAN_QUERY") path settings k
          (refl, (refl, (refl, (refl, tt)))) built in
      let (a, read_a, e1) =
        >>=-eq-ok (required api.as_text (codes "http_addr") (settings (codes "http_addr"))) _ e0 in
      let (b, read_b, e2) =
        >>=-eq-ok
          (required api.as_text (codes "central_endpoint") (settings (codes "central_endpoint"))) _
          e1 in
      let (c, read_c, e3) =
        >>=-eq-ok (optional api.as_text (settings (codes "kafka_brokers"))) _ e2 in
      let (d, read_d, e4) =
        >>=-eq-ok (required api.as_text (codes "instance_name") (settings (codes "instance_name")))
          _ e3 in
      let (n, read_n, e5) =
        >>=-eq-ok
          (required api.as_u64 (codes "iam_refresh_secs") (settings (codes "iam_refresh_secs"))) _
          e4 in
      let same : record {
        http_addr = a;
        central_endpoint = b;
        kafka_brokers = c;
        instance_name = d;
        iam_refresh_secs = n;
      }
          ≡ cfg =
        cc in
      subst (IsConfigured path) same (record {
        http_addr =
            subst (λ o. IsRead api law api.as_text o a) (at (codes "http_addr"))
              (required_eq api law api.as_text _ _ a read_a);
        central_endpoint =
            subst (λ o. IsRead api law api.as_text o b) (at (codes "central_endpoint"))
              (required_eq api law api.as_text _ _ b read_b);
        kafka_brokers =
            subst (λ o. IsReadOption api law o c) (at (codes "kafka_brokers"))
              (optional_eq api law _ c read_c);
        instance_name =
            subst (λ o. IsRead api law api.as_text o d) (at (codes "instance_name"))
              (required_eq api law api.as_text _ _ d read_d);
        iam_refresh_secs =
            subst (λ o. IsRead api law api.as_u64 o n) (at (codes "iam_refresh_secs"))
              (required_eq api law api.as_u64 _ _ n read_n);
      })

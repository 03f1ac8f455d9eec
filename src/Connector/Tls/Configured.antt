-- ===== src/Connector/Tls/Configured.antt =====
-- What a TLS configuration of connector/redis/tls.go has of its settings.
use ops_mcp.Connector.Tls.{
  TlsConfig, Crypto, root_cas, key_pair, redis_tls_on, build_redis_tls_config,
}
use ops_mcp.Connector.Tls.Material.{IsAuthority, root_cas-IsAuthority, IsPair, key_pair-IsPair}
use ops_mcp.Model.Redis.{RedisTls, redis_has_ca}
use mathlib.Core.Path.{subst}
use ops_mcp.Config.Named.{not_empty_iff}
use ops_mcp.Prelude.{
  ◌≢◌, [], is_empty_iff, ◌≡◌, refl, sym, ◌∙◌, inl, inr, true, false, not, ◌||◌, none, some,
  Bool-cases, nat_eq, Str, str_eq, is_empty, ok, ok_injective, >>=-eq-ok,
}

module _ (crypto : Crypto) where
  disabled_tls :
      (server : Str) (cfg : RedisTls)
      → cfg.enabled ≡ false
      → build_redis_tls_config crypto server cfg ≡ ok none
  unfolding build_redis_tls_config
  disabled_tls server cfg h = rw (h) refl

  enabled_tls :
      (server : Str) (cfg : RedisTls)
      → cfg.enabled ≡ true
      → build_redis_tls_config crypto server cfg ≡ redis_tls_on crypto server cfg
  unfolding build_redis_tls_config
  enabled_tls server cfg h = rw (h) refl

  pub record Keeps (server : Str) (cfg : RedisTls) (t : TlsConfig) : Type 0 where
    pub insecure : t.insecure_skip_verify ≡ cfg.insecure_skip_verify
    pub default_name : cfg.server_name ≡ [] → t.server_name ≡ server
    pub own_name : cfg.server_name ≢ [] → t.server_name ≡ cfg.server_name
    pub authority : IsAuthority crypto cfg.ca cfg.ca_file t.root_cas
    pub pair :
        IsPair crypto cfg.cert cfg.cert_file cfg.private_key cfg.private_key_file t.certificate

  some_same {ℓ} : {A : Type ℓ} {a b : A} → some a ≡ some b → a ≡ b
  some_same h = cc

  some-none {ℓ} : {A : Type ℓ} {a : A} → none ≡ some a → ⊥
  some-none h = cc h

  -- The TLS settings of a Redis connection that are returned keep the configuration: certificates
  -- are checked unless it says otherwise, against its server name or else the host; the trusted CA
  -- is the configured one, and the system's where none is; and the client certificate and its key
  -- are the configured ones, checked against each other, and none where none is configured.
  pub build_redis_tls_config_lem :
      (server : Str) (cfg : RedisTls) (t : TlsConfig)
      → build_redis_tls_config crypto server cfg ≡ ok (some t)
      → (cfg.enabled ≡ true) × Keeps server cfg t
  unfolding redis_tls_on redis_has_ca
  build_redis_tls_config_lem server cfg t h = elim (Bool-cases cfg.enabled) [
    | inl e ↦
        let (roots, got_roots, h0) =
          >>=-eq-ok (root_cas crypto "redis" (redis_has_ca cfg) cfg.ca cfg.ca_file) _
            (sym (enabled_tls server cfg e) ∙ h) in
        let (pair, got_pair, h1) =
          >>=-eq-ok
            (key_pair crypto "redis" (not (is_empty cfg.cert_file) || not (is_empty cfg.cert))
              (not (is_empty cfg.private_key_file) || not (is_empty cfg.private_key)) cfg.cert
              cfg.cert_file cfg.private_key cfg.private_key_file)
            _ h0 in
        (
          e,
          subst (Keeps server cfg) (some_same (ok_injective h1)) (record {
            insecure = refl;
            default_name = λ n. rw ((is_empty_iff cfg.server_name).1 n) refl;
            own_name = λ n. rw ((not_empty_iff cfg.server_name).1 n) refl;
            authority = root_cas-IsAuthority crypto "redis" cfg.ca cfg.ca_file roots got_roots;
            pair =
                key_pair-IsPair crypto "redis" cfg.cert cfg.cert_file cfg.private_key
                  cfg.private_key_file pair got_pair;
          }),
        )
    | inr e ↦ absurd ((some-none (ok_injective (sym (disabled_tls server cfg e) ∙ h))))
  ]

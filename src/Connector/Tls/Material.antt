-- ===== src/Connector/Tls/Material.antt =====
-- What the settings of a CA, a client certificate and its key stand for.
use Prim.Native.String.{String}
use ops_mcp.Connector.Tls.{Crypto, decode_content, resolve_material, root_cas, key_pair}
use mathlib.Core.Path.{subst}
use ops_mcp.Config.Named.{not_empty_iff}
use ops_mcp.Prelude.{
  ◌≢◌, ◌⊎◌, [], Result-cases, contains, trim_space, is_empty_iff, ◌≡◌, sym, inl, inr, true, false,
  not, ◌||◌, Option, none, some, ◌++◌, Bool-cases, nat_eq, Str, str, str_eq, is_empty, ok,
  ok_injective, >>=-eq-ok, arith,
}

module _ (crypto : Crypto) where
  -- What the content and the file of a setting stand for: nothing where both are blank, else the
  -- file's bytes, or the content where it is PEM, or what its base64 decodes to.
  pub data IsMaterial (content file : Str) : Str → Type 0 where
    blank : trim_space content ≡ [] → trim_space file ≡ [] → IsMaterial content file []
    from_file :
        (pem : Str)
        → trim_space content ≡ []
        → trim_space file ≢ []
        → crypto.read_file (trim_space file) ≡ ok pem
        → IsMaterial content file pem
    as_text :
        trim_space content ≢ []
        → trim_space file ≡ []
        → contains (trim_space content) (str "-----BEGIN") ≡ true
        → IsMaterial content file (trim_space content)
    from_base64 :
        (pem : Str)
        → trim_space content ≢ []
        → trim_space file ≡ []
        → contains (trim_space content) (str "-----BEGIN") ≡ false
        → crypto.base64 (trim_space content) ≡ ok pem
        → pem ≢ []
        → IsMaterial content file pem

  decode_content-IsMaterial :
      (content file label pem : Str)
      → trim_space content ≢ []
      → trim_space file ≡ []
      → decode_content crypto (trim_space content) label ≡ ok pem
      → IsMaterial content file pem
  unfolding decode_content
  decode_content-IsMaterial content file label pem given none_left h =
      let c = trim_space content in
      elim (Bool-cases (contains c (str "-----BEGIN"))) [
        | inl e ↦
            subst (IsMaterial content file) (ok_injective (rw e at h)) (as_text given none_left e)
        | inr e ↦ elim (Result-cases (crypto.base64 c)) [
          | inl (x, d) ↦ absurd (cc (rw d at (rw e at h)))
          | inr (b, d) ↦ elim (Bool-cases (is_empty b)) [
            | inl z ↦ absurd (cc (rw z at (rw d at (rw e at h))))
            | inr z ↦
                subst (IsMaterial content file) (ok_injective (rw z at (rw d at (rw e at h))))
                  (from_base64 b given none_left e d ((not_empty_iff b).0 z))
          ]
        ]
      ]

  resolve_material-IsMaterial :
      (content file label pem : Str)
      → resolve_material crypto content file label ≡ ok pem
      → IsMaterial content file pem
  unfolding resolve_material
  resolve_material-IsMaterial content file label pem h =
      let c = trim_space content in
      let f = trim_space file in
      elim (Bool-cases (is_empty c)) [
        | inl a ↦ elim (Bool-cases (is_empty f)) [
          | inl b ↦
              subst (IsMaterial content file) (ok_injective (rw b at (rw a at h)))
                (blank ((is_empty_iff c).0 a) ((is_empty_iff f).0 b))
          | inr b ↦ elim (Result-cases (crypto.read_file f)) [
            | inl (x, d) ↦ absurd (cc (rw d at (rw b at (rw a at h))))
            | inr (bytes, d) ↦
                subst (IsMaterial content file) (ok_injective (rw d at (rw b at (rw a at h))))
                  (from_file bytes ((is_empty_iff c).0 a) ((not_empty_iff f).0 b) d)
          ]
        ]
        | inr a ↦ elim (Bool-cases (is_empty f)) [
          | inl b ↦
              decode_content-IsMaterial content file label pem ((not_empty_iff c).0 a)
                ((is_empty_iff f).0 b) (rw b at (rw a at h))
          | inr b ↦ absurd (cc (rw b at (rw a at h)))
        ]
      ]

  -- The authority that a connection trusts, by a content and a file: none where neither is set, else
  -- the PEM text that they stand for, which the TLS library parses.
  abbrev pub IsAuthority : Str → Str → Option Str → Type 0
  IsAuthority ca ca_file roots =
      ((ca ≡ []) × (ca_file ≡ []) × (roots ≡ none))
      ⊎ (((ca ≢ []) ⊎ (ca_file ≢ []))
          × ((pem : Str) × (roots ≡ some pem)
              × IsMaterial ca ca_file pem
              × (crypto.parses_ca pem ≡ true)))

  -- The client certificate and its key: none where none of their settings is set, else what those
  -- stand for, neither of them empty, which the TLS library checked against each other.
  abbrev pub IsPair : Str → Str → Str → Str → Option (Str × Str) → Type 0
  IsPair cert cert_file key key_file pair =
      ((cert ≡ []) × (cert_file ≡ []) × (key ≡ []) × (key_file ≡ []) × (pair ≡ none))
      ⊎ ((c : Str) × (k : Str) × (pair ≡ some (c, k))
          × (c ≢ [])
          × (k ≢ [])
          × IsMaterial cert cert_file c
          × IsMaterial key key_file k
          × (crypto.check_pair c k ≡ ok tt))

  pub root_cas-IsAuthority :
      (kind : String) (ca ca_file : Str) (roots : Option Str)
      → root_cas crypto kind (not (is_empty ca_file) || not (is_empty ca)) ca ca_file ≡ ok roots
      → IsAuthority ca ca_file roots
  unfolding root_cas
  root_cas-IsAuthority kind ca ca_file roots h =
      elim (Bool-cases (not (is_empty ca_file) || not (is_empty ca))) [
        | inr e ↦ inl (
          (is_empty_iff ca).0 (ground arith),
          (is_empty_iff ca_file).0 (ground arith),
          sym (ok_injective (rw e at h)),
        )
        | inl e ↦
            let (pem, read, rest) =
              >>=-eq-ok (resolve_material crypto ca ca_file (str kind ++ str " tls ca")) _
                (rw e at h) in
            elim (Bool-cases (crypto.parses_ca pem)) [
              | inr p ↦ absurd (cc (rw p at rest))
              | inl p ↦ inr (
                elim (Bool-cases (is_empty ca)) [
                  | inl z ↦ inr ((not_empty_iff ca_file).0 (ground arith))
                  | inr z ↦ inl ((not_empty_iff ca).0 z)
                ],
                (
                  pem,
                  sym (ok_injective (rw p at rest)),
                  resolve_material-IsMaterial ca ca_file _ pem read,
                  p,
                ),
              )
            ]
      ]

  pub key_pair-IsPair :
      (kind : String) (cert cert_file key key_file : Str) (pair : Option (Str × Str))
      → key_pair crypto kind
          (not (is_empty cert_file) || not (is_empty cert))
          (not (is_empty key_file) || not (is_empty key))
          cert
          cert_file
          key
          key_file
        ≡ ok pair
      → IsPair cert cert_file key key_file pair
  unfolding key_pair
  key_pair-IsPair kind cert cert_file key key_file pair h =
      elim (Bool-cases (
        (not (is_empty cert_file) || not (is_empty cert))
        || (not (is_empty key_file) || not (is_empty key)))) [
          | inr e ↦ inl (
            (is_empty_iff cert).0 (ground arith),
            (is_empty_iff cert_file).0 (ground arith),
            (is_empty_iff key).0 (ground arith),
            (is_empty_iff key_file).0 (ground arith),
            sym (ok_injective (rw e at h)),
          )
          | inl e ↦
              let (c, read_cert, h0) =
                >>=-eq-ok
                  (resolve_material crypto cert cert_file (str kind ++ str " tls client cert")) _
                  (rw e at h) in
              let (k, read_key, h1) =
                >>=-eq-ok
                  (resolve_material crypto key key_file (str kind ++ str " tls private_key")) _
                  h0 in
              elim (Bool-cases (is_empty c || is_empty k)) [
                | inl z ↦ absurd (cc (rw z at h1))
                | inr z ↦ elim (Result-cases (crypto.check_pair c k)) [
                  | inl (x, p) ↦ absurd (cc (rw p at (rw z at h1)))
                  | inr (tt, p) ↦ inr (
                    c,
                    k,
                    sym (ok_injective (rw p at (rw z at h1))),
                    (not_empty_iff c).0 (ground arith),
                    (not_empty_iff k).0 (ground arith),
                    resolve_material-IsMaterial cert cert_file _ c read_cert,
                    resolve_material-IsMaterial key key_file _ k read_key,
                    p,
                  )
                ]
              ]
        ]

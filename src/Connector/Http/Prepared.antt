-- ===== src/Connector/Http/Prepared.antt =====
-- What Do sends.
use ops_mcp.Config.Lookup.{LookupError, get_api}
use ops_mcp.Config.Manager.{Manager}
use ops_mcp.Connector.Http.{
  at_api, HttpRequest, Url, Sent, Library, Target, or_verify, rooted, is_http, api_target,
  url_target, target, timeout_of, set_query, set_headers, content_type, body_of, unless_refused,
  prepare,
}
use ops_mcp.Model.Api.{ApiService, verify_tls_enabled}
use ops_mcp.Model.Errors.{refuse_invalid}
use ops_mcp.Prelude.{
  ◌≡◌, refl, sym, ap, ◌∙◌, ◌⊎◌, inl, inr, Bool, true, false, not, ◌&&◌, ◌||◌, Option, none, some,
  [], ◌∷◌, ◌++◌, arith, if◌then◌else◌, Bool-cases, Option-cases, ◌==◌, ℤ, pos, ◌<ℤ◌, Str, str,
  str_eq, is_empty, trim_space, trim_right_byte, Dict, lookup, insert, lookup-insert, ok, err,
  >>=-eq-ok, ok_injective, Result, to_upper,
}
use mathlib.Core.Path.{subst}

module _ (lib : Library) (cfg : Manager) where
  timeout_of-pos : (t : ℤ) → pos 0 <ℤ timeout_of lib cfg t
  unfolding timeout_of
  timeout_of-pos t = ground arith

  -- The last of the headers that have a name.
  abbrev pub or_else : Option Str → Option Str → Option Str
  or_else none o = o
  or_else (some v) o = some v

  pub last_value : Str → Dict Str → Option Str
  last_value n [] = none
  last_value n (b ∷ bs) =
      or_else (last_value n bs) (if lib.canonical b.0 == n then some b.1 else none)

  or_else-or_else :
      (a : Option Str) (b : Bool) (v : Str) (o : Option Str)
      → or_else a (if b then some v else o) ≡ or_else (or_else a (if b then some v else none)) o
  or_else-or_else none true v o = refl
  or_else-or_else none false v o = refl
  or_else-or_else (some x) b v o = refl

  lookup-set_headers :
      (n : Str) (hs h : Dict Str)
      → lookup n (set_headers lib cfg hs h) ≡ or_else (last_value n hs) (lookup n h)
  unfolding set_headers last_value
  lookup-set_headers n [] h = refl
  lookup-set_headers n (b ∷ bs) h =
      lookup-set_headers n bs (insert (lib.canonical b.0) b.1 h)
      ∙ ap (or_else (last_value n bs)) (lookup-insert (lib.canonical b.0) n b.1 h)
      ∙ or_else-or_else (last_value n bs) (lib.canonical b.0 == n) b.1 (lookup n h)

  -- Where a request goes: to the configured API, at its base and the path of the request, with the
  -- TLS check of its configuration; or to an absolute HTTP URL, with TLS checked. The request may
  -- say otherwise for TLS.
  abbrev pub GoesTo : HttpRequest → Url → Dict Str → Bool → Type 0
  GoesTo req u base verify =
      ((svc : ApiService) × (get_api cfg req.api ≡ ok svc)
        × (is_empty (trim_space req.path) ≡ false)
        × (lib.parse_url (trim_right_byte b'/' svc.endpoint.base_url ++ rooted req.path) ≡ some u)
        × (base ≡ svc.headers)
        × (verify ≡ or_verify (verify_tls_enabled svc.endpoint) req.verify_tls))
      ⊎ ((lib.parse_url req.url ≡ some u)
          × (is_empty (trim_space req.api) ≡ true)
          × (is_http u.scheme ≡ true)
          × (is_empty u.host ≡ false)
          × (base ≡ [])
          × (verify ≡ or_verify true req.verify_tls))

  api_target-GoesTo :
      (req : HttpRequest) (t : Target)
      → api_target lib cfg req ≡ ok t
      → GoesTo req t.url t.base_headers t.verify_tls
  unfolding api_target
  api_target-GoesTo req t h = by_service (get_api cfg req.api) refl h
    where
      by_service :
          (r : Result LookupError ApiService)
          → get_api cfg req.api ≡ r
          → at_api lib cfg req r ≡ ok t
          → GoesTo req t.url t.base_headers t.verify_tls
      by_service (err e) f g = absurd (cc g)
      by_service (ok svc) f g = elim (Bool-cases (is_empty (trim_space req.path))) [
        | inl b ↦ absurd (cc (rw b at g))
        | inr b ↦
            let at = trim_right_byte b'/' svc.endpoint.base_url ++ rooted req.path in
            elim (Option-cases (lib.parse_url at)) [
              | inl p ↦ absurd (cc (rw p at (rw b at g)))
              | inr (u, p) ↦
                  let made = ok_injective (rw p at (rw b at g)) in
                  inl (
                    svc,
                    f,
                    b,
                    p ∙ ap (λ (x : Target). some x.url) made,
                    ap (λ (x : Target). x.base_headers) (sym made),
                    ap (λ (x : Target). x.verify_tls) (sym made),
                  )
            ]
      ]

  url_target-GoesTo :
      (req : HttpRequest) (t : Target)
      → is_empty (trim_space req.api) ≡ true
      → url_target lib cfg req ≡ ok t
      → GoesTo req t.url t.base_headers t.verify_tls
  unfolding url_target
  url_target-GoesTo req t a h = elim (Option-cases (lib.parse_url req.url)) [
    | inl g ↦ absurd (cc (rw g at h))
    | inr (u, g) ↦ elim (Bool-cases (is_empty u.scheme || is_empty u.host)) [
      | inl b ↦ absurd (cc (rw b at (rw g at h)))
      | inr b ↦ elim (Bool-cases (is_http u.scheme)) [
        | inr c ↦ absurd (cc (rw c at (rw b at (rw g at h))))
        | inl c ↦
            let made = ok_injective (rw c at (rw b at (rw g at h))) in
            let same = ap (λ (x : Target). x.url) made in
            inr (
              g ∙ ap (λ x. some x) same,
              a,
              subst (λ (x : Url). is_http x.scheme ≡ true) same c,
              subst (λ (x : Url). is_empty x.host ≡ false) same (ground arith),
              ap (λ (x : Target). x.base_headers) (sym made),
              ap (λ (x : Target). x.verify_tls) (sym made),
            )
      ]
    ]
  ]

  -- A header is that of the request, or else that of the API, or else the type of the body.
  abbrev pub HeadersOf : HttpRequest → Dict Str → Dict Str → Type 0
  HeadersOf req base sent =
      (n : Str)
      → lookup n sent
        ≡ or_else (last_value n req.headers)
            (or_else (last_value n base) (lookup n (content_type lib cfg req.body)))

  target-GoesTo :
      (req : HttpRequest) (t : Target)
      → target lib cfg req ≡ ok t
      → GoesTo req t.url t.base_headers t.verify_tls
  unfolding target
  target-GoesTo req t h =
      let no_api = is_empty (trim_space req.api) in
      let no_url = is_empty (trim_space req.url) in
      let (_, _, h1) =
        >>=-eq-ok
          (refuse_invalid (not no_api && not no_url) (str "api and url are mutually exclusive")) _
          h in
      let (_, _, h2) =
        >>=-eq-ok (refuse_invalid (no_api && no_url) (str "either api or url is required")) _ h1 in
      elim (Bool-cases (is_empty (trim_space req.api))) [
        | inl a ↦ url_target-GoesTo req t a (rw a at h2)
        | inr a ↦ api_target-GoesTo req t (rw a at h2)
      ]

  -- What is sent for a request that is not refused: it goes to the configured API, at its base and
  -- the path of the request, with the TLS check of its configuration, or to an absolute HTTP URL
  -- with TLS checked, unless the request says otherwise for TLS; the query of the request is set in
  -- the URL; a header is that of the request, or else of the API, or else the type of the body; and
  -- there is always a time limit.
  pub prepare_lem :
      (req : HttpRequest) (s : Sent)
      → prepare lib cfg req ≡ ok s
      → (u : Url) × (base : Dict Str) × (verify : Bool) × GoesTo req u base verify
        × (s.url ≡ record u { query = set_query lib cfg req.query u.query })
        × (s.insecure_skip_verify ≡ not verify)
        × HeadersOf req base s.headers
        × (pos 0 <ℤ s.timeout)
  unfolding prepare
  prepare_lem req s h =
      let method = to_upper lib.unicode_upper (trim_space req.method) in
      let (_, _, h1) =
        >>=-eq-ok (refuse_invalid (is_empty method) (str "method is required")) _ h in
      let (t, e, h2) = >>=-eq-ok (target lib cfg req) _ h1 in
      let (body, _, h3) = >>=-eq-ok (body_of lib cfg req.body) _ h2 in
      let url = record t.url { query = set_query lib cfg req.query t.url.query } in
      let (_, _, h4) = >>=-eq-ok (unless_refused lib cfg (lib.new_request method url)) _ h3 in
      let made = ok_injective h4 in
      (
        t.url,
        t.base_headers,
        t.verify_tls,
        target-GoesTo req t e,
        ap (λ (x : Sent). x.url) (sym made),
        ap (λ (x : Sent). x.insecure_skip_verify) (sym made),
        subst (λ (x : Sent). HeadersOf req t.base_headers x.headers) made
            λ n.
              lookup-set_headers n req.headers _
              ∙ ap (or_else (last_value n req.headers)) (lookup-set_headers n t.base_headers _),
        subst (λ (x : Sent). pos 0 <ℤ x.timeout) made (timeout_of-pos t.timeout),
      )

-- ===== src/Guard/Auth/Access.antt =====
-- Who passes requireAuth.
use ops_mcp.Guard.Auth.{Request, next, unauthorized, is_public_path, extract_token, require_auth}
use ops_mcp.Config.Named.{not_empty_iff}
use ops_mcp.Prelude.Affix.{has_prefix_iff}
use mathlib.Core.Path.{subst}
use ops_mcp.Prelude.{
  ℕ, ◌≡◌, refl, ◌↔◌, ◌⊎◌, inl, inr, true, not, ◌||◌, [], ◌∷◌, if◌then◌else◌, Bool-cases, nat_eq,
  ◌==◌, Str, str_beq, str_beq_iff, str_eq, is_empty, str, arith, has_prefix, is_empty_iff, ◌++◌,
  sym, trim_space, ◌≢◌,
}

-- A token passes exactly when it is the configured one, which is not empty.
token_iff :
    (got : Str) (c : ℕ) (s : Str)
    → ((if is_empty got || not (got == (c ∷ s)) then unauthorized else next) ≡ next) ↔ (got ≡ c ∷ s)
token_iff [] c s = (λ h. absurd (cc h), λ h. absurd (cc h))
token_iff (d ∷ t) c s = elim (Bool-cases (str_beq (d ∷ t) (c ∷ s))) [
  | inl e ↦ rw e (λ _. (str_beq_iff (d ∷ t) (c ∷ s)).0 e, λ _. refl)
  | inr e ↦ rw e (λ h. absurd (cc h), λ h. absurd (cc (e, (str_beq_iff (d ∷ t) (c ∷ s)).1 h)))
]

-- The paths that are read without a token.
pub record IsPublic (r : Request) : Type 0 where
  pub reads : (r.method ≡ str "GET") ⊎ (r.method ≡ str "HEAD")
  pub open_path : (r.path ≡ str "/health") ⊎ ((r.path ≡ str "/") ⊎ (r.path ≡ str "/index.html"))

one_of_two : (s a b : Str) → (((s == a) || (s == b)) ≡ true) ↔ ((s ≡ a) ⊎ (s ≡ b))
one_of_two s a b = (
  (λ h. elim (Bool-cases (s == a)) [
    | inl e ↦ inl ((str_beq_iff s a).0 e)
    | inr e ↦ inr ((str_beq_iff s b).0 (ground arith))
  ]),
  elim [
    | inl e ↦ let x = (str_beq_iff s a).1 e in ground arith
    | inr e ↦ let x = (str_beq_iff s b).1 e in ground arith
  ],
)

IsPublic-iff : (r : Request) → (is_public_path r.method r.path ≡ true) ↔ IsPublic r
unfolding is_public_path
IsPublic-iff r =
    let m = one_of_two r.method (str "GET") (str "HEAD") in
    let first = str_beq_iff r.path (str "/health") in
    let rest = one_of_two r.path (str "/") (str "/index.html") in
    (
      (λ h. record {
        reads = m.0 (ground arith);
        open_path = elim (Bool-cases (r.path == str "/health")) [
          | inl e ↦ inl (first.0 e)
          | inr e ↦ inr (rest.0 (ground arith))
        ];
      }),
      (λ p.
          let reads = m.1 p.reads in
          elim p.open_path [
            | inl e ↦ let x = first.1 e in ground arith
            | inr e ↦ let x = rest.1 e in ground arith
          ]),
    )

-- Where the token of a request is: after `Bearer ` in Authorization, or all of Authorization; or,
-- where there is none, in X-API-Key; or, where there is neither, in the query.
pub data Carries (r : Request) : Str → Type 0 where
  by_bearer : (rest : Str) → r.authorization ≡ str "Bearer " ++ rest → Carries r (trim_space rest)
  by_authorization :
      r.authorization ≢ []
      → ((rest : Str) → r.authorization ≢ str "Bearer " ++ rest)
      → Carries r (trim_space r.authorization)
  by_key : r.authorization ≡ [] → r.api_key ≢ [] → Carries r (trim_space r.api_key)
  by_query : r.authorization ≡ [] → r.api_key ≡ [] → r.token ≢ [] → Carries r (trim_space r.token)

extract_token-by_bearer :
    (r : Request) (rest : Str)
    → r.authorization ≡ str "Bearer " ++ rest
    → extract_token r ≡ trim_space rest
unfolding extract_token has_prefix
extract_token-by_bearer r rest e = rw e refl

extract_token-Carries : (r : Request) → Carries r (extract_token r) ⊎ (extract_token r ≡ [])
unfolding extract_token
extract_token-Carries r = elim (Bool-cases (is_empty r.authorization)) [
  | inl a ↦ elim (Bool-cases (is_empty r.api_key)) [
    | inl k ↦ elim (Bool-cases (is_empty r.token)) [
      | inl t ↦ inr (rw a (rw k (rw t refl)))
      | inr t ↦ inl (
          rw a (
            rw k (
              rw t (
                by_query ((is_empty_iff r.authorization).0 a) ((is_empty_iff r.api_key).0 k)
                  ((not_empty_iff r.token).0 t)))))
    ]
    | inr k ↦
        inl (
          rw a (rw k (by_key ((is_empty_iff r.authorization).0 a) ((not_empty_iff r.api_key).0 k))))
  ]
  | inr a ↦ elim (Bool-cases (has_prefix r.authorization (str "Bearer "))) [
    | inl b ↦
        let (rest, e) = (has_prefix_iff r.authorization (str "Bearer ")).0 b in
        inl (subst (Carries r) (sym (extract_token-by_bearer r rest e)) (by_bearer rest e))
    | inr b ↦ inl (
        rw a (
          rw b (
            by_authorization ((not_empty_iff r.authorization).0 a) (λ rest e.
              absurd (cc (b, (has_prefix_iff r.authorization (str "Bearer ")).1 (rest, e)))))))
  ]
]

Carries-extract_token : (r : Request) {t : Str} → Carries r t → extract_token r ≡ t
unfolding extract_token
Carries-extract_token r (by_bearer rest e) = extract_token-by_bearer r rest e
Carries-extract_token r (by_authorization given other) =
    let a = (not_empty_iff r.authorization).1 given in
    elim (Bool-cases (has_prefix r.authorization (str "Bearer "))) [
      | inl b ↦
          let (rest, e) = (has_prefix_iff r.authorization (str "Bearer ")).0 b in
          absurd (other rest e)
      | inr b ↦ rw a (rw b refl)
    ]
Carries-extract_token r (by_key a k) =
    let given = (not_empty_iff r.api_key).1 k in rw a (rw given refl)
Carries-extract_token r (by_query a k t) =
    let given = (not_empty_iff r.token).1 t in rw a (rw k (rw given refl))

-- A request passes exactly when no token is configured, or it reads /health, / or /index.html, or
-- the token that it carries is the configured one; every other request is answered as unauthorized.
pub require_auth_iff :
    (expected : Str) (r : Request)
    → (require_auth expected r ≡ next) ↔ ((expected ≡ []) ⊎ (IsPublic r ⊎ Carries r expected))
unfolding require_auth
require_auth_iff [] r = (λ _. inl refl, λ _. refl)
require_auth_iff (c ∷ s) r = elim (Bool-cases (is_public_path r.method r.path)) [
  | inl open_path ↦ (λ _. inr (inl ((IsPublic-iff r).0 open_path)), λ _. rw open_path refl)
  | inr guarded ↦ rw guarded (
    λ h.
        let same = (token_iff (extract_token r) c s).0 h in
        inr (
          inr (elim (extract_token-Carries r) [
            | inl carried ↦ subst (Carries r) same carried
            | inr none ↦ absurd (cc (none, same))
          ])),
    elim [
      | inl e ↦ absurd (cc e)
      | inr (inl e) ↦ absurd (cc (guarded, (IsPublic-iff r).1 e))
      | inr (inr e) ↦ (token_iff (extract_token r) c s).1 (Carries-extract_token r e)
    ],
  )
]

-- ===== src/Guard/Sql/Bounded.antt =====
-- Which texts EnsureSelect lets through.
use ops_mcp.Guard.Sql.{
  Statement, select, set_operation, other_statement, sql_required, is_select, single_select,
  trimmed, limit_of, wrap, ensure_select,
}
use ops_mcp.Config.Named.{not_empty_iff, refuse_iff, then_iff}
use mathlib.Core.Path.{subst}
use mathlib.Core.List.{reverse, reverse-cons, reverse-append, reverse-reverse}
use ops_mcp.Prelude.{
  ◌∷◌, ◌≡◌, refl, sym, ap, ◌↔◌, true, Option, none, some, List, [], nat_eq, ℤ, Str, str_eq,
  is_empty, trim_space, ok, ok_injective, trim_left_byte, ℕ, trim_right_byte, pos, arith, ◌⊎◌, inl,
  ◌≢◌, ◌++◌, All, ◌<ℤ◌, inr, str, ◌∙◌, Bool-cases, All-append, ◌≤ℤ◌, nat_beq, nat_beq_iff,
}

single_select_iff :
    (stmts : Option (List Statement))
    → (single_select stmts ≡ ok tt)
      ↔ ((s : Statement) × (stmts ≡ some (s ∷ [])) × (is_select s ≡ true))
single_select_iff none = (λ h. absurd (cc h), λ h. absurd (cc h.1))
single_select_iff (some []) = (λ h. absurd (cc h), λ h. absurd (cc h.1))
single_select_iff (some (s ∷ t ∷ ts)) = (λ h. absurd (cc h), λ h. absurd (cc h.1))
single_select_iff (some (select ∷ [])) = (λ _. (select, refl, refl), λ _. refl)
single_select_iff (some (set_operation ∷ [])) = (λ _. (set_operation, refl, refl), λ _. refl)
single_select_iff (some (other_statement ∷ [])) = (λ h. absurd (cc h), λ h. absurd (cc (h.1, h.2)))

-- A text without the spaces around it, then the semicolons at its end, then the spaces again.
pub record IsCleaned (sql q : Str) : Type 0 where
  pub body : Str
  pub semicolons : Str
  pub cut : trim_space sql ≡ body ++ semicolons
  pub only : All (λ c. c ≡ b';') semicolons
  pub all_cut : (init : Str) → body ≢ init ++ b';' ∷ []
  pub clean : q ≡ trim_space body

trim_left_byte_lem :
    (b : ℕ) (s : Str)
    → (pre : Str) × (s ≡ pre ++ trim_left_byte b s)
      × All (λ c. c ≡ b) pre
      × ((t : Str) → trim_left_byte b s ≢ b ∷ t)
unfolding trim_left_byte
trim_left_byte_lem b [] = ([], refl, tt, λ t h. absurd (cc h))
trim_left_byte_lem b (c ∷ s) = elim (Bool-cases (nat_beq c b)) [
  | inl e ↦
      let (pre, cut, only, none_left) = trim_left_byte_lem b s in
      rw e (c ∷ pre, ap (λ t. c ∷ t) cut, ((nat_beq_iff c b).0 e, only), none_left)
  | inr e ↦ rw e ([], refl, tt, λ t h. ground (arith, h, e, nat_beq_iff c b))
]

All-reverse : (P : ℕ → Type 0) (s : Str) → All P s → All P (reverse s)
All-reverse P [] h = tt
All-reverse P (c ∷ s) h =
    subst (All P) (sym (reverse-cons c s))
      (All-append P (reverse s) (c ∷ []) (All-reverse P s h.1) (h.0, tt))

IsCleaned-trimmed : (sql : Str) → IsCleaned sql (trimmed sql)
unfolding trimmed trim_right_byte
IsCleaned-trimmed sql =
    let s = trim_space sql in
    let left = trim_left_byte b';' (reverse s) in
    let (pre, cut, only, none_left) = trim_left_byte_lem b';' (reverse s) in
    record {
      body = reverse left;
      semicolons = reverse pre;
      cut = sym (reverse-reverse s) ∙ ap reverse cut ∙ reverse-append pre left;
      only = All-reverse (λ c. c ≡ b';') pre only;
      all_cut = λ init h.
          none_left (reverse init)
            (sym (reverse-reverse left) ∙ ap reverse h ∙ reverse-append init (b';' ∷ []));
      clean = refl;
    }

-- The configured limit where it is positive, and 1000 otherwise.
pub record IsLimit (given limit : ℤ) : Type 0 where
  pub kept : pos 0 <ℤ given → limit ≡ given
  pub default : given ≤ℤ pos 0 → limit ≡ pos 1000

limit_of-IsLimit : (n : ℤ) → IsLimit n (limit_of n)
limit_of-IsLimit n = record { kept = λ h. ground arith; default = λ h. ground arith }

-- The statement is a SELECT or a set operation of SELECTs.
abbrev pub IsQuery : Statement → Type 0
IsQuery s = (s ≡ select) ⊎ (s ≡ set_operation)

is_select_iff : (s : Statement) → (is_select s ≡ true) ↔ IsQuery s
is_select_iff select = (λ h. inl refl, λ h. refl)
is_select_iff set_operation = (λ h. inr refl, λ h. refl)
is_select_iff other_statement =
    (λ h. absurd (cc h), elim [ inl e ↦ absurd (cc e) | inr e ↦ absurd (cc e) ])

-- A text is let through exactly when it is not blank and, without the spaces around it and the
-- semicolons at its end, is not empty and parses to one statement, a SELECT or a set operation; what
-- runs is that text inside a SELECT with the limit, 1000 where the given one is not positive.
pub ensure_select_iff :
    (parse : Str → Option (List Statement)) (decimal : ℤ → Str) (sql : Str) (max_limit : ℤ)
    (out : Str)
    → (q : Str) × (limit : ℤ) × IsCleaned sql q
      × IsLimit max_limit limit
      × ((ensure_select parse decimal sql max_limit ≡ ok out) ↔ (
          (trim_space sql ≢ [])
          × (q ≢ [])
          × ((s : Statement) × (parse q ≡ some (s ∷ [])) × IsQuery s)
          × (out ≡ str "SELECT * FROM (" ++ q ++ str ") AS _ops_mcp_q LIMIT " ++ decimal limit)))
unfolding ensure_select wrap
ensure_select_iff parse decimal sql max_limit out =
    let first = refuse_iff (is_empty (trim_space sql)) sql_required _ out in
    let second = refuse_iff (is_empty (trimmed sql)) sql_required _ out in
    let third = then_iff (single_select (parse (trimmed sql))) _ out in
    let one = single_select_iff (parse (trimmed sql)) in
    (
      trimmed sql,
      limit_of max_limit,
      IsCleaned-trimmed sql,
      limit_of-IsLimit max_limit,
      (
        (λ h.
            let (a, h1) = first.0 h in
            let (b, h2) = second.0 h1 in
            let (c, h3) = third.0 h2 in
            let (s, parsed, good) = one.0 c in
            (
              (not_empty_iff (trim_space sql)).0 a,
              (not_empty_iff (trimmed sql)).0 b,
              (s, parsed, (is_select_iff s).0 good),
              sym (ok_injective h3),
            )),
        (λ h.
            let (a, b, (s, parsed, good), e) = h in
            first.1 (
              (not_empty_iff (trim_space sql)).1 a,
              second.1 (
                (not_empty_iff (trimmed sql)).1 b,
                third.1 (one.1 (s, parsed, (is_select_iff s).1 good), ap (λ t. ok t) (sym e)),
              ),
            )),
      ),
    )

-- ===== src/Guard/Limits/Bounds.antt =====
-- ClampLimit and ResolveMaxResponseBytes, on numbers in and out of range.
use ops_mcp.Guard.Limits.{clamp_limit, resolve_max_response_bytes}
use ops_mcp.Prelude.{
  zero, suc, ◌≡◌, refl, sym, ap, ◌↔◌, ◌⊎◌, inl, inr, arith, leb, if◌then◌else◌, leb→le, Bool-cases,
  nat_eq, ℤ, pos, negsuc, ◌≤ℤ◌, ◌<ℤ◌, ltb_ℤ, is_nonpos, str_eq, ok, ok_injective,
}

abbrev pub top : ℤ → ℤ
top max_limit = if is_nonpos max_limit then pos 1000 else max_limit

-- A positive limit is accepted: the result is positive, at most what was asked for and at most the
-- maximum, where 1000 stands for a maximum that is not positive, and it is one of the two.
pub clamp_limit_lem :
    (requested max_limit : ℤ)
    → pos 0 <ℤ requested
    → (n : ℤ) × (clamp_limit requested max_limit ≡ ok n)
      × (pos 0 <ℤ n)
      × (n ≤ℤ requested)
      × (n ≤ℤ top max_limit)
      × ((n ≡ requested) ⊎ (n ≡ top max_limit))
unfolding clamp_limit
clamp_limit_lem requested max_limit h = elim (Bool-cases (ltb_ℤ (top max_limit) requested)) [
  | inl e ↦ (top max_limit, ground arith, ground arith, ground arith, ground arith, inr refl)
  | inr e ↦ (requested, ground arith, ground arith, ground arith, ground arith, inl refl)
]

-- A number of bytes from 0 to 1048576 is accepted: 0 stands for 65536, and any other is kept.
pub resolve_max_response_bytes_iff :
    (n m : ℤ)
    → (resolve_max_response_bytes n ≡ ok m)
      ↔ (((n ≡ pos 0) × (m ≡ pos 65536)) ⊎ ((pos 0 <ℤ n) × (n ≤ℤ pos 1048576) × (m ≡ n)))
unfolding resolve_max_response_bytes
resolve_max_response_bytes_iff (negsuc k) m = (
  λ h. absurd (ground (arith, h)),
  elim [ inl h ↦ absurd (cc h.0) | inr h ↦ absurd (omega (arith, h.0)) ],
)
resolve_max_response_bytes_iff (pos zero) m = (
  λ h. inl (refl, sym (ok_injective h)),
  elim [ inl h ↦ ap (λ b. ok b) (sym h.1) | inr h ↦ absurd (omega (arith, h.0)) ],
)
resolve_max_response_bytes_iff (pos (suc k)) m = elim (Bool-cases (leb (suc k) 1048576)) [
  | inl e ↦ (
    λ h. inr (omega arith, omega (arith, leb→le (suc k) 1048576 e), ground (arith, e, h)),
    λ h. ground (arith, e, h),
  )
  | inr e ↦ (λ h. ground (arith, e, h), λ h. ground (arith, e, h))
]

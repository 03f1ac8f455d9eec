-- ===== src/Connector/Redis/Ranges/Slices.antt =====
-- LRange of connector/redis/redis.go against the documented slices of LRANGE.
use ops_mcp.Connector.Redis.Client.{Client, value}
use ops_mcp.Connector.Redis.Keys.{cut}
use ops_mcp.Connector.Redis.Ranges.{lrange_result, lrange_open}
use ops_mcp.Connector.Redis.Types.{LrangeRequest}
use ops_mcp.Prelude.{
  ℕ, zero, suc, ◌+◌, ◌-◌, ◌^◌, ◌≤◌, ◌<◌, ◌≡◌, refl, ap, ◌∙◌, inl, inr, true, false, List, [], ◌∷◌,
  arith, ltb, ltb→lt, ltb_false→le, Bool-cases, nat_eq, length, take, drop, length-take,
  length-drop, ℤ, pos, negsuc, wrap64, add64, Str, str_eq, ok,
}

-- LRANGE of Redis: an index below 0 counts from the end, the stop is part of the slice, and
-- indices out of range are cut off.
abbrev pub start_index : ℕ → ℤ → ℕ
start_index len (pos i) = i
start_index len (negsuc k) = len - suc k

abbrev pub end_index : ℕ → ℤ → ℕ
end_index len (pos i) = suc i
end_index len (negsuc k) = len - k

module _ {ℓ} {A : Type ℓ} where
  abbrev pub slice : List A → ℤ → ℤ → List A
  slice xs start stop =
      take (end_index (length xs) stop - start_index (length xs) start)
        (drop (start_index (length xs) start) xs)

  take-take : (n : ℕ) (xs : List A) → take n (take (suc n) xs) ≡ take n xs
  take-take zero xs = refl
  take-take (suc n) [] = refl
  take-take (suc n) (x ∷ xs) = ap (λ t. x ∷ t) (take-take n xs)

  take_none : (n : ℕ) (xs : List A) → n ≡ 0 → take n xs ≡ []
  take_none n xs h = rw (h) refl

  take_short : (r : ℕ) (xs : List A) → length xs ≤ r → take r xs ≡ xs
  take_short zero [] h = refl
  take_short (suc r) [] h = refl
  take_short zero (x ∷ xs) h = absurd (omega (arith, h))
  take_short (suc r) (x ∷ xs) h = ap (λ t. x ∷ t) (take_short r xs (omega (arith, h)))

  cut_over : (n : ℕ) (xs : List A) → n < length xs → cut (pos n) xs ≡ (take n xs, true)
  unfolding cut
  cut_over n xs h = ground arith

  cut_under : (n : ℕ) (xs : List A) → length xs ≤ n → cut (pos n) xs ≡ (xs, false)
  unfolding cut
  cut_under n xs h = ground arith

  -- One element more than the limit tells whether there are more.
  cut-take : (n : ℕ) (xs : List A) → cut (pos n) (take (suc n) xs) ≡ (take n xs, ltb n (length xs))
  cut-take n xs = elim (Bool-cases (ltb n (length xs))) [
    | inl e ↦ rw (e) (
        cut_over n (take (suc n) xs) (omega (arith, ltb→lt n (length xs) e, length-take (suc n) xs))
        ∙ ap (λ t. (t, true)) (take-take n xs))
    | inr e ↦
        let short = ltb_false→le n (length xs) e in
        rw (e) (
          rw (take_short (suc n) xs (omega (arith, short)), take_short n xs short)
            (cut_under n xs short))
  ]

module _ (client : Client) (req : LrangeRequest) (xs : List Str) where
  -- What the server has under the key is a list, and it answers with its slices.
  abbrev pub Serves : Type 0
  Serves = (start stop : ℤ) → client.lrange req.key start stop ≡ value (slice xs start stop)

  lrange_at :
      (limit : ℤ)
      → Serves
      → lrange_open client req limit
        ≡ ok (lrange_result req (cut limit (slice xs req.start (add64 req.start limit))))
  unfolding lrange_open
  lrange_at limit serves = rw (serves req.start (add64 req.start limit)) refl

  add64_pos : (s n : ℕ) → s + n < 2 ^ 63 → add64 (pos s) (pos n) ≡ pos (s + n)
  unfolding add64 wrap64
  add64_pos s n h = ground arith

  add64_neg : (k n : ℕ) → k < n → n < 2 ^ 63 → add64 (negsuc k) (pos n) ≡ pos (n - suc k)
  unfolding add64 wrap64
  add64_neg k n h small = ground arith

  slice_pos : (s n : ℕ) → slice xs (pos s) (pos (s + n)) ≡ take (suc n) (drop s xs)
  slice_pos s n =
      let one : suc (s + n) - s ≡ suc n = omega arith in ap (λ t. take t (drop s xs)) one

  slice_neg : (k n : ℕ) → k < n → n < length xs → slice xs (negsuc k) (pos (n - suc k)) ≡ []
  slice_neg k n reach long =
      take_none (suc (n - suc k) - (length xs - suc k)) (drop (length xs - suc k) xs)
        (omega (arith, reach, long))

  -- From a start that is not negative, LRange returns the elements from there on up to the limit,
  -- and says whether the list has more, when start and limit add up to less than 2^63.
  pub lrange_open_lem :
      (s n : ℕ)
      → Serves
      → req.start ≡ pos s
      → s + n < 2 ^ 63
      → lrange_open client req (pos n)
        ≡ ok (lrange_result req (take n (drop s xs), ltb n (length xs - s)))
  lrange_open_lem s n serves h small =
      lrange_at (pos n) serves
      ∙ ap (λ t. ok (lrange_result req t))
          (rw (h, add64_pos s n small, slice_pos s n, cut-take n (drop s xs), length-drop s xs)
            refl)

  -- From a negative start in the list, LRange returns nothing and reports no truncation, when the
  -- limit reaches past the end of the list and the list is longer than the limit.
  pub lrange_open_negative :
      (k n : ℕ)
      → Serves
      → req.start ≡ negsuc k
      → k < n
      → n < length xs
      → n < 2 ^ 63
      → lrange_open client req (pos n) ≡ ok (lrange_result req ([], false))
  lrange_open_negative k n serves h reach long small =
      lrange_at (pos n) serves
      ∙ ap (λ t. ok (lrange_result req t))
          (rw (h, add64_neg k n reach small, slice_neg k n reach long)
            (cut_under n [] (omega arith)))

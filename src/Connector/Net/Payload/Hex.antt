-- ===== src/Connector/Net/Payload/Hex.antt =====
-- The bytes that BytesToHex and BytesToInts write are read back by DecodeData.
use ops_mcp.Connector.Net.Payload.{
  text, ints, decode_data, decode_text, hex_decode, hex_value, hex_digit, bytes_to_hex,
  bytes_to_ints, strip_separators, each_byte, byte_of, nonempty,
}
use ops_mcp.Prelude.{
  is_empty, Visible, trim_space-Visible, false, ℕ, ◌+◌, ◌*◌, ◌/◌, ◌%◌, ◌<◌, ◌≡◌, ◌≢◌, refl, ap,
  Option, some, List, [], ◌∷◌, arith, All, ℤ, Str, ok, remove_byte, trim_space, length, ◌≤◌, ◌⊎◌,
  ◌∙◌, inl, inr,
}

hex_value-hex_digit : (n : ℕ) → n < 16 → hex_value (hex_digit n) ≡ some n
unfolding hex_value hex_digit
hex_value-hex_digit n h = ground arith

hex_decode_pair :
    (c d high low : ℕ) (s : Str) (bs : List ℕ)
    → hex_value c ≡ some high
    → hex_value d ≡ some low
    → hex_decode s ≡ ok bs
    → hex_decode (c ∷ d ∷ s) ≡ ok ((high * 16 + low) ∷ bs)
unfolding hex_decode
hex_decode_pair c d high low s bs p q r = ground arith

hex_decode-bytes_to_hex :
    (bs : List ℕ) → All (λ b. b < 256) bs → hex_decode (bytes_to_hex bs) ≡ ok bs
unfolding hex_decode bytes_to_hex
hex_decode-bytes_to_hex [] h = refl
hex_decode-bytes_to_hex (b ∷ bs) (small, h) =
    hex_decode_pair (hex_digit (b / 16)) (hex_digit (b % 16)) (b / 16) (b % 16) (bytes_to_hex bs) bs
      (hex_value-hex_digit (b / 16) (omega arith)) (hex_value-hex_digit (b % 16) (omega arith))
      (hex_decode-bytes_to_hex bs h)
    ∙ ap (λ n. ok (n ∷ bs)) (omega arith)

-- A hexadecimal digit, in lower case.
abbrev IsHex : ℕ → Type 0
IsHex c = ((48 ≤ c) × (c ≤ 57)) ⊎ ((97 ≤ c) × (c ≤ 102))

hex_digit-IsHex : (n : ℕ) → n < 16 → IsHex (hex_digit n)
unfolding hex_digit
hex_digit-IsHex n h = ground arith

bytes_to_hex-IsHex : (bs : List ℕ) → All (λ b. b < 256) bs → All IsHex (bytes_to_hex bs)
unfolding bytes_to_hex
bytes_to_hex-IsHex [] h = tt
bytes_to_hex-IsHex (b ∷ bs) (small, h) = (
  hex_digit-IsHex (b / 16) (omega arith),
  (hex_digit-IsHex (b % 16) (omega arith), bytes_to_hex-IsHex bs h),
)

-- What is not a digit is not there to be removed.
remove_byte-IsHex :
    (sep : ℕ) (s : Str) → All IsHex s → (sep < 48) ⊎ (sep ≡ 58) → remove_byte sep s ≡ s
unfolding remove_byte
remove_byte-IsHex sep [] h out = refl
remove_byte-IsHex sep (c ∷ s) (d, h) out = ground (arith, remove_byte-IsHex sep s h out)

strip-IsHex : (s : Str) → All IsHex s → strip_separators s ≡ s
unfolding strip_separators
strip-IsHex s h =
    rw (remove_byte-IsHex b' ' s h (inl (omega arith)))
      (rw (remove_byte-IsHex b':' s h (inr refl)) (remove_byte-IsHex b'-' s h (inl (omega arith))))

All-impl {ℓ κ ι} :
    {A : Type ℓ} (P : A → Type κ) (Q : A → Type ι)
    → ((a : A) → P a → Q a)
    → (xs : List A) → All P xs
    → All Q xs
All-impl P Q f [] h = tt
All-impl P Q f (x ∷ xs) (p, h) = (f x p, All-impl P Q f xs h)

hex-Visible : (c : ℕ) → IsHex c → Visible c
hex-Visible c h = ground arith

even_hex : (bs : List ℕ) → length (bytes_to_hex bs) % 2 ≡ 0
unfolding bytes_to_hex
even_hex [] = refl
even_hex (b ∷ bs) = omega (arith, even_hex bs)

decode_clean :
    (v : Str) (bs : List ℕ)
    → is_empty v ≡ false
    → trim_space v ≡ v
    → strip_separators v ≡ v
    → length v % 2 ≡ 0
    → hex_decode v ≡ ok bs
    → decode_text v ≡ nonempty bs
unfolding decode_text
decode_clean v bs full trimmed stripped even decoded =
    rw (trimmed, decode_text) (rw stripped (rw decoded (ground arith)))

each_byte-bytes_to_ints :
    (i : ℕ) (bs : List ℕ) → All (λ b. b < 256) bs → each_byte byte_of i (bytes_to_ints bs) ≡ ok bs
unfolding each_byte byte_of bytes_to_ints
each_byte-bytes_to_ints i [] h = refl
each_byte-bytes_to_ints i (b ∷ bs) (small, h) = ground (arith, each_byte-bytes_to_ints (i + 1) bs h)

-- What a result gives of a response of at least one byte, as hexadecimal text or as numbers, is
-- decoded as data of a request to the same bytes.
pub decode_data-bytes_to_hex :
    (integral : ℕ → Option ℤ) (int64_of : Str → Option ℤ) (bs : List ℕ)
    → All (λ b. b < 256) bs
    → bs ≢ []
    → (decode_data integral int64_of (text (bytes_to_hex bs)) ≡ ok bs)
      × (decode_data integral int64_of (ints (bytes_to_ints bs)) ≡ ok bs)
unfolding decode_data bytes_to_hex
decode_data-bytes_to_hex integral int64_of [] h some_byte = absurd (some_byte refl)
decode_data-bytes_to_hex integral int64_of (b ∷ bs) h some_byte =
    let s = bytes_to_hex (b ∷ bs) in
    let digits = bytes_to_hex-IsHex (b ∷ bs) h in
    (
      decode_clean s (b ∷ bs) refl
          (trim_space-Visible s (All-impl IsHex Visible hex-Visible s digits))
          (strip-IsHex s digits) (even_hex (b ∷ bs)) (hex_decode-bytes_to_hex (b ∷ bs) h),
      rw (each_byte-bytes_to_ints 0 (b ∷ bs) h) refl,
    )

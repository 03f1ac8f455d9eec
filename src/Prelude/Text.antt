-- ===== src/Prelude/Text.antt =====
-- Go strings as byte sequences, with what the program uses of the `strings` package.
use Prim.Native.Nat.{ℕ, zero, suc, ◌+◌, ◌-◌, ◌≤◌, ◌<◌}
use Prim.Native.Char.{code}
use Prim.Native.String.{String}
use mathlib.Core.Path.{◌≡◌, ◌∙◌, refl, sym, ap, subst}
use mathlib.Core.Logic.{◌↔◌}
use mathlib.Core.Bool.{Bool, true, false, ◌&&◌, ◌||◌}
use mathlib.Core.List.{List, [], ◌∷◌, ◌++◌, map, reverse, reverse-cons, reverse-reverse}
use native.Mathlib.Omega.{arith}
use ops_mcp.Prelude.Tests.{ltb, leb, nat_beq, if◌then◌else◌, HasEq, nat_eq}
use ops_mcp.Prelude.Lists.{length, drop, any, all, All, All-append}

-- A string is its bytes; a literal of the source, all ASCII, is the list of its code points.
abbrev pub Str : Type 0
Str = List ℕ

abbrev pub str : String → Str
str String.[] = []
str (String.◌∷◌ c s) = code c ∷ str s

unfoldable pub str_beq : Str → Str → Bool
str_beq [] [] = true
str_beq [] (d ∷ t) = false
str_beq (c ∷ s) [] = false
str_beq (c ∷ s) (d ∷ t) = nat_beq c d && str_beq s t

pub str_beq_iff : (s t : Str) → (str_beq s t ≡ true) ↔ (s ≡ t)
unfolding str_beq
str_beq_iff [] [] = (λ _. refl, λ _. refl)
str_beq_iff [] (d ∷ t) = (λ h. cc, λ h. cc)
str_beq_iff (c ∷ s) [] = (λ h. cc, λ h. cc)
str_beq_iff (c ∷ s) (d ∷ t) = ground (arith, str_beq_iff s t)

pub str_beq_refl : (s : Str) → str_beq s s ≡ true
str_beq_refl s = (str_beq_iff s s).1 refl

instance abbrev pub str_eq : HasEq Str
str_eq = record { same = str_beq; same_iff = str_beq_iff }

-- s == ""
abbrev pub is_empty : Str → Bool
is_empty [] = true
is_empty (c ∷ s) = false

pub is_empty_iff : (s : Str) → (is_empty s ≡ true) ↔ (s ≡ [])
is_empty_iff [] = (λ _. refl, λ _. refl)
is_empty_iff (c ∷ s) = (λ h. absurd (cc h), λ h. absurd (cc h))

-- Byte-wise order, `<` on Go strings.
unfoldable pub str_lt : Str → Str → Bool
str_lt s [] = false
str_lt [] (d ∷ t) = true
str_lt (c ∷ s) (d ∷ t) = ltb c d || (nat_beq c d && str_lt s t)

pub str_lt_asym : (s t : Str) → str_lt s t ≡ true → str_lt t s ≡ false
unfolding str_lt
str_lt_asym s [] h = absurd (cc h)
str_lt_asym [] (d ∷ t) h = refl
str_lt_asym (c ∷ s) (d ∷ t) h = ground (arith, h, str_lt_asym s t)

-- strings.HasPrefix, strings.HasSuffix, strings.Contains, strings.ContainsAny.
unfoldable pub has_prefix : Str → Str → Bool
has_prefix s [] = true
has_prefix [] (d ∷ t) = false
has_prefix (c ∷ s) (d ∷ t) = nat_beq c d && has_prefix s t

unfoldable pub has_suffix : Str → Str → Bool
unfolding has_prefix
has_suffix s t = has_prefix (reverse s) (reverse t)

unfoldable pub contains : Str → Str → Bool
unfolding has_prefix
contains [] t = has_prefix [] t
contains (c ∷ s) t = has_prefix (c ∷ s) t || contains s t

unfoldable pub contains_any : Str → Str → Bool
contains_any s chars = any (λ c. any (λ d. nat_beq c d) chars) s

-- strings.TrimPrefix, strings.TrimSuffix.
unfoldable pub trim_prefix : Str → Str → Str
unfolding has_prefix
trim_prefix s t = if has_prefix s t then drop (length t) s else s

unfoldable pub trim_suffix : Str → Str → Str
unfolding has_suffix
trim_suffix s t = if has_suffix s t then reverse (drop (length t) (reverse s)) else s

-- strings.Trim and strings.TrimRight with a set of one ASCII byte.
unfoldable pub trim_left_byte : ℕ → Str → Str
trim_left_byte b [] = []
trim_left_byte b (c ∷ s) = if nat_beq c b then trim_left_byte b s else c ∷ s

unfoldable pub trim_right_byte : ℕ → Str → Str
unfolding trim_left_byte
trim_right_byte b s = reverse (trim_left_byte b (reverse s))

unfoldable pub trim_byte : ℕ → Str → Str
unfolding trim_right_byte
trim_byte b s = trim_right_byte b (trim_left_byte b s)

-- The UTF-8 encodings of the code points that unicode.IsSpace accepts.
abbrev pub spaces : List Str
spaces =
    (9 ∷ [])
    ∷ (10 ∷ [])
    ∷ (11 ∷ [])
    ∷ (12 ∷ [])
    ∷ (13 ∷ [])
    ∷ (32 ∷ [])
    ∷ (0xc2 ∷ 0x85 ∷ [])
    ∷ (0xc2 ∷ 0xa0 ∷ [])
    ∷ (0xe1 ∷ 0x9a ∷ 0x80 ∷ [])
    ∷ (0xe2 ∷ 0x80 ∷ 0x80 ∷ [])
    ∷ (0xe2 ∷ 0x80 ∷ 0x81 ∷ [])
    ∷ (0xe2 ∷ 0x80 ∷ 0x82 ∷ [])
    ∷ (0xe2 ∷ 0x80 ∷ 0x83 ∷ [])
    ∷ (0xe2 ∷ 0x80 ∷ 0x84 ∷ [])
    ∷ (0xe2 ∷ 0x80 ∷ 0x85 ∷ [])
    ∷ (0xe2 ∷ 0x80 ∷ 0x86 ∷ [])
    ∷ (0xe2 ∷ 0x80 ∷ 0x87 ∷ [])
    ∷ (0xe2 ∷ 0x80 ∷ 0x88 ∷ [])
    ∷ (0xe2 ∷ 0x80 ∷ 0x89 ∷ [])
    ∷ (0xe2 ∷ 0x80 ∷ 0x8a ∷ [])
    ∷ (0xe2 ∷ 0x80 ∷ 0xa8 ∷ [])
    ∷ (0xe2 ∷ 0x80 ∷ 0xa9 ∷ [])
    ∷ (0xe2 ∷ 0x80 ∷ 0xaf ∷ [])
    ∷ (0xe2 ∷ 0x81 ∷ 0x9f ∷ [])
    ∷ (0xe3 ∷ 0x80 ∷ 0x80 ∷ [])
    ∷ []

-- The number of bytes of the space that a string begins with, 0 if it begins with none.
space_width : List Str → Str → ℕ
unfolding has_prefix
space_width [] s = 0
space_width (w ∷ ws) s = if has_prefix s w then length w else space_width ws s

-- Drops the rest of a space that is being read, then every further space.
drop_spaces : List Str → ℕ → Str → Str
drop_spaces ws skip [] = []
drop_spaces ws (suc k) (c ∷ s) = drop_spaces ws k s
drop_spaces ws zero (c ∷ s) = elim (space_width ws (c ∷ s)) [
  | zero ↦ c ∷ s
  | suc k ↦ drop_spaces ws k s
]

-- strings.TrimSpace
unfoldable pub trim_space : Str → Str
unfolding drop_spaces space_width
trim_space s = reverse (drop_spaces (map reverse spaces) 0 (reverse (drop_spaces spaces 0 s)))

-- TrimSpace leaves a text of visible ASCII bytes as it is.
abbrev pub Visible : ℕ → Type 0
Visible c = (33 ≤ c) × (c < 127)

invisible_head : Str → Bool
invisible_head [] = false
invisible_head (d ∷ w) = ltb d 33 || leb 127 d

no_space :
    (ws : List Str) (c : ℕ) (s : Str)
    → Visible c
    → all invisible_head ws ≡ true
    → space_width ws (c ∷ s) ≡ 0
unfolding space_width has_prefix invisible_head
no_space [] c s v h = refl
no_space ([] ∷ ws) c s v h = absurd (cc h)
no_space ((d ∷ w) ∷ ws) c s v h = ground (arith, no_space ws c s v)

spaces_invisible :
    (all invisible_head spaces ≡ true) × (all invisible_head (map reverse spaces) ≡ true)
unfolding invisible_head
spaces_invisible = (refl, refl)

drop_none :
    (ws : List Str) (c : ℕ) (s : Str)
    → space_width ws (c ∷ s) ≡ 0
    → drop_spaces ws 0 (c ∷ s) ≡ c ∷ s
unfolding drop_spaces
drop_none ws c s h = rw (h, drop_spaces) refl

drop_spaces-Visible : (s : Str) → All Visible s → drop_spaces spaces 0 s ≡ s
unfolding drop_spaces
drop_spaces-Visible [] h = refl
drop_spaces-Visible (c ∷ s) (v, h) = drop_none spaces c s (no_space spaces c s v spaces_invisible.0)

drop_reversed-Visible : (s : Str) → All Visible s → drop_spaces (map reverse spaces) 0 s ≡ s
unfolding drop_spaces
drop_reversed-Visible [] h = refl
drop_reversed-Visible (c ∷ s) (v, h) =
    drop_none (map reverse spaces) c s (no_space (map reverse spaces) c s v spaces_invisible.1)

All-reverse {ℓ κ} : {A : Type ℓ} (P : A → Type κ) (xs : List A) → All P xs → All P (reverse xs)
All-reverse P [] h = tt
All-reverse P (x ∷ xs) (p, h) =
    subst (All P) (sym (reverse-cons x xs))
      (All-append P (reverse xs) (x ∷ []) (All-reverse P xs h) (p, tt))

pub trim_space-Visible : (s : Str) → All Visible s → trim_space s ≡ s
unfolding trim_space
trim_space-Visible s h =
    ap (λ t. reverse (drop_spaces (map reverse spaces) 0 (reverse t))) (drop_spaces-Visible s h)
    ∙ ap reverse (drop_reversed-Visible (reverse s) (All-reverse Visible s h))
    ∙ reverse-reverse s

-- strings.ReplaceAll(s, old, "") for a single byte.
unfoldable pub remove_byte : ℕ → Str → Str
remove_byte b [] = []
remove_byte b (c ∷ s) = let rest = remove_byte b s in if nat_beq c b then rest else c ∷ rest

-- strings.ToLower and strings.ToUpper: ASCII by the byte, and else through the Unicode tables of
-- the Go library, which are a parameter.
unfoldable pub is_ascii : Str → Bool
is_ascii s = all (λ c. ltb c 128) s

unfoldable pub lower_byte : ℕ → ℕ
lower_byte c = if leb b'A' c && leb c b'Z' then c + 32 else c

unfoldable pub to_lower : (Str → Str) → Str → Str
unfolding is_ascii lower_byte
to_lower unicode s = if is_ascii s then map lower_byte s else unicode s

unfoldable pub upper_byte : ℕ → ℕ
upper_byte c = if leb b'a' c && leb c b'z' then c - 32 else c

unfoldable pub to_upper : (Str → Str) → Str → Str
unfolding is_ascii upper_byte
to_upper unicode s = if is_ascii s then map upper_byte s else unicode s

-- strings.Split and strings.Join with a separator of one byte.
abbrev pub cons_head : ℕ → List Str → List Str
cons_head c [] = (c ∷ []) ∷ []
cons_head c (s ∷ ss) = (c ∷ s) ∷ ss

unfoldable pub split : ℕ → Str → List Str
split b [] = [] ∷ []
split b (c ∷ s) = let rest = split b s in if nat_beq c b then [] ∷ rest else cons_head c rest

unfoldable pub join : ℕ → List Str → Str
join b [] = []
join b (s ∷ []) = s
join b (s ∷ t ∷ ts) = s ++ (b ∷ join b (t ∷ ts))

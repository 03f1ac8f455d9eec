-- ===== src/Config/Lookup/Paging.antt =====
-- The pages of ListSNMPDeviceSummaries, and the sum of 64-bit integers that bounds them.
use ops_mcp.Config.Lookup.{page, slice, matching_devices, labels_match, list_snmp_device_summaries}
use mathlib.Core.List.{Perm}
use ops_mcp.Config.Manager.{Manager}
use ops_mcp.Model.Snmp.{SnmpDeviceSummary, device_summary}
use ops_mcp.Prelude.Sorting.{IsAscending, sort_by-IsAscending, Perm-sort_by}
use ops_mcp.Config.Lookup.Summaries.{Summaries, matching-Summaries}
use ops_mcp.Prelude.{
  ℕ, zero, suc, ◌+◌, ◌-◌, ◌^◌, ◌≤◌, ◌<◌, ◌≡◌, refl, ap, true, false, none, some, List, [], ◌∷◌,
  arith, nat_eq, length, take, drop, length-drop, ℤ, pos, leb_ℤ, ltb_ℤ, add64, Str, str_eq, Dict,
  values, keep, map,
}

add64_small : (a b : ℕ) → a + b < 2 ^ 63 → add64 (pos a) (pos b) ≡ pos (a + b)
unfolding add64
add64_small a b h = ground arith

take_all : {A : Type 0} (n : ℕ) (xs : List A) → length xs ≤ n → take n xs ≡ xs
take_all zero [] h = refl
take_all zero (x ∷ xs) h = absurd (omega (arith, h))
take_all (suc n) [] h = refl
take_all (suc n) (x ∷ xs) h = ap (λ l. x ∷ l) (take_all n xs (omega (arith, h)))

drop_all : {A : Type 0} (n : ℕ) (xs : List A) → length xs ≤ n → drop n xs ≡ []
drop_all zero [] h = refl
drop_all zero (x ∷ xs) h = absurd (omega (arith, h))
drop_all (suc n) [] h = refl
drop_all (suc n) (x ∷ xs) h = drop_all n xs (omega (arith, h))

slice-some :
    {A : Type 0} (low high : ℕ) (out : List A)
    → low ≤ high
    → high ≤ length out
    → slice (pos low) (pos high) out ≡ some (take (high - low) (drop low out))
unfolding slice
slice-some low high out p q = ground arith

page_lem :
    {A : Type 0} (l o : ℕ) (out : List A)
    → o + suc l < 2 ^ 63
    → page (pos (suc l)) (pos o) out ≡ some (take (suc l) (drop o out))
unfolding page
page_lem l o out h = ground (
  arith,
  add64_small o (suc l) h,
  slice-some o (o + suc l) out,
  slice-some o (length out) out,
  take_all (suc l) (drop o out),
  take_all (length out - o) (drop o out),
  drop_all o out,
  length-drop o out,
)

-- The sum that wraps around is below its summands, so the slice bounds are out of order.
add64_large :
    (a b : ℕ)
    → a < 2 ^ 63
    → b < 2 ^ 63
    → 2 ^ 63 ≤ a + b
    → ltb_ℤ (add64 (pos a) (pos b)) (pos 0) ≡ true
unfolding add64
add64_large a b p q h = ground arith

slice-none :
    {A : Type 0} (low high : ℤ) (out : List A) → leb_ℤ low high ≡ false → slice low high out ≡ none
unfolding slice
slice-none low high out h = ground (arith, h)

page_panics :
    {A : Type 0} (l o : ℕ) (out : List A)
    → o < length out
    → o < 2 ^ 63
    → suc l < 2 ^ 63
    → 2 ^ 63 ≤ o + suc l
    → page (pos (suc l)) (pos o) out ≡ none
unfolding page
page_panics l o out inside p q h = ground (
  arith,
  add64_large o (suc l) p q h,
  slice-none (pos o) (add64 (pos o) (pos (suc l))) out,
  slice-none (pos o) (pos (length out)) out,
)

-- For a positive limit and an offset whose sum is below 2^63, the answer is the part that starts at
-- the offset, and has at most that many elements, of a list in ascending order of the names. The
-- list has, in another order, the summaries of exactly those devices served whose labels have each
-- asked value, a key that a device does not have counting as the empty value.
pub list_snmp_device_summaries_lem :
    (m : Manager) (labels : Dict Str) (l o : ℕ)
    → o + suc l < 2 ^ 63
    → (sorted : List SnmpDeviceSummary) × (found : List SnmpDeviceSummary)
      × (list_snmp_device_summaries m
            (record { labels = labels; limit = pos (suc l); offset = pos o })
          ≡ some (take (suc l) (drop o sorted)))
      × IsAscending (λ s. s.name) sorted
      × Perm sorted found
      × Summaries labels (values m.resources.snmp_devices) found
unfolding list_snmp_device_summaries matching_devices
list_snmp_device_summaries_lem m labels l o h =
    let found =
      map device_summary
        (keep (λ d. labels_match d.labels labels) (values m.resources.snmp_devices)) in
    (
      matching_devices m labels,
      found,
      page_lem l o (matching_devices m labels) h,
      sort_by-IsAscending (λ s. s.name) found,
      Perm-sort_by (λ s. s.name) found,
      matching-Summaries labels (values m.resources.snmp_devices),
    )

-- When the sum of a positive limit and an offset is 2^63 or more, and some matching device is
-- beyond the offset, the addition wraps around and the slice of the summaries panics.
pub list_snmp_device_summaries_panics :
    (m : Manager) (labels : Dict Str) (l o : ℕ)
    → o < length (matching_devices m labels)
    → o < 2 ^ 63
    → suc l < 2 ^ 63
    → 2 ^ 63 ≤ o + suc l
    → list_snmp_device_summaries m (record { labels = labels; limit = pos (suc l); offset = pos o })
      ≡ none
unfolding list_snmp_device_summaries
list_snmp_device_summaries_panics m labels l o = page_panics l o (matching_devices m labels)

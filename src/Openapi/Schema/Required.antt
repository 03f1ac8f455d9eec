-- ===== src/Openapi/Schema/Required.antt =====
-- uniqueStrings and the required names of a tool: validateArgs of registry.go asks for the names
-- that buildToolMeta lists.
use mathlib.Core.Path.{subst}
use ops_mcp.Openapi.Schema.Build.{member, unique_from, unique_strings}
use ops_mcp.Prelude.{
  ◌≡◌, refl, sym, ◌↔◌, inl, inr, true, false, List, [], ◌∷◌, Bool-cases, ◌==◌, nat_eq, here, there,
  any_iff, Has, Distinct, Str, str_beq_iff, str_eq,
}

pub member_iff : (k : Str) (xs : List Str) → (member k xs ≡ true) ↔ Has k xs
unfolding member
member_iff k xs = any_iff (λ x. x ≡ k) (λ x. x == k) (λ x. str_beq_iff x k) xs

pub not_member : (k : Str) (xs : List Str) → member k xs ≡ false → ¬ Has k xs
not_member k xs f h = cc (f, (member_iff k xs).1 h)

-- One step of uniqueStrings: a name is skipped if it was seen, and kept and noted if not.
module _ (seen : List Str) (s : Str) (ss : List Str) (n : Str) where
  skipped :
      member s seen ≡ true
      → (Has n (unique_from seen ss) ↔ (Has n ss × ¬ Has n seen))
      → Has n (unique_from seen ss) ↔ (Has n (s ∷ ss) × ¬ Has n seen)
  skipped old ih = (
    λ h. let (m, new) = ih.0 h in (there m, new),
    λ r. ih.1 (
      elim r.0 [
        | here e ↦ absurd (r.1 (subst (λ x. Has x seen) e ((member_iff s seen).0 old)))
        | there m ↦ m
      ],
      r.1,
    ),
  )

  kept :
      member s seen ≡ false
      → (Has n (unique_from (s ∷ seen) ss) ↔ (Has n ss × ¬ Has n (s ∷ seen)))
      → Has n (s ∷ unique_from (s ∷ seen) ss) ↔ (Has n (s ∷ ss) × ¬ Has n seen)
  kept new ih = (
    elim [
      | here e ↦ (here e, λ m. not_member s seen new (subst (λ x. Has x seen) (sym e) m))
      | there m ↦ let (in_ss, fresh) = ih.0 m in (there in_ss, λ k. fresh (there k))
    ],
    λ r. elim (Bool-cases (s == n)) [
      | inl same ↦ here ((str_beq_iff s n).0 same)
      | inr other ↦ there (
          ih.1 (
            elim r.0 [ here e ↦ absurd (cc (other, (str_beq_iff s n).1 e)) | there m ↦ m ],
            elim [ here e ↦ cc (other, (str_beq_iff s n).1 e) | there m ↦ r.1 m ],
          ))
    ],
  )

pub unique_from_iff :
    (seen ss : List Str) (n : Str) → Has n (unique_from seen ss) ↔ (Has n ss × ¬ Has n seen)
unfolding unique_from
unique_from_iff seen [] n = (λ h. elim h [ ], λ r. elim r.0 [ ])
unique_from_iff seen (s ∷ ss) n = elim (Bool-cases (member s seen)) [
  | inl old ↦ rw (old, unique_from) (skipped seen s ss n old (unique_from_iff seen ss n))
  | inr new ↦ rw (new, unique_from) (kept seen s ss n new (unique_from_iff (s ∷ seen) ss n))
]

unique_from-Distinct : (seen ss : List Str) → Distinct (unique_from seen ss)
unfolding unique_from
unique_from-Distinct seen [] = tt
unique_from-Distinct seen (s ∷ ss) = elim (Bool-cases (member s seen)) [
  | inl old ↦ rw (old, unique_from) (unique_from-Distinct seen ss)
  | inr new ↦
      rw (new, unique_from)
        (
          λ h. ((unique_from_iff (s ∷ seen) ss s).0 h).1 (here refl),
          unique_from-Distinct (s ∷ seen) ss,
        )
]

-- uniqueStrings keeps exactly the names of its input, each once.
pub unique_strings_lem :
    (ss : List Str)
    → Distinct (unique_strings ss) × ((n : Str) → Has n (unique_strings ss) ↔ Has n ss)
unfolding unique_strings
unique_strings_lem ss = (
  unique_from-Distinct [] ss,
  λ n. let i = unique_from_iff [] ss n in (λ h. (i.0 h).0, λ h. i.1 (h, elim [ ])),
)

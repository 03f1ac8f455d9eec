-- ===== src/Executor/Types.antt =====
-- What the type checks of executor/executor.go accept.
use ops_mcp.Executor.{is_string, is_number, is_boolean, is_array, is_object, has_type, is_absent}
use ops_mcp.Prelude.Value.{
  Value, Items, Fields, null, bool, int, int32, int64, float32, float64, string, strings, array,
  object, any_map, is_null,
}
use ops_mcp.Prelude.{
  ap, is_empty_iff, Bool-cases, ◌≡◌, refl, ◌↔◌, ◌⊎◌, inl, inr, Bool, true, [], nat_eq, ℤ, Str,
  str_eq, ℕ, str, List, str_beq, Bool-cases, ◌==◌, str_beq_iff, is_empty_iff,
}

-- The values of each declared type; a type of another name takes any value.
pub data IsNumber : Value → Type 0 where
  by_int : (n : ℤ) → IsNumber (int n)
  by_int32 : (n : ℤ) → IsNumber (int32 n)
  by_int64 : (n : ℤ) → IsNumber (int64 n)
  by_float32 : (bits : ℕ) → IsNumber (float32 bits)
  by_float64 : (bits : ℕ) → IsNumber (float64 bits)

pub record HasType (typ : Str) (v : Value) : Type 0 where
  pub on_string : typ ≡ str "string" → (s : Str) × (v ≡ string s)
  pub on_number : typ ≡ str "number" → IsNumber v
  pub on_boolean : typ ≡ str "boolean" → (b : Bool) × (v ≡ bool b)
  pub on_array :
      typ ≡ str "array" → ((vs : Items) × (v ≡ array vs)) ⊎ ((ss : List Str) × (v ≡ strings ss))
  pub on_object : typ ≡ str "object" → (fs : Fields) × (v ≡ object fs)

is_string_iff : (v : Value) → (is_string v ≡ true) ↔ ((s : Str) × (v ≡ string s))
unfolding is_string
is_string_iff (string s) = (λ h. (s, refl), λ h. refl)
is_string_iff null = (λ h. absurd (cc h), λ h. absurd (cc h.1))
is_string_iff (bool b) = (λ h. absurd (cc h), λ h. absurd (cc h.1))
is_string_iff (int n) = (λ h. absurd (cc h), λ h. absurd (cc h.1))
is_string_iff (int32 n) = (λ h. absurd (cc h), λ h. absurd (cc h.1))
is_string_iff (int64 n) = (λ h. absurd (cc h), λ h. absurd (cc h.1))
is_string_iff (float32 n) = (λ h. absurd (cc h), λ h. absurd (cc h.1))
is_string_iff (float64 n) = (λ h. absurd (cc h), λ h. absurd (cc h.1))
is_string_iff (strings ss) = (λ h. absurd (cc h), λ h. absurd (cc h.1))
is_string_iff (array vs) = (λ h. absurd (cc h), λ h. absurd (cc h.1))
is_string_iff (object fs) = (λ h. absurd (cc h), λ h. absurd (cc h.1))
is_string_iff (any_map es) = (λ h. absurd (cc h), λ h. absurd (cc h.1))

is_number_iff : (v : Value) → (is_number v ≡ true) ↔ IsNumber v
unfolding is_number
is_number_iff null = (λ h. absurd (cc h), elim [ ])
is_number_iff (bool b) = (λ h. absurd (cc h), elim [ ])
is_number_iff (int n) = (λ h. by_int n, λ h. refl)
is_number_iff (int32 n) = (λ h. by_int32 n, λ h. refl)
is_number_iff (int64 n) = (λ h. by_int64 n, λ h. refl)
is_number_iff (float32 n) = (λ h. by_float32 n, λ h. refl)
is_number_iff (float64 n) = (λ h. by_float64 n, λ h. refl)
is_number_iff (string s) = (λ h. absurd (cc h), elim [ ])
is_number_iff (strings ss) = (λ h. absurd (cc h), elim [ ])
is_number_iff (array vs) = (λ h. absurd (cc h), elim [ ])
is_number_iff (object fs) = (λ h. absurd (cc h), elim [ ])
is_number_iff (any_map es) = (λ h. absurd (cc h), elim [ ])

is_boolean_iff : (v : Value) → (is_boolean v ≡ true) ↔ ((b : Bool) × (v ≡ bool b))
unfolding is_boolean
is_boolean_iff null = (λ h. absurd (cc h), λ h. absurd (cc h.1))
is_boolean_iff (bool b) = (λ h. (b, refl), λ h. refl)
is_boolean_iff (int n) = (λ h. absurd (cc h), λ h. absurd (cc h.1))
is_boolean_iff (int32 n) = (λ h. absurd (cc h), λ h. absurd (cc h.1))
is_boolean_iff (int64 n) = (λ h. absurd (cc h), λ h. absurd (cc h.1))
is_boolean_iff (float32 n) = (λ h. absurd (cc h), λ h. absurd (cc h.1))
is_boolean_iff (float64 n) = (λ h. absurd (cc h), λ h. absurd (cc h.1))
is_boolean_iff (string s) = (λ h. absurd (cc h), λ h. absurd (cc h.1))
is_boolean_iff (strings ss) = (λ h. absurd (cc h), λ h. absurd (cc h.1))
is_boolean_iff (array vs) = (λ h. absurd (cc h), λ h. absurd (cc h.1))
is_boolean_iff (object fs) = (λ h. absurd (cc h), λ h. absurd (cc h.1))
is_boolean_iff (any_map es) = (λ h. absurd (cc h), λ h. absurd (cc h.1))

is_array_iff :
    (v : Value)
    → (is_array v ≡ true) ↔ (((vs : Items) × (v ≡ array vs)) ⊎ ((ss : List Str) × (v ≡ strings ss)))
unfolding is_array
is_array_iff null = (λ h. absurd (cc h), elim [ inl h ↦ absurd (cc h.1) | inr h ↦ absurd (cc h.1) ])
is_array_iff (bool b) =
    (λ h. absurd (cc h), elim [ inl h ↦ absurd (cc h.1) | inr h ↦ absurd (cc h.1) ])
is_array_iff (int n) =
    (λ h. absurd (cc h), elim [ inl h ↦ absurd (cc h.1) | inr h ↦ absurd (cc h.1) ])
is_array_iff (int32 n) =
    (λ h. absurd (cc h), elim [ inl h ↦ absurd (cc h.1) | inr h ↦ absurd (cc h.1) ])
is_array_iff (int64 n) =
    (λ h. absurd (cc h), elim [ inl h ↦ absurd (cc h.1) | inr h ↦ absurd (cc h.1) ])
is_array_iff (float32 n) =
    (λ h. absurd (cc h), elim [ inl h ↦ absurd (cc h.1) | inr h ↦ absurd (cc h.1) ])
is_array_iff (float64 n) =
    (λ h. absurd (cc h), elim [ inl h ↦ absurd (cc h.1) | inr h ↦ absurd (cc h.1) ])
is_array_iff (string s) =
    (λ h. absurd (cc h), elim [ inl h ↦ absurd (cc h.1) | inr h ↦ absurd (cc h.1) ])
is_array_iff (strings ss) = (λ h. inr (ss, refl), λ h. refl)
is_array_iff (array vs) = (λ h. inl (vs, refl), λ h. refl)
is_array_iff (object fs) =
    (λ h. absurd (cc h), elim [ inl h ↦ absurd (cc h.1) | inr h ↦ absurd (cc h.1) ])
is_array_iff (any_map es) =
    (λ h. absurd (cc h), elim [ inl h ↦ absurd (cc h.1) | inr h ↦ absurd (cc h.1) ])

is_object_iff : (v : Value) → (is_object v ≡ true) ↔ ((fs : Fields) × (v ≡ object fs))
unfolding is_object
is_object_iff null = (λ h. absurd (cc h), λ h. absurd (cc h.1))
is_object_iff (bool b) = (λ h. absurd (cc h), λ h. absurd (cc h.1))
is_object_iff (int n) = (λ h. absurd (cc h), λ h. absurd (cc h.1))
is_object_iff (int32 n) = (λ h. absurd (cc h), λ h. absurd (cc h.1))
is_object_iff (int64 n) = (λ h. absurd (cc h), λ h. absurd (cc h.1))
is_object_iff (float32 n) = (λ h. absurd (cc h), λ h. absurd (cc h.1))
is_object_iff (float64 n) = (λ h. absurd (cc h), λ h. absurd (cc h.1))
is_object_iff (string s) = (λ h. absurd (cc h), λ h. absurd (cc h.1))
is_object_iff (strings ss) = (λ h. absurd (cc h), λ h. absurd (cc h.1))
is_object_iff (array vs) = (λ h. absurd (cc h), λ h. absurd (cc h.1))
is_object_iff (object fs) = (λ h. (fs, refl), λ h. refl)
is_object_iff (any_map es) = (λ h. absurd (cc h), λ h. absurd (cc h.1))

pub has_type_iff : (typ : Str) (v : Value) → (has_type typ v ≡ true) ↔ HasType typ v
unfolding has_type str_beq
has_type_iff typ v = (
  (λ h. record {
    on_string = λ e. (is_string_iff v).0 (rw e at h);
    on_number = λ e. (is_number_iff v).0 (rw e at h);
    on_boolean = λ e. (is_boolean_iff v).0 (rw e at h);
    on_array = λ e. (is_array_iff v).0 (rw e at h);
    on_object = λ e. (is_object_iff v).0 (rw e at h);
  }),
  (λ t. elim (Bool-cases (typ == str "string")) [
    | inl a ↦ rw a ((is_string_iff v).1 (t.on_string ((str_beq_iff typ _).0 a)))
    | inr a ↦ elim (Bool-cases (typ == str "number")) [
      | inl b ↦ rw a (rw b ((is_number_iff v).1 (t.on_number ((str_beq_iff typ _).0 b))))
      | inr b ↦ elim (Bool-cases (typ == str "boolean")) [
        | inl c ↦ rw a (rw b (rw c ((is_boolean_iff v).1 (t.on_boolean ((str_beq_iff typ _).0 c)))))
        | inr c ↦ elim (Bool-cases (typ == str "array")) [
          | inl d ↦
              rw a (rw b (rw c (rw d ((is_array_iff v).1 (t.on_array ((str_beq_iff typ _).0 d))))))
          | inr d ↦ elim (Bool-cases (typ == str "object")) [
            | inl e ↦ rw a (
                rw b (
                  rw c (rw d (rw e ((is_object_iff v).1 (t.on_object ((str_beq_iff typ _).0 e)))))))
            | inr e ↦ rw a (rw b (rw c (rw d (rw e refl))))
          ]
        ]
      ]
    ]
  ]),
)

pub is_null_iff : (v : Value) → (is_null v ≡ true) ↔ (v ≡ null)
is_null_iff null = (λ h. refl, λ h. refl)
is_null_iff (bool b) = (λ h. absurd (cc h), λ h. absurd (cc h))
is_null_iff (int n) = (λ h. absurd (cc h), λ h. absurd (cc h))
is_null_iff (int32 n) = (λ h. absurd (cc h), λ h. absurd (cc h))
is_null_iff (int64 n) = (λ h. absurd (cc h), λ h. absurd (cc h))
is_null_iff (float32 n) = (λ h. absurd (cc h), λ h. absurd (cc h))
is_null_iff (float64 n) = (λ h. absurd (cc h), λ h. absurd (cc h))
is_null_iff (string s) = (λ h. absurd (cc h), λ h. absurd (cc h))
is_null_iff (strings ss) = (λ h. absurd (cc h), λ h. absurd (cc h))
is_null_iff (array vs) = (λ h. absurd (cc h), λ h. absurd (cc h))
is_null_iff (object fs) = (λ h. absurd (cc h), λ h. absurd (cc h))
is_null_iff (any_map es) = (λ h. absurd (cc h), λ h. absurd (cc h))

pub is_absent_iff : (v : Value) → (is_absent v ≡ true) ↔ ((v ≡ null) ⊎ (v ≡ string []))
unfolding is_absent
is_absent_iff null = (λ h. inl refl, λ h. refl)
is_absent_iff (bool b) =
    (λ h. absurd (cc h), elim [ inl h ↦ absurd (cc h) | inr h ↦ absurd (cc h) ])
is_absent_iff (int n) = (λ h. absurd (cc h), elim [ inl h ↦ absurd (cc h) | inr h ↦ absurd (cc h) ])
is_absent_iff (int32 n) =
    (λ h. absurd (cc h), elim [ inl h ↦ absurd (cc h) | inr h ↦ absurd (cc h) ])
is_absent_iff (int64 n) =
    (λ h. absurd (cc h), elim [ inl h ↦ absurd (cc h) | inr h ↦ absurd (cc h) ])
is_absent_iff (float32 n) =
    (λ h. absurd (cc h), elim [ inl h ↦ absurd (cc h) | inr h ↦ absurd (cc h) ])
is_absent_iff (float64 n) =
    (λ h. absurd (cc h), elim [ inl h ↦ absurd (cc h) | inr h ↦ absurd (cc h) ])
is_absent_iff (string s) = (
  λ h. inr (ap string ((is_empty_iff s).0 h)),
  elim [ inl h ↦ absurd (cc h) | inr h ↦ (is_empty_iff s).1 (cc h) ],
)
is_absent_iff (strings ss) =
    (λ h. absurd (cc h), elim [ inl h ↦ absurd (cc h) | inr h ↦ absurd (cc h) ])
is_absent_iff (array vs) =
    (λ h. absurd (cc h), elim [ inl h ↦ absurd (cc h) | inr h ↦ absurd (cc h) ])
is_absent_iff (object fs) =
    (λ h. absurd (cc h), elim [ inl h ↦ absurd (cc h) | inr h ↦ absurd (cc h) ])
is_absent_iff (any_map es) =
    (λ h. absurd (cc h), elim [ inl h ↦ absurd (cc h) | inr h ↦ absurd (cc h) ])

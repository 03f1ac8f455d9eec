-- ===== src/Prelude/Value.antt =====
-- Values of Go type `interface{}` as JSON, YAML and the script engine produce them.
use mathlib.Core.Path.{◌≡◌, refl}
use mathlib.Core.Bool.{Bool, true, false}
use mathlib.Core.List.{List, [], ◌∷◌}
use Prim.Native.Nat.{ℕ}
use ops_mcp.Prelude.Int.{ℤ}
use ops_mcp.Prelude.Text.{Str}
use ops_mcp.Prelude.Maps.{Dict, insert, lookup}
use ops_mcp.Prelude.Tests.{if◌then◌else◌}
use mathlib.Core.Option.{Option, none, some}

-- One constructor for each dynamic type that the program tests for. A float is its bit pattern.
mutual
  pub data Value : Type 0 where
    null : Value
    bool : Bool → Value
    int : ℤ → Value
    int32 : ℤ → Value
    int64 : ℤ → Value
    float32 : ℕ → Value
    float64 : ℕ → Value
    string : Str → Value
    strings : List Str → Value
    array : Items → Value
    object : Fields → Value
    any_map : Entries → Value

  -- []interface{}
  pub data Items : Type 0 where
    nil : Items
    cons : Value → Items → Items

  -- map[string]interface{}
  pub data Fields : Type 0 where
    done : Fields
    field : Str → Value → Fields → Fields

  -- map[interface{}]interface{}
  pub data Entries : Type 0 where
    end : Entries
    entry : Value → Value → Entries → Entries

abbrev pub items : Items → List Value
items nil = []
items (cons v vs) = v ∷ items vs

abbrev pub fields : Fields → Dict Value
fields done = []
fields (field k v fs) = (k, v) ∷ fields fs

abbrev pub to_fields : Dict Value → Fields
to_fields [] = done
to_fields ((k, v) ∷ m) = field k v (to_fields m)

-- `v == nil`, also for a missing key.
abbrev pub is_null : Value → Bool
is_null null = true
is_null _ = false

pub fields-to_fields : (m : Dict Value) → fields (to_fields m) ≡ m
fields-to_fields [] = refl
fields-to_fields ((k, v) ∷ m) = λ i. (k, v) ∷ fields-to_fields m i

-- The entries of a `map[interface{}]interface{}` whose keys are all strings.
unfoldable pub string_entries : Entries → Option (Dict Value)
string_entries end = some []
string_entries (entry (string k) v es) = elim (string_entries es) [
  | none ↦ none
  | some m ↦ some (insert k v m)
]
string_entries (entry _ v es) = none

-- The argument of name `k`, where a missing key and `nil` are the same.
unfoldable pub given : Str → Dict Value → Option Value
unfolding lookup
given k args = elim (lookup k args) [ none ↦ none | some v ↦ if is_null v then none else some v ]

-- ===== src/Openapi/Parse/Params/Ordered.antt =====
-- The table and the order that the loop of mergeParameters builds: under each key the last of its
-- parameters, and the keys in the order in which they come first.
use mathlib.Core.List.{append-nil, append_assoc}
use ops_mcp.Openapi.Operation.{Parameter}
use ops_mcp.Openapi.Parse.Raw.{RawParameter}
use ops_mcp.Openapi.Parse.Params.{Merge, key_of, project, put, add, add_all}
use ops_mcp.Openapi.Schema.Build.{member, unique_from}
use ops_mcp.Openapi.Parse.Body.{or_else}
use ops_mcp.Prelude.{
  ◌≡◌, refl, sym, ap, ◌∙◌, inl, inr, Bool, true, false, ◌||◌, Option, none, some, List, [], ◌∷◌,
  ◌++◌, arith, if◌then◌else◌, Bool-cases, Option-cases, ◌==◌, nat_eq, Str, str_beq_iff, str_eq,
  is_empty, lookup, has, lookup-insert, has-insert,
}

abbrev pub cons_key : Option Str → List Str → List Str
cons_key none ks = ks
cons_key (some k) ks = k ∷ ks

or_else_assoc : {A : Type 0} (a b c : Option A) → or_else a (or_else b c) ≡ or_else (or_else a b) c
or_else_assoc none b c = refl
or_else_assoc (some a) b c = refl

module _ (unicode : Str → Str) where
  -- The keys of the parameters that are taken, in order.
  unfoldable pub keys_of : List RawParameter → List Str
  keys_of [] = []
  keys_of (rp ∷ rps) = cons_key (key_of unicode rp) (keys_of rps)

  abbrev pub match_key : Str → Option Str → Bool
  match_key k none = false
  match_key k (some j) = j == k

  -- The last of them that has the key `k`, looked for from the end.
  unfoldable pub latest : Str → List RawParameter → Option Parameter
  latest k [] = none
  latest k (rp ∷ rps) =
      or_else (latest k rps)
        (if match_key k (key_of unicode rp) then some (project unicode rp) else none)

  lookup-put :
      (rp : RawParameter) (o : Option Str) (k : Str) (m : Merge)
      → lookup k (put unicode rp o m).by_key
        ≡ or_else (if match_key k o then some (project unicode rp) else none) (lookup k m.by_key)
  lookup-put rp none k m = refl
  lookup-put rp (some j) k m = rw lookup-insert (ground arith)

  key_of-ref : (rp : RawParameter) → is_empty rp.ref ≡ false → key_of unicode rp ≡ none
  unfolding key_of
  key_of-ref rp h = ground arith

  lookup-add :
      (rp : RawParameter) (k : Str) (m : Merge)
      → lookup k (add unicode rp m).by_key
        ≡ or_else
            (if match_key k (key_of unicode rp) then some (project unicode rp) else none)
            (lookup k m.by_key)
  unfolding add
  lookup-add rp k m = elim (Bool-cases (is_empty rp.ref)) [
    | inl plain ↦ rw plain (lookup-put rp (key_of unicode rp) k m)
    | inr linked ↦ rw linked (rw (key_of-ref rp linked) refl)
  ]

  pub lookup-add_all :
      (rps : List RawParameter) (k : Str) (m : Merge)
      → lookup k (add_all unicode rps m).by_key ≡ or_else (latest k rps) (lookup k m.by_key)
  unfolding add_all latest
  lookup-add_all [] k m = refl
  lookup-add_all (rp ∷ rps) k m =
      lookup-add_all rps k (add unicode rp m)
      ∙ ap (or_else (latest k rps)) (lookup-add rp k m)
      ∙ or_else_assoc (latest k rps) _ (lookup k m.by_key)

  -- The keys met so far are those of `by_key`.
  abbrev pub Tracks : List Str → Merge → Type 0
  Tracks seen m = (k : Str) → has k m.by_key ≡ member k seen

  add-none :
      (rp : RawParameter) (m : Merge)
      → key_of unicode rp ≡ none
      → ((add unicode rp m).order ≡ m.order) × ((add unicode rp m).by_key ≡ m.by_key)
  unfolding add
  add-none rp m e = elim (Bool-cases (is_empty rp.ref)) [
    | inl plain ↦ rw (plain, e) (refl, refl)
    | inr linked ↦ rw linked (refl, refl)
  ]

  add-some :
      (rp : RawParameter) (m : Merge) (k : Str)
      → key_of unicode rp ≡ some k
      → add unicode rp m ≡ put unicode rp (some k) m
  unfolding add
  add-some rp m k e = elim (Bool-cases (is_empty rp.ref)) [
    | inl plain ↦ rw (plain, e) refl
    | inr linked ↦ absurd (cc (e, key_of-ref rp linked))
  ]

  Tracks-old :
      (rp : RawParameter) (k : Str) (seen : List Str) (m : Merge)
      → Tracks seen m
      → member k seen ≡ true
      → Tracks seen (put unicode rp (some k) m)
  Tracks-old rp k seen m t old j =
      has-insert k j _ m.by_key ∙ ground (arith, t j, old, str_beq_iff k j)

  Tracks-new :
      (rp : RawParameter) (k : Str) (seen : List Str) (m : Merge)
      → Tracks seen m
      → Tracks (k ∷ seen) (put unicode rp (some k) m)
  unfolding member
  Tracks-new rp k seen m t j = has-insert k j _ m.by_key ∙ ap (λ b. (k == j) || b) (t j)

  pub order-add_all :
      (rps : List RawParameter) (seen : List Str) (m : Merge)
      → Tracks seen m
      → (add_all unicode rps m).order ≡ m.order ++ unique_from seen (keys_of rps)
  unfolding add_all keys_of unique_from
  order-add_all [] seen m t = sym (append-nil m.order)
  order-add_all (rp ∷ rps) seen m t = elim (Option-cases (key_of unicode rp)) [
    | inl e ↦
        let (same_order, same_keys) = add-none rp m e in
        rw e (
          order-add_all rps seen (add unicode rp m) (λ k. ap (has k) same_keys ∙ t k)
          ∙ ap (λ o. o ++ unique_from seen (keys_of rps)) same_order)
    | inr (k, e) ↦
        let next = put unicode rp (some k) m in
        let moved = ap (λ x. (add_all unicode rps x).order) (add-some rp m k e) in
        rw e (
          moved ∙ elim (Bool-cases (member k seen)) [
            | inl old ↦
                order-add_all rps seen next (Tracks-old rp k seen m t old)
                ∙ rw (t k, old, unique_from) refl
            | inr new ↦
                order-add_all rps (k ∷ seen) next (Tracks-new rp k seen m t)
                ∙ rw (t k, new, unique_from) (append_assoc m.order (k ∷ []) _)
          ])
  ]

abbrev pub start : Merge
start = record { by_key = []; order = []; warns = [] }

pub or_else-none : {A : Type 0} (o : Option A) → or_else o none ≡ o
or_else-none none = refl
or_else-none (some a) = refl

pub add_all-append :
    (unicode : Str → Str) (xs bs : List RawParameter) (m : Merge)
    → add_all unicode (xs ++ bs) m ≡ add_all unicode bs (add_all unicode xs m)
unfolding add_all
add_all-append unicode [] bs m = refl
add_all-append unicode (a ∷ xs) bs m = add_all-append unicode xs bs (add unicode a m)

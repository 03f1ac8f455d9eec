-- ===== src/Openapi/Parse/Params/Merged.antt =====
-- Which parameters the merge of the path's and the operation's ends with.
use ops_mcp.Openapi.Operation.{Parameter}
use ops_mcp.Openapi.Parse.Raw.{RawParameter}
use ops_mcp.Openapi.Parse.Params.{
  Merge, key_of, project, add_all, merged, or_zero, merge_parameters,
}
use ops_mcp.Openapi.Parse.Params.Ordered.{
  keys_of, latest, lookup-add_all, order-add_all, start, or_else-none, add_all-append,
}
use ops_mcp.Openapi.Schema.Build.{member, unique_from, unique_strings}
use mathlib.Core.Path.{subst}
use ops_mcp.Openapi.Schema.Required.{unique_from_iff}
use ops_mcp.Prelude.Value.{Value, string}
use ops_mcp.Prelude.{
  any, ◌≢◌, keep, All, Has, here, there, Dict, str, to_lower, ◌≡◌, refl, sym, ap, ◌∙◌, inl, inr,
  Bool, true, false, none, some, List, [], ◌∷◌, ◌++◌, map, arith, Bool-cases, ◌==◌, nat_eq, Str,
  str_beq_iff, str_eq, is_empty, lookup, str_beq, ◌⊎◌, ◌&&◌,
}

-- The parameters that count: no reference, and in a path, a query or a header.
abbrev pub places : List Str
places = str "path" ∷ str "query" ∷ str "header" ∷ []

module _ (unicode : Str → Str) where
  abbrev pub is_taken : RawParameter → Bool
  is_taken rp = is_empty rp.ref && any (λ place. to_lower unicode rp.location == place) places

  -- A parameter's place and name.
  abbrev pub place_name : RawParameter → Str
  place_name rp = to_lower unicode rp.location ++ (b':' ∷ rp.name)

  -- A parameter in a path is required, and a schema that is not given is a string.
  pub record IsParameter (rp : RawParameter) (p : Parameter) : Type 0 where
    pub name : p.name ≡ rp.name
    pub location : p.location ≡ to_lower unicode rp.location
    pub in_path : to_lower unicode rp.location ≡ str "path" → p.required ≡ true
    pub elsewhere : to_lower unicode rp.location ≢ str "path" → p.required ≡ rp.required
    pub description : p.description ≡ rp.description
    pub no_schema : rp.schema ≡ none → p.schema ≡ (str "type", string (str "string")) ∷ []
    pub with_schema : (s : Dict Value) → rp.schema ≡ some s → p.schema ≡ s

  -- The last of the parameters that has a place and name.
  pub data IsLast (k : Str) : List RawParameter → RawParameter → Type 0 where
    this :
        {rp : RawParameter} {rps : List RawParameter}
        → place_name rp ≡ k
        → All (λ r. place_name r ≢ k) rps
        → IsLast k (rp ∷ rps) rp
    later : {rp r : RawParameter} {rps : List RawParameter} → IsLast k rps r → IsLast k (rp ∷ rps) r

  project-IsParameter : (rp : RawParameter) → IsParameter rp (project unicode rp)
  unfolding project
  project-IsParameter rp = record {
    name = refl;
    location = refl;
    in_path =
        λ h. let e = (str_beq_iff (to_lower unicode rp.location) (str "path")).1 h in ground arith;
    elsewhere = λ h. elim (Bool-cases (to_lower unicode rp.location == str "path")) [
      | inl e ↦ absurd (h ((str_beq_iff (to_lower unicode rp.location) (str "path")).0 e))
      | inr e ↦ rw e (ground arith)
    ];
    description = refl;
    no_schema = λ h. rw h refl;
    with_schema = λ s h. rw h refl;
  }

  key_of-some : (rp : RawParameter) → is_taken rp ≡ true → key_of unicode rp ≡ some (place_name rp)
  unfolding key_of str_beq
  key_of-some rp h = elim (Bool-cases (to_lower unicode rp.location == str "cookie")) [
    | inl e ↦
        let cookie = (str_beq_iff (to_lower unicode rp.location) (str "cookie")).0 e in
        let other : (is_empty rp.ref && false) ≡ true = rw cookie at h in absurd (ground arith)
    | inr e ↦ ground arith
  ]

  key_of-none : (rp : RawParameter) → is_taken rp ≡ false → key_of unicode rp ≡ none
  unfolding key_of str_beq
  key_of-none rp h = ground arith

  keys_of-taken :
      (rps : List RawParameter) → keys_of unicode rps ≡ map place_name (keep is_taken rps)
  unfolding keys_of keep
  keys_of-taken [] = refl
  keys_of-taken (rp ∷ rps) = elim (Bool-cases (is_taken rp)) [
    | inl h ↦ rw h (rw (key_of-some rp h) (ap (λ l. place_name rp ∷ l) (keys_of-taken rps)))
    | inr h ↦ rw h (rw (key_of-none rp h) (keys_of-taken rps))
  ]

  -- The parameters of the merge, one for each key: the last of them, projected.
  abbrev pub Chosen : List RawParameter → List Str → List Parameter → Type 0
  Chosen taken [] [] = Unit
  Chosen taken (k ∷ ks) (p ∷ ps) =
      ((rp : RawParameter) × IsLast k taken rp × IsParameter rp p) × Chosen taken ks ps
  Chosen taken [] (p ∷ ps) = ⊥
  Chosen taken (k ∷ ks) [] = ⊥

  -- What `latest` finds is the last, and it finds one for each key.
  latest-IsLast :
      (k : Str) (rps : List RawParameter)
      → ((latest unicode k rps ≡ none) × All (λ r. place_name r ≢ k) (keep is_taken rps))
        ⊎ ((rp : RawParameter) × IsLast k (keep is_taken rps) rp
            × (latest unicode k rps ≡ some (project unicode rp)))
  unfolding latest keep
  latest-IsLast k [] = inl (refl, tt)
  latest-IsLast k (rp ∷ rps) = elim (Bool-cases (is_taken rp)) [
    | inr h ↦ elim (latest-IsLast k rps) [
      | inl (e, none_left) ↦ inl (rw e (rw (key_of-none rp h) refl), rw h none_left)
      | inr (r, last, e) ↦ inr (r, rw h last, rw e refl)
    ]
    | inl h ↦ elim (latest-IsLast k rps) [
      | inr (r, last, e) ↦ inr (r, rw h (later last), rw e refl)
      | inl (e, none_left) ↦ elim (Bool-cases (place_name rp == k)) [
        | inl same ↦ inr (
          rp,
          rw h (this ((str_beq_iff (place_name rp) k).0 same) none_left),
          rw e (rw (key_of-some rp h) (rw same refl)),
        )
        | inr other ↦ inl (
          rw e (rw (key_of-some rp h) (rw other refl)),
          rw h ((λ same. cc (other, (str_beq_iff (place_name rp) k).1 same)), none_left),
        )
      ]
    ]
  ]

  All-absent :
      (k : Str) (rs : List RawParameter)
      → All (λ r. place_name r ≢ k) rs
      → Has k (map place_name rs)
      → ⊥
  All-absent k [] h m = elim m [ ]
  All-absent k (r ∷ rs) h (here e) = h.0 e
  All-absent k (r ∷ rs) h (there s) = All-absent k rs h.1 s

  Chosen-latest :
      (rps : List RawParameter) (ks : List Str)
      → All (λ k. Has k (map place_name (keep is_taken rps))) ks
      → Chosen (keep is_taken rps) ks (map (λ k. or_zero (latest unicode k rps)) ks)
  Chosen-latest rps [] h = tt
  Chosen-latest rps (k ∷ ks) h = (
    elim (latest-IsLast k rps) [
      | inl (e, none_left) ↦ absurd (All-absent k (keep is_taken rps) none_left h.0)
      | inr (r, last, e) ↦ (r, last, rw e (project-IsParameter r))
    ],
    Chosen-latest rps ks h.1,
  )

All-of : {P : Str → Type 0} (ks : List Str) → ((k : Str) → Has k ks → P k) → All P ks
All-of [] h = tt
All-of (k ∷ ks) h = (h k (here refl), All-of ks (λ j m. h j (there m)))

-- The merged parameters: for each place and name among the path's and then the operation's
-- parameters, once, in the order in which they come first, the last parameter that has them, in a
-- path always required, and with the schema of a string where it has none. References, cookies and
-- other places are passed over.
pub merge_parameters_lem :
    (unicode : Str → Str) (path_level op_level : List RawParameter)
    → (let taken = keep (is_taken unicode) (path_level ++ op_level) in
        Chosen unicode taken
          (unique_strings (map (place_name unicode) taken))
          (merge_parameters unicode path_level op_level).0)
unfolding merge_parameters merged unique_strings lookup member
merge_parameters_lem unicode path_level op_level =
    let rps = path_level ++ op_level in
    let m = add_all unicode rps start in
    let taken = keep (is_taken unicode) rps in
    let ks = unique_from [] (map (place_name unicode) taken) in
    let found : (k : Str) → lookup k m.by_key ≡ latest unicode k rps =
      λ k. lookup-add_all unicode rps k start ∙ or_else-none _ in
    let ordered : m.order ≡ ks =
      order-add_all unicode rps [] start (λ k. refl)
      ∙ ap (unique_from []) (keys_of-taken unicode rps) in
    subst (Chosen unicode taken ks)
      (sym (
        ap (λ (x : Merge). map (λ k. or_zero (lookup k x.by_key)) x.order)
          (sym (add_all-append unicode path_level op_level start))
        ∙ λ i. map (λ k. or_zero (found k i)) (ordered i)))
      (Chosen-latest unicode rps ks
        (All-of ks (λ k h. ((unique_from_iff [] (map (place_name unicode) taken) k).0 h).0)))

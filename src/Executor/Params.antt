-- ===== src/Executor/Params.antt =====
-- What validateParams accepts, and when a script is run.
use ops_mcp.Model.Plugin.{PluginInputField, PluginMeta, plugin_timeout}
use ops_mcp.Executor.Types.{HasType, has_type_iff, is_null_iff, is_absent_iff}
use ops_mcp.Executor.{
  has_type, check_type, arg_of, is_absent, check_param, validate_params, execute,
}
use ops_mcp.Model.Errors.{
  ToolResult, app, other, GoError, Message, missing_param, must_be, invalid_params, internal_error,
  result_of,
}
use ops_mcp.Prelude.Value.{Value, null, string, is_null}
use ops_mcp.Config.Named.{not_empty_iff, refuse_iff, then_iff}
use mathlib.Core.Path.{subst}
use ops_mcp.Prelude.{
  ap, sym, is_empty_iff, Bool-cases, Option-cases, ◌≡◌, refl, ◌↔◌, ◌⊎◌, inl, inr, Bool, true, false,
  not, ◌&&◌, Option, [], ◌∷◌, if◌then◌else◌, nat_eq, All, ℤ, Str, str_eq, Dict, Result, ok,
  Result-cases, refuse, lookup, ◌≢◌, Bool-cases, none, err, some, pos, is_empty, ◌<ℤ◌, is_empty_iff,
  ◌≤ℤ◌, Option-cases, is_nonpos, arith,
}

-- A required argument is given, and not nil or the empty text; and any argument that is given and
-- not nil has the declared type.
pub record FitsField (args : Dict Value) (name : Str) (field : PluginInputField) : Type 0 where
  pub present :
      field.required ≡ true
      → (v : Value) × (lookup name args ≡ some v) × (v ≢ null) × (v ≢ string [])
  pub typed : (v : Value) → lookup name args ≡ some v → v ≢ null → HasType field.input_type v

abbrev pub Fits : Dict Value → Str × PluginInputField → Type 0
Fits args (name, field) = FitsField args name field

type_checked_iff :
    (no_value fits : Bool) (e : Message)
    → ((if no_value then ok tt else refuse (not fits) e) ≡ ok tt)
      ↔ ((no_value ≡ true) ⊎ (fits ≡ true))
type_checked_iff true fits e = (λ _. inl refl, λ _. refl)
type_checked_iff false true e = (λ _. inr refl, λ _. refl)
type_checked_iff false false e =
    (λ h. absurd (cc h), elim [ inl h ↦ absurd (cc h) | inr h ↦ absurd (cc h) ])

-- The tests of a parameter, on the argument or nil.
abbrev Passes : PluginInputField → Value → Type 0
Passes field v =
    ((field.required && is_absent v) ≡ false)
    × ((is_null v ≡ true) ⊎ (has_type field.input_type v ≡ true))

fits_missing :
    (args : Dict Value) (name : Str) (field : PluginInputField)
    → lookup name args ≡ none
    → Passes field null ↔ FitsField args name field
unfolding is_absent
fits_missing args name field e = (
  (λ h. record {
    present = λ r. absurd (ground arith);
    typed = λ v found other. absurd (cc (e, found));
  }),
  (λ f. (
    elim (Bool-cases field.required) [
      | inl r ↦ let (w, found, a, b) = f.present r in absurd (cc (e, found))
      | inr r ↦ rw r refl
    ],
    inl refl,
  )),
)

fits_given :
    (args : Dict Value) (name : Str) (field : PluginInputField) (v : Value)
    → lookup name args ≡ some v
    → Passes field v ↔ FitsField args name field
fits_given args name field v e = (
  (λ h. record {
    present = λ r.
        let given : is_absent v ≡ false = ground (arith, h.0) in
        (
          v,
          e,
          (λ n. absurd (cc (given, (is_absent_iff v).1 (inl n)))),
          (λ n. absurd (cc (given, (is_absent_iff v).1 (inr n)))),
        );
    typed = λ w found other. elim h.1 [
      | inl n ↦ absurd (other (cc (e, found, (is_null_iff v).0 n)))
      | inr t ↦ subst (HasType field.input_type) (cc (e, found)) ((has_type_iff _ v).0 t)
    ];
  }),
  (λ f. (
    elim (Bool-cases field.required) [
      | inl r ↦ elim (Bool-cases (is_absent v)) [
        | inl a ↦
            let (w, found, some_value, some_text) = f.present r in
            elim ((is_absent_iff v).0 a) [
              | inl n ↦ absurd (some_value (cc (e, found, n)))
              | inr n ↦ absurd (some_text (cc (e, found, n)))
            ]
        | inr a ↦ rw a (ground arith)
      ]
      | inr r ↦ rw r refl
    ],
    elim (Bool-cases (is_null v)) [
      | inl n ↦ inl n
      | inr n ↦ inr ((has_type_iff _ v).1 (f.typed v e (λ same. cc (n, (is_null_iff v).1 same))))
    ],
  )),
)

fits_iff :
    (args : Dict Value) (name : Str) (field : PluginInputField)
    → Passes field (arg_of name args) ↔ FitsField args name field
fits_iff args name field = elim (Option-cases (lookup name args)) [
  | inl e ↦
      subst (λ v. Passes field v ↔ FitsField args name field)
        (sym (ap (λ o. elim o [ none ↦ null | some v ↦ v ]) e)) (fits_missing args name field e)
  | inr (w, e) ↦
      subst (λ v. Passes field v ↔ FitsField args name field)
        (sym (ap (λ o. elim o [ none ↦ null | some v ↦ v ]) e)) (fits_given args name field w e)
]

check_param_iff :
    (args : Dict Value) (f : Str × PluginInputField)
    → (check_param args f.0 f.1 ≡ ok tt) ↔ Fits args f
unfolding check_param check_type
check_param_iff args (name, field) =
    let v = arg_of name args in
    let outer = refuse_iff (field.required && is_absent v) (missing_param name) _ tt in
    let inner =
      type_checked_iff (is_null v) (has_type field.input_type v) (must_be name field.input_type) in
    let fits = fits_iff args name field in
    (
      λ h. let (given, rest) = outer.0 h in fits.0 (given, inner.0 rest),
      λ h. let (given, rest) = fits.1 h in outer.1 (given, inner.1 rest),
    )

-- The arguments of a plugin are accepted exactly when each required one is given and not the empty
-- text, and each one that is given has the type that the plugin declares.
pub validate_params_iff :
    (input : Dict PluginInputField) (args : Dict Value)
    → (validate_params input args ≡ ok tt) ↔ All (Fits args) input
unfolding validate_params
validate_params_iff [] args = (λ _. tt, λ _. refl)
validate_params_iff (f ∷ fs) args =
    let step = then_iff (check_param args f.0 f.1) (validate_params fs args) tt in
    (
      λ h.
          let (one, rest) = step.0 h in
          ((check_param_iff args f).0 one, (validate_params_iff fs args).0 rest),
      λ h. step.1 ((check_param_iff args f).1 h.0, (validate_params_iff fs args).1 h.1),
    )

-- The time limit of a plugin: its own where that is a positive duration, else the default.
pub data IsLimit (parse_duration : Str → Option ℤ) (p : PluginMeta) (default : ℤ) : ℤ → Type 0 where
  own :
      (d : ℤ)
      → p.timeout ≢ []
      → parse_duration p.timeout ≡ some d
      → pos 0 <ℤ d
      → IsLimit parse_duration p default d
  unset : p.timeout ≡ [] → IsLimit parse_duration p default default
  unread : parse_duration p.timeout ≡ none → IsLimit parse_duration p default default
  not_positive :
      (d : ℤ)
      → parse_duration p.timeout ≡ some d
      → d ≤ℤ pos 0
      → IsLimit parse_duration p default default

plugin_timeout-IsLimit :
    (parse_duration : Str → Option ℤ) (p : PluginMeta) (default : ℤ)
    → IsLimit parse_duration p default (plugin_timeout parse_duration p default)
unfolding plugin_timeout
plugin_timeout-IsLimit parse_duration p default = elim (Bool-cases (is_empty p.timeout)) [
  | inl e ↦ rw e (unset ((is_empty_iff p.timeout).0 e))
  | inr e ↦ elim (Option-cases (parse_duration p.timeout)) [
    | inl n ↦ rw e (rw n (unread n))
    | inr (d, n) ↦ elim (Bool-cases (is_nonpos d)) [
      | inl q ↦ rw e (rw n (rw q (not_positive d n (ground arith))))
      | inr q ↦ rw e (rw n (rw q (own d ((not_empty_iff p.timeout).0 e) n (ground arith))))
    ]
  ]
]

-- What the outcome of a script becomes: its value, its own error, or an internal error.
abbrev pub IsAnswer : Result GoError Value → ToolResult → Type 0
IsAnswer (ok v) r = (r.success ≡ true) × (r.payload ≡ v) × (r.error ≡ none)
IsAnswer (err (app e)) r = (r.success ≡ false) × (r.error ≡ some e)
IsAnswer (err (other m)) r =
    (r.success ≡ false) × (r.error ≡ some (record { code = internal_error; message = m }))

result_of-IsAnswer : (out : Result GoError Value) → IsAnswer out (result_of internal_error out)
result_of-IsAnswer (ok v) = (refl, refl, refl)
result_of-IsAnswer (err (app e)) = (refl, refl)
result_of-IsAnswer (err (other m)) = (refl, refl)

-- A plugin's script is run exactly when the arguments fit its declared parameters, under the
-- plugin's time limit or the default, and the answer is that of the script; arguments that do not
-- fit are answered as invalid parameters, whatever the script would do.
pub execute_lem :
    (parse_duration : Str → Option ℤ) (run : Str → Dict Value → ℤ → Result GoError Value)
    (default_timeout : ℤ) (plugin : PluginMeta) (args : Dict Value)
    → (All (Fits args) plugin.input
        × ((limit : ℤ) × IsLimit parse_duration plugin default_timeout limit
            × IsAnswer
                (run plugin.script args limit)
                (execute parse_duration run default_timeout plugin args)))
      ⊎ ((¬ All (Fits args) plugin.input)
          × ((m : Message) × ((execute parse_duration run default_timeout plugin args).success
                ≡ false)
              × ((execute parse_duration run default_timeout plugin args).error
                  ≡ some (record { code = invalid_params; message = m }))))
unfolding execute
execute_lem parse_duration run default_timeout plugin args =
    elim (Result-cases (validate_params plugin.input args)) [
      | inl (m, h) ↦ inr (
        λ fits. absurd (cc (h, (validate_params_iff plugin.input args).1 fits)),
        (m, rw (h, execute) refl, rw (h, execute) refl),
      )
      | inr (_, h) ↦ inl (
        (validate_params_iff plugin.input args).0 h,
        (
          plugin_timeout parse_duration plugin default_timeout,
          plugin_timeout-IsLimit parse_duration plugin default_timeout,
          rw (h, execute) (result_of-IsAnswer _),
        ),
      )
    ]

-- ===== src/Connector/Snmp/Walk/Bounded.antt =====
-- The walks of connector/snmp/snmp.go against an agent that lists its variables.
use ops_mcp.Connector.Snmp.Session.{open_device, pdu_var, vars_result}
use ops_mcp.Connector.Snmp.Types.{
  Pdu, Var, SnmpResult, WalkRequest, DeviceSettings, Walked, WalkFn, SnmpClient, Context, Snmp,
}
use ops_mcp.Connector.Snmp.Walk.{max_of, with_repetitions, is_sentinel, walk_fn, finish, walk_open}
use ops_mcp.Model.Errors.{AppError, caused, connector_failed}
use ops_mcp.Model.Snmp.{SnmpDevice}
use mathlib.Core.List.{append_assoc, append-nil}
use ops_mcp.Prelude.{
  ℕ, zero, suc, ◌+◌, ◌≤◌, ◌<◌, ◌≡◌, refl, sym, ap, ◌∙◌, inl, inr, Bool, true, false, Option, none,
  some, List, [], ◌∷◌, ◌++◌, map, arith, ltb, if◌then◌else◌, ltb→lt, ltb_false→le, Bool-cases,
  nat_eq, length, take, length-append, pos, leb_ℤ, Str, str, str_eq, Result, ok,
}

abbrev pub go_on_with : Walked × Option Str → (Walked → Walked × Option Str) → Walked × Option Str
go_on_with (t, none) rest = rest t
go_on_with (t, some e) rest = (t, some e)

-- A callback on each variable in order, until it returns an error or there are no more; then the
-- walk's own error, if it has one.
unfoldable pub each : WalkFn → List Pdu → Option Str → Walked → Walked × Option Str
each fn [] e s = (s, e)
each fn (pdu ∷ pdus) e s = go_on_with (fn pdu s) (each fn pdus e)

-- The agent has these variables under the root, and the walk calls the callback on them in order.
abbrev pub Lists : SnmpClient → Bool → Str → List Pdu → Option Str → Type 0
Lists client bulk oid pdus e =
    (fn : WalkFn) (s : Walked) → client.walk bulk oid fn s ≡ each fn pdus e s

abbrev pub NeverCancelled : Context → Type 0
NeverCancelled ctx = ((n : ℕ) → ctx.at_call n ≡ none) × (ctx.at_end ≡ none)

module _ (c : Snmp) (ctx : Context) (never : NeverCancelled ctx) (n : ℕ) where
  abbrev pub sentinel : Str
  sentinel = str "walk truncated at " ++ c.decimal (pos n) ++ str " oids"

  walk_fn-full :
      (pdu : Pdu) (vars : List Var)
      → n ≤ length vars
      → walk_fn c ctx (pos n) pdu (vars, false) ≡ ((vars, true), some sentinel)
  unfolding walk_fn
  walk_fn-full pdu vars h =
      let full : leb_ℤ (pos n) (pos (length vars)) ≡ true = ground arith in
      rw (never.0 (length vars), walk_fn, full) refl

  walk_fn-room :
      (pdu : Pdu) (vars : List Var)
      → length vars < n
      → walk_fn c ctx (pos n) pdu (vars, false) ≡ ((vars ++ pdu_var c pdu ∷ [], false), none)
  unfolding walk_fn
  walk_fn-room pdu vars h =
      let room : leb_ℤ (pos n) (pos (length vars)) ≡ false = ground arith in
      rw (never.0 (length vars), walk_fn, room) refl

  each_fits :
      (pdus : List Pdu) (e : Option Str) (vars : List Var)
      → length vars + length pdus ≤ n
      → each (walk_fn c ctx (pos n)) pdus e (vars, false)
        ≡ ((vars ++ map (pdu_var c) pdus, false), e)
  unfolding each
  each_fits [] e vars h = ap (λ t. ((t, false), e)) (sym (append-nil vars))
  each_fits (pdu ∷ pdus) e vars h = rw (walk_fn-room pdu vars (omega (arith, h))) (
      each_fits pdus e (vars ++ pdu_var c pdu ∷ [])
        (omega (arith, h, length-append vars (pdu_var c pdu ∷ [])))
      ∙ ap (λ t. ((t, false), e)) (append_assoc vars (pdu_var c pdu ∷ []) (map (pdu_var c) pdus)))

  each_over :
      (r : ℕ) (pdus : List Pdu) (e : Option Str) (vars : List Var)
      → length vars + r ≡ n
      → r < length pdus
      → each (walk_fn c ctx (pos n)) pdus e (vars, false)
        ≡ ((vars ++ take r (map (pdu_var c) pdus), true), some sentinel)
  unfolding each
  each_over r [] e vars h over = absurd (omega (arith, over))
  each_over zero (pdu ∷ pdus) e vars h over =
      rw (walk_fn-full pdu vars (omega (arith, h)))
        (ap (λ t. ((t, true), some sentinel)) (sym (append-nil vars)))
  each_over (suc r) (pdu ∷ pdus) e vars h over = rw (walk_fn-room pdu vars (omega (arith, h))) (
      each_over r pdus e (vars ++ pdu_var c pdu ∷ [])
        (omega (arith, h, length-append vars (pdu_var c pdu ∷ []))) (omega (arith, over))
      ∙ ap (λ t. ((t, true), some sentinel))
          (append_assoc vars (pdu_var c pdu ∷ []) (take r (map (pdu_var c) pdus))))

  -- What a walk that was not cut says, with the error of the client if there is one.
  abbrev pub ended : Str → List Var → Option Str → Result AppError SnmpResult
  ended name vars none = ok (vars_result name vars false)
  ended name vars (some e) =
      if is_sentinel e then ok (vars_result name vars true) else connector_failed (caused name e)

  finish-ended :
      (name : Str) (vars : List Var) (e : Option Str)
      → finish c ctx name ((vars, false), e) ≡ ended name vars e
  unfolding finish
  finish-ended name vars none = refl
  finish-ended name vars (some e) = rw (never.1) refl

  finish_cut :
      (name : Str) (vars : List Var)
      → finish c ctx name ((vars, true), some sentinel) ≡ ok (vars_result name vars true)
  unfolding finish
  finish_cut name vars = refl

  walk_open_at :
      (bulk : Bool) (dev : SnmpDevice) (settings : DeviceSettings) (oid : Str) (req : WalkRequest)
      (client : SnmpClient) (pdus : List Pdu) (e : Option Str)
      → open_device c dev (with_repetitions settings req) ≡ ok client
      → max_of settings req ≡ pos n
      → Lists client bulk oid pdus e
      → walk_open c ctx bulk dev settings oid req
        ≡ finish c ctx dev.name (each (walk_fn c ctx (pos n)) pdus e ([], false))
  unfolding walk_open
  walk_open_at bulk dev settings oid req client pdus e opened limit lists =
      rw (opened, limit, lists (walk_fn c ctx (pos n)) ([], false)) refl

  -- A walk that is not cancelled, plain or bulk, of an agent with these variables: when they are
  -- more than the limit, the result is the first of them up to the limit and says that it is
  -- truncated; else it is all of them, unless the client failed for another reason than the limit.
  pub walk_open_lem :
      (bulk : Bool) (dev : SnmpDevice) (settings : DeviceSettings) (oid : Str) (req : WalkRequest)
      (client : SnmpClient) (pdus : List Pdu) (e : Option Str)
      → open_device c dev (with_repetitions settings req) ≡ ok client
      → max_of settings req ≡ pos n
      → Lists client bulk oid pdus e
      → walk_open c ctx bulk dev settings oid req ≡ (
          if ltb n (length pdus)
          then ok (vars_result dev.name (take n (map (pdu_var c) pdus)) true)
          else ended dev.name (map (pdu_var c) pdus) e)
  walk_open_lem bulk dev settings oid req client pdus e opened limit lists =
      walk_open_at bulk dev settings oid req client pdus e opened limit lists
      ∙ elim (Bool-cases (ltb n (length pdus))) [
        | inl over ↦
            rw (over, each_over n pdus e [] (omega arith) (ltb→lt n (length pdus) over))
              (finish_cut dev.name (take n (map (pdu_var c) pdus)))
        | inr fits ↦
            rw (fits, each_fits pdus e [] (omega (arith, ltb_false→le n (length pdus) fits)))
              (finish-ended dev.name (map (pdu_var c) pdus) e)
      ]

-- ===== src/Mcp/Server/Answers.antt =====
-- Which requests are answered, and how.
use mathlib.Core.Path.{subst}
use ops_mcp.Prelude.Value.{done}
use ops_mcp.Prelude.Value.{null}
use ops_mcp.Mcp.Protocol.{decode_id, Request, is_notification, initialize, Response}
use ops_mcp.Mcp.Server.{
  Server, Surroundings, handle_method, Value, some, ok_response, err_response, negsuc, object,
  Option, not, is_empty, handle, tools_list, tools_call,
}
use ops_mcp.Mcp.Server.Replies.{
  answered, silent, IsVersion2, is_one_of, is_one_of_iff, apart, NoId, NoId-iff, IsIdOf-decode_id,
  IsResult, IsError,
}
use ops_mcp.Prelude.{
  ◌++◌, ◌≡◌, refl, sym, ◌⊎◌, Bool, true, false, none, [], arith, ◌==◌, Has, Str, str, str_beq_iff,
  str_eq, Bool-cases, inl, inr, is_empty_iff, Option-cases, ◌&&◌, if◌then◌else◌, ◌∙◌,
}

module _ (around : Surroundings) (s : Server) (req : Request) where
  -- The result of each method that has one.
  abbrev pub ResultOf : Value → Type 0
  ResultOf v =
      ((req.method ≡ str "initialize") × (v ≡ initialize around.codec req.params))
      ⊎ (((req.method ≡ str "ping") × (v ≡ object done))
          ⊎ (((req.method ≡ str "tools/list") × (v ≡ tools_list s))
              ⊎ ((req.method ≡ str "tools/call") × (v ≡ tools_call around s req.params))))

  method_nil :
      handle_method around s req ≡ none
      → (is_one_of silent req.method ≡ true)
        ⊎ ((is_one_of answered req.method ≡ false) × (is_notification req.id ≡ true))
  unfolding handle_method
  method_nil h = ground arith

  method_silent : is_one_of silent req.method ≡ true → handle_method around s req ≡ none
  unfolding handle_method
  method_silent h = ground (arith, apart req.method h)

  method_unknown :
      is_one_of answered req.method ≡ false
      → is_notification req.id ≡ true
      → handle_method around s req ≡ none
  unfolding handle_method
  method_unknown h n = ground arith

  method_answered :
      is_one_of answered req.method ≡ true
      → is_one_of silent req.method ≡ false
      → (v : Value) × ResultOf v
        × (handle_method around s req ≡ some (ok_response around s req.id v))
  unfolding handle_method
  method_answered h n = elim (Bool-cases (req.method == str "initialize")) [
    | inl a ↦ (
      initialize around.codec req.params,
      inl ((str_beq_iff req.method _).0 a, refl),
      ground arith,
    )
    | inr a ↦ elim (Bool-cases (req.method == str "ping")) [
      | inl b ↦ (object done, inr (inl ((str_beq_iff req.method _).0 b, refl)), ground arith)
      | inr b ↦ elim (Bool-cases (req.method == str "tools/list")) [
        | inl c ↦
            (tools_list s, inr (inr (inl ((str_beq_iff req.method _).0 c, refl))), ground arith)
        | inr c ↦ (
          tools_call around s req.params,
          inr (inr (inr ((str_beq_iff req.method _).0 (ground arith), refl))),
          ground arith,
        )
      ]
    ]
  ]

  method_refused :
      is_one_of answered req.method ≡ false
      → is_one_of silent req.method ≡ false
      → is_notification req.id ≡ false
      → handle_method around s req
        ≡ some
            (err_response around s req.id (negsuc 32600) (str "method not found: " ++ req.method))
  unfolding handle_method
  method_refused h n i = ground arith

  -- What becomes of a request of a known version.
  abbrev pub Handled : Option Response → Type 0
  Handled out =
      ((v : Value) × ResultOf v × IsResult around.codec req.id v out)
      ⊎ (((Has req.method silent ⊎ ((¬ Has req.method answered) × NoId req.id)) × (out ≡ none))
          ⊎ ((¬ Has req.method answered)
              × (¬ Has req.method silent)
              × (¬ NoId req.id)
              × IsError around.codec req.id (negsuc 32600) (str "method not found: " ++ req.method)
                  out))

  handled : Handled (handle_method around s req)
  handled =
      let quiet = is_one_of_iff silent req.method in
      let known = is_one_of_iff answered req.method in
      let no_id = NoId-iff req.id in
      let id = IsIdOf-decode_id around.codec req.id in
      elim (Bool-cases (is_one_of silent req.method)) [
        | inl q ↦ inr (inl (inl (quiet.0 q), method_silent q))
        | inr q ↦ elim (Bool-cases (is_one_of answered req.method)) [
          | inl k ↦
              let (v, made, e) = method_answered k q in
              inl (v, made, (decode_id around.codec req.id, id, e))
          | inr k ↦ elim (Bool-cases (is_notification req.id)) [
            | inl n ↦ inr (inl (inr (λ h. cc (k, known.1 h), no_id.0 n), method_unknown k n))
            | inr n ↦ inr (
                inr (
                  λ h. cc (k, known.1 h),
                  λ h. cc (q, quiet.1 h),
                  λ h. cc (n, no_id.1 h),
                  (decode_id around.codec req.id, id, method_refused k q n),
                ))
          ]
        ]
      ]

  abbrev refuses_version : Bool
  refuses_version = not (is_empty req.jsonrpc) && not (req.jsonrpc == str "2.0")

  IsVersion2-of : refuses_version ≡ false → IsVersion2 req
  IsVersion2-of h = elim (Bool-cases (is_empty req.jsonrpc)) [
    | inl e ↦ inl ((is_empty_iff req.jsonrpc).0 e)
    | inr e ↦ inr ((str_beq_iff req.jsonrpc (str "2.0")).0 (ground arith))
  ]

  not_IsVersion2 : refuses_version ≡ true → ¬ IsVersion2 req
  not_IsVersion2 h = elim [
    | inl e ↦ ground (arith, (is_empty_iff req.jsonrpc).1 e)
    | inr e ↦ ground (arith, (str_beq_iff req.jsonrpc (str "2.0")).1 e)
  ]

module _ (around : Surroundings) (s : Server) (raw : Str) where
  handle_undecoded :
      (around.codec).request raw ≡ none
      → handle around s raw ≡ some (err_response around s [] (negsuc 32699) (str "parse error"))
  unfolding handle
  handle_undecoded h = rw (h, handle) refl

  handle_decoded :
      (req : Request)
      → (around.codec).request raw ≡ some req
      → handle around s raw ≡ (
          if refuses_version around s req
          then some (
              err_response around s req.id
                (negsuc 32599)
                (str "invalid request: jsonrpc must be 2.0"))
          else handle_method around s req)
  unfolding handle
  handle_decoded req h = rw (h, handle) refl

  -- A text that is no request is answered by a parse error with a null id, and a request of another
  -- version by an error with its id. For the others, initialize, ping, tools/list and tools/call
  -- are answered by their results with the id of the request, also where it is a notification; the
  -- two notifications of a finished initialization, and any unknown method without an id, are not
  -- answered; and an unknown method with an id is answered by an error with its name. An id that is
  -- absent or not decoded is null in the answer.
  pub handle_lem :
      (((around.codec).request raw ≡ none)
        × (handle around s raw
            ≡ some (record {
              jsonrpc = str "2.0";
              id = null;
              result = none;
              error =
                  some (record {
                    code = negsuc 32699;
                    message = str "parse error";
                    error_data = null;
                  });
            })))
      ⊎ ((req : Request) × ((around.codec).request raw ≡ some req)
          × (((¬ IsVersion2 req)
                × IsError around.codec req.id
                    (negsuc 32599)
                    (str "invalid request: jsonrpc must be 2.0")
                    (handle around s raw))
              ⊎ (IsVersion2 req × Handled around s req (handle around s raw))))
  unfolding decode_id is_notification
  handle_lem = elim (Option-cases ((around.codec).request raw)) [
    | inl h ↦ inl (h, handle_undecoded h)
    | inr (req, h) ↦ inr (
      req,
      h,
      elim (Bool-cases (refuses_version around s req)) [
        | inl r ↦ inl (
          not_IsVersion2 around s req r,
          (
            decode_id around.codec req.id,
            IsIdOf-decode_id around.codec req.id,
            rw (handle_decoded req h) (rw r refl),
          ),
        )
        | inr r ↦ inr (
          IsVersion2-of around s req r,
          subst (Handled around s req) (sym (handle_decoded req h ∙ rw r refl))
              (handled around s req),
        )
      ],
    )
  ]

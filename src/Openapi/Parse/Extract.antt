-- ===== src/Openapi/Parse/Extract.antt =====
-- extractOperations of parse.go.
use ops_mcp.Openapi.Operation.{Operation, RequestBody}
use ops_mcp.Openapi.Parse.Raw.{RawOperation, RawParameter, RawPathItem, RawDoc, http_methods}
use ops_mcp.Openapi.Parse.Params.{merge_parameters}
use ops_mcp.Openapi.Parse.Body.{BodyWarning, project_request_body}
use ops_mcp.Prelude.{
  Option, none, some, List, [], ◌∷◌, ◌++◌, map, if◌then◌else◌, nat_eq, Str, str, str_eq, is_empty,
  Dict, lookup, insert, Result, ok, err,
}

pub data DocWarning : Type 0 where
  missing_operation_id : Str → Str → DocWarning
  duplicate_operation_id : Str → Str → Str → Str → DocWarning
  parameter_ref : Str → DocWarning
  in_body : BodyWarning → DocWarning

-- The variables of extractOperations.
pub record Found : Type 0 where
  pub ops : List Operation
  pub warns : List DocWarning
  pub seen_ids : Dict Str

abbrev pub duplicate_reason : Str
duplicate_reason = str "duplicate_operation_id"

abbrev pub duplicate_op : Str → Str → Str → Str → Operation
duplicate_op api_name operation_id method path = record {
  api_name = api_name;
  operation_id = operation_id;
  method = method;
  path = path;
  tags = [];
  summary = [];
  description = [];
  parameters = [];
  request_body = none;
  skip_reason = duplicate_reason;
}

-- The body of an operation, or the reason to skip it, which is empty if there is none.
abbrev pub body_or_reason :
    Option (Result Str (Option RequestBody) × List BodyWarning) → Option RequestBody × Str
body_or_reason none = (none, [])
body_or_reason (some (ok rb, _)) = (rb, [])
body_or_reason (some (err reason, _)) = (none, reason)

abbrev pub body_warns :
    Option (Result Str (Option RequestBody) × List BodyWarning) → List BodyWarning
body_warns none = []
body_warns (some (_, ws)) = ws

module _ (unicode : Str → Str) (api_name : Str) (doc : RawDoc) where
  unfoldable pub projected :
      RawOperation → Option (Result Str (Option RequestBody) × List BodyWarning)
  unfolding project_request_body
  projected raw = elim raw.request_body [
    | none ↦ none
    | some rb ↦ some (project_request_body rb doc)
  ]

  -- The operation made of a raw one whose identifier is new.
  unfoldable pub make_op : Str → Str → List RawParameter → RawOperation → Operation
  unfolding merge_parameters projected
  make_op path method path_params raw =
      let (rb, reason) = body_or_reason (projected raw) in
      record {
        api_name = api_name;
        operation_id = raw.operation_id;
        method = method;
        path = path;
        tags = raw.tags;
        summary = raw.summary;
        description = raw.description;
        parameters = (merge_parameters unicode path_params raw.parameters).0;
        request_body = rb;
        skip_reason = reason;
      }

  unfoldable pub make_warns : List RawParameter → RawOperation → List DocWarning
  unfolding merge_parameters projected
  make_warns path_params raw =
      map parameter_ref (merge_parameters unicode path_params raw.parameters).1
      ++ map in_body (body_warns (projected raw))

  -- One round of the inner loop, at a method for which the path has an operation.
  unfoldable pub visit : Str → List RawParameter → Str → RawOperation → Found → Found
  unfolding make_op make_warns insert lookup
  visit path path_params method raw s =
      if is_empty raw.operation_id
      then record s { warns = s.warns ++ missing_operation_id method path ∷ [] }
      else elim (lookup raw.operation_id s.seen_ids) [
        | some prev ↦ record s {
          warns = s.warns ++ duplicate_operation_id raw.operation_id prev method path ∷ [];
          ops = s.ops ++ duplicate_op api_name raw.operation_id method path ∷ [];
        }
        | none ↦ record {
          ops = s.ops ++ make_op path method path_params raw ∷ [];
          warns = s.warns ++ make_warns path_params raw;
          seen_ids = insert raw.operation_id (method ++ (b' ' ∷ path)) s.seen_ids;
        }
      ]

  unfoldable pub visit_methods :
      Str → List RawParameter → List (Str × Option RawOperation) → Found → Found
  unfolding visit
  visit_methods path path_params [] s = s
  visit_methods path path_params ((method, none) ∷ ms) s = visit_methods path path_params ms s
  visit_methods path path_params ((method, some raw) ∷ ms) s =
      visit_methods path path_params ms (visit path path_params method raw s)

  unfoldable pub visit_paths : Dict RawPathItem → Found → Found
  unfolding visit_methods
  visit_paths [] s = s
  visit_paths ((path, item) ∷ rest) s =
      visit_paths rest (visit_methods path item.parameters (http_methods item) s)

  unfoldable pub extract_operations : List Operation × List DocWarning
  unfolding visit_paths
  extract_operations =
      let s = visit_paths doc.paths (record { ops = []; warns = []; seen_ids = [] }) in
      (s.ops, s.warns)

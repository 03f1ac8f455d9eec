-- ===== src/Openapi/Parse/Raw.antt =====
-- The decoded document of parse.go, and the checks of loadDoc on it.
use ops_mcp.Prelude.Value.{Value}
use ops_mcp.Prelude.{
  Bool, not, Option, List, [], ◌∷◌, nat_eq, Str, str, str_eq, is_empty, has_prefix, Dict, Result,
  ok, ◌>>=◌, ◌>>◌, refuse,
}

-- A `schema` that is not given is a nil map.
pub record RawParameter : Type 0 where
  pub name : Str
  pub location : Str
  pub required : Bool
  pub description : Str
  pub schema : Option (Dict Value)
  pub ref : Str

pub record RawRequestBody : Type 0 where
  pub required : Bool
  -- the schema of each media type
  pub content : Dict (Option (Dict Value))
  pub ref : Str

pub record RawOperation : Type 0 where
  pub operation_id : Str
  pub tags : List Str
  pub summary : Str
  pub description : Str
  pub parameters : List RawParameter
  pub request_body : Option RawRequestBody

pub record RawPathItem : Type 0 where
  pub parameters : List RawParameter
  pub get : Option RawOperation
  pub put : Option RawOperation
  pub post : Option RawOperation
  pub delete : Option RawOperation
  pub options : Option RawOperation
  pub head : Option RawOperation
  pub patch : Option RawOperation
  pub trace : Option RawOperation

pub record RawDoc : Type 0 where
  pub openapi : Str
  pub paths : Dict RawPathItem
  -- components.schemas
  pub schemas : Option (Dict Value)

-- httpMethods, with what each method finds at a path.
abbrev pub http_methods : RawPathItem → List (Str × Option RawOperation)
http_methods p =
    (str "GET", p.get)
    ∷ (str "PUT", p.put)
    ∷ (str "POST", p.post)
    ∷ (str "DELETE", p.delete)
    ∷ (str "OPTIONS", p.options)
    ∷ (str "HEAD", p.head)
    ∷ (str "PATCH", p.patch)
    ∷ (str "TRACE", p.trace)
    ∷ []

pub data DocError : Type 0 where
  -- the file cannot be read, or is neither YAML nor JSON
  unreadable unparsable missing_version : Str → DocError
  unsupported_version : Str → Str → DocError

-- loadDoc, where `read` reads and decodes the file.
unfoldable pub load_doc : (Str → Result DocError RawDoc) → Str → Result DocError RawDoc
unfolding has_prefix
load_doc read path = do
  doc ← read path
  refuse (is_empty doc.openapi) (missing_version path)
  refuse (not (has_prefix doc.openapi (str "3."))) (unsupported_version path doc.openapi)
  ok doc

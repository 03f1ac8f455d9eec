-- ===== src/Config/Commands.antt =====
-- loadCommands and loadAPIs of config/config.go, and config/envexpand.go.
pub mod Executable
pub mod Expanded
use ops_mcp.Config.Errors.{
  Resource, ConfigError, missing_name, duplicate_name, missing_path, path_not_absolute, env_not_set,
  openapi_path_required, base_url_required, FileRead,
}
use ops_mcp.Config.Load.{load_optional}
use ops_mcp.Model.Command.{Command}
use ops_mcp.Model.Api.{ApiService}
use ops_mcp.Prelude.{
  Bool, false, not, ◌&&◌, ◌||◌, Option, none, some, List, [], ◌∷◌, ◌++◌, if◌then◌else◌, nat_eq,
  ◌==◌, is_nil, Str, str, str_eq, is_empty, Dict, has, insert, Result, ok, err, ◌>>=◌, refuse, ◌>>◌,
  for_each,
}

-- A command that has no available path is left out, with a warning of its name and candidates.
abbrev pub Warning : Type 0
Warning = Str × List Str

-- What os.Stat tells of a file.
pub record FileInfo : Type 0 where
  pub is_dir : Bool
  pub is_executable : Bool

-- `clean`, `is_abs` and `stat` are filepath.Clean, filepath.IsAbs and os.Stat.
module _ (clean : Str → Str) (is_abs : Str → Bool) (stat : Str → Option FileInfo) where
  unfoldable pub normalize_path_candidates : List Str → List Str
  normalize_path_candidates [] = []
  normalize_path_candidates (p ∷ ps) =
      let rest = normalize_path_candidates ps in
      let c = clean p in if is_empty c || (c == str ".") then rest else c ∷ rest

  unfoldable pub command_path_available : Str → Bool
  command_path_available path = elim (stat path) [
    | none ↦ false
    | some info ↦ not info.is_dir && info.is_executable
  ]

  -- The first available path, the empty one if there is none.
  unfoldable pub resolve_command_path : List Str → Str
  resolve_command_path [] = []
  resolve_command_path (p ∷ ps) = if command_path_available p then p else resolve_command_path ps

  unfoldable pub check_absolute : Str → List Str → Result ConfigError (Unit {0})
  check_absolute name [] = ok tt
  check_absolute name (p ∷ ps) =
      refuse (not (is_abs p)) (path_not_absolute name p) >> check_absolute name ps

  unfoldable pub add_command :
      Command → Dict Command × List Warning → Result ConfigError (Dict Command × List Warning)
  add_command c (out, warnings) =
      let candidates = normalize_path_candidates c.paths in
      do
        refuse (is_empty c.name) (missing_name Resource.commands)
        refuse (is_nil candidates) (missing_path c.name)
        check_absolute c.name candidates
        refuse (has c.name out) (duplicate_name Resource.commands c.name)
        let resolved = resolve_command_path candidates
        if is_empty resolved
            then ok (out, warnings ++ (c.name, candidates) ∷ [])
            else ok (insert c.name (record c { paths = candidates; path = resolved }) out, warnings)

  unfoldable pub load_commands :
      (Str → FileRead (List Command)) → Str → Result ConfigError (Dict Command × List Warning)
  load_commands read path =
      load_optional Resource.commands path ([], []) (λ cs. for_each add_command cs ([], []))
        (read path)

-- A text cut at the matches of envVarPattern: a stretch without one, or a variable's name.
pub data Piece : Type 0 where
  plain variable : Str → Piece

-- `pieces` is the matching of envVarPattern, `lookup_env` is os.LookupEnv.
module _ (pieces : Str → List Piece) (lookup_env : Str → Option Str) where
  -- The text, or the first variable that is not set.
  unfoldable pub expand_pieces : List Piece → Result Str Str
  expand_pieces [] = ok []
  expand_pieces (plain s ∷ ps) = expand_pieces ps >>= λ rest. ok (s ++ rest)
  expand_pieces (variable name ∷ ps) = elim (lookup_env name) [
    | none ↦ err name
    | some val ↦ expand_pieces ps >>= λ rest. ok (val ++ rest)
  ]

  unfoldable pub expand_env_strict : Str → Str → Result ConfigError Str
  expand_env_strict s field_path = elim (expand_pieces (pieces s)) [
    | err name ↦ err (env_not_set field_path name)
    | ok out ↦ ok out
  ]

  unfoldable pub expand_header : Str → Str × Str → Dict Str → Result ConfigError (Dict Str)
  expand_header prefix (k, v) headers =
      expand_env_strict v (prefix ++ str ".headers." ++ k) >>= λ expanded.
      ok (insert k expanded headers)

  unfoldable pub expand_api_service : ApiService → Str → Result ConfigError ApiService
  expand_api_service a prefix =
      expand_env_strict a.openapi_path (prefix ++ str ".openapi.path") >>= λ path.
      expand_env_strict a.endpoint.base_url (prefix ++ str ".endpoint.base_url") >>= λ base.
      for_each (expand_header prefix) a.headers [] >>= λ headers. ok (record a {
        openapi_path = path;
        endpoint = record a.endpoint { base_url = base };
        headers = headers;
      })

  abbrev pub api_prefix : Str → Str
  api_prefix name = str "apis[" ++ name ++ str "]"

  unfoldable pub add_api : ApiService → Dict ApiService → Result ConfigError (Dict ApiService)
  add_api a out = do
    refuse (is_empty a.name) (missing_name Resource.apis)
    refuse (has a.name out) (duplicate_name Resource.apis a.name)
    expand_api_service a (api_prefix a.name) >>= λ expanded. do
      refuse (is_empty expanded.openapi_path) (openapi_path_required (api_prefix a.name))
      refuse (is_empty expanded.endpoint.base_url) (base_url_required (api_prefix a.name))
      ok (insert expanded.name expanded out)

  unfoldable pub load_apis :
      (Str → FileRead (List ApiService)) → Str → Result ConfigError (Dict ApiService)
  load_apis read path =
      load_optional Resource.apis path [] (λ as_read. for_each add_api as_read []) (read path)

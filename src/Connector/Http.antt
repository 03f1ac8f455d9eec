-- ===== src/Connector/Http.antt =====
-- connector/http/http.go: Do, with the net/http client and the URL and JSON libraries as parameters.
pub mod Prepared
mod Tests
use ops_mcp.Config.Lookup.{LookupError, get_api, default_plugin_timeout}
use ops_mcp.Config.Manager.{Manager}
use ops_mcp.Model.Api.{ApiService, verify_tls_enabled, endpoint_timeout}
use ops_mcp.Model.Errors.{
  AppError, connector_error, caused, not_found, text, invalid, connector_failed, refuse_invalid,
}
use ops_mcp.Prelude.Value.{Value, null, string, is_null}
use ops_mcp.Prelude.{
  ◌&&◌, ◌||◌, not, Bool, true, false, Option, none, some, List, [], ◌∷◌, ◌++◌, is_nil, take,
  if◌then◌else◌, ◌==◌, ℤ, pos, is_nonpos, Str, str, str_eq, is_empty, contains, has_prefix,
  to_lower, to_upper, trim_space, trim_right_byte, Dict, lookup, insert, Result, ok, err, ◌>>=◌,
  ◌>>◌,
}

-- A request has either the name of an API and a path, or a URL.
pub record HttpRequest : Type 0 where
  pub api : Str
  pub url : Str
  pub method : Str
  pub path : Str
  pub query : Dict Str
  pub headers : Dict Str
  pub body : Value
  pub timeout : ℤ
  pub verify_tls : Option Bool

pub record HttpResult : Type 0 where
  pub status_code : ℤ
  pub headers : Dict Str
  pub body : Value

-- A parsed URL, with the values of its query by key; `rest` is all else of it.
pub record Url : Type 0 where
  pub scheme : Str
  pub host : Str
  pub rest : Str
  pub query : Dict (List Str)

-- What is sent: the client's timeout and its TLS setting, and the request.
pub record Sent : Type 0 where
  pub method : Str
  pub url : Url
  pub headers : Dict Str
  pub body : Option Str
  pub timeout : ℤ
  pub insecure_skip_verify : Bool

-- A response, its headers with all their values, and its body or the error of reading it.
pub record HttpResponse : Type 0 where
  pub status_code : ℤ
  pub headers : Dict (List Str)
  pub content_type : Str
  pub raw : Result Str Str

-- url.Parse, http.NewRequest's check, CanonicalHeaderKey, json.Marshal, Unmarshal and Valid, the
-- case tables outside ASCII, and time.ParseDuration.
pub record Library : Type 0 where
  pub parse_url : Str → Option Url
  pub new_request : Str → Url → Option Str
  pub canonical : Str → Str
  pub marshal : Value → Result Str Str
  pub unmarshal : Str → Option Value
  pub json_valid : Str → Bool
  pub unicode_lower : Str → Str
  pub unicode_upper : Str → Str
  pub parse_duration : Str → Option ℤ

-- Where a request goes: the URL, the headers of the API, its timeout and its TLS check.
pub record Target : Type 0 where
  pub url : Url
  pub base_headers : Dict Str
  pub timeout : ℤ
  pub verify_tls : Bool

abbrev pub or_verify : Bool → Option Bool → Bool
or_verify default none = default
or_verify default (some b) = b

abbrev pub rooted : Str → Str
rooted path = if has_prefix path (str "/") then path else str "/" ++ path

abbrev pub is_http : Str → Bool
is_http scheme = (scheme == str "http") || (scheme == str "https")

module _ (lib : Library) (cfg : Manager) where
  abbrev pub api_url : HttpRequest → ApiService → Option Url → Result AppError Target
  api_url req svc none = connector_failed (text (str "invalid url"))
  api_url req svc (some u) = ok (record {
    url = u;
    base_headers = svc.headers;
    timeout =
        if is_nonpos req.timeout
        then endpoint_timeout lib.parse_duration svc.endpoint
        else req.timeout;
    verify_tls = or_verify (verify_tls_enabled svc.endpoint) req.verify_tls;
  })

  -- The URL of an API call: the base, without the slashes at its end, and the path.
  abbrev pub at_api : HttpRequest → Result LookupError ApiService → Result AppError Target
  at_api req (err e) = connector_failed (not_found (str "api") req.api)
  at_api req (ok svc) =
      if is_empty (trim_space req.path)
      then invalid (text (str "path is required when using api"))
      else api_url req svc
          (lib.parse_url (trim_right_byte b'/' svc.endpoint.base_url ++ rooted req.path))

  unfoldable pub api_target : HttpRequest → Result AppError Target
  api_target req = at_api req (get_api cfg req.api)

  abbrev pub plain_url : HttpRequest → Option Url → Result AppError Target
  plain_url req none = invalid (text (str "url must be an absolute http(s) URL"))
  plain_url req (some u) =
      if is_empty u.scheme || is_empty u.host
      then invalid (text (str "url must be an absolute http(s) URL"))
      else if not (is_http u.scheme)
      then invalid (text (str "url scheme must be http or https"))
      else ok (record {
        url = u;
        base_headers = [];
        timeout = req.timeout;
        verify_tls = or_verify true req.verify_tls;
      })

  unfoldable pub url_target : HttpRequest → Result AppError Target
  url_target req = plain_url req (lib.parse_url req.url)

  unfoldable pub target : HttpRequest → Result AppError Target
  unfolding api_target url_target
  target req = do
    refuse_invalid (not (is_empty (trim_space req.api)) && not (is_empty (trim_space req.url)))
        (str "api and url are mutually exclusive")
    refuse_invalid (is_empty (trim_space req.api) && is_empty (trim_space req.url))
        (str "either api or url is required")
    if not (is_empty (trim_space req.api)) then api_target req else url_target req

  -- The configuration's timeout where there is none, and 30 seconds where that is not positive.
  unfoldable pub timeout_of : ℤ → ℤ
  timeout_of t =
      let u = if is_nonpos t then default_plugin_timeout lib.parse_duration cfg else t in
      if is_nonpos u then pos 30000000000 else u

  -- q.Set for each parameter.
  unfoldable pub set_query : Dict Str → Dict (List Str) → Dict (List Str)
  set_query [] q = q
  set_query (b ∷ bs) q = set_query bs (insert b.0 (b.1 ∷ []) q)

  -- Header.Set for each header.
  unfoldable pub set_headers : Dict Str → Dict Str → Dict Str
  set_headers [] h = h
  set_headers (b ∷ bs) h = set_headers bs (insert (lib.canonical b.0) b.1 h)

  abbrev pub content_type : Value → Dict Str
  content_type body =
      if is_null body then [] else (lib.canonical (str "Content-Type"), str "application/json") ∷ []

  abbrev pub encoded : Result Str Str → Result AppError (Option Str)
  encoded (ok raw) = ok (some raw)
  encoded (err e) = invalid (caused (str "encode body") e)

  abbrev pub body_of : Value → Result AppError (Option Str)
  body_of body = if is_null body then ok none else encoded (lib.marshal body)

  abbrev pub unless_refused : Option Str → Result AppError (Unit {0})
  unless_refused none = ok tt
  unless_refused (some e) = connector_failed (text e)

  -- Up to client.Do.
  unfoldable pub prepare : HttpRequest → Result AppError Sent
  unfolding target timeout_of set_query set_headers
  prepare req = do
    let method = to_upper lib.unicode_upper (trim_space req.method)
    refuse_invalid (is_empty method) (str "method is required")
    t ← target req
    body ← body_of req.body
    let url = record t.url { query = set_query req.query t.url.query }
    unless_refused (lib.new_request method url)
    ok (record {
      method = method;
      url = url;
      headers = set_headers req.headers (set_headers t.base_headers (content_type req.body));
      body = body;
      timeout = timeout_of t.timeout;
      insecure_skip_verify = not t.verify_tls;
    })

  -- The first value of each header, by its name in lower case.
  unfoldable pub first_values : Dict (List Str) → Dict Str → Dict Str
  first_values [] out = out
  first_values ((k, []) ∷ hs) out = first_values hs out
  first_values ((k, v ∷ vs) ∷ hs) out =
      first_values hs (insert (to_lower lib.unicode_lower k) v out)

  unfoldable pub decode_body : Str → Str → Value
  decode_body content_type raw =
      if is_nil raw
      then null
      else if contains content_type (str "json") || lib.json_valid raw
      then (elim (lib.unmarshal raw) [ none ↦ string raw | some v ↦ v ])
      else string raw

  -- 8 MiB.
  abbrev pub read_body : Result Str Str → Result AppError Str
  read_body (ok raw) = ok (take 8388608 raw)
  read_body (err e) = connector_failed (caused (str "read response") e)

  abbrev pub answered : Result Str HttpResponse → Result AppError HttpResponse
  answered (ok resp) = ok resp
  answered (err e) = connector_failed (caused (str "http request failed") e)

  unfoldable pub receive : Result Str HttpResponse → Result AppError HttpResult
  unfolding first_values decode_body
  receive out = do
    resp ← answered out
    raw ← read_body resp.raw
    ok (record {
      status_code = resp.status_code;
      headers = first_values resp.headers [];
      body = decode_body resp.content_type raw;
    })

  unfoldable pub http_do :
      (Sent → Result Str HttpResponse) → HttpRequest → Result AppError HttpResult
  unfolding prepare receive
  http_do send req = prepare req >>= λ sent. receive (send sent)

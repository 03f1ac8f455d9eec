-- ===== src/Api/Routes/Answered.antt =====
-- Which requests change the service.
use ops_mcp.Api.Reload.{Found, Service, reload}
use ops_mcp.Api.Routes.{
  ApiRequest, Route, Web, allowed, answer, api_error, post_routes, reloads, mcp_post, mcp_get,
  mcp_delete, health, index, plugins, tools, hosts, databases, redis, kafka, apis, commands, snmp,
  mcp_delete, routed, routes_of, serve,
}
use ops_mcp.Config.Lookup.{auth_token}
use ops_mcp.Guard.Auth.{Verdict, next, require_auth, unauthorized}
use ops_mcp.Prelude.{
  ◌∷◌, Bool, lookup, str_beq, true, Str, false, Dict, ◌≡◌, all, some, str, Bool-cases, ◌==◌, inl,
  inr, str_eq, ◌⊎◌, not, str_beq_iff, Option, refl, ◌||◌, ap, none, arith, [],
}

is_reload : Route → Bool
is_reload reloads = true
is_reload _ = false

bound-all :
    (test : Str × Route → Bool) {j k : Str} {w v : Route}
    → j ≡ k
    → some w ≡ some v
    → test (j, w) ≡ true
    → test (k, v) ≡ true
bound-all test key bound h = cc (key, bound, h)

Verdict-cases : (v : Verdict) → (v ≡ next) ⊎ (v ≡ unauthorized)
Verdict-cases next = inl refl
Verdict-cases unauthorized = inr refl

lookup-all :
    (test : Str × Route → Bool) (k : Str) (v : Route) (m : Dict Route)
    → all test m ≡ true
    → lookup k m ≡ some v
    → test (k, v) ≡ true
unfolding lookup
lookup-all test k v [] h e = absurd (cc e)
lookup-all test k v ((j, w) ∷ m) h e = elim (Bool-cases (j == k)) [
  | inl same ↦ bound-all test ((str_beq_iff j k).0 same) (rw same at e) (ground arith)
  | inr other ↦ lookup-all test k v m (ground arith) (rw other at e)
]

-- Of the routes for a method, only the one of the reload may be it.
abbrev may_reload : Str × Route → Bool
may_reload (path, route) = not (is_reload route) || path == str "/api/reload"

abbrev no_reload : Str × Route → Bool
no_reload (path, route) = not (is_reload route)

post_routes_lem : all may_reload post_routes ≡ true
unfolding is_reload str_beq
post_routes_lem = refl

other_routes_lem :
    (method : Str) → (method == str "POST") ≡ false → all no_reload (routes_of method) ≡ true
unfolding is_reload
other_routes_lem method other = elim (Bool-cases (method == str "GET")) [
  | inl get ↦ rw other (rw get refl)
  | inr not_get ↦ elim (Bool-cases (method == str "DELETE")) [
    | inl delete ↦ rw other (rw not_get (rw delete refl))
    | inr not_delete ↦ rw other (rw not_get (rw not_delete refl))
  ]
]

may_reload_lem : (path : Str) → may_reload (path, reloads) ≡ true → path ≡ str "/api/reload"
unfolding is_reload
may_reload_lem path h = (str_beq_iff path (str "/api/reload")).0 h

no_reload_lem : (path : Str) → no_reload (path, reloads) ≡ true → ⊥
unfolding is_reload
no_reload_lem path h = cc h

route_lem :
    (method path : Str)
    → lookup path (routes_of method) ≡ some reloads
    → (method ≡ str "POST") × (path ≡ str "/api/reload")
route_lem method path h = elim (Bool-cases (method == str "POST")) [
  | inl post ↦ (
    (str_beq_iff method (str "POST")).0 post,
    may_reload_lem path
        (lookup-all may_reload path reloads post_routes post_routes_lem (rw post at h)),
  )
  | inr other ↦ absurd (
      no_reload_lem path
        (lookup-all no_reload path reloads (routes_of method) (other_routes_lem method other) h))
]

routed_lem :
    (web : Web) (found : Found) (s : Service) (req : ApiRequest) (r : Option Route)
    → ((routed web found s req r).0 ≡ s)
      ⊎ ((r ≡ some reloads)
          × ((routed web found s req r).0 ≡ (reload found (web.bind req.body) s).0))
routed_lem web found s req none = inl refl
routed_lem web found s req (some reloads) = inr (refl, refl)
routed_lem web found s req (some mcp_post) = inl refl
routed_lem web found s req (some mcp_get) = inl refl
routed_lem web found s req (some mcp_delete) = inl refl
routed_lem web found s req (some health) = inl refl
routed_lem web found s req (some index) = inl refl
routed_lem web found s req (some plugins) = inl refl
routed_lem web found s req (some tools) = inl refl
routed_lem web found s req (some hosts) = inl refl
routed_lem web found s req (some databases) = inl refl
routed_lem web found s req (some redis) = inl refl
routed_lem web found s req (some kafka) = inl refl
routed_lem web found s req (some apis) = inl refl
routed_lem web found s req (some commands) = inl refl
routed_lem web found s req (some snmp) = inl refl

-- A request changes the service only by a reload: it then is a POST of /api/reload that passes the
-- token check, and the service is what the reload makes of it. A request that fails the check is
-- answered with 401, and the service is as it was.
pub serve_lem :
    (web : Web) (found : Found) (s : Service) (req : ApiRequest)
    → (((serve web found s req).0 ≡ s)
        ⊎ ((req.auth.method ≡ str "POST")
            × (req.auth.path ≡ str "/api/reload")
            × (require_auth (auth_token s.config) req.auth ≡ next)
            × ((serve web found s req).0 ≡ (reload found (web.bind req.body) s).0)))
      × (require_auth (auth_token s.config) req.auth ≡ unauthorized
          → serve web found s req ≡ (s, answer 401 (api_error (str "unauthorized"))))
unfolding serve
serve_lem web found s req = (
  elim (Verdict-cases (require_auth (auth_token s.config) req.auth)) [
    | inr refused ↦ inl (rw refused refl)
    | inl passes ↦
        elim (routed_lem web found s req (lookup req.auth.path (routes_of req.auth.method))) [
          | inl same ↦ inl (rw passes same)
          | inr (e, changed) ↦
              let (post, path) = route_lem req.auth.method req.auth.path e in
              inr (post, path, passes, rw passes changed)
        ]
  ],
  (λ refused. ap (allowed web found s req) refused),
)

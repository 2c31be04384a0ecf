-- ===== src/Http.antt =====
-- http.go, and Shutdown of main.go: the handlers of the HTTP API, as the calls that they make on the
-- ResponseWriter and on the servers, in order. What is logged is left out.
pub mod Errors
use funkyd.Base.{ℕ, Bool, true, false, Option, none, some, List, [], ◌∷◌, ◌++◌, map, if◌then◌else◌}
use funkyd.Base.Int.{ℤ}
use funkyd.Base.Text.{Text, codes}
use funkyd.Config.{Configuration}
use funkyd.Main.{Version, Listener}

pub data Call : Type 0 where
  sets_header : Text → Text → Call
  writes_header : ℕ → Call
  writes : Text → Call
  shuts_down : Listener → Call

-- What a handler finds: the global values, json.Marshal on them, and whether a Write fails.
pub record Api : Type 0 where
  pub version : Version
  pub configuration : Configuration
  pub servers : List Listener
  pub marshal_version : Version → Option Text
  pub marshal_configuration : Configuration → Option Text
  pub write_fails : Text → Bool

-- An error of ShutdownContext is only logged.
unfoldable pub shutdown : List Listener → List Call
shutdown servers = map shuts_down servers

unfoldable pub handle_error : ℕ → List Call
handle_error code = writes_header code ∷ []

-- Write, and what the two handlers below do with its error.
unfoldable pub write_body : Api → Text → List Call
unfolding handle_error
write_body a body = writes body ∷ (if a.write_fails body then handle_error 500 else [])

unfoldable pub shutdown_http_handler : Api → List Call
unfolding shutdown
shutdown_http_handler a =
    writes_header 200
    ∷ writes (codes "{\"message\": \"shutting down server\"}")
    ∷ shutdown a.servers

-- The handler does not return after an error of Marshal, whose bytes are then nil.
unfoldable pub version_http_handler : Api → List Call
unfolding handle_error write_body
version_http_handler a = elim (a.marshal_version a.version) [
  | none ↦ handle_error 500 ++ write_body a []
  | some str ↦ write_body a str
]

unfoldable pub config_http_handler : Api → List Call
unfolding handle_error write_body
config_http_handler a = elim (a.marshal_configuration a.configuration) [
  | none ↦ handle_error 500
  | some str ↦ write_body a str
]

unfoldable pub add_pratchett_header : List Call → List Call
add_pratchett_header next =
    sets_header (codes "X-Clacks-Overhead") (codes "GNU Terry Pratchett") ∷ next

unfoldable pub set_content_type_header : List Call → List Call
set_content_type_header next = sets_header (codes "Content-Type") (codes "application/json") ∷ next

-- The routes of InitApi, without that of the metrics.
pub data Route : Type 0 where
  config_route : Route
  shutdown_route : Route
  version_route : Route

unfoldable pub path_of : Route → Text
path_of config_route = codes "/v1/config"
path_of shutdown_route = codes "/v1/shutdown"
path_of version_route = codes "/v1/version"

-- The handlers, within the two layers of InitApi.
unfoldable pub serve_http : Api → Route → List Call
unfolding add_pratchett_header set_content_type_header config_http_handler shutdown_http_handler
    version_http_handler
serve_http a config_route = add_pratchett_header (set_content_type_header (config_http_handler a))
serve_http a shutdown_route =
    add_pratchett_header (set_content_type_header (shutdown_http_handler a))
serve_http a version_route = add_pratchett_header (set_content_type_header (version_http_handler a))

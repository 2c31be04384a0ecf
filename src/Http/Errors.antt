-- ===== src/Http/Errors.antt =====
-- What follows an error in a response of the HTTP API.
use funkyd.Base.{◌≡◌, refl, Bool, true, false, not, ◌&&◌, List, [], ◌∷◌, ◌==◌, arith, if◌then◌else◌}
use funkyd.Base.Map.{is_some}
use funkyd.Main.{Listener}
use funkyd.Http.{
  Call, sets_header, writes_header, writes, shuts_down, Api, Route, config_route, shutdown_route,
  version_route, handle_error, write_body, shutdown, shutdown_http_handler, version_http_handler,
  config_http_handler, serve_http, add_pratchett_header, set_content_type_header,
}

-- Whether something is written, or a header set.
unfoldable writes_any : List Call → Bool
writes_any [] = false
writes_any (sets_header k v ∷ cs) = true
writes_any (writes_header code ∷ cs) = writes_any cs
writes_any (writes body ∷ cs) = true
writes_any (shuts_down s ∷ cs) = writes_any cs

-- Whether nothing is written, and no header set, after the code 500.
unfoldable pub stops_at_error : List Call → Bool
unfolding writes_any
stops_at_error [] = true
stops_at_error (sets_header k v ∷ cs) = stops_at_error cs
stops_at_error (writes_header code ∷ cs) =
    let rest = stops_at_error cs in if code == 500 then not (writes_any cs) else rest
stops_at_error (writes body ∷ cs) = stops_at_error cs
stops_at_error (shuts_down s ∷ cs) = stops_at_error cs

abbrev pub is_version : Route → Bool
is_version config_route = false
is_version shutdown_route = false
is_version version_route = true

stops_at_error-shutdown : (ss : List Listener) → stops_at_error (shutdown ss) ≡ true
unfolding stops_at_error shutdown
stops_at_error-shutdown [] = refl
stops_at_error-shutdown (s ∷ ss) = stops_at_error-shutdown ss

-- For each route of the API, nothing is written and no header set after the code 500, except where
-- the version is asked for and cannot be printed: then something is.
pub stops_at_error-serve_http :
    (a : Api) (r : Route)
    → stops_at_error (serve_http a r)
      ≡ not (is_version r && not (is_some (a.marshal_version a.version)))
unfolding stops_at_error writes_any serve_http add_pratchett_header set_content_type_header
    config_http_handler shutdown_http_handler version_http_handler handle_error write_body
stops_at_error-serve_http a config_route = ground arith
stops_at_error-serve_http a shutdown_route = stops_at_error-shutdown a.servers
stops_at_error-serve_http a version_route = ground arith

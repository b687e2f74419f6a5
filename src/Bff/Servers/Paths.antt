-- ===== src/Bff/Servers/Paths.antt =====
-- What the handlers of the servers share: paths, and the names of the services. The functions of
-- `net/url` are parameters.
use Prim.Native.String.{String, len, ◌++◌}
use hire_flow.Prelude.{if◌then◌else◌, ◌==◌}
use hire_flow.Bff.Types.{Request, Handler, missing_user_id}
use hire_flow.Bff.Auth.{write_error}

-- `url.PathEscape`, `url.QueryEscape`, and `Query().Get` of a raw query
pub record Escapes : Type 0 where
  pub path_escape : String → String
  pub query_escape : String → String
  pub query_value : String → String → String

-- the query string of the request is passed on
abbrev pub with_query : String → Request → String
with_query path r = if len r.raw_query == 0 then path else path ++ "?" ++ r.raw_query

-- the handlers that look at the user in the context
abbrev pub with_user : {L : Type 0} → (String → Handler L) → Handler L
with_user next r w =
    if len r.user_id == 0 then (write_error 401 missing_user_id, w) else next r.user_id r w

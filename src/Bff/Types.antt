-- ===== src/Bff/Types.antt =====
-- Requests and responses of the servers, what they send to the services, and the state of a server.
-- Times are in seconds.
use Prim.Native.String.{String}
use hire_flow.Prelude.{ℕ, Bool, Option, List}

-- An incoming request. The last two fields are the values that its context carries under
-- `CtxKeyUserID` and `CtxKeyRole`; they are "" at first.
pub record Request : Type 0 where
  pub now : ℕ
  -- the cookies `access_token` and `refresh_token`
  pub access_token : Option String
  pub refresh_token : Option String
  -- `r.URL.RawQuery` and `r.Body`
  pub raw_query : String
  pub body : String
  pub user_id : String
  pub role : String

pub data Message : Type 0 where
  missing_access_token invalid_token invalid_token_type missing_required_claims : Message
  invalid_request_body email_and_password_required invalid_credentials : Message
  failed_to_generate_tokens missing_refresh_token invalid_refresh_token : Message
  requires_role : String → Message
  rate_limit_exceeded missing_user_id : Message
  -- "<service>: service unavailable"
  service_unavailable : String → Message

-- `http.Cookie` with the fields that `setTokenCookies` sets. `Path` is "/" and `HttpOnly` is true.
pub record Cookie : Type 0 where
  pub name : String
  pub value : String
  pub secure : Bool
  -- `SameSiteStrictMode`, or else `SameSiteLaxMode`
  pub strict : Bool
  pub max_age : ℕ

-- An entry of the dashboard: `serviceStats`.
pub record ServiceStats : Type 0 where
  pub total : ℕ
  -- "<service> unavailable", or ""
  pub unavailable : Bool

pub data Body : Type 0 where
  error : Message → Body
  identity : String → String → Body
  -- content type, body
  relayed : String → String → Body
  stats : ServiceStats → ServiceStats → ServiceStats → Body

pub record Response : Type 0 where
  pub status : ℕ
  pub cookies : List Cookie
  pub body : Body

pub data Verb : Type 0 where
  get post put : Verb

-- A request to a service. The headers are those that the code sets.
pub record Outgoing : Type 0 where
  -- `ServiceClient.Name`
  pub service : String
  pub verb : Verb
  -- the URL less `BaseURL`
  pub path : String
  pub content_type_json : Bool
  -- `X-User-ID`
  pub user_header : Option String
  pub body : Option String

-- What a service answers.
pub record Incoming : Type 0 where
  pub status : ℕ
  pub content_type : String
  pub body : String

-- The state of a server: the limiters by user, and the requests that it has sent, the last one
-- first.
pub record World (L : Type 0) : Type 0 where
  pub limiters : List (String × L)
  pub sent : List Outgoing

abbrev pub Handler : Type 0 → Type 0
Handler L = Request → World L → Response × World L

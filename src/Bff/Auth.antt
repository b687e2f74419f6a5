-- ===== src/Bff/Auth.antt =====
-- JWTMiddleware of auth.go, and context.go, of pkg/bff. The library `jwt` is a parameter.
use Prim.Native.String.{String, len}
use text.Mathlib.Text as Text
use hire_flow.Prelude.{
  ℕ, ◌<◌, ◌≡◌, Bool, true, Option, none, some, [], not, ◌==◌, ◌||◌, if◌then◌else◌,
}
use hire_flow.Bff.Types.{
  Request, Response, error, Message, missing_access_token, invalid_token, invalid_token_type,
  missing_required_claims, requires_role, World, Handler,
}

-- The claims of a token that the code reads or writes. A claim that is missing or no text is `none`.
pub record Claims : Type 0 where
  pub sub : Option String
  pub role : Option String
  pub token_type : Option String
  pub exp : Option ℕ
  pub iat : ℕ

-- A token without the claim `exp` does not expire.
abbrev pub Unexpired : ℕ → Option ℕ → Type 0
Unexpired now none = Unit
Unexpired now (some exp) = now < exp

-- The signing method that the header of a token names.
pub data Method : Type 0 where
  hmac : Method
  another : String → Method

-- `SignedString` under HS256, with the secret; `jwt.Parse` at a time, with the function from the
-- method to the key, which gives the claims of a token that is valid; the claims that stand in a
-- token; and whether it has a signature by the method under the key.
pub record Jwt : Type 0 where
  pub sign : String → Claims → Option String
  pub parse : (Method → Option String) → ℕ → String → Option Claims
  pub payload : String → Option Claims
  pub verifies : Method → String → String → Bool

-- What the documentation of `jwt` says: a signed token has the claims that it was given, and `Parse`
-- takes it until it expires. `Parse` takes nothing but what is signed by the method of the header
-- under the key that the function gives for it, and has not expired, and gives the claims in it.
pub record JwtLaws (jwt : Jwt) : Type 0 where
  pub signed :
      (secret token : String) (c : Claims)
      → jwt.sign secret c ≡ some token
      → jwt.payload token ≡ some c
  pub parses :
      (key : Method → Option String) (secret token : String) (now : ℕ) (c : Claims)
      → key hmac ≡ some secret
      → jwt.sign secret c ≡ some token
      → Unexpired now c.exp
      → jwt.parse key now token ≡ some c
  pub sound :
      (key : Method → Option String) (token : String) (now : ℕ) (c : Claims)
      → jwt.parse key now token ≡ some c
      → (m : Method) × (secret : String) × (key m ≡ some secret)
        × (jwt.verifies m secret token ≡ true)
        × (jwt.payload token ≡ some c)
        × Unexpired now c.exp

pub record AuthConfig : Type 0 where
  pub secret : String
  pub access_ttl : ℕ
  pub refresh_ttl : ℕ
  pub cookie_secure : Bool

-- `WriteError` of http.go
abbrev pub write_error : ℕ → Message → Response
write_error status m = record { status = status; cookies = []; body = error m }

-- `x, _ := v.(string)`
abbrev pub text_or_empty : Option String → String
text_or_empty none = ""
text_or_empty (some s) = s

-- the function that `jwt.Parse` is given
unfoldable pub hmac_key : String → Method → Option String
hmac_key secret hmac = some secret
hmac_key secret (another alg) = none

-- What JWTMiddleware and Refresh do with the claims: the error, or the user and the role.
pub data Checked : Type 0 where
  rejected : Message → Checked
  accepted : String → String → Checked

unfoldable pub check_claims : String → Claims → Checked
check_claims wanted c =
    if not (Text.◌==◌ (text_or_empty c.token_type) wanted)
    then rejected invalid_token_type
    else if len (text_or_empty c.sub) == 0 || len (text_or_empty c.role) == 0
    then rejected missing_required_claims
    else accepted (text_or_empty c.sub) (text_or_empty c.role)

abbrev pub check_parsed : String → Message → Option Claims → Checked
check_parsed wanted invalid none = rejected invalid
check_parsed wanted invalid (some c) = check_claims wanted c

-- `WithUserID` of context.go, and the same for the role
abbrev pub with_identity : String → String → Request → Request
with_identity sub role r = record r { user_id = sub; role = role }

-- `RequireRole` of context.go
unfoldable pub require_role : {L : Type 0} → String → Handler L → Handler L
require_role role next r w =
    if not (Text.◌==◌ r.role role) then (write_error 403 (requires_role role), w) else next r w

module _ (jwt : Jwt) (auth : AuthConfig) where
  abbrev pub check_token : ℕ → String → Message → String → Checked
  check_token now wanted invalid token =
      check_parsed wanted invalid (jwt.parse (hmac_key auth.secret) now token)

  abbrev pub check_cookie : ℕ → Option String → Checked
  check_cookie now none = rejected missing_access_token
  check_cookie now (some token) = check_token now "access" invalid_token token

  abbrev pub pass_on : {L : Type 0} → Handler L → Request → World L → Checked → Response × World L
  pass_on next r w (rejected m) = (write_error 401 m, w)
  pass_on next r w (accepted sub role) = next (with_identity sub role r) w

  unfoldable pub jwt_middleware : {L : Type 0} → Handler L → Handler L
  unfolding hmac_key check_claims
  jwt_middleware next r w = pass_on next r w (check_cookie r.now r.access_token)

-- ===== src/Bff/Login.antt =====
-- GenerateTokens, Login and Refresh of auth.go of pkg/bff.
use Prim.Native.String.{String, len}
use text.Mathlib.Text as Text
use hire_flow.Prelude.{ℕ, ◌+◌, Option, none, some, List, [], ◌∷◌, not, ◌==◌, ◌||◌, if◌then◌else◌}
use hire_flow.Bff.Types.{
  Response, identity, invalid_request_body, email_and_password_required, invalid_credentials,
  failed_to_generate_tokens, missing_refresh_token, invalid_refresh_token, Cookie,
}
use hire_flow.Bff.Auth.{
  Claims, Jwt, AuthConfig, write_error, hmac_key, Checked, rejected, accepted, check_claims,
  check_token,
}

pub record TestUser : Type 0 where
  pub email : String
  pub password : String
  pub user_id : String
  pub role : String

-- `TestUsers`
abbrev pub test_users : List TestUser
test_users =
    record {
      email = "client@example.com";
      password = "password";
      user_id = "11111111-1111-1111-1111-111111111111";
      role = "client";
    }
    ∷ record {
      email = "client2@example.com";
      password = "password";
      user_id = "22222222-2222-2222-2222-222222222222";
      role = "client";
    }
    ∷ record {
      email = "freelancer@example.com";
      password = "password";
      user_id = "33333333-3333-3333-3333-333333333333";
      role = "freelancer";
    }
    ∷ record {
      email = "admin@example.com";
      password = "password";
      user_id = "44444444-4444-4444-4444-444444444444";
      role = "admin";
    }
    ∷ []

abbrev pub find_user : String → List TestUser → Option TestUser
find_user email [] = none
find_user email (u ∷ us) = if Text.◌==◌ u.email email then some u else find_user email us

module _ (jwt : Jwt) (auth : AuthConfig) where
  abbrev pub claims_for : ℕ → ℕ → String → String → String → Claims
  claims_for now ttl token_type sub role = record {
    sub = some sub;
    role = some role;
    token_type = some token_type;
    exp = some (now + ttl);
    iat = now;
  }

  abbrev both : Option String → Option String → Option (String × String)
  both none o = none
  both (some a) none = none
  both (some a) (some b) = some (a, b)

  unfoldable pub generate_tokens : ℕ → String → String → Option (String × String)
  generate_tokens now sub role =
      both (jwt.sign auth.secret (claims_for now auth.access_ttl "access" sub role))
        (jwt.sign auth.secret (claims_for now auth.refresh_ttl "refresh" sub role))

  unfoldable pub set_token_cookies : String → String → List Cookie
  set_token_cookies access refresh =
      record {
        name = "access_token";
        value = access;
        secure = auth.cookie_secure;
        strict = auth.cookie_secure;
        max_age = auth.access_ttl;
      }
      ∷ record {
        name = "refresh_token";
        value = refresh;
        secure = auth.cookie_secure;
        strict = auth.cookie_secure;
        max_age = auth.refresh_ttl;
      }
      ∷ []

  -- the end of Login and of Refresh
  abbrev pub grant : String → String → Option (String × String) → Response
  grant sub role none = write_error 500 failed_to_generate_tokens
  grant sub role (some (access, refresh)) = record {
    status = 200;
    cookies = set_token_cookies access refresh;
    body = identity sub role;
  }

  abbrev login_user : ℕ → String → Option TestUser → Response
  login_user now password none = write_error 401 invalid_credentials
  login_user now password (some u) =
      if not (Text.◌==◌ u.password password)
      then write_error 401 invalid_credentials
      else grant u.user_id u.role (generate_tokens now u.user_id u.role)

  -- the email and the password; `none` if the body cannot be decoded
  unfoldable pub login : ℕ → Option (String × String) → Response
  unfolding generate_tokens set_token_cookies
  login now none = write_error 400 invalid_request_body
  login now (some (email, password)) =
      if len email == 0 || len password == 0
      then write_error 400 email_and_password_required
      else login_user now password (find_user email test_users)

  abbrev refresh_checked : ℕ → Checked → Response
  refresh_checked now (rejected m) = write_error 401 m
  refresh_checked now (accepted sub role) = grant sub role (generate_tokens now sub role)

  unfoldable pub refresh : ℕ → Option String → Response
  unfolding hmac_key check_claims generate_tokens set_token_cookies
  refresh now none = write_error 401 missing_refresh_token
  refresh now (some token) =
      refresh_checked now (check_token jwt auth now "refresh" invalid_refresh_token token)

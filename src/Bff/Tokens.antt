-- ===== src/Bff/Tokens.antt =====
-- What JWTMiddleware of auth.go lets through.
pub mod Login
use Prim.Native.String.{String, len}
use text.Mathlib.Text as Text
use text.Mathlib.TextPositions.{eq_refl}
use mathlib.Core.Path.{subst}
use mathlib.Core.Option.{some-injective}
use text.Mathlib.TextEquality.{eq_iff}
use hire_flow.Prelude.{
  ℕ, ◌+◌, ◌<◌, ◌≡◌, ◌≢◌, refl, inl, inr, ◌⊎◌, Bool, true, false, Option, none, some, List, [], ◌∷◌,
  arith, ◌==◌, Bool-cases, Option-cases, not, if◌then◌else◌,
}
use hire_flow.Prelude.Table.{All}
use hire_flow.Bff.Types.{
  Request, Response, identity, Message, invalid_token_type, World, Handler, Cookie,
}
use hire_flow.Bff.Auth.{
  Claims, Method, hmac, another, Jwt, JwtLaws, AuthConfig, write_error, hmac_key, Checked, rejected,
  accepted, check_claims, check_parsed, check_token, with_identity, jwt_middleware, text_or_empty,
  pass_on, check_cookie, Unexpired,
}
use hire_flow.Bff.Login.{
  TestUser, test_users, find_user, claims_for, generate_tokens, set_token_cookies, grant, login,
  refresh,
}

-- A token that names the user and the role, of the type "access", signed by HMAC under the secret of
-- the server, and not expired.
pub record IsAccess (jwt : Jwt) (auth : AuthConfig) (now : ℕ) (token sub role : String)
    : Type 0 where
  pub claims : Claims
  pub payload : jwt.payload token ≡ some claims
  pub verified : jwt.verifies hmac auth.secret token ≡ true
  pub current : Unexpired now claims.exp
  pub access : claims.token_type ≡ some "access"
  pub sub_claim : claims.sub ≡ some sub
  pub role_claim : claims.role ≡ some role
  pub named : len sub ≢ 0
  pub placed : len role ≢ 0

key_of_hmac :
    (secret key : String) (m : Method) → hmac_key secret m ≡ some key → (m ≡ hmac) × (key ≡ secret)
unfolding hmac_key
key_of_hmac secret key hmac e = ground arith
key_of_hmac secret key (another alg) e = absurd (ground arith)

empty : len "" ≡ 0
empty = refl

text_of_claim : (o : Option String) (s : String) → text_or_empty o ≡ s → len s ≢ 0 → o ≡ some s
text_of_claim none s e ne = absurd (ne (subst (λ t. len t ≡ 0) e empty))
text_of_claim (some t) s e ne = ground arith

module _ (jwt : Jwt) (laws : JwtLaws jwt) (auth : AuthConfig) where
  accepted-IsAccess :
      (now : ℕ) (invalid : Message) (token sub role : String)
      → check_token jwt auth now "access" invalid token ≡ accepted sub role
      → IsAccess jwt auth now token sub role
  unfolding check_claims
  accepted-IsAccess now invalid token sub role e =
      elim (Option-cases (jwt.parse (hmac_key auth.secret) now token)) [
        | inl bad ↦ absurd (ground arith)
        | inr (c, good) ↦
            let (m, secret, keyed, verified, payload, current) =
              laws.sound (hmac_key auth.secret) token now c good in
            let (by_hmac, ours) = key_of_hmac auth.secret secret m keyed in
            let named : len sub ≢ 0 = ground arith in
            let placed : len role ≢ 0 = ground arith in
            let typed : text_or_empty c.token_type ≡ "access" =
              ground (arith, eq_iff (text_or_empty c.token_type) "access") in
            record {
              claims = c;
              payload = payload;
              verified = ground arith;
              current = current;
              access = text_of_claim c.token_type "access" typed (ground arith);
              sub_claim = text_of_claim c.sub sub (ground arith) named;
              role_claim = text_of_claim c.role role (ground arith) placed;
              named = named;
              placed = placed;
            }
      ]

-- What comes out of the middleware: an answer 401 and no change, or what the handler behind it makes
-- of the request with the identity of a valid access token.
abbrev pub Authenticated :
    {L : Type 0} (jwt : Jwt) (auth : AuthConfig) (next : Handler L) (r : Request) (w : World L)
    → Response × World L
    → Type 0
Authenticated jwt auth next r w result =
    ((m : Message) × (result ≡ (write_error 401 m, w)))
    ⊎ ((token : String) × (sub : String) × (role : String) × (r.access_token ≡ some token)
        × IsAccess jwt auth r.now token sub role
        × (result ≡ next (with_identity sub role r) w))

-- JWTMiddleware answers 401 and changes nothing, or it runs the handler behind it with the user and
-- the role that stand in an access token of the cookie which is signed by HMAC under the secret of
-- the server and has not expired; whatever the request was sent with.
pub jwt_middleware-Authenticated :
    {L : Type 0} (jwt : Jwt) (laws : JwtLaws jwt) (auth : AuthConfig) (next : Handler L)
    (r : Request) (w : World L)
    → Authenticated jwt auth next r w (jwt_middleware jwt auth next r w)
unfolding jwt_middleware
jwt_middleware-Authenticated {L} jwt laws auth next r w =
    checked r.access_token refl (check_cookie jwt auth r.now r.access_token) refl
  where
    checked :
        (o : Option String)
        → r.access_token ≡ o
        → (c : Checked) → check_cookie jwt auth r.now o ≡ c
        → Authenticated jwt auth next r w (pass_on jwt auth next r w c)
    checked o is (rejected m) e = inl (m, refl)
    checked none is (accepted sub role) e = absurd (cc)
    checked (some token) is (accepted sub role) e =
        inr (token, sub, role, is, accepted-IsAccess jwt laws auth r.now _ token sub role e, refl)

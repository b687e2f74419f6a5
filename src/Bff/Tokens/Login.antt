-- ===== src/Bff/Tokens/Login.antt =====
-- The tokens that Login gives, at the middleware and at Refresh (auth.go).
use Prim.Native.String.{String, len}
use text.Mathlib.Text as Text
use text.Mathlib.TextPositions.{eq_refl}
use mathlib.Core.Path.{subst}
use mathlib.Core.Option.{some-injective}
use hire_flow.Prelude.{
  ℕ, ◌+◌, ◌<◌, ◌≡◌, ◌≢◌, refl, ap, ◌∙◌, inl, inr, Option, none, some, List, [], ◌∷◌, arith,
  Bool-cases, Option-cases, if◌then◌else◌,
}
use hire_flow.Prelude.Table.{All}
use hire_flow.Bff.Types.{
  Response, Request, identity, Message, invalid_token_type, World, Handler, Cookie,
}
use hire_flow.Bff.Auth.{
  Jwt, JwtLaws, AuthConfig, write_error, hmac_key, accepted, check_claims, check_token,
  with_identity, jwt_middleware,
}
use hire_flow.Bff.Login.{
  TestUser, test_users, find_user, claims_for, generate_tokens, set_token_cookies, login, refresh,
}

-- the two tokens that the library signs at a login
pub record IsGranted (jwt : Jwt) (auth : AuthConfig) (now : ℕ) (sub role access refresh : String)
    : Type 0 where
  pub access_signed :
      jwt.sign auth.secret (claims_for jwt auth now auth.access_ttl "access" sub role) ≡ some access
  pub refresh_signed :
      jwt.sign auth.secret (claims_for jwt auth now auth.refresh_ttl "refresh" sub role)
      ≡ some refresh

module _ (jwt : Jwt) (laws : JwtLaws jwt) (auth : AuthConfig) (now : ℕ)
    (sub role access renewal : String) (g : IsGranted jwt auth now sub role access renewal) where
  parse_access :
      (later : ℕ)
      → later < now + auth.access_ttl
      → jwt.parse (hmac_key auth.secret) later access
        ≡ some (claims_for jwt auth now auth.access_ttl "access" sub role)
  parse_access later h =
      laws.parses (hmac_key auth.secret) auth.secret access later _ (unfold hmac_key in refl)
        g.access_signed h

  parse_renewal :
      (later : ℕ)
      → later < now + auth.refresh_ttl
      → jwt.parse (hmac_key auth.secret) later renewal
        ≡ some (claims_for jwt auth now auth.refresh_ttl "refresh" sub role)
  parse_renewal later h =
      laws.parses (hmac_key auth.secret) auth.secret renewal later _ (unfold hmac_key in refl)
        g.refresh_signed h

  -- The access token is taken as one: the claims name the user.
  check_access :
      (invalid : Message) (later : ℕ)
      → later < now + auth.access_ttl
      → len sub ≢ 0
      → len role ≢ 0
      → check_token jwt auth later "access" invalid access ≡ accepted sub role
  unfolding check_claims
  check_access invalid later h named placed =
      let parsed = parse_access later h in ground (arith, eq_refl "access")

  check_renewal :
      (invalid : Message) (later : ℕ)
      → later < now + auth.refresh_ttl
      → len sub ≢ 0
      → len role ≢ 0
      → check_token jwt auth later "refresh" invalid renewal ≡ accepted sub role
  unfolding check_claims
  check_renewal invalid later h named placed =
      let parsed = parse_renewal later h in ground (arith, eq_refl "refresh")

  -- Refresh gives the tokens that the library then signs.
  refresh_granted :
      (later : ℕ)
      → later < now + auth.refresh_ttl
      → len sub ≢ 0
      → len role ≢ 0
      → (new_access new_renewal : String) → IsGranted jwt auth later sub role new_access new_renewal
      → refresh jwt auth later (some renewal) ≡ record {
        status = 200;
        cookies = set_token_cookies jwt auth new_access new_renewal;
        body = identity sub role;
      }
  unfolding refresh generate_tokens
  refresh_granted later h named placed new_access new_renewal g' =
      let checked = check_renewal Message.invalid_refresh_token later h named placed in
      ground (arith, g'.access_signed, g'.refresh_signed)

-- The users of the test data have a name and a role.
find_user-All :
    (P : TestUser → Type 0) (email : String) (us : List TestUser) (u : TestUser)
    → All P us
    → find_user email us ≡ some u
    → P u
find_user-All P email [] u h e = absurd (cc)
find_user-All P email (v ∷ us) u h e = elim (Bool-cases (Text.◌==◌ v.email email)) [
  | inl here ↦ subst P (some-injective _ _ (rw here at e)) h.0
  | inr later ↦ find_user-All P email us u h.1 (rw later at e)
]

test_users_named : All (λ (u : TestUser). (len u.user_id ≢ 0) × (len u.role ≢ 0)) test_users
test_users_named = omega arith

-- The value of a cookie that a response sets, which a browser then sends.
abbrev pub cookie_value : String → List Cookie → Option String
cookie_value name [] = none
cookie_value name (c ∷ cs) = if Text.◌==◌ c.name name then some c.value else cookie_value name cs

cookie_of_grant :
    (jwt : Jwt) (auth : AuthConfig) (access renewal : String)
    → cookie_value "access_token" (set_token_cookies jwt auth access renewal) ≡ some access
unfolding set_token_cookies
cookie_of_grant jwt auth access renewal = refl

module _ (jwt : Jwt) (laws : JwtLaws jwt) (auth : AuthConfig) (now : ℕ) (email password : String)
    (u : TestUser) (access renewal : String) (known : find_user email test_users ≡ some u)
    (right : u.password ≡ password) (has_email : len email ≢ 0) (has_password : len password ≢ 0)
    (g : IsGranted jwt auth now u.user_id u.role access renewal) where
  login_granted : login jwt auth now (some (email, password)) ≡ record {
    status = 200;
    cookies = set_token_cookies jwt auth access renewal;
    body = identity u.user_id u.role;
  }
  unfolding login generate_tokens
  login_granted = ground (arith, g.access_signed, g.refresh_signed, eq_refl password)

  login_access :
      cookie_value "access_token" (login jwt auth now (some (email, password))).cookies
      ≡ some access
  unfolding set_token_cookies
  login_access = rw login_granted refl

  login_renewal :
      cookie_value "refresh_token" (login jwt auth now (some (email, password))).cookies
      ≡ some renewal
  unfolding set_token_cookies
  login_renewal = rw login_granted refl

-- A user of the test data with the right password, for whom the library signs the tokens, is answered
-- 200. With the access cookie of that answer, until it expires, the middleware runs the handler
-- behind it with the user and the role. With the refresh cookie, until that expires and if the
-- library signs the new tokens, Refresh answers 200 with them for the same user and role, and with
-- the new access cookie, until it expires, the middleware again runs the handler with both.
pub login-jwt_middleware :
    {L : Type 0} (jwt : Jwt) (laws : JwtLaws jwt) (auth : AuthConfig) (next : Handler L)
    (r again : Request) (w : World L) (now later : ℕ) (email password : String) (u : TestUser)
    (access renewal new_access new_renewal : String)
    → find_user email test_users ≡ some u
    → u.password ≡ password
    → len email ≢ 0
    → len password ≢ 0
    → IsGranted jwt auth now u.user_id u.role access renewal
    → IsGranted jwt auth later u.user_id u.role new_access new_renewal
    → r.access_token
      ≡ cookie_value "access_token" (login jwt auth now (some (email, password))).cookies
    → r.now < now + auth.access_ttl
    → later < now + auth.refresh_ttl
    → again.access_token
      ≡ cookie_value "access_token"
          (refresh jwt auth later (
            cookie_value "refresh_token"
              (login jwt auth now (some (email, password))).cookies)).cookies
    → again.now < later + auth.access_ttl
    → let first = login jwt auth now (some (email, password)) in
      let second = refresh jwt auth later (cookie_value "refresh_token" first.cookies) in
      (first.status ≡ 200)
      × (jwt_middleware jwt auth next r w ≡ next (with_identity u.user_id u.role r) w)
      × (second ≡ record {
        status = 200;
        cookies = set_token_cookies jwt auth new_access new_renewal;
        body = identity u.user_id u.role;
      })
      × (jwt_middleware jwt auth next again w ≡ next (with_identity u.user_id u.role again) w)
unfolding jwt_middleware
login-jwt_middleware jwt laws auth next r again w now later email password u access renewal
      new_access new_renewal known right has_email has_password g g' sent young fresh resent still =
    let (named, placed) =
      find_user-All (λ v. (len v.user_id ≢ 0) × (len v.role ≢ 0)) email test_users u
        test_users_named known in
    let cookie =
      login_access jwt laws auth now email password u access renewal known right has_email
        has_password g in
    let second =
      login_renewal jwt laws auth now email password u access renewal known right has_email
        has_password g in
    let taken =
      check_access jwt laws auth now u.user_id u.role access renewal g Message.invalid_token r.now
        young named placed in
    let answer =
      ap (refresh jwt auth later) second
      ∙ refresh_granted jwt laws auth now u.user_id u.role access renewal g later fresh named placed
          new_access new_renewal g' in
    let new_cookie =
      resent
      ∙ ap (λ (x : Response). cookie_value "access_token" x.cookies) answer
      ∙ cookie_of_grant jwt auth new_access new_renewal in
    let retaken =
      check_access jwt laws auth later u.user_id u.role new_access new_renewal g'
        Message.invalid_token again.now still named placed in
    (
      rw
          (login_granted jwt laws auth now email password u access renewal known right has_email
            has_password g)
          refl,
      ground arith,
      answer,
      ground arith,
    )

-- Whatever the time, a refresh token in the access cookie is answered 401 and the handler does not
-- run, and an access token in the refresh cookie is answered 401.
pub tokens_separate :
    {L : Type 0} (jwt : Jwt) (laws : JwtLaws jwt) (auth : AuthConfig) (next : Handler L)
    (r : Request) (w : World L) (now later : ℕ) (sub role access renewal : String)
    → IsGranted jwt auth now sub role access renewal
    → r.access_token ≡ some renewal
    → ((m : Message) × (jwt_middleware jwt auth next r w ≡ (write_error 401 m, w)))
      × ((m : Message) × (refresh jwt auth later (some access) ≡ write_error 401 m))
unfolding jwt_middleware refresh check_claims
tokens_separate jwt laws auth next r w now later sub role access renewal g sent = (
  elim (Option-cases (jwt.parse (hmac_key auth.secret) r.now renewal)) [
    | inl bad ↦ (Message.invalid_token, ground arith)
    | inr (c, good) ↦
        let (m, secret, keyed, verified, payload, current) =
          laws.sound (hmac_key auth.secret) renewal r.now c good in
        let own = laws.signed auth.secret renewal _ g.refresh_signed in
        (invalid_token_type, ground arith)
  ],
  elim (Option-cases (jwt.parse (hmac_key auth.secret) later access)) [
    | inl bad ↦ (Message.invalid_refresh_token, ground arith)
    | inr (c, good) ↦
        let (m, secret, keyed, verified, payload, current) =
          laws.sound (hmac_key auth.secret) access later c good in
        let own = laws.signed auth.secret access _ g.access_signed in
        (invalid_token_type, ground arith)
  ],
)

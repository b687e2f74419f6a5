-- ===== src/Bff/Tests.antt =====
-- The theorems on the backends for frontends, with a library that signs two tokens, a limiter that
-- counts down, and a network that answers everything.
use Prim.Native.String.{String}
use text.Mathlib.Text as Text
use text.Mathlib.TextEquality.{eq_iff}
use hire_flow.Prelude.{
  ℕ, ◌+◌, ◌-◌, List, ◌≡◌, refl, inl, inr, Bool, true, false, Option, none, some, [], ◌∷◌, arith,
  ◌==◌, if◌then◌else◌, ◌&&◌, ltb, Option-cases, Bool-cases, ap, ◌∙◌,
}
use mathlib.Core.Path.{subst}
use mathlib.Core.Option.{some-injective}
use hire_flow.Bff.Types.{Request, Message, identity, World, Handler, stats}
use hire_flow.Bff.Auth.{
  Claims, hmac, another, Jwt, JwtLaws, AuthConfig, write_error, with_identity, jwt_middleware,
}
use hire_flow.Bff.Login.{TestUser, generate_tokens, set_token_cookies, login, refresh}
use hire_flow.Bff.Tokens.{Authenticated, jwt_middleware-Authenticated}
use hire_flow.Bff.Tokens.Login.{IsGranted, cookie_value, login-jwt_middleware, tokens_separate}
use hire_flow.Bff.Limiter.{Rate}
use hire_flow.Bff.Limiter.Isolation.{answers, answers_of, rate_limit-isolates}
use hire_flow.Bff.Client.{Net}
use hire_flow.Bff.Servers.Paths.{Escapes}
use hire_flow.Bff.Servers.Admin.{Target, Schedule, dashboard_route, dashboard}
use hire_flow.Bff.Servers.Guards.{admin_route, serve, SendsForUser, serve-SendsForUser}
use hire_flow.Bff.Servers.Dashboard.{dashboard_any_order, entry}

abbrev auth : AuthConfig
auth = record { secret = "key"; access_ttl = 900; refresh_ttl = 604800; cookie_secure = true }

abbrev admin_user : TestUser
admin_user = record {
  email = "admin@example.com";
  password = "password";
  user_id = "44444444-4444-4444-4444-444444444444";
  role = "admin";
}

abbrev claims : ℕ → ℕ → String → Claims
claims at ttl token_type = record {
  sub = some "44444444-4444-4444-4444-444444444444";
  role = some "admin";
  token_type = some token_type;
  exp = some (at + ttl);
  iat = at;
}

abbrev same_text : Option String → Option String → Bool
same_text none none = true
same_text (some a) (some b) = Text.◌==◌ a b
same_text _ _ = false

same_text-eq : (a b : Option String) → same_text a b ≡ true → a ≡ b
same_text-eq none none h = refl
same_text-eq none (some b) h = absurd (ground arith)
same_text-eq (some a) none h = absurd (ground arith)
same_text-eq (some a) (some b) h = ground (arith, eq_iff a b)

abbrev same_number : Option ℕ → Option ℕ → Bool
same_number none none = true
same_number (some a) (some b) = a == b
same_number _ _ = false

same_number-eq : (a b : Option ℕ) → same_number a b ≡ true → a ≡ b
same_number-eq none none h = refl
same_number-eq none (some b) h = absurd (ground arith)
same_number-eq (some a) none h = absurd (ground arith)
same_number-eq (some a) (some b) h = ground arith

abbrev same_claims : Claims → Claims → Bool
same_claims c d =
    same_text c.sub d.sub
    && same_text c.role d.role
    && same_text c.token_type d.token_type
    && same_number c.exp d.exp
    && c.iat == d.iat

same_claims-eq : (c d : Claims) → same_claims c d ≡ true → c ≡ d
same_claims-eq c d h = ground (
  arith,
  same_text-eq c.sub d.sub,
  same_text-eq c.role d.role,
  same_text-eq c.token_type d.token_type,
  same_number-eq c.exp d.exp,
)

-- the tokens of a login at time 0 and of a refresh at time 1000
abbrev tokens : List (String × Claims)
tokens =
    ("A", claims 0 900 "access")
    ∷ ("R", claims 0 604800 "refresh")
    ∷ ("B", claims 1000 900 "access")
    ∷ ("S", claims 1000 604800 "refresh")
    ∷ []

abbrev token_of : List (String × Claims) → Claims → Option String
token_of [] c = none
token_of ((t, d) ∷ rest) c = if same_claims d c then some t else token_of rest c

abbrev claims_of : List (String × Claims) → String → Option Claims
claims_of [] t = none
claims_of ((u, d) ∷ rest) t = if Text.◌==◌ t u then some d else claims_of rest t

abbrev payload_of : String → Option Claims
payload_of t = claims_of tokens t

abbrev checked : String → Claims → Option Claims → Option String
checked t c none = none
checked t c (some d) = if same_claims d c then some t else none

abbrev signed_as : Claims → Option String → Option String
signed_as c none = none
signed_as c (some t) = checked t c (payload_of t)

abbrev sign_with : String → Claims → Option String
sign_with secret c = if Text.◌==◌ secret "key" then signed_as c (token_of tokens c) else none

abbrev before : ℕ → Option ℕ → Bool
before now none = true
before now (some exp) = ltb now exp

abbrev in_time : ℕ → Option Claims → Option Claims
in_time now none = none
in_time now (some c) = if before now c.exp then some c else none

abbrev under : Option String → ℕ → String → Option Claims
under none now t = none
under (some s) now t = if Text.◌==◌ s "key" then in_time now (payload_of t) else none

abbrev jwt : Jwt
jwt = record {
  sign = sign_with;
  parse = λ key now t. under (key hmac) now t;
  payload = payload_of;
  verifies = λ m s t. elim m [ hmac ↦ Text.◌==◌ s "key" | another alg ↦ false ];
}

checked-payload_of :
    (u t : String) (c : Claims) (o : Option Claims)
    → payload_of u ≡ o
    → checked u c o ≡ some t
    → payload_of t ≡ some c
checked-payload_of u t c none is h = absurd (ground arith)
checked-payload_of u t c (some d) is h = elim (Bool-cases (same_claims d c)) [
  | inl same ↦
      let here : u ≡ t = some-injective _ _ (rw same at h) in
      subst (λ k. payload_of k ≡ some c) here (is ∙ ap some (same_claims-eq d c same))
  | inr other ↦ absurd (ground arith)
]

signed_as-payload_of :
    (c : Claims) (o : Option String) (t : String) → signed_as c o ≡ some t → payload_of t ≡ some c
signed_as-payload_of c none t h = absurd (ground arith)
signed_as-payload_of c (some u) t h = checked-payload_of u t c (payload_of u) refl h

sign_with-payload_of : (s t : String) (c : Claims) → sign_with s c ≡ some t → payload_of t ≡ some c
sign_with-payload_of s t c h = elim (Bool-cases (Text.◌==◌ s "key")) [
  | inl ours ↦ signed_as-payload_of c (token_of tokens c) t (rw ours at h)
  | inr foreign ↦ absurd (ground arith)
]

laws : JwtLaws jwt
laws = record {
  signed = λ s t c h. sign_with-payload_of s t c h;
  parses = λ key s t now c keyed h young. let own = sign_with-payload_of s t c h in ground arith;
  sound = λ key t now c h. elim (Option-cases (key hmac)) [
    | inl unkeyed ↦ absurd (ground arith)
    | inr (s, keyed) ↦ (
      hmac,
      s,
      keyed,
      ground arith,
      elim (Option-cases (payload_of t)) [
        | inl empty ↦ absurd (ground arith)
        | inr (d, full) ↦ ground arith
      ],
      elim (Option-cases (payload_of t)) [
        | inl empty ↦ absurd (ground arith)
        | inr (d, full) ↦ ground arith
      ],
    )
  ];
}

abbrev request : Request
request = record {
  now = 30;
  access_token = some "A";
  refresh_token = none;
  raw_query = "";
  body = "";
  user_id = "";
  role = "";
}

abbrev world : World ℕ
world = record { limiters = []; sent = [] }

abbrev hello : Handler ℕ
hello r w = (write_error 418 (Message.requires_role r.role), w)

jwt_middleware-Authenticated_example :
    Authenticated jwt auth hello request world (jwt_middleware jwt auth hello request world)
jwt_middleware-Authenticated_example =
    jwt_middleware-Authenticated jwt laws auth hello request world

granted : IsGranted jwt auth 0 "44444444-4444-4444-4444-444444444444" "admin" "A" "R"
granted = record { access_signed = refl; refresh_signed = refl }

renewed : IsGranted jwt auth 1000 "44444444-4444-4444-4444-444444444444" "admin" "B" "S"
renewed = record { access_signed = refl; refresh_signed = refl }

abbrev later_request : Request
later_request = record request { now = 1500; access_token = some "B" }

login-jwt_middleware_example :
    let first = login jwt auth 0 (some ("admin@example.com", "password")) in
    let second = refresh jwt auth 1000 (cookie_value "refresh_token" first.cookies) in
    (first.status ≡ 200)
    × (jwt_middleware jwt auth hello request world
        ≡ hello (with_identity "44444444-4444-4444-4444-444444444444" "admin" request) world)
    × (second ≡ record {
      status = 200;
      cookies = set_token_cookies jwt auth "B" "S";
      body = identity "44444444-4444-4444-4444-444444444444" "admin";
    })
    × (jwt_middleware jwt auth hello later_request world
        ≡ hello (with_identity "44444444-4444-4444-4444-444444444444" "admin" later_request) world)
unfolding login generate_tokens set_token_cookies refresh
login-jwt_middleware_example =
    login-jwt_middleware jwt laws auth hello request later_request world 0 1000 "admin@example.com"
      "password" admin_user "A" "R" "B" "S" refl refl (omega arith) (omega arith) granted renewed
      refl (omega arith) (omega arith) refl (omega arith)

tokens_separate_example :
    ((m : Message) × (jwt_middleware jwt auth hello
          (record request { access_token = some "R" })
          world
        ≡ (write_error 401 m, world)))
    × ((m : Message) × (refresh jwt auth 20 (some "A") ≡ write_error 401 m))
tokens_separate_example =
    tokens_separate jwt laws auth hello (record request { access_token = some "R" }) world 0 20 _ _
      "A" "R" granted refl

-- a limiter with as many tokens as are left
abbrev counter : Rate ℕ
counter = record {
  new_limiter = λ rate burst. burst;
  allow = λ now left. if left == 0 then (false, 0) else (true, left - 1);
}

abbrev by_user : String → Request
by_user user = record request { user_id = user }

rate_limit-isolates_example :
    answers_of "b" (
      answers counter
        (record { rate = 1; burst = 1 })
        (λ r. write_error 418 Message.missing_user_id)
        (by_user "a" ∷ by_user "b" ∷ by_user "a" ∷ by_user "b" ∷ [])
        world)
    ≡ answers counter
        (record { rate = 1; burst = 1 })
        (λ r. write_error 418 Message.missing_user_id)
        (by_user "b" ∷ by_user "b" ∷ [])
        world
rate_limit-isolates_example =
    rate_limit-isolates counter (record { rate = 1; burst = 1 })
      (λ r. write_error 418 Message.missing_user_id) "b"
      (by_user "a" ∷ by_user "b" ∷ by_user "a" ∷ by_user "b" ∷ []) world

abbrev net : Net
net = record {
  well_formed = λ service path. true;
  round_trip = λ before o.
      if Text.◌==◌ o.service "payments"
      then none
      else some (record { status = 200; content_type = "application/json"; body = "{}" });
  readable = λ i. true;
}

abbrev plain : Escapes
plain = record { path_escape = λ s. s; query_escape = λ s. s; query_value = λ s key. "" }

abbrev schedule : Schedule
schedule = record {
  order = Target.wallets ∷ Target.jobs ∷ Target.contracts ∷ [];
  decode_total = λ s. some 7;
}

serve-SendsForUser_example :
    SendsForUser jwt auth
      (admin_route schedule dashboard_route)
      request
      world
      (serve jwt auth counter net plain (admin_route schedule dashboard_route) request world).1
serve-SendsForUser_example =
    serve-SendsForUser jwt laws auth counter net plain (admin_route schedule dashboard_route)
      request world

dashboard_any_order_example : (dashboard net schedule request world).0 ≡ record {
  status = 200;
  cookies = [];
  body =
      stats
        (entry net schedule.decode_total "" world Target.jobs)
        (entry net schedule.decode_total "" world Target.contracts)
        (entry net schedule.decode_total "" world Target.wallets);
}
dashboard_any_order_example =
    dashboard_any_order net schedule request world (λ before after o. refl)
      (record { jobs = refl; contracts = refl; wallets = refl })

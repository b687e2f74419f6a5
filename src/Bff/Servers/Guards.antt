-- ===== src/Bff/Servers/Guards.antt =====
-- The three servers, each with its chain of middleware.
use Prim.Native.String.{String, len}
use text.Mathlib.Text as Text
use text.Mathlib.TextEquality.{eq_iff}
use hire_flow.Prelude.{◌≡◌, ◌≢◌, refl, sym, ap, ◌∙◌, inl, inr, ◌⊎◌, some, [], ◌==◌, Bool-cases}
use mathlib.Core.Path.{subst}
use hire_flow.Bff.Types.{Request, World, Handler}
use hire_flow.Bff.Auth.{Jwt, JwtLaws, AuthConfig, with_identity, jwt_middleware, require_role}
use hire_flow.Bff.Tokens.{IsAccess, jwt_middleware-Authenticated}
use hire_flow.Bff.Limiter.{Rate, lookup, or_new, rate_limit}
use hire_flow.Bff.Client.{Net}
use hire_flow.Bff.Servers.Paths.{Escapes}
use hire_flow.Bff.Servers.Admin.{Schedule, AdminRoute, admin_api}
use hire_flow.Bff.Servers.Client.{ClientRoute, client_api}
use hire_flow.Bff.Servers.Freelancer.{FreelancerRoute, freelancer_api}
use hire_flow.Bff.Servers.Sending.{
  SendsFor, admin_api-SendsFor, client_api-SendsFor, freelancer_api-SendsFor,
}
use hire_flow.Bff.Servers.{limits, serve_admin, serve_client, serve_freelancer}

-- A route of one of the servers.
pub data Route : Type 0 where
  admin_route : Schedule → AdminRoute → Route
  client_route : ClientRoute → Route
  freelancer_route : FreelancerRoute → Route

-- the roles that a route is for: the two other servers ask for none
abbrev pub PermitsRole : Route → String → Type 0
PermitsRole (admin_route schedule route) role = role ≡ "admin"
PermitsRole (client_route route) role = Unit
PermitsRole (freelancer_route route) role = Unit

unfoldable pub serve : {L : Type 0} → Jwt → AuthConfig → Rate L → Net → Escapes → Route → Handler L
serve jwt auth lib net url (admin_route schedule route) =
    serve_admin jwt auth lib net url schedule route
serve jwt auth lib net url (client_route route) = serve_client jwt auth lib net url route
serve jwt auth lib net url (freelancer_route route) = serve_freelancer jwt auth lib net url route

-- Nothing was sent, or all that was sent is in the name of the user of the access token that came
-- with the request, and the role of the token is one that the route is for.
abbrev pub SendsForUser :
    {L : Type 0} → Jwt → AuthConfig → Route → Request → World L → World L → Type 0
SendsForUser jwt auth route r before after =
    (after.sent ≡ before.sent)
    ⊎ ((token : String) × (sub : String) × (role : String) × (r.access_token ≡ some token)
        × IsAccess jwt auth r.now token sub role
        × PermitsRole route role
        × SendsFor sub before after)

module _ {L : Type 0} (lib : Rate L) (next : Handler L) (r : Request) (w : World L)
    (sends : (v : World L) → SendsFor r.user_id v (next r v).1) where
  -- the limiter sends nothing
  rate_limit-SendsFor : SendsFor r.user_id w (rate_limit lib limits next r w).1
  unfolding rate_limit
  rate_limit-SendsFor = elim (Bool-cases (len r.user_id == 0)) [
    | inl nobody ↦ rw nobody (sends w)
    | inr somebody ↦
        rw somebody
          (elim (Bool-cases (lib.allow r.now (or_new lib limits (lookup r.user_id w.limiters))).0) [
            | inl allowed ↦ rw allowed (sends _)
            | inr refused ↦ rw refused ([], refl, tt)
          ])
  ]

-- what the middleware makes of a handler that sends in the name of the user
module _ {L : Type 0} (jwt : Jwt) (laws : JwtLaws jwt) (auth : AuthConfig) (next : Handler L)
    (r : Request) (w : World L) (Permits : String → Type 0)
    (sends : (sub role : String)
      → len sub ≢ 0
      → ((next (with_identity sub role r) w).1.sent ≡ w.sent)
        ⊎ Permits role × SendsFor sub w (next (with_identity sub role r) w).1) where
  jwt_middleware-sends :
      ((jwt_middleware jwt auth next r w).1.sent ≡ w.sent)
      ⊎ ((token : String) × (sub : String) × (role : String) × (r.access_token ≡ some token)
          × IsAccess jwt auth r.now token sub role
          × Permits role
          × SendsFor sub w (jwt_middleware jwt auth next r w).1)
  jwt_middleware-sends = elim (jwt_middleware-Authenticated jwt laws auth next r w) [
    | inl (m, is) ↦ inl (ap (λ p. p.1.sent) is)
    | inr (token, sub, role, sent, valid, is) ↦ elim (sends sub role valid.named) [
      | inl none_sent ↦ inl (ap (λ p. p.1.sent) is ∙ none_sent)
      | inr (permitted, for_user) ↦ inr (
        token,
        sub,
        role,
        sent,
        valid,
        permitted,
        subst (λ p. SendsFor sub w p.1) (sym is) for_user,
      )
    ]
  ]

-- Whatever a request to one of the three servers carries and whatever the services answer: either
-- nothing is sent to the services, or the request came with an access token that is signed under the
-- secret of the server and has not expired, everything that is sent carries in X-User-ID the user of
-- that token, and at the admin server the role of the token is admin.
pub serve-SendsForUser :
    {L : Type 0} (jwt : Jwt) (laws : JwtLaws jwt) (auth : AuthConfig) (lib : Rate L) (net : Net)
    (url : Escapes) (route : Route) (r : Request) (w : World L)
    → SendsForUser jwt auth route r w (serve jwt auth lib net url route r w).1
unfolding serve serve_admin serve_client serve_freelancer require_role
serve-SendsForUser jwt laws auth lib net url (admin_route schedule route) r w =
    jwt_middleware-sends jwt laws auth _ r w (λ role. role ≡ "admin")
      (λ sub role named. elim (Bool-cases (Text.◌==◌ role "admin")) [
        | inl admin ↦ rw admin (
            inr (
              (eq_iff role "admin").0 admin,
              rate_limit-SendsFor lib (admin_api net schedule route) (with_identity sub role r) w
                  (λ v. admin_api-SendsFor net schedule route (with_identity sub role r) v named),
            ))
        | inr other ↦ rw other (inl refl)
      ])
serve-SendsForUser jwt laws auth lib net url (client_route route) r w =
    jwt_middleware-sends jwt laws auth _ r w (λ role. Unit {0})
      (λ sub role named. inr (
        tt,
        rate_limit-SendsFor lib (client_api net url route) (with_identity sub role r) w
            (λ v. client_api-SendsFor net url route (with_identity sub role r) v named),
      ))
serve-SendsForUser jwt laws auth lib net url (freelancer_route route) r w =
    jwt_middleware-sends jwt laws auth _ r w (λ role. Unit {0})
      (λ sub role named. inr (
        tt,
        rate_limit-SendsFor lib (freelancer_api net url route) (with_identity sub role r) w
            (λ v. freelancer_api-SendsFor net url route (with_identity sub role r) v named),
      ))

-- ===== src/Bff/Servers.antt =====
-- The three servers (services/bff): their routes under /api/, each of which is behind a chain of
-- middleware.
pub mod Paths
pub mod Admin
pub mod Sending
pub mod Dashboard
pub mod Guards
pub mod Freelancer
pub mod Client
use Prim.Native.String.{String}
use hire_flow.Bff.Types.{Handler}
use hire_flow.Bff.Auth.{Jwt, AuthConfig, jwt_middleware, require_role}
use hire_flow.Bff.Limiter.{Rate, Limits, rate_limit}
use hire_flow.Bff.Client.{Net}
use hire_flow.Bff.Servers.Admin.{AdminRoute, admin_api, Schedule}
use hire_flow.Bff.Servers.Client.{ClientRoute, client_api}
use hire_flow.Bff.Servers.Freelancer.{FreelancerRoute, freelancer_api}
use hire_flow.Bff.Servers.Paths.{Escapes}

-- `NewRateLimiter(100, 20)`
abbrev pub limits : Limits
limits = record { rate = 100; burst = 20 }

module _ {L : Type 0} (jwt : Jwt) (auth : AuthConfig) (lib : Rate L) (net : Net)
    (escapes : Escapes) where
  -- `protected` of each main.go
  unfoldable pub serve_admin : Schedule → AdminRoute → Handler L
  serve_admin schedule route =
      jwt_middleware jwt auth
        (require_role "admin" (rate_limit lib limits (admin_api net schedule route)))

  unfoldable pub serve_client : ClientRoute → Handler L
  serve_client route =
      jwt_middleware jwt auth (rate_limit lib limits (client_api net escapes route))

  unfoldable pub serve_freelancer : FreelancerRoute → Handler L
  serve_freelancer route =
      jwt_middleware jwt auth (rate_limit lib limits (freelancer_api net escapes route))

-- ===== src/Bff/Servers/Admin.antt =====
-- The handlers of services/bff/admin/cmd/server.
use Prim.Native.String.{String, ◌++◌}
use hire_flow.Prelude.{ℕ, true, false, Option, none, List, [], ◌∷◌}
use hire_flow.Bff.Types.{Response, stats, ServiceStats, get, World, Handler}
use hire_flow.Bff.Client.{Net, Fetched, failed, api_error, fetched, no_body, service_do, forward}
use hire_flow.Bff.Servers.Paths.{with_query}

-- the fields of `dashboardResponse`
pub data Target : Type 0 where
  jobs contracts wallets : Target

pub record Dashboard : Type 0 where
  pub jobs : ServiceStats
  pub contracts : ServiceStats
  pub wallets : ServiceStats

-- The order in which the fetches of the dashboard run, and `json.Unmarshal` into a `listResp`.
pub record Schedule : Type 0 where
  pub order : List Target
  pub decode_total : String → Option ℕ

pub data JobRoute : Type 0 where
  list : JobRoute
  get_by_id : String → JobRoute

pub data ContractRoute : Type 0 where
  list : ContractRoute
  get_by_id : String → ContractRoute

pub data AdminRoute : Type 0 where
  job_route : JobRoute → AdminRoute
  contract_route : ContractRoute → AdminRoute
  list_wallets_route dashboard_route : AdminRoute

abbrev pub blank : ServiceStats
blank = record { total = 0; unavailable = false }

abbrev pub service_of : Target → String
service_of Target.jobs = "jobs-api"
service_of Target.contracts = "contracts"
service_of Target.wallets = "payments"

abbrev pub path_of : Target → String
path_of Target.jobs = "/api/v1/jobs?limit=1"
path_of Target.contracts = "/api/v1/contracts?limit=1"
path_of Target.wallets = "/api/v1/payments/wallets?limit=1"

-- what a fetch does to its entry
abbrev pub settle : Fetched ℕ → ServiceStats → ServiceStats
settle (fetched total) s = record s { total = total }
settle failed s = record s { unavailable = true }
settle (api_error status body) s = record s { unavailable = true }

abbrev pub set_entry : Target → (ServiceStats → ServiceStats) → Dashboard → Dashboard
set_entry Target.jobs f d = record d { jobs = f d.jobs }
set_entry Target.contracts f d = record d { contracts = f d.contracts }
set_entry Target.wallets f d = record d { wallets = f d.wallets }

module _ {L : Type 0} (net : Net) where
  abbrev pub ask : (String → Option ℕ) → Target → String → World L → Fetched ℕ × World L
  ask decode t user w = service_do net (service_of t) decode get (path_of t) no_body user w

  -- `fetch`: the lock makes the write of the entry one step
  unfoldable pub fetch :
      (String → Option ℕ) → Target → String → Dashboard × World L → Dashboard × World L
  fetch decode t user (d, w) =
      let (answer, after) = ask decode t user w in (set_entry t (settle answer) d, after)

  unfoldable pub fetch_all :
      (String → Option ℕ) → List Target → String → Dashboard × World L → Dashboard × World L
  fetch_all decode [] user s = s
  fetch_all decode (t ∷ ts) user s = fetch_all decode ts user (fetch decode t user s)

  abbrev shown : Dashboard × World L → Response × World L
  shown (d, w) =
      (record { status = 200; cookies = []; body = stats d.jobs d.contracts d.wallets }, w)

  -- `Stats`, once all three are done
  unfoldable pub dashboard : Schedule → Handler L
  unfolding fetch_all fetch
  dashboard schedule r w = shown (
      fetch_all schedule.decode_total schedule.order r.user_id
        (record { jobs = blank; contracts = blank; wallets = blank }, w))

  unfoldable pub job_handler : JobRoute → Handler L
  job_handler JobRoute.list r w = forward net "jobs-api" get (with_query "/api/v1/jobs" r) none r w
  job_handler (JobRoute.get_by_id id) r w =
      forward net "jobs-api" get ("/api/v1/jobs/" ++ id) none r w

  unfoldable pub contract_handler : ContractRoute → Handler L
  contract_handler ContractRoute.list r w =
      forward net "contracts" get (with_query "/api/v1/contracts" r) none r w
  contract_handler (ContractRoute.get_by_id id) r w =
      forward net "contracts" get ("/api/v1/contracts/" ++ id) none r w

  unfoldable pub wallet_handler : Handler L
  wallet_handler r w = forward net "payments" get (with_query "/api/v1/payments/wallets" r) none r w

  unfoldable pub admin_api : Schedule → AdminRoute → Handler L
  unfolding job_handler contract_handler wallet_handler dashboard
  admin_api schedule (job_route route) r w = job_handler route r w
  admin_api schedule (contract_route route) r w = contract_handler route r w
  admin_api schedule list_wallets_route r w = wallet_handler r w
  admin_api schedule dashboard_route r w = dashboard schedule r w

-- ===== src/Bff/Servers/Client.antt =====
-- The handlers of services/bff/client/cmd/server.
use Prim.Native.String.{String, ◌++◌}
use hire_flow.Prelude.{none, some}
use hire_flow.Bff.Types.{get, post, put, Handler}
use hire_flow.Bff.Client.{Net, forward}
use hire_flow.Bff.Servers.Paths.{Escapes, with_query, with_user}

pub data JobRoute : Type 0 where
  create list : JobRoute
  get_by_id : String → JobRoute

pub data ContractRoute : Type 0 where
  list create : ContractRoute
  get_by_id accept complete cancel : String → ContractRoute

pub data ClientRoute : Type 0 where
  job_route : JobRoute → ClientRoute
  contract_route : ContractRoute → ClientRoute
  find_matches_route : String → ClientRoute
  get_balance_route : ClientRoute

module _ {L : Type 0} (net : Net) (url : Escapes) where
  unfoldable pub job_handler : JobRoute → Handler L
  job_handler JobRoute.create r w = forward net "jobs-api" post "/api/v1/jobs" (some r.body) r w
  job_handler JobRoute.list r w = forward net "jobs-api" get (with_query "/api/v1/jobs" r) none r w
  job_handler (JobRoute.get_by_id id) r w =
      forward net "jobs-api" get ("/api/v1/jobs/" ++ url.path_escape id) none r w

  unfoldable pub contract_handler : ContractRoute → Handler L
  contract_handler ContractRoute.list r w =
      with_user
        (λ user.
          forward net "contracts" get ("/api/v1/contracts?client_id=" ++ url.query_escape user)
            none)
        r w
  contract_handler ContractRoute.create r w =
      forward net "contracts" post "/api/v1/contracts" (some r.body) r w
  contract_handler (ContractRoute.get_by_id id) r w =
      forward net "contracts" get ("/api/v1/contracts/" ++ url.path_escape id) none r w
  contract_handler (ContractRoute.accept id) r w =
      forward net "contracts" put ("/api/v1/contracts/" ++ (url.path_escape id ++ "/accept"))
        (some r.body) r w
  contract_handler (ContractRoute.complete id) r w =
      forward net "contracts" put ("/api/v1/contracts/" ++ (url.path_escape id ++ "/complete"))
        (some r.body) r w
  contract_handler (ContractRoute.cancel id) r w =
      forward net "contracts" put ("/api/v1/contracts/" ++ (url.path_escape id ++ "/cancel"))
        (some r.body) r w

  unfoldable pub find_matches : String → Handler L
  find_matches id r w =
      forward net "ai-matching" post (with_query ("/api/v1/match/job/" ++ url.path_escape id) r)
        (some r.body) r w

  unfoldable pub get_balance : Handler L
  get_balance r w =
      with_user
        (λ user.
          forward net "payments" get ("/api/v1/payments/wallet/" ++ url.path_escape user) none)
        r w

  unfoldable pub client_api : ClientRoute → Handler L
  unfolding job_handler contract_handler find_matches get_balance
  client_api (job_route route) r w = job_handler route r w
  client_api (contract_route route) r w = contract_handler route r w
  client_api (find_matches_route id) r w = find_matches id r w
  client_api get_balance_route r w = get_balance r w

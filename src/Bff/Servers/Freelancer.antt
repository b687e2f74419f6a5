-- ===== src/Bff/Servers/Freelancer.antt =====
-- The handlers of services/bff/freelancer/cmd/server.
use Prim.Native.String.{String, ◌++◌, len}
use hire_flow.Prelude.{none, some, if◌then◌else◌, ◌==◌}
use hire_flow.Bff.Types.{Request, get, post, put, Handler, missing_user_id}
use hire_flow.Bff.Auth.{write_error}
use hire_flow.Bff.Client.{Net, forward}
use hire_flow.Bff.Servers.Paths.{Escapes, with_user}

pub data ContractRoute : Type 0 where
  list : ContractRoute
  get_by_id accept : String → ContractRoute

pub data FreelancerRoute : Type 0 where
  contract_route : ContractRoute → FreelancerRoute
  find_job_matches_route get_balance_route : FreelancerRoute

module _ (url : Escapes) where
  -- the profile in the query, or else the user
  abbrev pub profile_id : Request → String
  profile_id r =
      if len (url.query_value r.raw_query "profile_id") == 0
      then r.user_id
      else url.query_value r.raw_query "profile_id"

  abbrev match_path : Request → String
  match_path r =
      let top_k = url.query_value r.raw_query "top_k" in
      let path = "/api/v1/match/profile/" ++ url.path_escape (profile_id r) in
      if len top_k == 0 then path else path ++ "?top_k=" ++ url.query_escape top_k

module _ {L : Type 0} (net : Net) (url : Escapes) where
  unfoldable pub contract_handler : ContractRoute → Handler L
  contract_handler list r w =
      with_user
        (λ user.
          forward net "contracts" get ("/api/v1/contracts?freelancer_id=" ++ url.query_escape user)
            none)
        r w
  contract_handler (get_by_id id) r w =
      forward net "contracts" get ("/api/v1/contracts/" ++ url.path_escape id) none r w
  contract_handler (accept id) r w =
      forward net "contracts" put ("/api/v1/contracts/" ++ (url.path_escape id ++ "/accept"))
        (some r.body) r w

  unfoldable pub find_job_matches : Handler L
  find_job_matches r w =
      if len (profile_id url r) == 0
      then (write_error 401 missing_user_id, w)
      else forward net "ai-matching" post (match_path url r) (some r.body) r w

  unfoldable pub get_balance : Handler L
  get_balance r w =
      with_user
        (λ user.
          forward net "payments" get ("/api/v1/payments/wallet/" ++ url.path_escape user) none)
        r w

  unfoldable pub freelancer_api : FreelancerRoute → Handler L
  unfolding contract_handler find_job_matches get_balance
  freelancer_api (contract_route route) r w = contract_handler route r w
  freelancer_api find_job_matches_route r w = find_job_matches r w
  freelancer_api get_balance_route r w = get_balance r w

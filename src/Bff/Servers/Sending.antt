-- ===== src/Bff/Servers/Sending.antt =====
-- What the handlers behind the middleware send to the services, and for whom.
use Prim.Native.String.{String, len, ◌++◌ as str_append}
use hire_flow.Prelude.{
  ℕ, ◌≡◌, ◌≢◌, refl, sym, ◌∙◌, inl, inr, Option, none, some, List, [], ◌∷◌, ◌++◌, arith, ◌==◌, ap,
  Bool-cases,
}
use mathlib.Core.List.{append_assoc}
use hire_flow.Prelude.Table.{All}
use hire_flow.Bff.Types.{Request, Verb, get, Outgoing, World}
use hire_flow.Bff.Client.{Net, service_do, forward}
use hire_flow.Bff.Servers.Paths.{Escapes, with_user}
use hire_flow.Bff.Servers.Admin
use hire_flow.Bff.Servers.Client
use hire_flow.Bff.Servers.Freelancer
use hire_flow.Bff.Servers.Admin.{
  Target, Dashboard, Schedule, AdminRoute, blank, service_of, path_of, fetch, fetch_all, admin_api,
}
use hire_flow.Bff.Servers.Client.{ClientRoute, client_api}
use hire_flow.Bff.Servers.Freelancer.{FreelancerRoute, freelancer_api, profile_id}

All-append :
    (P : Outgoing → Type 0) (xs ys : List Outgoing) → All P xs → All P ys → All P (xs ++ ys)
All-append P [] ys h k = k
All-append P (x ∷ xs) ys h k = (h.0, All-append P xs ys h.1 k)

-- What was sent between two states is sent in the name of the user.
abbrev pub SendsFor : {L : Type 0} → String → World L → World L → Type 0
SendsFor user before after =
    (new : List Outgoing) × (after.sent ≡ new ++ before.sent)
    × All (λ (o : Outgoing). o.user_header ≡ some user) new

module _ {L : Type 0} (net : Net) where
  forward-SendsFor :
      (service : String) (verb : Verb) (path : String) (body : Option String) (r : Request)
      (w : World L)
      → len r.user_id ≢ 0
      → SendsFor r.user_id w (forward net service verb path body r w).1
  unfolding forward
  forward-SendsFor service verb path body r w named =
      elim (Bool-cases (net.well_formed service path)) [
        | inl good ↦ rw good (_ ∷ [], refl, (ground arith, tt))
        | inr bad ↦ rw bad ([], refl, tt)
      ]

  still : (user : String) (w : World L) → SendsFor user w w
  still user w = ([], refl, tt)

  -- what is sent in two parts
  SendsFor-trans :
      (user : String) (a b c : World L) → SendsFor user a b → SendsFor user b c → SendsFor user a c
  SendsFor-trans user a b c (old, is, p) (new, then_is, q) = (
    new ++ old,
    then_is ∙ ap (λ t. new ++ t) is ∙ sym (append_assoc new old a.sent),
    All-append _ new old q p,
  )

  ask-SendsFor :
      (decode : String → Option ℕ) (t : Target) (user : String) (d : Dashboard) (w : World L)
      → len user ≢ 0
      → SendsFor user w (fetch net decode t user (d, w)).1
  unfolding fetch service_do
  ask-SendsFor decode t user d w named =
      elim (Bool-cases (net.well_formed (service_of t) (path_of t))) [
        | inl good ↦ rw good (_ ∷ [], refl, (ground arith, tt))
        | inr bad ↦ rw bad ([], refl, tt)
      ]

  fetch_all-SendsFor :
      (decode : String → Option ℕ) (ts : List Target) (user : String) (s : Dashboard × World L)
      → len user ≢ 0
      → SendsFor user s.1 (fetch_all net decode ts user s).1
  unfolding fetch_all
  fetch_all-SendsFor decode [] user s named = still user s.1
  fetch_all-SendsFor decode (t ∷ ts) user (d, w) named =
      SendsFor-trans user w (fetch net decode t user (d, w)).1
        (fetch_all net decode ts user (fetch net decode t user (d, w))).1
        (ask-SendsFor decode t user d w named)
        (fetch_all-SendsFor decode ts user (fetch net decode t user (d, w)) named)

  pub admin_api-SendsFor :
      (schedule : Schedule) (route : AdminRoute) (r : Request) (w : World L)
      → len r.user_id ≢ 0
      → SendsFor r.user_id w (admin_api net schedule route r w).1
  unfolding admin_api
  admin_api-SendsFor schedule (AdminRoute.job_route Admin.JobRoute.list) r w named =
      forward-SendsFor _ _ _ _ r w named
  admin_api-SendsFor schedule (AdminRoute.job_route (Admin.JobRoute.get_by_id id)) r w named =
      forward-SendsFor _ _ _ _ r w named
  admin_api-SendsFor schedule (AdminRoute.contract_route Admin.ContractRoute.list) r w named =
      forward-SendsFor _ _ _ _ r w named
  admin_api-SendsFor schedule (AdminRoute.contract_route (Admin.ContractRoute.get_by_id id)) r w
        named =
      forward-SendsFor _ _ _ _ r w named
  admin_api-SendsFor schedule AdminRoute.list_wallets_route r w named =
      forward-SendsFor _ _ _ _ r w named
  admin_api-SendsFor schedule AdminRoute.dashboard_route r w named =
      fetch_all-SendsFor schedule.decode_total schedule.order r.user_id
        (record { jobs = blank; contracts = blank; wallets = blank }, w) named

  with_user-SendsFor :
      (service : String) (path : String → String) (r : Request) (w : World L)
      → len r.user_id ≢ 0
      → SendsFor r.user_id w (with_user (λ user. forward net service get (path user) none) r w).1
  with_user-SendsFor service path r w named = elim (Bool-cases (len r.user_id == 0)) [
    | inl nobody ↦ rw nobody (still r.user_id w)
    | inr somebody ↦ rw somebody (forward-SendsFor service get (path r.user_id) none r w named)
  ]

  pub client_api-SendsFor :
      (url : Escapes) (route : ClientRoute) (r : Request) (w : World L)
      → len r.user_id ≢ 0
      → SendsFor r.user_id w (client_api net url route r w).1
  unfolding client_api
  client_api-SendsFor url (ClientRoute.job_route Client.JobRoute.create) r w named =
      forward-SendsFor _ _ _ _ r w named
  client_api-SendsFor url (ClientRoute.job_route Client.JobRoute.list) r w named =
      forward-SendsFor _ _ _ _ r w named
  client_api-SendsFor url (ClientRoute.job_route (Client.JobRoute.get_by_id id)) r w named =
      forward-SendsFor _ _ _ _ r w named
  client_api-SendsFor url (ClientRoute.contract_route Client.ContractRoute.create) r w named =
      forward-SendsFor _ _ _ _ r w named
  client_api-SendsFor url (ClientRoute.contract_route (Client.ContractRoute.get_by_id id)) r w
        named =
      forward-SendsFor _ _ _ _ r w named
  client_api-SendsFor url (ClientRoute.contract_route (Client.ContractRoute.accept id)) r w named =
      forward-SendsFor _ _ _ _ r w named
  client_api-SendsFor url (ClientRoute.contract_route (Client.ContractRoute.complete id)) r w
        named =
      forward-SendsFor _ _ _ _ r w named
  client_api-SendsFor url (ClientRoute.contract_route (Client.ContractRoute.cancel id)) r w named =
      forward-SendsFor _ _ _ _ r w named
  client_api-SendsFor url (ClientRoute.find_matches_route id) r w named =
      forward-SendsFor _ _ _ _ r w named
  client_api-SendsFor url (ClientRoute.contract_route Client.ContractRoute.list) r w named =
      with_user-SendsFor "contracts"
        (λ user. str_append "/api/v1/contracts?client_id=" (url.query_escape user)) r w named
  client_api-SendsFor url ClientRoute.get_balance_route r w named =
      with_user-SendsFor "payments"
        (λ user. str_append "/api/v1/payments/wallet/" (url.path_escape user)) r w named

  pub freelancer_api-SendsFor :
      (url : Escapes) (route : FreelancerRoute) (r : Request) (w : World L)
      → len r.user_id ≢ 0
      → SendsFor r.user_id w (freelancer_api net url route r w).1
  unfolding freelancer_api
  freelancer_api-SendsFor url (FreelancerRoute.contract_route Freelancer.ContractRoute.list) r w
        named =
      with_user-SendsFor "contracts"
        (λ user. str_append "/api/v1/contracts?freelancer_id=" (url.query_escape user)) r w named
  freelancer_api-SendsFor url FreelancerRoute.get_balance_route r w named =
      with_user-SendsFor "payments"
        (λ user. str_append "/api/v1/payments/wallet/" (url.path_escape user)) r w named
  freelancer_api-SendsFor url FreelancerRoute.find_job_matches_route r w named =
      elim (Bool-cases (len (profile_id url r) == 0)) [
        | inl nobody ↦ rw nobody (still r.user_id w)
        | inr somebody ↦ rw somebody (forward-SendsFor _ _ _ _ r w named)
      ]
  freelancer_api-SendsFor url
        (FreelancerRoute.contract_route (Freelancer.ContractRoute.get_by_id id)) r w named =
      forward-SendsFor _ _ _ _ r w named
  freelancer_api-SendsFor url (FreelancerRoute.contract_route (Freelancer.ContractRoute.accept id))
        r w named =
      forward-SendsFor _ _ _ _ r w named

-- ===== src/Bff/Servers/Dashboard.antt =====
-- The dashboard of services/bff/admin/cmd/server/dashboard_handler.go, whose fetches run at once.
use Prim.Native.String.{String}
use hire_flow.Prelude.{
  ℕ, ◌≡◌, refl, Bool, true, false, Option, List, [], ◌∷◌, arith, ◌||◌, if◌then◌else◌, ap, none,
}
use hire_flow.Bff.Types.{Request, stats, ServiceStats, Outgoing, World, get}
use hire_flow.Bff.Client.{Net, Fetched, failed, api_error, fetched, service_do, outgoing}
use hire_flow.Bff.Servers.Admin.{
  Target, Dashboard, Schedule, ask, settle, blank, fetch, fetch_all, dashboard, service_of, path_of,
}

abbrev same_target : Target → Target → Bool
same_target Target.jobs Target.jobs = true
same_target Target.contracts Target.contracts = true
same_target Target.wallets Target.wallets = true
same_target _ _ = false

abbrev pub mentions : Target → List Target → Bool
mentions t [] = false
mentions t (u ∷ us) = same_target u t || mentions t us

-- The services answer a request the same, whatever was sent before.
abbrev pub IsSteady : Net → Type 0
IsSteady net =
    (before after : List Outgoing) (o : Outgoing) → net.round_trip before o ≡ net.round_trip after o

-- All three fetches run, in some order.
pub record IsComplete (order : List Target) : Type 0 where
  pub jobs : mentions Target.jobs order ≡ true
  pub contracts : mentions Target.contracts order ≡ true
  pub wallets : mentions Target.wallets order ≡ true

abbrev entry_of : Target → Dashboard → ServiceStats
entry_of Target.jobs d = d.jobs
entry_of Target.contracts d = d.contracts
entry_of Target.wallets d = d.wallets

-- What one service alone makes of its entry.
abbrev pub entry :
    {L : Type 0} → Net → (String → Option ℕ) → String → World L → Target → ServiceStats
entry net decode user w t = settle (ask net decode t user w).0 blank

settle-settle : (a : Fetched ℕ) (s : ServiceStats) → settle a (settle a s) ≡ settle a s
settle-settle failed s = refl
settle-settle (api_error status body) s = refl
settle-settle (fetched total) s = refl

module _ {L : Type 0} (net : Net) (steady : IsSteady net) (decode : String → Option ℕ)
    (user : String) where
  ask_steady :
      (t : Target) (v w : World L) → (ask net decode t user v).0 ≡ (ask net decode t user w).0
  unfolding service_do
  ask_steady t v w =
      let o = outgoing net (service_of t) get (path_of t) none user in
      let same = steady v.sent w.sent o in ground arith

  fetch-entry :
      (t u : Target) (d : Dashboard) (v w : World L)
      → entry_of t (fetch net decode u user (d, v)).0 ≡ (
          if same_target u t
          then settle (ask net decode t user w).0 (entry_of t d)
          else entry_of t d)
  unfolding fetch
  fetch-entry Target.jobs Target.jobs d v w = ap (λ a. settle a d.jobs) (ask_steady Target.jobs v w)
  fetch-entry Target.contracts Target.contracts d v w =
      ap (λ a. settle a d.contracts) (ask_steady Target.contracts v w)
  fetch-entry Target.wallets Target.wallets d v w =
      ap (λ a. settle a d.wallets) (ask_steady Target.wallets v w)
  fetch-entry t u d v w = refl

  fetch_all-entry :
      (t : Target) (ts : List Target) (d : Dashboard) (v w : World L)
      → entry_of t (fetch_all net decode ts user (d, v)).0 ≡ (
          if mentions t ts then settle (ask net decode t user w).0 (entry_of t d) else entry_of t d)
  unfolding fetch_all
  fetch_all-entry t [] d v w = refl
  fetch_all-entry t (u ∷ us) d v w =
      let s = fetch net decode u user (d, v) in
      ground (
        arith,
        fetch-entry t u d v w,
        fetch_all-entry t us s.0 s.1 w,
        settle-settle (ask net decode t user w).0 (entry_of t d),
      )

-- If the answers of the services do not depend on what was sent before, the dashboard answers 200 and
-- shows the same in whatever order its three fetches run: each entry is what its own service alone
-- makes of it, its total or that it is unavailable.
pub dashboard_any_order :
    {L : Type 0} (net : Net) (schedule : Schedule) (r : Request) (w : World L)
    → IsSteady net
    → IsComplete schedule.order
    → (dashboard net schedule r w).0 ≡ record {
      status = 200;
      cookies = [];
      body =
          stats
            (entry net schedule.decode_total r.user_id w Target.jobs)
            (entry net schedule.decode_total r.user_id w Target.contracts)
            (entry net schedule.decode_total r.user_id w Target.wallets);
    }
unfolding dashboard
dashboard_any_order net schedule r w steady complete =
    let start : Dashboard = record { jobs = blank; contracts = blank; wallets = blank } in
    let each = λ (t : Target).
      fetch_all-entry net steady schedule.decode_total r.user_id t schedule.order start w w in
    ground (
      arith,
      each Target.jobs,
      each Target.contracts,
      each Target.wallets,
      complete.jobs,
      complete.contracts,
      complete.wallets,
    )

-- ===== src/Bff/Limiter/Isolation.antt =====
-- The limiters of different users.
use Prim.Native.String.{String}
use text.Mathlib.Text as Text
use text.Mathlib.TextPositions.{eq_refl}
use text.Mathlib.TextEquality.{eq_iff}
use hire_flow.Prelude.{
  ◌≡◌, ◌∙◌, refl, sym, inl, inr, false, some, List, [], ◌∷◌, arith, Bool-cases, if◌then◌else◌, ap,
}
use mathlib.Core.Path.{subst}
use hire_flow.Prelude.Table.{filter}
use hire_flow.Bff.Types.{Request, Response, World, Handler}
use hire_flow.Bff.Limiter.{Rate, Limits, lookup, insert, or_new, rate_limit}

module _ {L : Type 0} where
  lookup-insert :
      (k j : String) (l : L) (ls : List (String × L))
      → lookup j (insert k l ls) ≡ (if Text.◌==◌ k j then some l else lookup j ls)
  lookup-insert k j l [] = refl
  lookup-insert k j l ((i, m) ∷ ls) =
      ground (arith, eq_iff k j, eq_iff i k, eq_iff i j, eq_refl j, lookup-insert k j l ls)

abbrev pub of_user : String → List Request → List Request
of_user user rs = filter (λ (r : Request). Text.◌==◌ r.user_id user) rs

abbrev pub answers_of : String → List (String × Response) → List (String × Response)
answers_of user given = filter (λ (a : String × Response). Text.◌==◌ a.0 user) given

-- A handler that answers from the request alone.
abbrev pub stateless : {L : Type 0} → (Request → Response) → Handler L
stateless respond r w = (respond r, w)

module _ {L : Type 0} (lib : Rate L) (limits : Limits) (respond : Request → Response) where
  -- one after another: the user of each request and the answer
  unfoldable pub answers : List Request → World L → List (String × Response)
  answers [] w = []
  answers (r ∷ rs) w =
      let (a, after) = rate_limit lib limits (stateless respond) r w in
      (r.user_id, a) ∷ answers rs after

  -- one request: what the limiter of a user comes to
  other_user :
      (user : String) (r : Request) (w : World L)
      → Text.◌==◌ r.user_id user ≡ false
      → lookup user (rate_limit lib limits (stateless respond) r w).1.limiters
        ≡ lookup user w.limiters
  unfolding rate_limit
  other_user user r w other =
      let (allowed, used) = lib.allow r.now (or_new lib limits (lookup r.user_id w.limiters)) in
      ground (
        arith,
        lookup-insert r.user_id user used
            (insert r.user_id (or_new lib limits (lookup r.user_id w.limiters)) w.limiters),
        lookup-insert r.user_id user (or_new lib limits (lookup r.user_id w.limiters)) w.limiters,
      )

  same_user :
      (r : Request) (v w : World L)
      → lookup r.user_id v.limiters ≡ lookup r.user_id w.limiters
      → ((rate_limit lib limits (stateless respond) r v).0
          ≡ (rate_limit lib limits (stateless respond) r w).0)
        × (lookup r.user_id (rate_limit lib limits (stateless respond) r v).1.limiters
            ≡ lookup r.user_id (rate_limit lib limits (stateless respond) r w).1.limiters)
  unfolding rate_limit
  same_user r v w same =
      let l : L = or_new lib limits (lookup r.user_id w.limiters) in
      let k : L = or_new lib limits (lookup r.user_id v.limiters) in
      let equal : k ≡ l = ap (or_new lib limits) same in
      let u : L = (lib.allow r.now l).1 in
      let t : L = (lib.allow r.now k).1 in
      let left = lookup-insert r.user_id r.user_id t (insert r.user_id k v.limiters) in
      let right = lookup-insert r.user_id r.user_id u (insert r.user_id l w.limiters) in
      (ground arith, ground (arith, eq_refl r.user_id))

  only_user :
      (user : String) (rs : List Request) (v w : World L)
      → lookup user v.limiters ≡ lookup user w.limiters
      → answers_of user (answers rs v) ≡ answers (of_user user rs) w
  unfolding answers
  only_user user [] v w same = refl
  only_user user (r ∷ rs) v w same = elim (Bool-cases (Text.◌==◌ r.user_id user)) [
    | inl own ↦
        let is : r.user_id ≡ user = (eq_iff r.user_id user).0 own in
        let (first, after) =
          same_user r v w (subst (λ k. lookup k v.limiters ≡ lookup k w.limiters) (sym is) same) in
        let rest =
          only_user user rs (rate_limit lib limits (stateless respond) r v).1
            (rate_limit lib limits (stateless respond) r w).1
            (subst
              (λ k.
                lookup k (rate_limit lib limits (stateless respond) r v).1.limiters
                ≡ lookup k (rate_limit lib limits (stateless respond) r w).1.limiters)
              is after) in
        rw (own) (cc (first, rest))
    | inr other ↦ rw other (
        only_user user rs (rate_limit lib limits (stateless respond) r v).1 w
          (other_user user r v other ∙ same))
  ]

-- However the requests of several users are mixed, each user is answered as if no other had sent
-- any: the answers to a user are the answers to the requests of that user alone, where the handler
-- behind the limiter answers by the request only.
pub rate_limit-isolates :
    {L : Type 0} (lib : Rate L) (limits : Limits) (respond : Request → Response) (user : String)
    (rs : List Request) (w : World L)
    → answers_of user (answers lib limits respond rs w)
      ≡ answers lib limits respond (of_user user rs) w
rate_limit-isolates lib limits respond user rs w = only_user lib limits respond user rs w w refl

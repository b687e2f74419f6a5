-- ===== src/Bff/Limiter.antt =====
-- The rate limiter of middleware.go of pkg/bff. The library `rate` is a parameter. `RequestLogger`
-- writes a line to the log and changes neither the request nor the response.
pub mod Isolation
use Prim.Native.String.{String, len}
use text.Mathlib.Text as Text
use hire_flow.Prelude.{ℕ, Bool, true, false, Option, none, some, List, [], ◌∷◌, ◌==◌, if◌then◌else◌}
use hire_flow.Bff.Types.{Request, Response, World, Handler, rate_limit_exceeded}
use hire_flow.Bff.Auth.{write_error}

-- `rate.NewLimiter` with a rate and a burst, and `Allow` at a time.
pub record Rate (L : Type 0) : Type 0 where
  pub new_limiter : ℕ → ℕ → L
  pub allow : ℕ → L → Bool × L

-- the fields of `RateLimiter` that do not change
pub record Limits : Type 0 where
  pub rate : ℕ
  pub burst : ℕ

module _ {L : Type 0} where
  abbrev pub lookup : String → List (String × L) → Option L
  lookup k [] = none
  lookup k ((j, l) ∷ ls) = if Text.◌==◌ j k then some l else lookup k ls

  abbrev pub insert : String → L → List (String × L) → List (String × L)
  insert k l [] = (k, l) ∷ []
  insert k l ((j, m) ∷ ls) = if Text.◌==◌ j k then (j, l) ∷ ls else (j, m) ∷ insert k l ls

module _ {L : Type 0} (lib : Rate L) (limits : Limits) where
  abbrev pub or_new : Option L → L
  or_new none = lib.new_limiter limits.rate limits.burst
  or_new (some l) = l

  -- `getLimiter`: the limiter of the user, and the map with it
  unfoldable pub get_limiter : String → List (String × L) → L × List (String × L)
  get_limiter user limiters = let l = or_new (lookup user limiters) in (l, insert user l limiters)

  -- `Middleware`: `Allow` changes the limiter that stands in the map
  unfoldable pub rate_limit : Handler L → Handler L
  unfolding get_limiter
  rate_limit next r w =
      let (l, limiters) = get_limiter r.user_id w.limiters in
      let (allowed, used) = lib.allow r.now l in
      let counted : World L = record w { limiters = insert r.user_id used limiters } in
      if len r.user_id == 0
      then next r w
      else if allowed
      then next r counted
      else (write_error 429 rate_limit_exceeded, counted)

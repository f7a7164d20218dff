-- ===== src/Failover/Requests.antt =====
-- A request over all its attempts.
use subbier.Base.{ℕ, zero, suc, ◌+◌, ◌-◌, ◌≤◌, max, refl, Option, none, some, List, arith, length}
use subbier.Model.{SubId}
use subbier.Balance.Router.{PoolGate, State, sweep}
use subbier.Balance.Router.Invariant.{IsValid}
use subbier.Balance.Selection.{Selection, Result, ok, err}
use subbier.Balance.Select.Sound.{Outcome as Selecting, select_in-Outcome}
use subbier.Failover.{
  Outside, Prepared, World, Outcome, done, to_next, failed, select_next, next_turn, opened,
  try_registered, turn, attempt, failover, forward_with_failover,
}
use subbier.Failover.Attempts.{IsSound, Attempted, attempt-Attempted}

-- How many attempts a first selection allows: one for each candidate, and one at least.
abbrev pub allowed : Option (Result Selection) → ℕ
allowed none = 0
allowed (some (err e)) = 0
allowed (some (ok sel)) = max sel.candidates 1

module _ {O : Type 0} where
  -- The request has an answer, and the router is as it should be.
  abbrev pub Answered : World O × Option ℕ → Type 0
  Answered (w, none) = ⊥
  Answered (w, some status) = IsValid w.router

  -- Answered with at most so many spans.
  abbrev AnsweredWithin : ℕ → World O × Option ℕ → Type 0
  AnsweredWithin bound (w, none) = ⊥
  AnsweredWithin bound (w, some status) = IsValid w.router × (length w.spans ≤ bound)

  -- Selected at a router as it should be, with no new span.
  abbrev Selected : List SubId → World O × Option (Result Selection) → Type 0
  Selected spans (w, none) = ⊥
  Selected spans (w, some (err e)) = IsSound spans w
  Selected spans (w, some (ok sel)) = IsSound spans w

  AnsweredWithin-Answered :
      (bound : ℕ) (r : World O × Option ℕ) → AnsweredWithin bound r → Answered r
  AnsweredWithin-Answered bound (w, none) a = a
  AnsweredWithin-Answered bound (w, some status) a = a.0

  AnsweredWithin-spans :
      (bound : ℕ) (r : World O × Option ℕ) → AnsweredWithin bound r → length r.0.spans ≤ bound
  AnsweredWithin-spans bound (w, none) a = absurd a
  AnsweredWithin-spans bound (w, some status) a = a.1

module _ {O : Type 0} (out : Outside O) (request : Prepared) where
  -- What other requests do during a usage round keeps the router's invariant.
  abbrev pub Keeps : Type 0
  Keeps = (o : O) (s : State) → IsValid s → IsValid ((out.sight o).meanwhile s)

  Selected-of :
      (w : World O) (swept : State) (pool : Option PoolGate) (r : State × Option (Result Selection))
      → Selecting swept request.provider (out.sight w.outside).statuses pool r
      → Selected w.spans (record w { router = r.0; outside = out.pass_select w.outside }, r.1)
  Selected-of w swept pool (after, none) o = o
  Selected-of w swept pool (after, some (err e)) o = (o, refl)
  Selected-of w swept pool (after, some (ok sel)) o = (o.0, refl)

  select_next-Selected :
      (pool : Option PoolGate) (w : World O)
      → Keeps
      → IsValid w.router
      → Selected w.spans (select_next out request pool w)
  select_next-Selected pool w keeps v =
      let s = out.sight w.outside in
      Selected-of w (sweep s.now w.router) pool _ (
        select_in-Outcome s.scorer s.meanwhile request.provider s.statuses request.hints pool s.now
          s.later w.router v (keeps w.outside))

  -- A rest of the loop with at most `left` attempts.
  abbrev Goes : ℕ → (World O → ℕ → World O × Option ℕ) → Type 0
  Goes left k =
      (w : World O) (terminal bound : ℕ)
      → IsValid w.router
      → length w.spans + left ≤ bound
      → AnsweredWithin bound (k w terminal)

  next_turn-AnsweredWithin :
      (k : World O → ℕ → World O × Option ℕ) (id : SubId) (spans : List SubId) (left bound : ℕ)
      (r : World O × Outcome)
      → Goes left k
      → length spans + left ≤ bound
      → Attempted id spans r
      → AnsweredWithin bound (next_turn out request k r)
  next_turn-AnsweredWithin k id spans left bound (w, done status) g h a =
      (a.0, rw a.1 (omega (arith, h)))
  next_turn-AnsweredWithin k id spans left bound (w, failed status) g h a =
      (a.0, rw a.1 (omega (arith, h)))
  next_turn-AnsweredWithin k id spans left bound (w, to_next terminal) g h a =
      g w terminal bound a.0.0 (rw a.0.1 h)

  try_registered-AnsweredWithin :
      (k : World O → ℕ → World O × Option ℕ) (terminal : ℕ) (id : SubId) (left bound : ℕ)
      (w : World O) (o : Option ℕ)
      → Goes left k
      → length w.spans + suc left ≤ bound
      → IsValid w.router
      → AnsweredWithin bound (try_registered out request k terminal id w o)
  try_registered-AnsweredWithin k terminal id left bound w none g h v =
      g w terminal bound v (omega (arith, h))
  try_registered-AnsweredWithin k terminal id left bound w (some token) g h v =
      let begun = opened out request id w in
      next_turn-AnsweredWithin k id begun.spans left bound (attempt out request id token begun) g
        (omega (arith, h)) (attempt-Attempted out request id begun.spans token begun (v, refl))

  -- One span for the selected account, and those of the rest.
  abbrev allowance : (ℕ → ℕ) → Option (Result Selection) → ℕ
  allowance left none = 0
  allowance left (some (err e)) = 0
  allowance left (some (ok sel)) = suc (left sel.candidates)

  turn-AnsweredWithin :
      (k : ℕ → World O → ℕ → World O × Option ℕ) (terminal bound : ℕ) (left : ℕ → ℕ)
      (spans : List SubId) (r : World O × Option (Result Selection))
      → ((n : ℕ) → Goes (left n) (k n))
      → length spans + allowance left r.1 ≤ bound
      → Selected spans r
      → AnsweredWithin bound (turn out request k terminal r)
  turn-AnsweredWithin k terminal bound left spans (w, none) g h s = s
  turn-AnsweredWithin k terminal bound left spans (w, some (err e)) g h s =
      (s.0, rw s.1 (omega (arith, h)))
  turn-AnsweredWithin k terminal bound left spans (w, some (ok sel)) g h s =
      try_registered-AnsweredWithin (k sel.candidates) terminal sel.sub (left sel.candidates) bound
        w (out.token_in_registry sel.sub w.outside) (g sel.candidates) (rw s.1 h) s.0

  allowance-const : (left : ℕ) (o : Option (Result Selection)) → allowance (λ n. left) o ≤ suc left
  allowance-const left none = omega arith
  allowance-const left (some (err e)) = omega arith
  allowance-const left (some (ok sel)) = omega arith

  allowance-allowed : (o : Option (Result Selection)) → allowance (λ n. max n 1 - 1) o ≤ allowed o
  allowance-allowed none = omega arith
  allowance-allowed (some (err e)) = omega arith
  allowance-allowed (some (ok sel)) = omega arith

  failover-AnsweredWithin :
      (pool : Option PoolGate) (left : ℕ) → Keeps → Goes left (failover out request pool left)
  unfolding failover
  failover-AnsweredWithin pool zero keeps w terminal bound v h = (v, omega (arith, h))
  failover-AnsweredWithin pool (suc left) keeps w terminal bound v h =
      let r = select_next out request pool w in
      let a = allowance-const left r.1 in
      turn-AnsweredWithin (λ n. failover out request pool left) terminal bound (λ n. left) w.spans r
        (λ n. failover-AnsweredWithin pool left keeps) (omega (arith, a, h))
        (select_next-Selected pool w keeps v)

  forward_with_failover-AnsweredWithin :
      (pool : Option PoolGate) (w : World O)
      → Keeps
      → IsValid w.router
      → AnsweredWithin
          (length w.spans + allowed (select_next out request pool w).1)
          (forward_with_failover out request pool w)
  unfolding forward_with_failover
  forward_with_failover-AnsweredWithin pool w keeps v =
      let r = select_next out request pool w in
      let a = allowance-allowed r.1 in
      turn-AnsweredWithin (λ n. failover out request pool (max n 1 - 1)) 429
        (length w.spans + allowed r.1) (λ n. max n 1 - 1) w.spans r
        (λ n. failover-AnsweredWithin pool (max n 1 - 1) keeps) (omega (arith, a))
        (select_next-Selected pool w keeps v)

  -- A request always gets an answer, whatever the provider, the token manager and the registry do:
  -- no selection panics, the turns end, and the router's invariant holds at the end. What other
  -- requests do during the usage rounds must keep the invariant.
  pub forward_with_failover-Answered :
      (pool : Option PoolGate) (w : World O)
      → Keeps
      → IsValid w.router
      → Answered (forward_with_failover out request pool w)
  forward_with_failover-Answered pool w keeps v =
      AnsweredWithin-Answered (length w.spans + allowed (select_next out request pool w).1)
        (forward_with_failover out request pool w)
        (forward_with_failover-AnsweredWithin pool w keeps v)

  -- A request makes at most one attempt for each candidate of its first selection, and at most one
  -- where that selection has no candidate; it makes none when that selection fails.
  pub forward_with_failover-attempts :
      (pool : Option PoolGate) (w : World O)
      → Keeps
      → IsValid w.router
      → length (forward_with_failover out request pool w).0.spans
        ≤ length w.spans + allowed (select_next out request pool w).1
  forward_with_failover-attempts pool w keeps v =
      AnsweredWithin-spans (length w.spans + allowed (select_next out request pool w).1)
        (forward_with_failover out request pool w)
        (forward_with_failover-AnsweredWithin pool w keeps v)

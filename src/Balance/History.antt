-- ===== src/Balance/History.antt =====
-- Histories of the router: every operation, and each half of `select_in`, in any order, so that the
-- usage rounds of several requests interleave with everything else.
use subbier.Base.{ℕ, ◌≡◌, refl, subst, Option, none, some, List, [], ◌∷◌, find, find-true}
use subbier.Base.OrdMap.{lookup}
use subbier.Model.{SubId, Timestamp, Provider, codex, claude, at, Usage}
use subbier.Balance.Failure.{FailureClass}
use subbier.Balance.Router.{
  SubStatus, PoolGate, RouterSettings, State, new, sweep, exhaust, set_settings, pin, clear_current,
  exhausted_until, exhaustions, clear_exhaustion, lift_if_recovered, eligible_in, on_failure,
}
use subbier.Balance.Router.Invariant.{
  IsFreeSlot, IsValid, new-IsValid, sweep-IsValid, exhaust-IsValid, set_settings-IsValid,
  pin-IsValid, clear_current-IsValid, clear_exhaustion-IsValid, lift_if_recovered-IsValid,
  on_failure-IsValid,
}
use subbier.Balance.Selection.{Hints, Selection, Result, ok, err}
use subbier.Balance.Ladder.{select_locked, first_part, after_ladder, holds}
use subbier.Balance.Ladder.Live.{
  eligible, Verdict, lives, off, nobody, outside, too_full, used_up, live_subs-Verdict,
}
use subbier.Balance.Ladder.Wishes.{Granted, wishes, ladder-Granted}
use subbier.Balance.Select.{rank_locked, select_in}
use subbier.Balance.Select.Rank.{RankOutcome, rank_locked-RankOutcome}
use subbier.Balance.Select.Sound.{Outcome, select_in-Outcome, granted-Outcome}

pub data Event : Type 0 where
  sets : RouterSettings → Event
  pins : Option SubId → Event
  clears_current : Provider → Event
  exhausts : SubId → Option Usage → Timestamp → Event
  asks_until : SubId → Timestamp → Event
  lists_exhausted : Timestamp → Event
  clears_exhaustion : SubId → Event
  polls : SubId → Usage → Timestamp → Event
  lists_eligible : Provider → List SubStatus → Option PoolGate → Timestamp → Event
  fails : SubId → FailureClass → Option Usage → Timestamp → Event
  selects : Provider → List SubStatus → Hints → Option PoolGate → Timestamp → Event
  ranks : Provider → List SubStatus → RouterSettings → List (Option Usage) → Timestamp → Event

unfoldable pub apply : Event → State → State
apply (sets settings) s = set_settings settings s
apply (pins sub) s = pin sub s
apply (clears_current provider) s = clear_current provider s
apply (exhausts sub usage now) s = (exhaust sub usage now s).0
apply (asks_until sub now) s = (exhausted_until sub now s).0
apply (lists_exhausted now) s = (exhaustions now s).0
apply (clears_exhaustion sub) s = clear_exhaustion sub s
apply (polls sub usage now) s = (lift_if_recovered sub usage now s).0
apply (lists_eligible provider subs pool now) s = (eligible_in provider subs pool now s).0
apply (fails sub class usage now) s = (on_failure sub class usage now s).0
apply (selects provider subs hints pool now) s = (select_locked provider subs hints pool now s).0
apply (ranks provider live settings scores later) s =
    (rank_locked provider live settings scores later s).0

unfoldable pub run : List Event → State → State
run [] s = s
run (e ∷ es) s = run es (apply e s)

RankOutcome-IsValid :
    (provider : Provider) (live : List SubStatus) (r : State × Option (Result Selection))
    → RankOutcome provider live r
    → IsValid r.0
RankOutcome-IsValid provider live (after, none) o = absurd o
RankOutcome-IsValid provider live (after, some (err e)) o = o
RankOutcome-IsValid provider live (after, some (ok sel)) o = o.0

module _ (provider : Provider) (subs : List SubStatus) (hints : Hints) (pool : Option PoolGate)
    (swept : State) where
  after_ladder-IsValid :
      (o : Option SubId) (r : Option (State × Selection))
      → find (holds (eligible swept provider pool subs)) (wishes swept provider hints) ≡ o
      → Granted swept provider (eligible swept provider pool subs) o r
      → IsValid swept
      → IsValid (after_ladder swept (eligible swept provider pool subs) r).0
  after_ladder-IsValid none r e g v = rw g v
  after_ladder-IsValid (some sub) r e (after, sel, q, g) v =
      rw q
        (granted-Outcome swept provider subs pool sub after sel v
          (find-true _ sub (wishes swept provider hints) e) g).0

  first_part-IsValid :
      (r : Result (List SubStatus))
      → Verdict swept provider subs pool r
      → IsValid swept
      → IsValid (first_part swept provider hints r).0
  first_part-IsValid r (lives p l e) v = rw e (
      after_ladder-IsValid _ _ refl
        (ladder-Granted swept provider (eligible swept provider pool subs) hints) v)
  first_part-IsValid r (off p e) v = rw e v
  first_part-IsValid r (nobody a e) v = rw e v
  first_part-IsValid r (outside gate q m a e) v = rw e v
  first_part-IsValid r (too_full gate q m t e) v = rw e v
  first_part-IsValid r (used_up t l e) v = rw e v

pub apply-IsValid : (e : Event) {s : State} → IsValid s → IsValid (apply e s)
unfolding apply exhausted_until exhaustions eligible_in select_locked
apply-IsValid (sets settings) v = set_settings-IsValid settings v
apply-IsValid (pins sub) v = pin-IsValid sub v
apply-IsValid (clears_current provider) v = clear_current-IsValid provider v
apply-IsValid (exhausts sub usage now) v = exhaust-IsValid sub usage now v
apply-IsValid (asks_until sub now) v = sweep-IsValid now v
apply-IsValid (lists_exhausted now) v = sweep-IsValid now v
apply-IsValid (clears_exhaustion sub) v = clear_exhaustion-IsValid sub v
apply-IsValid (polls sub usage now) v = lift_if_recovered-IsValid sub usage now v
apply-IsValid (lists_eligible provider subs pool now) v = sweep-IsValid now v
apply-IsValid (fails sub class usage now) v = on_failure-IsValid sub class usage now v
apply-IsValid (selects provider subs hints pool now) {s} v =
    first_part-IsValid provider subs hints pool (sweep now s) _
      (live_subs-Verdict (sweep now s) provider subs pool) (sweep-IsValid now v)
apply-IsValid (ranks provider live settings scores later) {s} v =
    RankOutcome-IsValid provider live _
      (rank_locked-RankOutcome provider live settings scores later s v)

run-IsValid : (es : List Event) {s : State} → IsValid s → IsValid (run es s)
unfolding run
run-IsValid [] v = v
run-IsValid (e ∷ es) v = run-IsValid es (apply-IsValid e v)

-- After any history of a new router, requests of a provider never stick to a quarantined sub.
pub current-not_quarantined :
    (settings : RouterSettings) (es : List Event) (provider : Provider) (sub : SubId)
    → at (run es (new settings)).current provider ≡ some sub
    → lookup sub (run es (new settings)).exhausted ≡ none
current-not_quarantined settings es codex sub h =
    subst (IsFreeSlot _) h (run-IsValid es (new-IsValid settings)).codex_free
current-not_quarantined settings es claude sub h =
    subst (IsFreeSlot _) h (run-IsValid es (new-IsValid settings)).claude_free

-- Whatever happened to a new router before the request, and whatever happens to it during the usage
-- round, `select_in` keeps the invariant, never panics, and answers only with a listed sub that was
-- enabled, logged in, of the request's provider, admitted by the pool and not quarantined when the
-- request came in, that is not quarantined when the answer is given, and that the provider's
-- requests now stick to; it counts at least one candidate and at most as many as there are subs.
pub select_in-history :
    (settings : RouterSettings) (before during : List Event)
    (scorer : List SubId → ℕ → List (Option Usage)) (provider : Provider) (subs : List SubStatus)
    (hints : Hints) (pool : Option PoolGate) (now later : Timestamp)
    → Outcome (sweep now (run before (new settings))) provider subs pool (
        select_in scorer
          (run during)
          provider
          subs
          hints
          pool
          now
          later
          (run before (new settings)))
select_in-history settings before during scorer provider subs hints pool now later =
    select_in-Outcome scorer (run during) provider subs hints pool now later
      (run before (new settings)) (run-IsValid before (new-IsValid settings))
      (λ s v. run-IsValid during v)

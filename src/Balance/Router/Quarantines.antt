-- ===== src/Balance/Router/Quarantines.antt =====
-- How long a quarantine holds, what lifts it, and what a failed attempt does to the router.
use subbier.Base.{
  ◌≡◌, ◌↔◌, ◌⊎◌, ◌≤◌, ◌+◌, ◌<◌, refl, inl, inr, Bool, true, false, ◌||◌, Option, none, some, arith,
  ltb, leb, is_some, is_some_and, filter_some, ◌==◌, Bool-cases, if◌then◌else◌,
}
use subbier.Base.OrdMap.{
  OrdMap, IsSorted, retain, lookup, insert, remove, lookup-insert, lookup-retain, insert-IsSorted,
}
use subbier.Model.{SubId, Timestamp, Pct, Usage, points}
use subbier.Balance.Exhaustion.{says, effective_pct, exhaust_until}
use subbier.Balance.Failure.{
  FailureClass, usage_limit, scoped_to_request, rate_limited, auth_retryable, auth_permanent,
  refresh_transient, refresh_permanent, passthrough, rotate, quarantines, disposition,
}
use subbier.Balance.Router.{
  Quarantine, State, sweep, exhaust, until_of, exhausted_until, fell, lifted, lift_if_recovered,
  on_failure,
}
use subbier.Balance.Router.Invariant.{IsValid}

inserted-until :
    (sub other : SubId) (q : Quarantine) (at : Timestamp) (m : OrdMap Quarantine)
    → IsSorted m
    → until_of (lookup other (retain (λ q. ltb at q.until) (insert sub q m))) ≡ (
        if sub == other
        then (if ltb at q.until then some q.until else none)
        else until_of (lookup other (retain (λ q. ltb at q.until) m)))
inserted-until sub other q at m v =
    rw
      (
        lookup-retain (λ q. ltb at q.until) other 0 _ (insert-IsSorted sub q m v),
        lookup-retain (λ q. ltb at q.until) other 0 m v,
        lookup-insert sub other q m,
      )
      (ground arith)

-- After `exhaust` the account is reported as quarantined, with the end that `exhaust` returned, at
-- every moment before that end and at no moment from then on; what is reported of every other
-- account is what was reported before.
pub exhaust-exhausted_until :
    (sub other : SubId) (usage : Option Usage) (now at : Timestamp) (state : State)
    → IsValid state
    → (exhausted_until other at (exhaust sub usage now state).0).1 ≡ (
        if sub == other
        then (if ltb at (exhaust sub usage now state).1
            then some (exhaust sub usage now state).1
            else none)
        else (exhausted_until other at state).1)
unfolding exhausted_until sweep exhaust
exhaust-exhausted_until sub other usage now at state v =
    inserted-until sub other _ at state.exhausted v.sorted

-- What lifts a quarantine: the report denies the limit, or stands ten points under the percentage
-- that the quarantine was made at.
abbrev pub Recovered : Usage → Quarantine → Type 0
Recovered usage q =
    (usage.limit_reached ≡ some false)
    ⊎ ((p : Pct) × (q.at_pct ≡ some p) × (effective_pct usage + points 10 ≤ p))

recovered_pct :
    (e : Pct) (o : Option Pct)
    → (is_some_and (λ at. leb (e + points 10) at) o ≡ true)
      ↔ ((p : Pct) × (o ≡ some p) × (e + points 10 ≤ p))
recovered_pct e none = (λ h. absurd (ground arith), λ r. absurd (ground arith))
recovered_pct e (some p) = (λ h. (p, refl, ground arith), λ r. ground arith)

or_iff : (a b : Bool) → ((a || b) ≡ true) ↔ ((a ≡ true) ⊎ (b ≡ true))
or_iff true b = (λ h. inl refl, λ r. refl)
or_iff false b = (inr, λ r. ground arith)

says_iff : (o : Option Bool) → (says false o ≡ true) ↔ (o ≡ some false)
says_iff none = (λ h. absurd (ground arith), λ h. absurd (ground arith))
says_iff (some true) = (λ h. absurd (ground arith), λ h. absurd (ground arith))
says_iff (some false) = (λ h. refl, λ h. refl)

fell-Recovered :
    (usage : Usage) (q : Quarantine)
    → ((says false usage.limit_reached || fell usage q) ≡ true) ↔ Recovered usage q
fell-Recovered usage q =
    let o = or_iff (says false usage.limit_reached) (fell usage q) in
    let l = says_iff usage.limit_reached in
    let r = recovered_pct (effective_pct usage) q.at_pct in
    (
      λ h. elim (o.0 h) [ inl e ↦ inl (l.0 e) | inr e ↦ inr (r.0 e) ],
      λ h. o.1 (elim h [ inl e ↦ inl (l.1 e) | inr e ↦ inr (r.1 e) ]),
    )

-- The quarantine that a poll would lift.
abbrev pub Lifts : Usage → Timestamp → Option Quarantine → Timestamp → Type 0
Lifts usage now o until =
    (q : Quarantine) × (o ≡ some q) × (q.until ≡ until) × (now < until) × Recovered usage q

lifted_iff :
    (sub : SubId) (usage : Usage) (now until : Timestamp) (state : State) (o : Option Quarantine)
    → ((lifted sub usage state (filter_some (λ q. ltb now q.until) o)).1 ≡ some until)
      ↔ Lifts usage now o until
lifted_iff sub usage now until state none = (λ h. absurd (ground arith), λ r. absurd (ground arith))
lifted_iff sub usage now until state (some q) =
    let f = fell-Recovered usage q in
    elim (Bool-cases (ltb now q.until)) [
      | inr e ↦ rw e (λ h. absurd (ground arith), λ r. absurd (ground arith))
      | inl e ↦ elim (Bool-cases (says false usage.limit_reached || fell usage q)) [
        | inr g ↦ rw (e, g) (λ h. absurd (ground arith), λ r. absurd (ground arith))
        | inl g ↦ rw (e, g) (λ h. (q, refl, ground arith, ground arith, f.0 g), λ r. ground arith)
      ]
    ]

lifted-exhausted :
    (sub : SubId) (usage : Usage) (state : State) (o : Option Quarantine)
    → (lifted sub usage state o).0.exhausted ≡ (
        if is_some (lifted sub usage state o).1
        then remove sub state.exhausted
        else state.exhausted)
lifted-exhausted sub usage state none = refl
lifted-exhausted sub usage state (some q) = ground arith

-- A poll lifts the account's quarantine, and says when it would have ended, exactly when there is
-- one that has not run out and the report shows a recovery from it: it denies the limit, or stands
-- ten points or more under the percentage that the quarantine was made at. Only then is the
-- account's entry removed; otherwise the quarantines are as the sweep leaves them.
lift_if_recovered_iff :
    (sub : SubId) (usage : Usage) (now until : Timestamp) (state : State)
    → IsValid state
    → (((lift_if_recovered sub usage now state).1 ≡ some until)
        ↔ Lifts usage now (lookup sub state.exhausted) until)
      × ((lift_if_recovered sub usage now state).0.exhausted ≡ (
          if is_some (lift_if_recovered sub usage now state).1
          then remove sub (sweep now state).exhausted
          else (sweep now state).exhausted))
unfolding lift_if_recovered sweep
lift_if_recovered_iff sub usage now until state v =
    let swept = sweep now state in
    (
      rw (lookup-retain (λ q. ltb now q.until) sub 0 state.exhausted v.sorted)
          (lifted_iff sub usage now until swept (lookup sub state.exhausted)),
      lifted-exhausted sub usage swept (lookup sub swept.exhausted),
    )

pub on_failure-rotate :
    (sub : SubId) (class : FailureClass) (usage : Option Usage) (now : Timestamp) (state : State)
    → ((on_failure sub class usage now state).1 ≡ rotate)
      ↔ ((quarantines class ≡ true) × (state.settings.auto_switch ≡ true))
unfolding on_failure quarantines disposition exhaust
on_failure-rotate sub usage_limit usage now state = ground arith
on_failure-rotate sub scoped_to_request usage now state = ground arith
on_failure-rotate sub rate_limited usage now state = ground arith
on_failure-rotate sub auth_retryable usage now state = ground arith
on_failure-rotate sub auth_permanent usage now state = ground arith
on_failure-rotate sub refresh_transient usage now state = ground arith
on_failure-rotate sub refresh_permanent usage now state = ground arith
on_failure-rotate sub passthrough usage now state = ground arith

-- A failure makes the router answer `rotate` exactly when its class quarantines and auto-switch is
-- on; whether or not it rotates, the account is afterwards reported as quarantined until the end
-- that its usage gives if the class quarantines, and as before if the class does not.
on_failure_lem :
    (sub : SubId) (class : FailureClass) (usage : Option Usage) (now at : Timestamp) (state : State)
    → IsValid state
    → (((on_failure sub class usage now state).1 ≡ rotate)
        ↔ ((quarantines class ≡ true) × (state.settings.auto_switch ≡ true)))
      × ((exhausted_until sub at (on_failure sub class usage now state).0).1 ≡ (
          if quarantines class
          then (if ltb at (exhaust_until now usage) then some (exhaust_until now usage) else none)
          else (exhausted_until sub at state).1))
unfolding on_failure exhaust
on_failure_lem sub class usage now at state v = (
  on_failure-rotate sub class usage now state,
  elim (Bool-cases (quarantines class)) [
    | inr e ↦ rw e refl
    | inl e ↦
        rw e (let h = exhaust-exhausted_until sub sub usage now at state v in ground (arith, h))
  ],
)

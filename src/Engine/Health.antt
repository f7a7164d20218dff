-- ===== src/Engine/Health.antt =====
-- The health of an account after a report of its usage: record_usage and then health_of of engine.rs.
use subbier.Base.{
  ◌≡◌, ◌∙◌, ◌≤◌, refl, ap, sym, inl, inr, true, false, ◌||◌, Option, none, some, List, [], ◌∷◌,
  ◌==◌, arith, String, find, filter_some, ltb, Bool-cases, if◌then◌else◌,
}
use subbier.Base.OrdMap.{
  lookup, remove, IsSorted, lookup-retain, lookup-remove, retain-IsSorted, remove-IsSorted,
}
use subbier.Model.{SubId, Timestamp, Usage, UsageWindow}
use subbier.Balance.Exhaustion.{says, is_exhausted, exhaust_until}
use subbier.Balance.Router.{
  State, Quarantine, sweep, exhaust, exhausted_until, fell, lifted, lift_if_recovered,
}
use subbier.Balance.Router.Invariant.{IsValid}
use subbier.Balance.Router.Quarantines.{exhaust-exhausted_until}
use subbier.Engine.{
  WindowKind, SubRecord, Engine, SubHealth, windows_of, evaluate_alert, evaluate_alerts,
  update_record, record_usage, judge, health_of, router_health,
}

abbrev pub health_found : Timestamp → State → Option SubRecord → Option SubHealth
health_found at s none = none
health_found at s (some r) = some (health_of r at s).1

-- The health of the account with an id, if there is one.
abbrev pub health : SubId → Timestamp → Engine → Option SubHealth
health id at e = health_found at e.router (find (λ r. r.id == id) e.subs)

abbrev while_live : Timestamp → Timestamp → Option Timestamp
while_live at until = if ltb at until then some until else none

-- The end of a quarantine that a report does not lift and that has not run out.
abbrev still : Usage → Timestamp → Option Quarantine → Option Timestamp
still usage at none = none
still usage at (some q) =
    if says false usage.limit_reached || fell usage q then none else while_live at q.until

-- The end of the quarantine of an account at `at`, after a report that came in at `clock`.
abbrev pub end_after : SubId → Usage → (clock at : Timestamp) → State → Option Timestamp
end_after id usage clock at s =
    if is_exhausted usage
    then while_live at (exhaust_until clock (some usage))
    else still usage at (lookup id s.exhausted)

-- What health is due after a report.
abbrev pub due : Option String → Option Timestamp → SubHealth
due (some error) until = SubHealth.needs_login error
due none (some until) = SubHealth.exhausted until
due none none = SubHealth.ok

lifted-until :
    (id : SubId) (usage : Usage) (at : Timestamp) (s : State) (o : Option Quarantine)
    → IsSorted s.exhausted
    → lookup id s.exhausted ≡ o
    → (exhausted_until id at (lifted id usage s o).0).1 ≡ still usage at o
unfolding exhausted_until sweep
lifted-until id usage at s none v q =
    rw (lookup-retain (λ x. ltb at x.until) id 0 s.exhausted v, q) refl
lifted-until id usage at s (some x) v q =
    elim (Bool-cases (says false usage.limit_reached || fell usage x)) [
      | inl y ↦
          rw
            (
              y,
              lookup-retain (λ x. ltb at x.until) id 0 (remove id s.exhausted)
                  (remove-IsSorted id s.exhausted v),
              lookup-remove id id 0 s.exhausted v,
            )
            (ground arith)
      | inr n ↦ rw (n, lookup-retain (λ x. ltb at x.until) id 0 s.exhausted v, q) (ground arith)
    ]

still-swept :
    (usage : Usage) (clock at : Timestamp) (o : Option Quarantine)
    → clock ≤ at
    → still usage at (filter_some (λ q. ltb clock q.until) o) ≡ still usage at o
still-swept usage clock at none h = refl
still-swept usage clock at (some q) h = ground arith

exhausted-end :
    (id : SubId) (usage : Usage) (clock at : Timestamp) (s : State)
    → IsValid s
    → (exhausted_until id at (exhaust id (some usage) clock s).0).1
      ≡ while_live at (exhaust_until clock (some usage))
unfolding exhaust
exhausted-end id usage clock at s v =
    let q = exhaust-exhausted_until id id (some usage) clock at s v in ground (arith, q)

judge-until :
    (id : SubId) (usage : Usage) (clock at : Timestamp) (s : State)
    → clock ≤ at
    → IsValid s
    → (exhausted_until id at (judge id usage clock s)).1 ≡ end_after id usage clock at s
unfolding lift_if_recovered sweep
judge-until id usage clock at s h v = elim (Bool-cases (is_exhausted usage)) [
  | inl y ↦ rw y (exhausted-end id usage clock at s v)
  | inr n ↦ rw n (
      lifted-until id usage at (sweep clock s) _ (retain-IsSorted _ s.exhausted v.sorted) refl
      ∙ (ap (still usage at) (lookup-retain _ id 0 s.exhausted v.sorted)
          ∙ still-swept usage clock at (lookup id s.exhausted) h))
]

evaluate_alerts-health :
    (id : SubId) (at : Timestamp) (kws : List (WindowKind × UsageWindow)) (e : Engine)
    → health id at (evaluate_alerts id kws e) ≡ health id at e
unfolding evaluate_alerts evaluate_alert
evaluate_alerts-health id at [] e = refl
evaluate_alerts-health id at (kw ∷ kws) e =
    evaluate_alerts-health id at kws (evaluate_alert id kw e)

pub find-update_record :
    (f : SubRecord → SubRecord) (id : SubId) (rs : List SubRecord) (r : SubRecord)
    → ((x : SubRecord) → (f x).id ≡ x.id)
    → find (λ x. x.id == id) rs ≡ some r
    → find (λ x. x.id == id) (update_record f id rs) ≡ some (f r)
unfolding update_record
find-update_record f id [] r k h = absurd (ground arith)
find-update_record f id (x ∷ xs) r k h = elim (Bool-cases (x.id == id)) [
  | inl y ↦
      let z : (f x).id ≡ id = k x ∙ ground arith in
      let q : some x ≡ some r = rw y at h in
      let g : ((f x).id == id) ≡ true = ground (arith, z) in rw (y, g) (cc)
  | inr n ↦
      let q : find (λ x. x.id == id) xs ≡ some r = rw n at h in
      rw (n, n) (find-update_record f id xs r k q)
]

abbrev pub updated : Usage → Timestamp → SubRecord → SubRecord
updated usage now r = record r {
  usage = some usage;
  polled_at = some now;
  failing_since = none;
  poll_error = none;
}

updated-health :
    (usage : Usage) (now at : Timestamp) (r : SubRecord) (s : State) (login : Option String)
    → r.needs_login ≡ login
    → (health_of (updated usage now r) at s).1 ≡ due login (exhausted_until r.id at s).1
unfolding health_of
updated-health usage now at r s (some error) q = rw q refl
updated-health usage now at r s none q = rw q (waiting usage now r (exhausted_until r.id at s).1)
  where
    waiting :
        (usage : Usage) (now : Timestamp) (r : SubRecord) (o : Option Timestamp)
        → router_health (updated usage now r) o ≡ due none o
    waiting usage now r none = refl
    waiting usage now r (some until) = refl

pub find-id :
    (id : SubId) (rs : List SubRecord) (r : SubRecord)
    → find (λ r. r.id == id) rs ≡ some r
    → r.id ≡ id
find-id id [] r f = absurd (ground arith)
find-id id (x ∷ xs) r f = elim (Bool-cases (x.id == id)) [
  | inl y ↦
      let q : some x ≡ some r = rw y at f in
      let z : x.id ≡ id = ground arith in let w : x ≡ r = cc in ap (λ o. o.id) (sym w) ∙ z
  | inr n ↦ let q : find (λ x. x.id == id) xs ≡ some r = rw n at f in find-id id xs r q
]

-- After a report of its usage has come in, an account whose refresh failed for good still needs a
-- sign-in; any other is exhausted until the end of its quarantine, if that has not run out, and
-- otherwise ok, never stale or unknown. Quarantined it is after a report of exhaustion, until the
-- end that this gives, and after any other report as before, unless the report lifts it. The engine
-- has the account, the router's invariant holds, and the health is asked for no earlier than the
-- report.
pub record_usage-health :
    (id : SubId) (usage : Usage) (now clock at : Timestamp) (e : Engine) (r : SubRecord)
    → find (λ r. r.id == id) e.subs ≡ some r
    → clock ≤ at
    → IsValid e.router
    → health id at (record_usage id usage now clock e)
      ≡ some (due r.needs_login (end_after id usage clock at e.router))
unfolding record_usage
record_usage-health id usage now clock at e r f h v = rw f (
    evaluate_alerts-health id at (windows_of usage) _
    ∙ rw (find-update_record (updated usage now) id e.subs r (λ x. refl) f) (
        ap some (
          updated-health usage now at r (judge id usage clock e.router) r.needs_login refl
          ∙ ap (due r.needs_login)
              (rw (find-id id e.subs r f) (judge-until id usage clock at e.router h v)))))

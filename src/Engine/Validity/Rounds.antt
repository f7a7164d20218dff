-- ===== src/Engine/Validity/Rounds.antt =====
-- The invariant of the engine of engine.rs under a whole round of polls.
use subbier.Base.{
  ℕ, refl, inl, inr, Bool, true, false, Option, none, some, List, [], ◌∷◌, String, Bool-cases,
  is_empty,
}
use subbier.Model.{SubId, Timestamp, Usage, UsageWindow}
use subbier.Balance.Exhaustion.{is_exhausted}
use subbier.Balance.Router.{State}
use subbier.Balance.Router.Invariant as Router
use subbier.Poller.{Error, Polled, ok, err}
use subbier.Engine.{
  Credentials, Sub, SubRecord, Engine, WindowKind, judge, windows_of, evaluate_alert,
  evaluate_alerts, record_found, record_usage,
}
use subbier.Engine.Polling.{
  Refreshed, changed, failed, refresh_one, refresh_tokens, retry_one, refresh_rejected,
  record_result, record_results, targets, due, rejected,
}
use subbier.Engine.Rounds.{
  serve_all, Outside, reread_found, recheck_signed_out, retry_unauthorized, poll_alive, poll_round,
  fresh_all,
}
use subbier.Engine.Identities.{Bounds, identities-update_record}
use subbier.Engine.Mirror.{Mirrors-record}
use subbier.Engine.Validity.{IsValid, with_routed, with_subs, serve_all-IsValid}
use subbier.Engine.Validity.Logins.{
  records-IsValid, adopt_tokens-IsValid, mark_needs_login-IsValid, rechecked-IsValid,
}

refresh_one-IsValid :
    (b : Bounds) (now instant : ℕ) (id : SubId) (sub : Sub) (o : Refreshed) (e : Engine)
    → IsValid b e
    → IsValid b (refresh_one now instant id sub o e).0
refresh_one-IsValid b now instant id sub (changed true) e v =
    adopt_tokens-IsValid b id sub.credentials.tokens instant e v
refresh_one-IsValid b now instant id sub (changed false) e v = v
refresh_one-IsValid b now instant id sub (failed true message) e v =
    mark_needs_login-IsValid b id message now e v
refresh_one-IsValid b now instant id sub (failed false message) e v = v

refresh_tokens-IsValid :
    (b : Bounds) (now instant : ℕ) (os : List ((SubId × Sub) × Refreshed)) (e : Engine)
    → IsValid b e
    → IsValid b (refresh_tokens now instant os e).0
unfolding refresh_tokens
refresh_tokens-IsValid b now instant [] e v = v
refresh_tokens-IsValid b now instant ((t, o) ∷ os) e v =
    refresh_tokens-IsValid b now instant os _ (refresh_one-IsValid b now instant t.0 t.1 o e v)

retry_one-IsValid :
    (b : Bounds) (now instant : ℕ) (id : SubId) (sub : Sub) (o : Refreshed) (e : Engine)
    → IsValid b e
    → IsValid b (retry_one now instant id sub o e).0
retry_one-IsValid b now instant id sub (changed true) e v =
    adopt_tokens-IsValid b id sub.credentials.tokens instant e v
retry_one-IsValid b now instant id sub (changed false) e v = v
retry_one-IsValid b now instant id sub (failed true message) e v =
    mark_needs_login-IsValid b id message now e v
retry_one-IsValid b now instant id sub (failed false message) e v = v

refresh_rejected-IsValid :
    (b : Bounds) (now instant : ℕ) (os : List ((SubId × Sub) × Refreshed)) (e : Engine)
    → IsValid b e
    → IsValid b (refresh_rejected now instant os e).0
unfolding refresh_rejected
refresh_rejected-IsValid b now instant [] e v = v
refresh_rejected-IsValid b now instant ((t, o) ∷ os) e v =
    refresh_rejected-IsValid b now instant os _ (retry_one-IsValid b now instant t.0 t.1 o e v)

evaluate_alerts-IsValid :
    (b : Bounds) (id : SubId) (kws : List (WindowKind × UsageWindow)) (e : Engine)
    → IsValid b e
    → IsValid b (evaluate_alerts id kws e)
unfolding evaluate_alerts evaluate_alert
evaluate_alerts-IsValid b id [] e v = v
evaluate_alerts-IsValid b id (kw ∷ kws) e v =
    evaluate_alerts-IsValid b id kws (evaluate_alert id kw e) v

judge-IsValid :
    (id : SubId) (usage : Usage) (clock : Timestamp) (s : State)
    → Router.IsValid s
    → Router.IsValid (judge id usage clock s)
judge-IsValid id usage clock s v = elim (Bool-cases (is_exhausted usage)) [
  | inl y ↦ rw y (Router.exhaust-IsValid id (some usage) clock v)
  | inr n ↦ rw n (Router.lift_if_recovered-IsValid id usage clock v)
]

record_found-IsValid :
    (b : Bounds) (id : SubId) (usage : Usage) (now clock : Timestamp) (e : Engine)
    (r : Option SubRecord)
    → IsValid b e
    → IsValid b (record_found id usage now clock e r)
record_found-IsValid b id usage now clock e none v = v
record_found-IsValid b id usage now clock e (some r) v =
    evaluate_alerts-IsValid b id (windows_of usage) _ (
      with_routed
        (with_subs v (identities-update_record _ id e.subs (λ r. refl))
          (Mirrors-record _ e.sub_enabled id e.registry e.subs (λ on r. refl) v.mirror))
        (judge-IsValid id usage clock e.router v.routed))

module _ (b : Bounds) (describe : Error → Option ℕ → String) where
  record_result-IsValid :
      (now instant clock : ℕ) (r : SubId × Polled) (e : Engine)
      → IsValid b e
      → IsValid b (record_result describe now instant clock r e)
  unfolding record_result record_usage
  record_result-IsValid now instant clock (id, ok usage) e v =
      record_found-IsValid b id usage now clock e _ v
  record_result-IsValid now instant clock (id, err error) e v =
      records-IsValid b _ id e (λ r. refl) (λ on r. refl) v

  record_results-IsValid :
      (now : ℕ) (clocks : SubId → ℕ × ℕ) (rs : List (SubId × Polled)) (e : Engine)
      → IsValid b e
      → IsValid b (record_results describe now clocks rs e)
  unfolding record_results
  record_results-IsValid now clocks [] e v = v
  record_results-IsValid now clocks (r ∷ rs) e v =
      record_results-IsValid now clocks rs _
        (record_result-IsValid now (clocks r.0).0 (clocks r.0).1 r e v)

  reread_found-IsValid :
      (out : Outside) (e : Engine) (found : Option (List (SubId × Option Credentials)))
      → IsValid b e
      → IsValid b (reread_found out e found)
  reread_found-IsValid out e none v = v
  reread_found-IsValid out e (some found) v = rechecked-IsValid b (out.now 0) out.instant found e v

  recheck_signed_out-IsValid :
      (out : Outside) (e : Engine) → IsValid b e → IsValid b (recheck_signed_out out e)
  unfolding recheck_signed_out
  recheck_signed_out-IsValid out e v =
      let w =
        reread_found-IsValid out _ (out.reread (due (out.now 0) e))
          (serve_all-IsValid b (out.meanwhile 0) e v) in
      elim (Bool-cases (is_empty (due (out.now 0) e))) [ inl y ↦ rw y v | inr n ↦ rw n w ]

  retry_unauthorized-IsValid :
      (out : Outside) (ts : List (SubId × Sub)) (results : List (SubId × Polled)) (e : Engine)
      → IsValid b e
      → IsValid b (retry_unauthorized out ts results e).0
  unfolding retry_unauthorized
  retry_unauthorized-IsValid out ts results e v =
      let served : Engine = serve_all (out.meanwhile 3) e in
      let asked = fresh_all out true (rejected ts results) in
      let turn : Engine × List (SubId × Sub) =
        refresh_rejected (out.now 2) out.instant asked served in
      let w : IsValid b turn.0 =
        refresh_rejected-IsValid b (out.now 2) out.instant asked served
          (serve_all-IsValid b (out.meanwhile 3) e v) in
      elim (Bool-cases (is_empty (rejected ts results))) [
        | inl y ↦ rw y v
        | inr n ↦ rw n (elim (Bool-cases (is_empty turn.1)) [
          | inl y ↦ rw y w
          | inr m ↦ rw m (serve_all-IsValid b (out.meanwhile 4) turn.0 w)
        ])
      ]

  poll_alive-IsValid :
      (out : Outside) (force : Bool) (alive : List (SubId × Sub)) (e : Engine)
      → IsValid b e
      → IsValid b (poll_alive describe out force alive e)
  unfolding poll_alive
  poll_alive-IsValid out force alive e v =
      let served : Engine = serve_all (out.meanwhile 2) e in
      let polled : Engine × List (SubId × Polled) =
        retry_unauthorized out alive (out.poll force alive) served in
      let w = record_results-IsValid (out.now 3) out.clocks polled.1 polled.0 (
        retry_unauthorized-IsValid out alive (out.poll force alive) served
          (serve_all-IsValid b (out.meanwhile 2) e v)) in
      elim (Bool-cases (is_empty alive)) [ inl y ↦ rw y v | inr n ↦ rw n w ]

  pub poll_round-IsValid :
      (out : Outside) (force : Bool) (e : Engine)
      → IsValid b e
      → IsValid b (poll_round describe out force e)
  unfolding poll_round
  poll_round-IsValid out force e v =
      let c = recheck_signed_out-IsValid out e v in
      let checked : Engine = recheck_signed_out out e in
      let asked = fresh_all out false (targets checked) in
      let served : Engine = serve_all (out.meanwhile 1) checked in
      let turn : Engine × List (SubId × Sub) =
        refresh_tokens (out.now 1) out.instant asked served in
      let w = poll_alive-IsValid out force turn.1 turn.0 (
        refresh_tokens-IsValid b (out.now 1) out.instant asked served
          (serve_all-IsValid b (out.meanwhile 1) checked c)) in
      elim (Bool-cases (is_empty (targets checked))) [ inl y ↦ rw y c | inr n ↦ rw n w ]

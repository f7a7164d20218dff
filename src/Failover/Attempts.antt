-- ===== src/Failover/Attempts.antt =====
-- One attempt (`attempt` of proxy/claude.rs): the router after it, and when it moves on.
use subbier.Base.{
  ℕ, ◌≡◌, ◌⊎◌, refl, inl, inr, Bool, true, false, Option, none, some, List, Bool-cases, ◌&&◌, not,
  if◌then◌else◌, ◌==◌, unwrap_or,
}
use subbier.Model.{SubId, Timestamp, Usage}
use subbier.Balance.Failure.{
  FailureClass, quarantines, classify, Disposition, pass_through, retry_same_sub, rotate, fail,
}
use subbier.Balance.Router.{State, sweep, exhaust, exhausted_until, on_failure}
use subbier.Balance.Router.Invariant.{
  IsValid, exhaust-IsValid, exhausted_until-IsValid, on_failure-IsValid,
}
use subbier.Balance.Exhaustion.{is_exhausted}
use subbier.Balance.Router.Quarantines.{on_failure-rotate}
use subbier.Failover.{
  Reply, Sent, replied, broke, Refreshed, unchanged, renewed, no_token, Outside, Prepared, World,
  Outcome, look_again, observed_of, observe_rate_limits, done, to_next, failed, send_retrying,
  refresh_failed, with_token, transport_failed, attempt_of, is_usage_limit, usage_of, give_up,
  is_codex, is_success, judge, judge_sent, reauthorize, first_sent, exchange, attempt,
}

-- The router as `exhaust` leaves it for the account, at most swept since.
abbrev pub Held : SubId → State → Type 0
Held id s =
    (before : State) × (usage : Option Usage) × (now : Timestamp) × ((s
        ≡ (exhaust id usage now before).0)
      ⊎ ((at : Timestamp) × (s ≡ sweep at (exhaust id usage now before).0)))

module _ {O : Type 0} where
  -- The router is as it should be, and `spans` are the spans so far.
  abbrev pub IsSound : List SubId → World O → Type 0
  IsSound spans w = IsValid w.router × (w.spans ≡ spans)

  -- What an attempt on the account `id` may come to.
  abbrev pub Attempted : SubId → List SubId → World O × Outcome → Type 0
  Attempted id spans (w, done status) = IsSound spans w
  Attempted id spans (w, failed status) = IsSound spans w
  Attempted id spans (w, to_next terminal) =
      IsSound spans w × Held id w.router × ((terminal ≡ 429) ⊎ (terminal ≡ 503))

-- Before the sweep.
abbrev Exhausted : SubId → State → Type 0
Exhausted id s =
    (before : State) × (usage : Option Usage) × (now : Timestamp) × (s
      ≡ (exhaust id usage now before).0)

on_failure-Exhausted :
    (id : SubId) (class : FailureClass) (usage : Option Usage) (now : Timestamp) (s : State)
    → (on_failure id class usage now s).1 ≡ rotate
    → Exhausted id (on_failure id class usage now s).0
unfolding on_failure
on_failure-Exhausted id class usage now s h =
    let q = ((on_failure-rotate id class usage now s).0 h).0 in rw q (s, usage, now, refl)

Exhausted-Held : (id : SubId) (s : State) → Exhausted id s → Held id s
Exhausted-Held id s (before, usage, now, h) = (before, usage, now, inl h)

module _ {O : Type 0} (out : Outside O) (request : Prepared) (id : SubId) (spans : List SubId) where
  disposed :
      (w : World O) (d : Disposition) (status terminal : ℕ)
      → IsSound spans w
      → (d ≡ rotate → Held id w.router)
      → ((terminal ≡ 429) ⊎ (terminal ≡ 503))
      → Attempted id spans (
        w,
        elim d [
          | rotate ↦ to_next terminal
          | fail n ↦ failed n
          | pass_through ↦ done status
          | retry_same_sub ↦ done status
        ],
      )
  disposed w rotate status terminal v h t = (v, h refl, t)
  disposed w (fail n) status terminal v h t = v
  disposed w pass_through status terminal v h t = v
  disposed w retry_same_sub status terminal v h t = v

  refresh_disposed :
      (w : World O) (d : Disposition)
      → IsSound spans w
      → (d ≡ rotate → Held id w.router)
      → Attempted id spans (
        w,
        elim d [
          | fail status ↦ failed status
          | rotate ↦ to_next 503
          | pass_through ↦ failed 503
          | retry_same_sub ↦ failed 503
        ],
      )
  refresh_disposed w rotate v h = (v, h refl, inr refl)
  refresh_disposed w (fail n) v h = v
  refresh_disposed w pass_through v h = v
  refresh_disposed w retry_same_sub v h = v

  refresh_failed-Attempted :
      (class : FailureClass) (w : World O)
      → IsSound spans w
      → Attempted id spans (refresh_failed out request id class w)
  refresh_failed-Attempted class w v =
      refresh_disposed
        (record w {
          router = (on_failure id class none (out.clock w.outside).1 w.router).0;
          has_error = true;
          outside = (out.clock w.outside).0;
        })
        _ (on_failure-IsValid id class none (out.clock w.outside).1 v.0, v.1)
        (λ h.
          Exhausted-Held id (on_failure id class none (out.clock w.outside).1 w.router).0
            (on_failure-Exhausted id class none (out.clock w.outside).1 w.router h))

  abbrev Continues : (World O → ℕ → World O × Outcome) → Type 0
  Continues k = (w : World O) (token : ℕ) → IsSound spans w → Attempted id spans (k w token)

  with_token-Attempted :
      (k : World O → ℕ → World O × Outcome) (w : World O) (r : O × Refreshed)
      → Continues k
      → IsSound spans w
      → Attempted id spans (with_token out request id k w r)
  with_token-Attempted k w (o, unchanged token) c v = c _ token v
  with_token-Attempted k w (o, renewed token) c v = c _ token v
  with_token-Attempted k w (o, no_token permanent) c v =
      refresh_failed-Attempted _ (record w { outside = o }) v

  look_again-IsValid :
      (class : FailureClass) (s : State) (o : O)
      → IsValid s
      → IsValid (look_again out request id class (s, o)).0
  look_again-IsValid class s o v = elim (Bool-cases (quarantines class)) [
    | inl e ↦ rw e (exhausted_until-IsValid id (out.clock o).1 v)
    | inr e ↦ rw e v
  ]

  look_again-Held :
      (class : FailureClass) (s : State) (o : O)
      → Exhausted id s
      → Held id (look_again out request id class (s, o)).0
  unfolding exhausted_until
  look_again-Held class s o (before, usage, now, h) = elim (Bool-cases (quarantines class)) [
    | inl e ↦ rw (e, h) (before, usage, now, inr ((out.clock o).1, refl))
    | inr e ↦ rw e (before, usage, now, inl h)
  ]

  terminal_of :
      (b : Bool)
      → (◌≡◌ {A = ℕ} (if b then 429 else 503) 429) ⊎ (◌≡◌ {A = ℕ} (if b then 429 else 503) 503)
  terminal_of true = inl refl
  terminal_of false = inr refl

  give_up-Attempted :
      (retried : Bool) (r : Reply) (w : World O)
      → IsSound spans w
      → Attempted id spans (give_up out request id retried r w)
  unfolding give_up exhausted_until
  give_up-Attempted retried r w v =
      let class = classify (attempt_of out request retried r) in
      let seen = usage_of out request id class r w.outside in
      let read = out.clock seen.0 in
      let judged = on_failure id class seen.1 read.1 w.router in
      let looked = look_again out request id class (judged.0, read.0) in
      disposed (record w { router = looked.0; has_error = true; outside = looked.1 }) judged.1
        r.status _
        (
          look_again-IsValid class judged.0 read.0 (on_failure-IsValid id class seen.1 read.1 v.0),
          v.1,
        )
        (λ h.
          look_again-Held class judged.0 read.0
            (on_failure-Exhausted id class seen.1 read.1 w.router h))
        (terminal_of (is_usage_limit out request class))

  observe_rate_limits-IsSound :
      (u : Option Usage) (w : World O)
      → IsSound spans w
      → IsSound spans (observe_rate_limits out request id u w)
  unfolding observe_rate_limits
  observe_rate_limits-IsSound none w v = v
  observe_rate_limits-IsSound (some usage) w v = elim (Bool-cases (is_exhausted usage)) [
    | inl e ↦
        let now = (out.clock (out.store_observed id usage w.outside)).1 in
        rw e (exhaust-IsValid id (some usage) now v.0, v.1)
    | inr e ↦ rw e v
  ]

  module _ (on_death : World O → ℕ → World O × Outcome) where
    judge-Attempted :
        (retried : Bool) (token : ℕ) (r : Reply) (w : World O)
        → Continues on_death
        → IsSound spans w
        → Attempted id spans (judge out request on_death id retried token r w)
    judge-Attempted retried token r w c v = elim (Bool-cases (is_success out request r.status)) [
      | inr e ↦ rw e (give_up-Attempted retried r w v)
      | inl e ↦ rw e (elim (Bool-cases request.client_stream) [
        | inl s ↦ rw s v
        | inr s ↦ rw s (elim (Bool-cases r.dies) [
          | inl d ↦ rw d (c _ token v)
          | inr d ↦ rw d (elim (Bool-cases (is_codex request.provider && not r.completes)) [
            | inl k ↦ rw k v
            | inr k ↦ rw k v
          ])
        ])
      ])
    ]

    judge_sent-Attempted :
        (token : ℕ) (w : World O) (s : O × Sent)
        → Continues on_death
        → IsSound spans w
        → Attempted id spans (judge_sent out request on_death id token w s)
    judge_sent-Attempted token w (o, broke is_timeout) c v = v
    judge_sent-Attempted token w (o, replied r) c v = judge-Attempted true token r _ c (
        observe_rate_limits-IsSound (observed_of out request request.provider r)
          (record w { outside = o }) v)

    reauthorize-Attempted :
        (sent_with : ℕ) (w : World O)
        → Continues on_death
        → IsSound spans w
        → Attempted id spans (reauthorize out request on_death id sent_with w)
    unfolding reauthorize
    reauthorize-Attempted sent_with w c v =
        let token = unwrap_or sent_with (out.token_in_registry id w.outside) in
        with_token-Attempted
          (λ u t.
            judge_sent out request on_death id t u (send_retrying out request 2 id t u.outside))
          w (out.refresh_token id token (token == sent_with) w.outside)
          (λ u t p. judge_sent-Attempted t u (send_retrying out request 2 id t u.outside) c p) v

    first_sent-Attempted :
        (token : ℕ) (w : World O) (s : O × Sent)
        → Continues on_death
        → IsSound spans w
        → Attempted id spans (first_sent out request on_death id token w s)
    first_sent-Attempted token w (o, broke is_timeout) c v = v
    first_sent-Attempted token w (o, replied r) c v = elim (Bool-cases (r.status == 401)) [
      | inl e ↦ rw e (reauthorize-Attempted token _ c v)
      | inr e ↦ rw e (
          judge-Attempted false token r _ c (
            observe_rate_limits-IsSound (observed_of out request request.provider r)
              (record w { outside = o }) v))
    ]

  -- An attempt keeps the router's invariant, and it asks for another account only right after
  -- `exhaust` has quarantined its own, with at most a sweep in between, and with a terminal status of
  -- 429 or 503.
  pub attempt-Attempted :
      (token : ℕ) (w : World O)
      → IsSound spans w
      → Attempted id spans (attempt out request id token w)
  unfolding attempt
  attempt-Attempted token w v =
      let last : Continues (λ u t. transport_failed out request u) = λ u t p. p in
      let again : Continues (exchange out request (λ u t. transport_failed out request u) id) =
        λ u t p.
          first_sent-Attempted (λ u t. transport_failed out request u) t u
            (send_retrying out request 2 id t u.outside) last p in
      let twice = exchange out request (λ u t. transport_failed out request u) id in
      with_token-Attempted (exchange out request twice id) w
        (out.refresh_token id token false w.outside)
        (λ u t p.
          first_sent-Attempted twice t u (send_retrying out request 2 id t u.outside) again p)
        v

-- ===== src/Failover.antt =====
-- crates/libsubby/src/proxy/claude.rs and codex.rs, the failover of one request over the accounts,
-- with send_retrying of proxy/mod.rs. The two files have the same loop, so it is written once, over
-- the provider of the request.
--
-- The router and its operations are those of Balance. What lies outside is a state of its own, of any
-- type, with the operations of `Outside`: the provider, the token manager, the registry of accounts,
-- the usage cache, the stored placements and the clock. A response is its status. Of the logging the
-- model keeps one span for each attempt; the request rows are left out.
-- Other requests change the router while a selection waits for its usage round, and not at the other
-- waits.
pub mod Attempts
pub mod Requests
mod Samples
use subbier.Base.{
  ℕ, zero, suc, ◌-◌, max, Bool, true, false, ◌&&◌, not, Option, none, some, List, ◌∷◌, leb, ltb,
  ◌==◌, if◌then◌else◌, unwrap_or,
}
use subbier.Model.{SubId, Timestamp, Provider, codex, claude, Usage}
use subbier.Balance.Failure.{
  FailureClass, usage_limit, refresh_permanent, refresh_transient, Attempt, new_attempt,
  quarantines, request_scoped, after_auth_retry, is_usage_limit_error, classify, Disposition,
  pass_through, retry_same_sub, rotate, fail,
}
use subbier.Balance.Router.{SubStatus, PoolGate, State, exhaust, exhausted_until, on_failure}
use subbier.Balance.Exhaustion.{is_exhausted}
use subbier.Balance.Selection.{Hints, Selection, SelectError, error_status, Result, ok, err}
use subbier.Balance.Select.{select_in}

-- An upstream response: `observed` is the usage in its headers, `dies` whether its body breaks off,
-- and `completes` whether a body that is added up has a terminal response.
pub record Reply : Type 0 where
  pub status : ℕ
  pub text : List ℕ
  pub observed : Option Usage
  pub dies : Bool
  pub completes : Bool

pub data Sent : Type 0 where
  replied : Reply → Sent
  broke : (is_timeout : Bool) → Sent

-- The token in use afterwards, or why there is none.
pub data Refreshed : Type 0 where
  unchanged : ℕ → Refreshed
  renewed : ℕ → Refreshed
  no_token : (permanent : Bool) → Refreshed

-- What one selection sees: the accounts, the scorer, what others do to the router meanwhile, and the
-- two readings of the clock.
pub record Sight : Type 0 where
  pub statuses : List SubStatus
  pub scorer : List SubId → ℕ → List (Option Usage)
  pub meanwhile : State → State
  pub now : Timestamp
  pub later : Timestamp

pub record Outside (O : Type 0) : Type 0 where
  pub sight : O → Sight
  pub pass_select : O → O
  pub token_in_registry : SubId → O → Option ℕ
  pub refresh_token : SubId → ℕ → Bool → O → O × Refreshed
  pub persist_tokens : SubId → ℕ → O → O
  pub send : SubId → ℕ → O → O × Sent
  pub usage_for_exhaustion : SubId → O → O × Option Usage
  pub store_observed : SubId → Usage → O → O
  pub place : SubId → O → O
  pub clock : O → O × Timestamp

-- What the failover reads of a prepared request. For Claude there are no hints and no cache key.
pub record Prepared : Type 0 where
  pub provider : Provider
  pub client_stream : Bool
  pub has_key : Bool
  pub hints : Hints

abbrev pub claude_request : Bool → Prepared
claude_request client_stream = record {
  provider = claude;
  client_stream = client_stream;
  has_key = false;
  hints = record { chain = none; key = none };
}

-- `has_error` is whether `last_error` holds one; `spans` are the accounts of the `proxy.request`
-- spans so far, the last one first.
pub record World (O : Type 0) : Type 0 where
  pub router : State
  pub has_error : Bool
  pub spans : List SubId
  pub outside : O

pub data Outcome : Type 0 where
  done : ℕ → Outcome
  to_next : (terminal : ℕ) → Outcome
  failed : ℕ → Outcome

abbrev pub is_codex : Provider → Bool
is_codex codex = true
is_codex claude = false

module _ {O : Type 0} (out : Outside O) (request : Prepared) where
  abbrev pub note_error : World O → World O
  note_error w = record w { has_error = true }

  abbrev pub note_success : World O → World O
  note_success w = record w { has_error = false }

  -- One send, and a resend for each backoff that is left, unless the send timed out.
  unfoldable pub send_retrying : ℕ → SubId → ℕ → O → O × Sent
  send_retrying zero id token o = out.send id token o
  send_retrying (suc left) id token o =
      let first = out.send id token o in
      elim first.1 [
        | replied r ↦ (first.0, replied r)
        | broke is_timeout ↦
            if is_timeout then (first.0, broke is_timeout) else send_retrying left id token first.0
      ]

  -- What a failed refresh leads to.
  abbrev pub refresh_failed : SubId → FailureClass → World O → World O × Outcome
  refresh_failed id class w =
      let read = out.clock w.outside in
      let r = on_failure id class none read.1 w.router in
      (
        record w { router = r.0; has_error = true; outside = read.0 },
        elim r.1 [
          | fail status ↦ failed status
          | rotate ↦ to_next 503
          | pass_through ↦ failed 503
          | retry_same_sub ↦ failed 503
        ],
      )

  -- `ensure_fresh`, with what follows it: `k` goes on with the token.
  abbrev pub with_token :
      SubId → (World O → ℕ → World O × Outcome) → World O → O × Refreshed → World O × Outcome
  with_token id k w (o, unchanged token) = k (record w { outside = o }) token
  with_token id k w (o, renewed token) =
      k (record w { outside = out.persist_tokens id token o }) token
  with_token id k w (o, no_token permanent) =
      refresh_failed id (if permanent then refresh_permanent else refresh_transient)
        (record w { outside = o })

  abbrev pub transport_failed : World O → World O × Outcome
  transport_failed w = (note_error w, failed 502)

  -- `request_scoped` of proxy/codex.rs.
  abbrev pub is_request_scoped : ℕ → List ℕ → Bool
  is_request_scoped status body = not (status == 401) && not (is_usage_limit_error status body)

  abbrev pub attempt_of : Bool → Reply → Attempt
  attempt_of retried r =
      let a = new_attempt r.status r.text in
      let b = if is_request_scoped r.status r.text then request_scoped a else a in
      if retried then after_auth_retry b else b

  -- `class == FailureClass::UsageLimit`.
  abbrev pub is_usage_limit : FailureClass → Bool
  is_usage_limit usage_limit = true
  is_usage_limit _ = false

  abbrev pub exhaustion_usage : SubId → Option Usage → O → O × Option Usage
  exhaustion_usage id (some u) o = (o, some u)
  exhaustion_usage id none o = out.usage_for_exhaustion id o

  -- Codex sends no usage in its headers.
  abbrev pub observed_of : Provider → Reply → Option Usage
  observed_of Provider.codex r = none
  observed_of Provider.claude r = r.observed

  abbrev pub usage_of : SubId → FailureClass → Reply → O → O × Option Usage
  usage_of id class r o =
      if is_usage_limit class
      then exhaustion_usage id (observed_of request.provider r) o
      else (o, none)

  -- For the log a quarantine is read back from the router, which sweeps it.
  abbrev pub look_again : SubId → FailureClass → State × O → State × O
  look_again id class (router, o) =
      let read = out.clock o in
      if quarantines class then ((exhausted_until id read.1 router).0, read.0) else (router, o)

  -- The end of an attempt whose response is not a success.
  unfoldable pub give_up : SubId → Bool → Reply → World O → World O × Outcome
  give_up id retried r w =
      let class = classify (attempt_of retried r) in
      let seen = usage_of id class r w.outside in
      let read = out.clock seen.0 in
      let judged = on_failure id class seen.1 read.1 w.router in
      let looked = look_again id class (judged.0, read.0) in
      (
        record w { router = looked.0; has_error = true; outside = looked.1 },
        elim judged.1 [
          | rotate ↦ to_next (if is_usage_limit class then 429 else 503)
          | fail status ↦ failed status
          | pass_through ↦ done r.status
          | retry_same_sub ↦ done r.status
        ],
      )

  abbrev pub is_success : ℕ → Bool
  is_success status = leb 200 status && ltb status 300

  -- A whole body: Claude's is passed on as it is, that of Codex is added up.
  abbrev pub collected : Reply → World O → World O × Outcome
  collected r w =
      if is_codex request.provider && not r.completes
      then (note_error w, done 502)
      else (w, done r.status)

  -- `on_death` is the arm for a body that breaks off.
  abbrev pub judge :
      (on_death : World O → ℕ → World O × Outcome)
      → SubId
      → Bool
      → ℕ
      → Reply
      → World O
      → World O × Outcome
  judge on_death id retried token r w =
      if is_success r.status
      then (if request.client_stream
          then (note_success w, done r.status)
          else if r.dies
          then on_death (note_success w) token
          else collected r (note_success w))
      else give_up id retried r w

  -- Every response of Claude may carry the account's usage: the cache takes it, and an account that
  -- is used up is quarantined.
  unfoldable pub observe_rate_limits : SubId → Option Usage → World O → World O
  observe_rate_limits id none w = w
  observe_rate_limits id (some usage) w =
      let o = out.store_observed id usage w.outside in
      let read = out.clock o in
      if is_exhausted usage
      then record w { router = (exhaust id (some usage) read.1 w.router).0; outside = read.0 }
      else record w { outside = o }

  abbrev pub observe : SubId → Reply → World O → World O
  observe id r w = observe_rate_limits id (observed_of request.provider r) w

  abbrev pub judge_sent :
      (on_death : World O → ℕ → World O × Outcome)
      → SubId
      → ℕ
      → World O
      → O × Sent
      → World O × Outcome
  judge_sent on_death id token w (o, broke is_timeout) = transport_failed (record w { outside = o })
  judge_sent on_death id token w (o, replied r) =
      judge on_death id true token r (observe id r (record w { outside = o }))

  -- After a 401: the registry's token if there is one, a forced refresh if it is the one that failed,
  -- and the request again.
  unfoldable pub reauthorize :
      (on_death : World O → ℕ → World O × Outcome) → SubId → ℕ → World O → World O × Outcome
  unfolding send_retrying
  reauthorize on_death id sent_with w =
      let token = unwrap_or sent_with (out.token_in_registry id w.outside) in
      with_token id (λ v t. judge_sent on_death id t v (send_retrying 2 id t v.outside)) w
        (out.refresh_token id token (token == sent_with) w.outside)

  abbrev pub first_sent :
      (on_death : World O → ℕ → World O × Outcome)
      → SubId
      → ℕ
      → World O
      → O × Sent
      → World O × Outcome
  first_sent on_death id token w (o, broke is_timeout) = transport_failed (record w { outside = o })
  first_sent on_death id token w (o, replied r) =
      if r.status == 401
      then reauthorize on_death id token (record w { outside = o })
      else judge on_death id false token r (observe id r (record w { outside = o }))

  -- One turn of the loop in `attempt`.
  abbrev pub exchange :
      (on_death : World O → ℕ → World O × Outcome) → SubId → World O → ℕ → World O × Outcome
  exchange on_death id w token = first_sent on_death id token w (send_retrying 2 id token w.outside)

  -- `attempt`: the first body that breaks off makes the same account be asked again, the second one
  -- does not.
  unfoldable pub attempt : SubId → ℕ → World O → World O × Outcome
  unfolding reauthorize give_up send_retrying
  attempt id token w =
      with_token id (exchange (exchange (λ v t. transport_failed v) id) id) w
        (out.refresh_token id token false w.outside)

  abbrev pub terminal_response : ℕ → World O → World O × ℕ
  terminal_response terminal w = (w, if terminal == 429 then 429 else 503)

  -- The selection of the next account; `none` is a panic.
  abbrev pub select_next : Option PoolGate → World O → World O × Option (Result Selection)
  select_next pool w =
      let s = out.sight w.outside in
      let r =
        select_in s.scorer s.meanwhile request.provider s.statuses request.hints pool s.now s.later
          w.router in
      (record w { router = r.0; outside = out.pass_select w.outside }, r.1)

  -- What one turn of the failover loop leads to; `k` goes on with the terminal status.
  abbrev pub next_turn : (World O → ℕ → World O × Option ℕ) → World O × Outcome → World O × Option ℕ
  next_turn k (w, done status) = (w, some status)
  next_turn k (w, failed status) = (w, some status)
  next_turn k (w, to_next terminal) = k w terminal

  abbrev pub is_hint : SubId → Option SubId → Bool
  is_hint id none = false
  is_hint id (some held) = held == id

  -- A new cache key is placed before the attempt, and the attempt has a span.
  abbrev pub opened : SubId → World O → World O
  opened id w = record w {
    outside =
        if request.has_key && not (is_hint id request.hints.key)
        then out.place id w.outside
        else w.outside;
    spans = id ∷ w.spans;
  }

  abbrev pub try_registered :
      (World O → ℕ → World O × Option ℕ) → ℕ → SubId → World O → Option ℕ → World O × Option ℕ
  try_registered k terminal id w none = k w terminal
  try_registered k terminal id w (some token) = next_turn k (attempt id token (opened id w))

  -- A turn of the loop: `k` is the rest of it, given the number of candidates.
  abbrev pub turn :
      (ℕ → World O → ℕ → World O × Option ℕ)
      → ℕ
      → World O × Option (Result Selection)
      → World O × Option ℕ
  turn k terminal (w, none) = (w, none)
  turn k terminal (w, some (err e)) = (note_error w, some (error_status e))
  turn k terminal (w, some (ok sel)) =
      try_registered (k sel.candidates) terminal sel.sub w (out.token_in_registry sel.sub w.outside)

  -- The loop once `max_attempts` is known: so many attempts are left.
  unfoldable pub failover : Option PoolGate → ℕ → World O → ℕ → World O × Option ℕ
  unfolding attempt
  failover pool zero w terminal = let r = terminal_response terminal w in (r.0, some r.1)
  failover pool (suc left) w terminal =
      turn (λ candidates. failover pool left) terminal (select_next pool w)

  -- `forward_with_failover` after the pool: the first selection says how many attempts there are.
  unfoldable pub forward_with_failover : Option PoolGate → World O → World O × Option ℕ
  unfolding failover
  forward_with_failover pool w =
      turn (λ candidates. failover pool (max candidates 1 - 1)) 429 (select_next pool w)

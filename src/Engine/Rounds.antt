-- ===== src/Engine/Rounds.antt =====
-- crates/libsubby/src/engine.rs: poll_round as a whole, and what the proxy's requests do to the parts
-- that they share with the engine while it waits.
use subbier.Base.{
  ℕ, Bool, true, false, Option, none, some, List, [], ◌∷◌, map, String, if◌then◌else◌, is_empty,
}
use subbier.Model.{SubId, Timestamp, Tokens}
use subbier.Balance.History as Router
use subbier.Metrics.{Ref, TokenTick, in_flight, drop_guard, record_tokens}
use subbier.Poller.{Error, Polled, UsageCache}
use subbier.Registry.{store_tokens}
use subbier.Engine.{Credentials, Sub, Engine}
use subbier.Engine.Polling.{
  due, targets, rechecked, Refreshed, refresh_tokens, rejected, refresh_rejected, merge_results,
  record_results,
}

-- What a request does to the shared parts: the router, the counters, the registry's tokens and the
-- cache.
pub data ProxyEvent : Type 0 where
  routes : Router.Event → ProxyEvent
  starts : SubId → Option ℕ → Timestamp → ProxyEvent
  ends : List Ref → ProxyEvent
  counts : SubId → Option ℕ → TokenTick → ProxyEvent
  rotates : SubId → Tokens → ProxyEvent
  caches : UsageCache → ProxyEvent

unfoldable pub serve : ProxyEvent → Engine → Engine
serve (routes event) e = record e { router = Router.apply event e.router }
serve (starts sub pool now) e = record e { metrics = (in_flight sub pool now e.metrics).0 }
serve (ends guard) e = record e { metrics = drop_guard guard e.metrics }
serve (counts sub pool tick) e = record e { metrics = record_tokens sub pool tick e.metrics }
serve (rotates id tokens) e = record e { registry = (store_tokens id tokens e.registry).0 }
serve (caches cache) e = record e { usage = cache }

unfoldable pub serve_all : List ProxyEvent → Engine → Engine
unfolding serve
serve_all [] e = e
serve_all (x ∷ xs) e = serve_all xs (serve x e)

-- What a round meets outside: the sources (`none` when reading them panics), the token manager, the
-- poller, what requests do at each wait, and the clocks.
pub record Outside : Type 0 where
  pub reread : List (SubId × Sub) → Option (List (SubId × Option Credentials))
  pub ensure_fresh : Bool → Sub → Sub × Refreshed
  pub poll : Bool → List (SubId × Sub) → List (SubId × Polled)
  pub meanwhile : ℕ → List ProxyEvent
  pub now : ℕ → Timestamp
  pub instant : ℕ
  pub clocks : SubId → ℕ × ℕ

abbrev pub reread_found : Outside → Engine → Option (List (SubId × Option Credentials)) → Engine
reread_found out e none = e
reread_found out e (some found) = rechecked (out.now 0) out.instant found e

unfoldable pub recheck_signed_out : Outside → Engine → Engine
unfolding due rechecked serve_all
recheck_signed_out out e =
    let asked = due (out.now 0) e in
    if is_empty asked
    then e
    else reread_found out (serve_all (out.meanwhile 0) e) (out.reread asked)

-- The accounts with what the token manager made of each.
abbrev pub fresh_all : Outside → Bool → List (SubId × Sub) → List ((SubId × Sub) × Refreshed)
fresh_all out force ts =
    map (λ t. let after = out.ensure_fresh force t.1 in ((t.0, after.0), after.1)) ts

-- The results after the retry of those that were rejected, and the state.
unfoldable pub retry_unauthorized :
    Outside → List (SubId × Sub) → List (SubId × Polled) → Engine → Engine × List (SubId × Polled)
unfolding rejected refresh_rejected merge_results serve_all
retry_unauthorized out ts results e =
    let asked = rejected ts results in
    let turn =
      refresh_rejected (out.now 2) out.instant (fresh_all out true asked)
        (serve_all (out.meanwhile 3) e) in
    if is_empty asked
    then (e, results)
    else if is_empty turn.1
    then (turn.0, results)
    else (serve_all (out.meanwhile 4) turn.0, merge_results (out.poll true turn.1) results)

module _ (describe : Error → Option ℕ → String) where
  -- The round after the tokens have been refreshed, on the accounts that are left.
  unfoldable pub poll_alive : Outside → Bool → List (SubId × Sub) → Engine → Engine
  unfolding retry_unauthorized record_results serve_all
  poll_alive out force alive e =
      let polled =
        retry_unauthorized out alive (out.poll force alive) (serve_all (out.meanwhile 2) e) in
      if is_empty alive then e else record_results describe (out.now 3) out.clocks polled.1 polled.0

  unfoldable pub poll_round : Outside → Bool → Engine → Engine
  unfolding recheck_signed_out targets refresh_tokens poll_alive serve_all
  poll_round out force e =
      let checked = recheck_signed_out out e in
      let turn =
        refresh_tokens (out.now 1) out.instant (fresh_all out false (targets checked))
          (serve_all (out.meanwhile 1) checked) in
      if is_empty (targets checked) then checked else poll_alive out force turn.1 turn.0

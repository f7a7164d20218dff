-- ===== src/Engine/Validity.antt =====
-- The invariant of the engine of engine.rs, under a round of polls and the proxy's requests.
pub mod Adoption
pub mod Commands
pub mod Logins
pub mod Rounds
use subbier.Base.{
  ℕ, suc, ◌+◌, ◌≡◌, ◌≤◌, refl, ap, sym, subst, inl, inr, Bool, true, false, Option, none, some,
  List, [], ◌∷◌, map, String, ◌==◌, arith, find, Bool-cases, Option-cases, if◌then◌else◌, is_empty,
  is_some,
}
use subbier.Base.OrdMap.{IsSorted, lookup, insert-IsSorted}
use subbier.Model.{SubId, Timestamp, Tokens, Usage, UsageWindow}
use subbier.Balance.Exhaustion.{is_exhausted}
use subbier.Balance.Router.{State}
use subbier.Balance.Router.Invariant as Router
use subbier.Balance.History.{apply-IsValid}
use subbier.Metrics.{Metrics, entry, pool_entry, refs_of, in_flight, drop_guard, record_tokens}
use subbier.Poller.{Error, Polled, ok, err}
use subbier.Registry.{SubRegistry, store_tokens, set_needs_login}
use subbier.Engine.{
  Credentials, Sub, SubRecord, Engine, WindowKind, judge, windows_of, evaluate_alert,
  evaluate_alerts, update_record, record_found, record_usage, note_error, persist_subs,
}
use subbier.Engine.Accounts.{schedule_persist, adopt_tokens, with_tokens, mark_needs_login}
use subbier.Engine.Polling.{
  mark_dirty, checked, recover, recovered, recheck_one, recheck_all, rechecked, Refreshed, changed,
  failed, refresh_one, refresh_tokens, retry_one, refresh_rejected, record_result, record_results,
  poll_failed, retry_in, same_tokens, targets, due, rejected,
}
use subbier.Engine.Rounds.{
  ProxyEvent, routes, starts, ends, counts, rotates, caches, serve, serve_all, Outside,
  reread_found, recheck_signed_out, retry_unauthorized, poll_alive, poll_round, fresh_all,
}
use subbier.Engine.Identities.{Bounds, Table, identities, KeepsIdentity, identities-update_record}
use subbier.Engine.Mirror.{
  Mirrors, Shown, KeepsShown, Mirrors-update, Mirrors-entry, Mirrors-record,
}

pub record Parts (b : Bounds) (next : ℕ) (subs : List SubRecord) (on : ℕ → Bool)
    (registry : SubRegistry) (router : State) (metrics : Metrics) : Type 0 where
  pub table : Table b next (identities subs)
  pub mirror : Mirrors on registry subs
  pub routed : Router.IsValid router
  pub counted : IsSorted metrics.subs

-- No id and no key stands twice, and there is room for that many more ids; the registry holds the
-- accounts; the router's invariant holds, and the map of the gauges is sorted.
abbrev pub IsValid : Bounds → Engine → Type 0
IsValid b e = Parts b e.next_id e.subs e.sub_enabled e.registry e.router e.metrics

module _ {b : Bounds} {next : ℕ} {subs : List SubRecord} {on : ℕ → Bool} {registry : SubRegistry}
    {router : State} {metrics : Metrics} where
  pub with_routed :
      {router' : State}
      → Parts b next subs on registry router metrics
      → Router.IsValid router'
      → Parts b next subs on registry router' metrics
  with_routed v r = record { table = v.table; mirror = v.mirror; routed = r; counted = v.counted }

  pub with_counted :
      {metrics' : Metrics}
      → Parts b next subs on registry router metrics
      → IsSorted metrics'.subs
      → Parts b next subs on registry router metrics'
  with_counted v c = record { table = v.table; mirror = v.mirror; routed = v.routed; counted = c }

  pub with_mirror :
      {on' : ℕ → Bool} {registry' : SubRegistry}
      → Parts b next subs on registry router metrics
      → Mirrors on' registry' subs
      → Parts b next subs on' registry' router metrics
  with_mirror v m = record { table = v.table; mirror = m; routed = v.routed; counted = v.counted }

  -- The accounts after a change that leaves their ids and keys.
  pub with_subs :
      {subs' : List SubRecord} {registry' : SubRegistry}
      → Parts b next subs on registry router metrics
      → identities subs' ≡ identities subs
      → Mirrors on registry' subs'
      → Parts b next subs' on registry' router metrics
  with_subs v q m = record {
    table = subst (Table b next) (sym q) v.table;
    mirror = m;
    routed = v.routed;
    counted = v.counted;
  }

entry-IsSorted : (sub : SubId) (m : Metrics) → IsSorted m.subs → IsSorted (entry sub m).0.subs
unfolding entry
entry-IsSorted sub m v = elim (Option-cases (lookup sub m.subs)) [
  | inl z ↦ rw z (insert-IsSorted sub m.next m.subs v)
  | inr (r, z) ↦ rw z v
]

pool_entry-subs : (pool : ℕ) (m : Metrics) → (pool_entry pool m).0.subs ≡ m.subs
unfolding pool_entry
pool_entry-subs pool m = elim (Option-cases (lookup pool m.pools)) [
  | inl z ↦ rw z refl
  | inr (r, z) ↦ rw z refl
]

refs_of-IsSorted :
    (sub : SubId) (pool : Option ℕ) (m : Metrics)
    → IsSorted m.subs
    → IsSorted (refs_of sub pool m).0.subs
unfolding refs_of
refs_of-IsSorted sub none m v = entry-IsSorted sub m v
refs_of-IsSorted sub (some pool) m v =
    subst IsSorted (sym (pool_entry-subs pool (entry sub m).0)) (entry-IsSorted sub m v)

pub serve-IsValid : (b : Bounds) (x : ProxyEvent) (e : Engine) → IsValid b e → IsValid b (serve x e)
unfolding serve in_flight drop_guard record_tokens store_tokens
serve-IsValid b (routes event) e v = with_routed v (apply-IsValid event v.routed)
serve-IsValid b (starts sub pool now) e v =
    with_counted v (refs_of-IsSorted sub pool e.metrics v.counted)
serve-IsValid b (ends guard) e v = with_counted v v.counted
serve-IsValid b (counts sub pool tick) e v =
    with_counted v (refs_of-IsSorted sub pool e.metrics v.counted)
serve-IsValid b (rotates id tokens) e v =
    with_mirror v (Mirrors-entry _ e.sub_enabled id e.registry e.subs (λ x. refl) v.mirror)
serve-IsValid b (caches cache) e v = v

pub serve_all-IsValid :
    (b : Bounds) (xs : List ProxyEvent) (e : Engine) → IsValid b e → IsValid b (serve_all xs e)
unfolding serve_all
serve_all-IsValid b [] e v = v
serve_all-IsValid b (x ∷ xs) e v = serve_all-IsValid b xs (serve x e) (serve-IsValid b x e v)

-- ===== src/Metrics.antt =====
-- crates/libsubby/src/proxy/metrics.rs: in-flight gauges and token windows.
--
-- `Arc<Counters>` is shared between the maps and the guards of running requests, so the counters
-- stand in a heap: a reference is a number, `next` is the first that is not allocated. A pool's name
-- is a number, since names are only compared. Each operation runs as one step.
pub mod Gauges
mod Samples
use subbier.Base.{
  ℕ, suc, ◌+◌, ◌-◌, ◌*◌, ◌%◌, ◌^◌, min, Bool, Option, none, some, List, [], ◌∷◌, ◌++◌, filter,
  length, drop, ltb, leb, ◌==◌, if◌then◌else◌, map,
}
use subbier.Base.OrdMap.{OrdMap, lookup, insert, remove}
use subbier.Model.{SubId, Timestamp}

abbrev pub Ref : Type 0
Ref = ℕ

-- An hour in nanoseconds.
abbrev pub token_window : ℕ
token_window = 3600 * 10 ^ 9

abbrev pub max_ticks : ℕ
max_ticks = 8192

pub record TokenTick : Type 0 where
  pub at : Timestamp
  pub input : ℕ
  pub output : ℕ

-- `last_proxied_at` is `none` for the value NEVER.
pub record Counters : Type 0 where
  pub in_flight : ℕ
  pub requests_total : ℕ
  pub last_proxied_at : Option Timestamp
  pub tokens : List TokenTick

abbrev pub new_counters : Counters
new_counters = record { in_flight = 0; requests_total = 0; last_proxied_at = none; tokens = [] }

-- `u64::saturating_add`.
abbrev pub saturating_add : ℕ → ℕ → ℕ
saturating_add a b = min (a + b) (2 ^ 64 - 1)

unfoldable pub sum_saturating : List ℕ → ℕ → ℕ
sum_saturating [] acc = acc
sum_saturating (x ∷ xs) acc = sum_saturating xs (saturating_add acc x)

-- `tick.at > cutoff`, with the cutoff an hour before `now`.
abbrev pub within_hour : Timestamp → TokenTick → Bool
within_hour now tick = ltb now (tick.at + token_window)

-- `tokens_since`: what is kept, and the sum.
unfoldable pub tokens_since : Timestamp → List TokenTick → List TokenTick × ℕ
unfolding sum_saturating
tokens_since now ticks =
    let kept = filter (within_hour now) ticks in
    (
      kept,
      sum_saturating (map (λ t. saturating_add t.input t.output) (filter (λ t. leb t.at now) kept))
          0,
    )

pub record Metrics : Type 0 where
  pub heap : Ref → Counters
  pub next : Ref
  pub subs : OrdMap Ref
  pub pools : OrdMap Ref

abbrev pub new_metrics : Metrics
new_metrics = record { heap = λ r. new_counters; next = 0; subs = []; pools = [] }

abbrev pub set_at : Ref → Counters → (Ref → Counters) → Ref → Counters
set_at r c heap q = if r == q then c else heap q

-- The shared counters of a sub: found, or allocated.
abbrev pub entry_found : SubId → Metrics → Option Ref → Metrics × Ref
entry_found sub m (some r) = (m, r)
entry_found sub m none = (
  record m {
    heap = set_at m.next new_counters m.heap;
    next = suc m.next;
    subs = insert sub m.next m.subs;
  },
  m.next,
)

unfoldable pub entry : SubId → Metrics → Metrics × Ref
entry sub m = entry_found sub m (lookup sub m.subs)

abbrev pub pool_entry_found : ℕ → Metrics → Option Ref → Metrics × Ref
pool_entry_found pool m (some r) = (m, r)
pool_entry_found pool m none = (
  record m {
    heap = set_at m.next new_counters m.heap;
    next = suc m.next;
    pools = insert pool m.next m.pools;
  },
  m.next,
)

unfoldable pub pool_entry : ℕ → Metrics → Metrics × Ref
pool_entry pool m = pool_entry_found pool m (lookup pool m.pools)

-- The counters that a request counts against.
abbrev pub pool_refs : Ref → Metrics → Option ℕ → Metrics × List Ref
pool_refs r m none = (m, r ∷ [])
pool_refs r m (some pool) = let p = pool_entry pool m in (p.0, r ∷ p.1 ∷ [])

unfoldable pub refs_of : SubId → Option ℕ → Metrics → Metrics × List Ref
unfolding entry pool_entry
refs_of sub pool m = let e = entry sub m in pool_refs e.1 e.0 pool

abbrev pub on_each : (Counters → Counters) → List Ref → (Ref → Counters) → Ref → Counters
on_each f [] heap = heap
on_each f (r ∷ rs) heap = on_each f rs (set_at r (f (heap r)) heap)

-- `fetch_add` on a `u32` and a `u64`, and the store of the clock.
abbrev pub started : Timestamp → Counters → Counters
started now c = record c {
  in_flight = (c.in_flight + 1) % 2 ^ 32;
  requests_total = (c.requests_total + 1) % 2 ^ 64;
  last_proxied_at = some now;
}

-- `InFlightGuard` holds the counters that its drop will lower.
unfoldable pub in_flight : SubId → Option ℕ → Timestamp → Metrics → Metrics × List Ref
unfolding refs_of
in_flight sub pool now m =
    let found = refs_of sub pool m in
    (record found.0 { heap = on_each (started now) found.1 found.0.heap }, found.1)

-- `n.saturating_sub(1)`.
abbrev pub finished : Counters → Counters
finished c = record c { in_flight = c.in_flight - 1 }

unfoldable pub drop_guard : List Ref → Metrics → Metrics
drop_guard guard m = record m { heap = on_each finished guard m.heap }

abbrev pub push_tick : TokenTick → Counters → Counters
push_tick tick c =
    let ticks = filter (within_hour tick.at) c.tokens ++ (tick ∷ []) in
    record c {
      tokens =
          if ltb max_ticks (length ticks) then drop (length ticks - max_ticks) ticks else ticks;
    }

unfoldable pub record_tokens : SubId → Option ℕ → TokenTick → Metrics → Metrics
unfolding refs_of
record_tokens sub pool tick m =
    let found = refs_of sub pool m in
    record found.0 { heap = on_each (push_tick tick) found.1 found.0.heap }

unfoldable pub forget : SubId → Metrics → Metrics
forget sub m = record m { subs = remove sub m.subs }

abbrev pub gauge_of : Metrics → Option Ref → ℕ
gauge_of m none = 0
gauge_of m (some r) = (m.heap r).in_flight

unfoldable pub proxied_in_flight : SubId → Metrics → ℕ
proxied_in_flight sub m = gauge_of m (lookup sub m.subs)

unfoldable pub pool_proxied_in_flight : ℕ → Metrics → ℕ
pool_proxied_in_flight pool m = gauge_of m (lookup pool m.pools)

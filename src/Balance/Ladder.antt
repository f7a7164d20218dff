-- ===== src/Balance/Ladder.antt =====
-- crates/libsubby/src/balance/mod.rs, `Router::select_in` up to stickiness: the filters, with an
-- error for each, and the rungs that answer without ranking. All of it runs under one lock.
pub mod Live
pub mod Refusals
pub mod Wishes
use subbier.Base.{
  ℕ, Bool, false, not, Option, none, some, List, if◌then◌else◌, any, filter, filter_map,
  filter_some, is_empty, length, ◌==◌,
}
use subbier.Base.OrdMap.{lookup}
use subbier.Model.{SubId, Timestamp, Provider, at, put}
use subbier.Balance.Exhaustion.{min_of}
use subbier.Balance.Router.{
  SubStatus, PoolGate, contains, admits, has_ceiling, RouterSettings, is_sticky, proxies, State,
  sweep, until_of, usable, is_free,
}
use subbier.Balance.Selection.{
  Hints, SelectReason, pinned, frozen, affinity, placement, sticky, Selection, SelectError,
  not_proxied, no_candidates, pool_empty, all_exhausted, Result, ok, err, ◌>>=◌, ◌>>◌, refuse_if,
}

-- The part of a pool: no members and members that are all too full are told apart.
unfoldable pub in_pool : Option PoolGate → List SubStatus → Result (List SubStatus)
in_pool none subs = ok subs
in_pool (some gate) subs = do
  let members = filter (λ s. contains gate s.sub) subs
  refuse_if (is_empty members) (pool_empty gate.name false)
  let admitted = filter (λ s. admits gate s) members
  refuse_if (is_empty admitted) (pool_empty gate.name (has_ceiling gate))
  ok admitted

-- The soonest end of a quarantine among these subs.
abbrev pub next_reset : State → List SubStatus → Option Timestamp
next_reset state subs = min_of (filter_map (λ s. until_of (lookup s.sub state.exhausted)) subs)

-- The subs that the request may run on, in the state after the sweep.
unfoldable pub live_subs :
    State → Provider → List SubStatus → Option PoolGate → Result (List SubStatus)
unfolding in_pool
live_subs state provider subs pool = do
  refuse_if (not (proxies state.settings provider)) (not_proxied provider)
  let able = filter (usable provider) subs
  refuse_if (is_empty able) (no_candidates provider)
  admitted ← in_pool pool able
  let live = filter (is_free state) admitted
  refuse_if (is_empty live) (all_exhausted provider (next_reset state admitted))
  ok live

abbrev pub holds : List SubStatus → SubId → Bool
holds live sub = any (λ s. s.sub == sub) live

-- The held sub, if it is live.
abbrev pub held : List SubStatus → Option SubId → Option SubId
held live = filter_some (holds live)

-- `held`, under a condition.
abbrev pub held_if : Bool → List SubStatus → Option SubId → Option SubId
held_if test live sub = if test then held live sub else none

abbrev pub hold : State → Provider → SubId → State
hold state provider sub = record state { current = put state.current provider (some sub) }

abbrev pub answer : State → SubId → SelectReason → ℕ → Option (State × Selection)
answer after sub why count = some (after, record { sub = sub; reason = why; candidates = count })

-- The rungs in order, each with the sub that it would give: the pin, the frozen sub, the hint of the
-- conversation, the hint of the cache key, and the sticky sub.
abbrev pub climb :
    State
    → Provider
    → ℕ
    → (pin frozen_sub chain key sticky_sub : Option SubId) → Option (State × Selection)
climb state provider n (some p) f a k s = answer (hold state provider p) p pinned n
climb state provider n none (some c) a k s = answer state c frozen n
climb state provider n none none (some a) k s = answer (hold state provider a) a affinity n
climb state provider n none none none (some k) s = answer (hold state provider k) k placement n
climb state provider n none none none none (some c) = answer state c sticky n
climb state provider n none none none none none = none

unfoldable pub ladder : State → Provider → Hints → List SubStatus → Option (State × Selection)
ladder state provider hints live =
    let current = at state.current provider in
    climb state provider (length live) (held live state.pinned)
      (held_if (not state.settings.auto_switch) live current) (held live hints.chain)
      (held live hints.key) (held_if (is_sticky state.settings) live current)

-- What the first part comes to: an answer, or a list to rank under the settings read.
pub data Phase : Type 0 where
  answered : Selection → Phase
  refused : SelectError → Phase
  to_rank : List SubStatus → RouterSettings → Phase

abbrev pub after_ladder : State → List SubStatus → Option (State × Selection) → State × Phase
after_ladder state live none = (state, to_rank live state.settings)
after_ladder state live (some (after, selection)) = (after, answered selection)

abbrev pub first_part : State → Provider → Hints → Result (List SubStatus) → State × Phase
first_part state provider hints (err e) = (state, refused e)
first_part state provider hints (ok live) =
    after_ladder state live (ladder state provider hints live)

unfoldable pub select_locked :
    Provider → List SubStatus → Hints → Option PoolGate → Timestamp → State → State × Phase
select_locked provider subs hints pool now state =
    let swept = sweep now state in
    first_part swept provider hints (live_subs swept provider subs pool)

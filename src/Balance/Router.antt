-- ===== src/Balance/Router.antt =====
-- crates/libsubby/src/balance/mod.rs, the router's state and every operation on it but `select_in`.
--
-- An operation that locks the state takes it as an argument and returns the new one; the clock that
-- it reads is the argument `now`. `exhausted` is the `BTreeMap` of quarantines.
pub mod Invariant
pub mod Quarantines
use subbier.Base.{
  ℕ, ◌+◌, ◌*◌, ◌^◌, Bool, true, false, ◌&&◌, ◌||◌, not, Option, none, some, List, [], ◌∷◌, map,
  String, ltb, leb, ◌==◌, if◌then◌else◌, any, filter, is_none_or, is_some_and, unwrap_or,
}
use subbier.Base.OrdMap.{OrdMap, lookup, insert, remove, retain, contains_key}
use subbier.Model.{
  SubId, Timestamp, Pct, points, Provider, same_provider, PerProvider, at, put, both, StrategyKind,
  same_kind, round_robin, default_sticky, Usage,
}
use subbier.Balance.Failure.{
  FailureClass, Disposition, rotate, pass_through, quarantines, disposition,
}
use subbier.Balance.Exhaustion.{says, effective_pct, exhaust_until}
use subbier.Balance.Strategy.{Candidate, StrategyState, initial}

pub record SubStatus : Type 0 where
  pub sub : SubId
  pub provider : Provider
  pub enabled : Bool
  pub needs_login : Bool
  pub proxied_in_flight : ℕ
  pub proxied_requests_total : ℕ
  pub session_pct : Option Pct
  pub weekly_pct : Option Pct

-- `SubStatus::candidate`.
unfoldable pub candidate : SubStatus → Option Pct → Candidate
candidate s usage_pct = record {
  sub = s.sub;
  usage_pct = usage_pct;
  proxied_in_flight = s.proxied_in_flight;
  proxied_requests_total = s.proxied_requests_total;
}

-- A pool: `members` is `none` for every sub.
pub record PoolGate : Type 0 where
  pub name : String
  pub members : Option (List SubId)
  pub max_session_pct : Pct
  pub max_weekly_pct : Pct

unfoldable pub contains : PoolGate → SubId → Bool
contains gate sub = is_none_or (any (λ m. m == sub)) gate.members

unfoldable pub admits : PoolGate → SubStatus → Bool
unfolding contains
admits gate s =
    contains gate s.sub
    && is_none_or (λ p. ltb p gate.max_session_pct) s.session_pct
    && is_none_or (λ p. ltb p gate.max_weekly_pct) s.weekly_pct

unfoldable pub has_ceiling : PoolGate → Bool
has_ceiling gate = ltb gate.max_session_pct (points 100) || ltb gate.max_weekly_pct (points 100)

pub record RouterSettings : Type 0 where
  pub strategy : StrategyKind
  pub sticky : Option Bool
  pub auto_switch : Bool
  pub providers_proxied : PerProvider Bool
  pub usage_deadline : ℕ

abbrev pub default_settings : RouterSettings
default_settings = record {
  strategy = round_robin;
  sticky = none;
  auto_switch = true;
  providers_proxied = both true;
  usage_deadline = 5 * 10 ^ 9;
}

-- `RouterSettings::sticky`.
unfoldable pub is_sticky : RouterSettings → Bool
unfolding default_sticky
is_sticky settings = unwrap_or (default_sticky settings.strategy) settings.sticky

unfoldable pub proxies : RouterSettings → Provider → Bool
proxies settings provider = at settings.providers_proxied provider

pub record Quarantine : Type 0 where
  pub until : Timestamp
  pub at_pct : Option Pct

pub record State : Type 0 where
  pub settings : RouterSettings
  pub pinned : Option SubId
  pub current : PerProvider (Option SubId)
  pub strategies : PerProvider StrategyState
  pub exhausted : OrdMap Quarantine

-- `Router::new`.
unfoldable pub new : RouterSettings → State
new settings = record {
  settings = settings;
  pinned = none;
  current = both none;
  strategies = both initial;
  exhausted = [];
}

unfoldable pub sweep : Timestamp → State → State
sweep now state = record state { exhausted = retain (λ q. ltb now q.until) state.exhausted }

-- `*current == Some(sub)` clears the slot.
abbrev pub unless_held : SubId → Option SubId → Option SubId
unless_held sub none = none
unless_held sub (some c) = if c == sub then none else some c

unfoldable pub exhaust : SubId → Option Usage → Timestamp → State → State × Timestamp
exhaust sub usage now state =
    let until = exhaust_until now usage in
    let at_pct : Option Pct = elim usage [ none ↦ none | some u ↦ some (effective_pct u) ] in
    let current : PerProvider (Option SubId) = record {
      codex = unless_held sub state.current.codex;
      claude = unless_held sub state.current.claude;
    } in
    (
      record state {
        exhausted = insert sub (record { until = until; at_pct = at_pct }) state.exhausted;
        current = current;
      },
      until,
    )

unfoldable pub set_settings : RouterSettings → State → State
set_settings settings state =
    if same_kind state.settings.strategy settings.strategy
    then record state { settings = settings }
    else record state { settings = settings; strategies = both initial }

unfoldable pub pin : Option SubId → State → State
pin sub state = record state { pinned = sub }

unfoldable pub clear_current : Provider → State → State
clear_current provider state = record state { current = put state.current provider none }

abbrev pub until_of : Option Quarantine → Option Timestamp
until_of none = none
until_of (some q) = some q.until

unfoldable pub exhausted_until : SubId → Timestamp → State → State × Option Timestamp
unfolding sweep
exhausted_until sub now state =
    let swept = sweep now state in (swept, until_of (lookup sub swept.exhausted))

-- The quarantines in `SubId` order.
unfoldable pub exhaustions : Timestamp → State → State × List (SubId × Timestamp)
unfolding sweep
exhaustions now state =
    let swept = sweep now state in (swept, map (λ e. (e.0, e.1.until)) swept.exhausted)

unfoldable pub clear_exhaustion : SubId → State → State
clear_exhaustion sub state = record state { exhausted = remove sub state.exhausted }

-- A fall of ten points or more since the quarantine: `effective_pct(usage) <= at - RESET_DROP_PCT`,
-- with the subtraction moved to the other side.
abbrev pub fell : Usage → Quarantine → Bool
fell usage q = is_some_and (λ at. leb (effective_pct usage + points 10) at) q.at_pct

-- The branches of `lift_if_recovered`, on what the quarantines hold for the sub.
abbrev pub lifted : SubId → Usage → State → Option Quarantine → State × Option Timestamp
lifted sub usage state none = (state, none)
lifted sub usage state (some q) =
    if says false usage.limit_reached || fell usage q
    then (record state { exhausted = remove sub state.exhausted }, some q.until)
    else (state, none)

unfoldable pub lift_if_recovered : SubId → Usage → Timestamp → State → State × Option Timestamp
unfolding sweep
lift_if_recovered sub usage now state =
    let swept = sweep now state in lifted sub usage swept (lookup sub swept.exhausted)

unfoldable pub usable : Provider → SubStatus → Bool
usable provider s = same_provider s.provider provider && s.enabled && not s.needs_login

-- `BTreeMap::contains_key` on the quarantines, for a sub.
abbrev pub is_free : State → SubStatus → Bool
is_free state s = not (contains_key s.sub state.exhausted)

-- `sort_unstable` on `SubId`s.
unfoldable pub insert_id : SubId → List SubId → List SubId
insert_id s [] = s ∷ []
insert_id s (t ∷ ts) = if leb s t then s ∷ t ∷ ts else t ∷ insert_id s ts

unfoldable pub sort_ids : List SubId → List SubId
unfolding insert_id
sort_ids [] = []
sort_ids (s ∷ ss) = insert_id s (sort_ids ss)

unfoldable pub eligible_in :
    Provider → List SubStatus → Option PoolGate → Timestamp → State → State × List SubId
unfolding sweep proxies usable admits sort_ids
eligible_in provider subs pool now state =
    let swept = sweep now state in
    let free = filter (λ s. usable provider s && is_free swept s) subs in
    let admitted = filter (λ s. is_none_or (λ gate. admits gate s) pool) free in
    (swept, if proxies swept.settings provider then sort_ids (map (λ s. s.sub) admitted) else [])

unfoldable pub on_failure :
    SubId → FailureClass → Option Usage → Timestamp → State → State × Disposition
unfolding exhaust
on_failure sub class usage now state =
    let after = if quarantines class then (exhaust sub usage now state).0 else state in
    (
      after,
      elim (disposition class) [
        | Disposition.rotate ↦ if after.settings.auto_switch then rotate else pass_through
        | other ↦ other
      ],
    )

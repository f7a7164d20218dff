-- ===== src/Balance/Router/Invariant.antt =====
-- The router's invariant, for the quarantines and the subs that requests stick to.
use subbier.Base.{◌≡◌, inl, inr, Bool, false, ◌||◌, Option, none, some, arith, Bool-cases}
use subbier.Base.OrdMap.{
  OrdMap, lookup, insert, remove, retain, IsSorted, lookup-insert, lookup-remove, lookup-retain,
  insert-IsSorted, remove-IsSorted, retain-IsSorted,
}
use subbier.Model.{SubId, Timestamp, Provider, put, Usage}
use subbier.Balance.Exhaustion.{says}
use subbier.Balance.Failure.{FailureClass, quarantines}
use subbier.Balance.Router.{
  Quarantine, RouterSettings, State, new, sweep, unless_held, exhaust, set_settings, pin,
  clear_current, exhausted_until, lifted, fell, clear_exhaustion, lift_if_recovered, on_failure,
}

-- The held sub of one provider, if any, is not quarantined.
abbrev pub IsFreeSlot : OrdMap Quarantine → Option SubId → Type 0
IsFreeSlot m none = Unit {0}
IsFreeSlot m (some c) = lookup c m ≡ none

pub record IsValid (state : State) : Type 0 where
  pub sorted : IsSorted state.exhausted
  pub codex_free : IsFreeSlot state.exhausted state.current.codex
  pub claude_free : IsFreeSlot state.exhausted state.current.claude

retain-IsFreeSlot :
    (p : Quarantine → Bool) (m : OrdMap Quarantine) (slot : Option SubId)
    → IsSorted m
    → IsFreeSlot m slot
    → IsFreeSlot (retain p m) slot
retain-IsFreeSlot p m none h f = tt
retain-IsFreeSlot p m (some c) h f = rw (lookup-retain p c 0 m h, f)

remove-IsFreeSlot :
    (sub : SubId) (m : OrdMap Quarantine) (slot : Option SubId)
    → IsSorted m
    → IsFreeSlot m slot
    → IsFreeSlot (remove sub m) slot
remove-IsFreeSlot sub m none h f = tt
remove-IsFreeSlot sub m (some c) h f = ground (arith, lookup-remove sub c 0 m h)

insert-IsFreeSlot :
    (sub : SubId) (q : Quarantine) (m : OrdMap Quarantine) (slot : Option SubId)
    → IsFreeSlot m slot
    → IsFreeSlot (insert sub q m) (unless_held sub slot)
insert-IsFreeSlot sub q m none f = tt
insert-IsFreeSlot sub q m (some c) f = ground (arith, lookup-insert sub c q m)

pub new-IsValid : (settings : RouterSettings) → IsValid (new settings)
unfolding new
new-IsValid settings = record { sorted = tt; codex_free = tt; claude_free = tt }

pub sweep-IsValid : (now : Timestamp) {state : State} → IsValid state → IsValid (sweep now state)
unfolding sweep
sweep-IsValid now {state} v = record {
  sorted = retain-IsSorted _ state.exhausted v.sorted;
  codex_free = retain-IsFreeSlot _ state.exhausted state.current.codex v.sorted v.codex_free;
  claude_free = retain-IsFreeSlot _ state.exhausted state.current.claude v.sorted v.claude_free;
}

pub exhaust-IsValid :
    (sub : SubId) (usage : Option Usage) (now : Timestamp) {state : State}
    → IsValid state
    → IsValid (exhaust sub usage now state).0
unfolding exhaust
exhaust-IsValid sub usage now {state} v = record {
  sorted = insert-IsSorted sub _ state.exhausted v.sorted;
  codex_free = insert-IsFreeSlot sub _ state.exhausted state.current.codex v.codex_free;
  claude_free = insert-IsFreeSlot sub _ state.exhausted state.current.claude v.claude_free;
}

pub set_settings-IsValid :
    (settings : RouterSettings) {state : State}
    → IsValid state
    → IsValid (set_settings settings state)
unfolding set_settings
set_settings-IsValid settings v = ground arith

pub pin-IsValid : (sub : Option SubId) {state : State} → IsValid state → IsValid (pin sub state)
unfolding pin
pin-IsValid sub v = record {
  sorted = v.sorted;
  codex_free = v.codex_free;
  claude_free = v.claude_free;
}

pub clear_current-IsValid :
    (provider : Provider) {state : State} → IsValid state → IsValid (clear_current provider state)
unfolding clear_current
clear_current-IsValid Provider.codex v = record {
  sorted = v.sorted;
  codex_free = tt;
  claude_free = v.claude_free;
}
clear_current-IsValid Provider.claude v = record {
  sorted = v.sorted;
  codex_free = v.codex_free;
  claude_free = tt;
}

pub clear_exhaustion-IsValid :
    (sub : SubId) {state : State} → IsValid state → IsValid (clear_exhaustion sub state)
unfolding clear_exhaustion
clear_exhaustion-IsValid sub {state} v = record {
  sorted = remove-IsSorted sub state.exhausted v.sorted;
  codex_free = remove-IsFreeSlot sub state.exhausted state.current.codex v.sorted v.codex_free;
  claude_free = remove-IsFreeSlot sub state.exhausted state.current.claude v.sorted v.claude_free;
}

pub exhausted_until-IsValid :
    (sub : SubId) (now : Timestamp) {state : State}
    → IsValid state
    → IsValid (exhausted_until sub now state).0
unfolding exhausted_until
exhausted_until-IsValid sub now v = sweep-IsValid now v

lifted-IsValid :
    (sub : SubId) (usage : Usage) (state : State) (held : Option Quarantine)
    → IsValid state
    → IsValid (lifted sub usage state held).0
lifted-IsValid sub usage state none v = v
lifted-IsValid sub usage state (some q) v =
    elim (Bool-cases (says false usage.limit_reached || fell usage q)) [
      | inl e ↦ rw e (unfold clear_exhaustion in clear_exhaustion-IsValid sub v)
      | inr e ↦ rw e v
    ]

pub lift_if_recovered-IsValid :
    (sub : SubId) (usage : Usage) (now : Timestamp) {state : State}
    → IsValid state
    → IsValid (lift_if_recovered sub usage now state).0
unfolding lift_if_recovered
lift_if_recovered-IsValid sub usage now v = lifted-IsValid sub usage _ _ (sweep-IsValid now v)

pub on_failure-IsValid :
    (sub : SubId) (class : FailureClass) (usage : Option Usage) (now : Timestamp) {state : State}
    → IsValid state
    → IsValid (on_failure sub class usage now state).0
unfolding on_failure
on_failure-IsValid sub class usage now v = elim (Bool-cases (quarantines class)) [
  | inl e ↦ rw e (exhaust-IsValid sub usage now v)
  | inr e ↦ rw e v
]

-- To hold a sub that is not quarantined keeps the invariant.
pub hold-IsValid :
    (provider : Provider) (sub : SubId) {state : State}
    → lookup sub state.exhausted ≡ none
    → IsValid state
    → IsValid (record state { current = put state.current provider (some sub) })
hold-IsValid Provider.codex sub h v = record {
  sorted = v.sorted;
  codex_free = h;
  claude_free = v.claude_free;
}
hold-IsValid Provider.claude sub h v = record {
  sorted = v.sorted;
  codex_free = v.codex_free;
  claude_free = h;
}

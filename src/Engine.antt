-- ===== src/Engine.antt =====
-- crates/libsubby/src/engine.rs: the accounts, what a poll does to them, alerts, and removal.
--
-- `severities` is a `HashMap`, read by key. A stored key is a number, as in the registry. The file
-- of credentials and the database are logs of what was written; `written` says whether the file
-- could be. The router reads the clock once in `record_usage` and once in `health_of`; what it reads
-- is the argument `clock`.
pub mod Accounts
pub mod Alerts
pub mod Failures
pub mod Health
pub mod Histories
pub mod Identities
pub mod Identity
pub mod Mirror
pub mod Polling
pub mod Removal
pub mod Rounds
pub mod Switches
pub mod Validity
mod Samples
use subbier.Base.{
  ℕ, Bool, true, false, ◌&&◌, not, Option, none, some, List, [], ◌∷◌, ◌++◌, map, String, ◌==◌,
  same_string, if◌then◌else◌, filter, find, is_some,
}
use subbier.Base.OrdMap.{OrdMap}
use subbier.Model.{SubId, Timestamp, Pct, Provider, PerProvider, at, Tokens, Usage, UsageWindow}
use subbier.Balance.Exhaustion.{is_exhausted}
use subbier.Balance.Router.{
  State, exhaust, pin, clear_current, exhausted_until, clear_exhaustion, lift_if_recovered,
}
use subbier.Auth.{CredentialSource}
use subbier.Metrics.{Metrics, forget}
use subbier.Poller.{UsageCache, invalidate}
use subbier.Registry.{SubRegistry, remove, set_needs_login}
use subbier.Severity.{F32, above, Severity, severity_for, notification_transition}

-- `WindowKind` of model.rs.
pub data WindowKind : Type 0 where
  session weekly : WindowKind
  scoped : String → WindowKind

-- Equality of kinds, as derived.
abbrev pub same_window : WindowKind → WindowKind → Bool
same_window session session = true
same_window weekly weekly = true
same_window (scoped a) (scoped b) = same_string a b
same_window _ _ = false

-- `Alert` of snapshot.rs.
pub record Alert : Type 0 where
  pub sub : SubId
  pub window : WindowKind
  pub severity : Severity
  pub pct : F32

-- `Credentials` and `Sub` of model.rs.
pub record Credentials : Type 0 where
  pub account_id : Option String
  pub email : Option (List ℕ)
  pub plan : Option String
  pub tokens : Tokens
  pub source : CredentialSource

pub record Sub : Type 0 where
  pub key : ℕ
  pub provider : Provider
  pub label : List ℕ
  pub credentials : Credentials

pub record SubRecord : Type 0 where
  pub id : SubId
  pub sub : Sub
  pub usage : Option Usage
  pub polled_at : Option Timestamp
  pub failing_since : Option Timestamp
  pub poll_error : Option String
  pub needs_login : Option String
  pub relogin_checked_at : Option Timestamp

pub data EngineError : Type 0 where
  no_such_sub : SubId → EngineError
  could_not_write could_not_reload bad_bind : EngineError

-- The part of `UiConfig` that alerts read.
pub record UiConfig : Type 0 where
  pub warn_pct : F32
  pub critical_pct : F32
  pub notifications : Bool

-- A row of the database's allowances.
pub record Allowance : Type 0 where
  pub key : ℕ
  pub window : WindowKind
  pub pct : Pct
  pub resets_at : Option Timestamp

abbrev pub Severities : Type 0
Severities = SubId → WindowKind → Option Severity

-- The fields of the engine's `State` that these operations touch; `db` is `none` without a database.
-- `sub_enabled` is what `Config::sub_enabled` reads from `config.subs`.
pub record Engine : Type 0 where
  pub ui : UiConfig
  pub sub_enabled : ℕ → Bool
  pub subs : List SubRecord
  pub next_id : SubId
  pub severities : Severities
  pub alerts : List Alert
  pub last_error : Option EngineError
  pub dirty_at : Option ℕ
  pub persist_at : Option ℕ
  pub registry : SubRegistry
  pub router : State
  pub usage : UsageCache
  pub metrics : Metrics
  pub db : Option (List Allowance)
  pub saved : List Sub

unfoldable pub note_error : EngineError → Engine → Engine
note_error error e = record e { last_error = some error }

unfoldable pub persist_subs : Bool → Engine → Engine
unfolding note_error
persist_subs written e =
    let asked : Engine = record e { persist_at = none } in
    if written
    then record asked { saved = map (λ r. r.sub) e.subs }
    else note_error could_not_write asked

abbrev pub window_list : WindowKind → Option UsageWindow → List (WindowKind × UsageWindow)
window_list kind none = []
window_list kind (some w) = (kind, w) ∷ []

unfoldable pub windows_of : Usage → List (WindowKind × UsageWindow)
windows_of usage =
    window_list session usage.session
    ++ (window_list weekly usage.weekly ++ map (λ s. (scoped s.0, s.1)) usage.scoped)

-- `HashMap::insert`.
abbrev pub set_severity : SubId → WindowKind → Severity → Severities → Severities
set_severity id kind s m i k = if i == id && same_window kind k then some s else m i k

-- The band that a window of a report falls into.
abbrev pub band_of : UiConfig → UsageWindow → Severity
band_of ui w = severity_for (above w.pct) ui.warn_pct ui.critical_pct

-- What the loop pushes for one window.
abbrev pub raised : UiConfig → SubId → WindowKind × UsageWindow → Option Severity → List Alert
raised ui id kw none = []
raised ui id kw (some s) =
    if ui.notifications
    then (record { sub = id; window = kw.0; severity = s; pct = above kw.1.pct }) ∷ []
    else []

unfoldable pub evaluate_alert : SubId → WindowKind × UsageWindow → Engine → Engine
unfolding notification_transition
evaluate_alert id kw e =
    let transition = notification_transition (e.severities id kw.0) (band_of e.ui kw.1) in
    record e {
      severities = set_severity id kw.0 transition.severity e.severities;
      alerts = e.alerts ++ raised e.ui id kw transition.notify;
    }

unfoldable pub evaluate_alerts : SubId → List (WindowKind × UsageWindow) → Engine → Engine
unfolding evaluate_alert
evaluate_alerts id [] e = e
evaluate_alerts id (kw ∷ kws) e = evaluate_alerts id kws (evaluate_alert id kw e)

unfoldable pub update_record : (SubRecord → SubRecord) → SubId → List SubRecord → List SubRecord
update_record f id [] = []
update_record f id (r ∷ rs) = if r.id == id then f r ∷ rs else r ∷ update_record f id rs

abbrev pub record_allowances :
    ℕ → List (WindowKind × UsageWindow) → Option (List Allowance) → Option (List Allowance)
record_allowances key windows none = none
record_allowances key windows (some rows) = some (
    rows
    ++ map (λ kw. record { key = key; window = kw.0; pct = kw.1.pct; resets_at = kw.1.resets_at })
        windows)

-- The verdict of the report on the router.
abbrev pub judge : SubId → Usage → Timestamp → State → State
judge id usage clock router =
    if is_exhausted usage
    then (exhaust id (some usage) clock router).0
    else (lift_if_recovered id usage clock router).0

abbrev pub record_found :
    SubId → Usage → (now clock : Timestamp) → Engine → Option SubRecord → Engine
record_found id usage now clock e none = e
record_found id usage now clock e (some r) =
    let windows = windows_of usage in
    evaluate_alerts id windows (record e {
      subs =
          update_record
            (λ r. record r {
              usage = some usage;
              polled_at = some now;
              failing_since = none;
              poll_error = none;
            })
            id e.subs;
      db = record_allowances r.sub.key windows e.db;
      router = judge id usage clock e.router;
    })

unfoldable pub record_usage : SubId → Usage → (now clock : Timestamp) → Engine → Engine
unfolding windows_of evaluate_alerts update_record
record_usage id usage now clock e =
    record_found id usage now clock e (find (λ r. r.id == id) e.subs)

pub data SubHealth : Type 0 where
  ok unknown : SubHealth
  exhausted : (until : Timestamp) → SubHealth
  stale : (since : Timestamp) (error : String) → SubHealth
  needs_login : (error : String) → SubHealth

abbrev pub poll_health : Option String → Option Timestamp → Option Usage → SubHealth
poll_health (some error) (some since) (some usage) = SubHealth.stale since error
poll_health none since (some usage) = SubHealth.ok
poll_health _ _ _ = SubHealth.unknown

abbrev pub router_health : SubRecord → Option Timestamp → SubHealth
router_health r (some until) = SubHealth.exhausted until
router_health r none = poll_health r.poll_error r.failing_since r.usage

abbrev pub login_health : SubRecord → Timestamp → State → Option String → State × SubHealth
login_health r clock router (some error) = (router, SubHealth.needs_login error)
login_health r clock router none =
    let asked = exhausted_until r.id clock router in (asked.0, router_health r asked.1)

-- The router after it with the health, as asking for a quarantine sweeps.
unfoldable pub health_of : SubRecord → Timestamp → State → State × SubHealth
health_of r clock router = login_health r clock router r.needs_login

-- `*slot == Some(sub)`.
abbrev pub holds : SubId → Option SubId → Bool
holds sub none = false
holds sub (some c) = c == sub

abbrev pub forget_pin : SubId → State → State
forget_pin sub router = if holds sub router.pinned then pin none router else router

abbrev pub forget_current : SubId → Provider → State → State
forget_current sub p router =
    if holds sub (at router.current p) then clear_current p router else router

-- What `remove_sub` does to the router; the loop goes through `Provider::ALL`.
abbrev pub forget_router : SubId → State → State
forget_router sub router =
    forget_current sub Provider.claude
      (forget_current sub Provider.codex (forget_pin sub (clear_exhaustion sub router)))

-- `Vec::remove` at the position of the first record with the id.
unfoldable pub remove_record : SubId → List SubRecord → List SubRecord
remove_record id [] = []
remove_record id (r ∷ rs) = if r.id == id then rs else r ∷ remove_record id rs

abbrev pub remove_found : SubId → Bool → Engine → Option SubRecord → Engine
remove_found sub written e none = note_error (no_such_sub sub) e
remove_found sub written e (some r) = persist_subs written (record e {
  subs = remove_record sub e.subs;
  usage = invalidate r.sub.key e.usage;
  registry = (remove sub e.registry).0;
  metrics = forget sub e.metrics;
  router = forget_router sub e.router;
  severities = λ i k. if i == sub then none else e.severities i k;
})

unfoldable pub remove_sub : SubId → Bool → Engine → Engine
unfolding note_error persist_subs remove_record
remove_sub sub written e = remove_found sub written e (find (λ r. r.id == sub) e.subs)

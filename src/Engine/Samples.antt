-- ===== src/Engine/Samples.antt =====
-- An engine with two accounts, for the theorems on engine.rs.
use subbier.Base.{
  ℕ, Bool, Option, String, List, find, ◌≡◌, refl, true, false, none, some, [], ◌∷◌, arith, codes,
  ◌==◌, ◌+◌, ◌++◌, if◌then◌else◌,
}
use subbier.Model.{SubId, Timestamp, codex, points, Tokens, Usage, UsageWindow}
use subbier.Base.OrdMap.{lookup, retain, insert}
use subbier.Balance.Router.{State, default_settings, new, exhausted_until}
use subbier.Balance.Router.Invariant as Router
use subbier.Auth.{own}
use subbier.Metrics.{new_metrics}
use subbier.Registry.{SubEntry, get, store_tokens}
use subbier.Poller.{Error, http, foreign, err, seconds, peek, store, entry_failed, backoff, capture}
use subbier.Severity.{Severity, default_warn_pct, default_critical_pct}
use subbier.Engine.{
  SubHealth, UiConfig, WindowKind, Sub, SubRecord, Engine, windows_of, evaluate_alerts,
  record_usage, remove_sub,
}
use subbier.Engine.Accounts.{
  Loaded, load, reload_config, tokens_refreshed, finish_login, set_sub_enabled,
}
use subbier.Engine.Rounds.{rotates, serve}
use subbier.Engine.Failures.{Failed, fail_all, fail_all-stale}
use subbier.Engine.Histories.{
  Event, serves, reloads, rotated, enables, signs_in, rediscovers, publishes, run,
}
use subbier.Engine.Identity.{built, run-built-IsValid, removed-never_returns}
use subbier.Engine.Validity.{IsValid}
use subbier.Engine.Alerts.{expected, last_band, evaluate_alerts-expected}
use subbier.Engine.Health.{health, due, end_after, record_usage-health}
use subbier.Engine.Removal.{seen, unseen, remove_sub-seen}

abbrev sub_of : ℕ → Sub
sub_of k = record {
  key = k;
  provider = codex;
  label = codes "work";
  credentials = record {
    account_id = none;
    email = none;
    plan = none;
    tokens = record { access = "a"; refresh = none; expires_at = none };
    source = own;
  };
}

abbrev account : SubId → SubRecord
account i = record {
  id = i;
  sub = sub_of i;
  usage = none;
  polled_at = none;
  failing_since = some 5;
  poll_error = some "timeout";
  needs_login = none;
  relogin_checked_at = none;
}

abbrev entry_of : SubId → SubEntry
entry_of i = record {
  id = i;
  key = i;
  provider = codex;
  label = codes "work";
  email = none;
  tokens = record { access = "a"; refresh = none; expires_at = none };
  enabled = true;
  needs_login = false;
}

-- The first account is pinned, and was used last; the second is quarantined.
abbrev routed : State
routed = record (new default_settings) {
  pinned = some 1;
  current = record { codex = some 1; claude = none };
  exhausted = (2, record { until = 900; at_pct = some (points 100) }) ∷ [];
}

abbrev two_accounts : Engine
two_accounts = record {
  ui = record {
    warn_pct = default_warn_pct;
    critical_pct = default_critical_pct;
    notifications = true;
  };
  sub_enabled = λ k. true;
  next_id = 3;
  subs = account 1 ∷ account 2 ∷ [];
  severities = λ i k. some Severity.ok;
  alerts = [];
  last_error = none;
  dirty_at = none;
  persist_at = none;
  registry = entry_of 1 ∷ entry_of 2 ∷ [];
  router = routed;
  usage = [];
  metrics = new_metrics;
  db = none;
  saved = [];
}

abbrev window : ℕ → UsageWindow
window n = record { pct = points n; resets_at = some 800; started_at = none }

abbrev busy : Usage
busy = record {
  plan = none;
  session = some (window 80);
  weekly = some (window 20);
  scoped = ("fable", window 95) ∷ [];
  limit_reached = some false;
}

routed-IsValid : Router.IsValid routed
unfolding new lookup
routed-IsValid = record { sorted = (omega arith, tt); codex_free = refl; claude_free = tt }

evaluate_alerts-expected_example :
    ((evaluate_alerts 1 (windows_of busy) two_accounts).alerts
      ≡ two_accounts.alerts ++ expected two_accounts.ui 1 two_accounts.severities (windows_of busy))
    × ((i : SubId) (k : WindowKind)
        → (evaluate_alerts 1 (windows_of busy) two_accounts).severities i k ≡ (
            if i == 1
            then last_band two_accounts.ui k (two_accounts.severities i k) (windows_of busy)
            else two_accounts.severities i k))
unfolding windows_of
evaluate_alerts-expected_example =
    evaluate_alerts-expected 1 (windows_of busy) two_accounts
      ((refl, (refl, tt)), ((refl, tt), (tt, tt)))

record_usage-health_example :
    health 2 500 (record_usage 2 busy 400 400 two_accounts)
    ≡ some (due none (end_after 2 busy 400 500 routed))
record_usage-health_example =
    record_usage-health 2 busy 400 400 500 two_accounts (account 2) refl (omega arith)
      routed-IsValid

remove_sub-seen_example :
    seen 1 (remove_sub 1 true two_accounts) ≡ (if 1 == 1 then unseen else seen 1 two_accounts)
remove_sub-seen_example =
    remove_sub-seen 1 1 true two_accounts refl ((refl, tt), (tt, tt)) tt routed-IsValid

abbrev describe : Error → Option ℕ → String
describe error none = "failed"
describe error (some wait) = "failed, waiting"

abbrev ui_on : UiConfig
ui_on = two_accounts.ui

-- Two accounts are stored; one of them is discovered again, and a third.
abbrev stored : List Sub
stored = sub_of 7 ∷ sub_of 8 ∷ []

abbrev discovered : List Sub
discovered = sub_of 8 ∷ sub_of 9 ∷ []

abbrev all_on : ℕ → Bool
all_on k = true

abbrev first : List Event
first = enables 2 false true ∷ signs_in (sub_of 7) true ∷ []

abbrev later : List Event
later = rediscovers 50 (sub_of 8 ∷ []) true ∷ publishes ∷ []

run-built-IsValid_example :
    IsValid
      (record { room = 0; gone = 0 })
      (run describe later (built stored discovered 10 true default_settings ui_on all_on none))
run-built-IsValid_example =
    run-built-IsValid stored discovered 10 true default_settings ui_on all_on none describe later
      ((refl, tt), (tt, tt)) (omega arith)

removed-never_returns_example :
    let after = run describe later (
      remove_sub 2 true (
        run describe first (built stored discovered 10 true default_settings ui_on all_on none))) in
    (find (λ r. r.id == 2) after.subs ≡ none) × (get 2 after.registry ≡ none)
unfolding run load finish_login set_sub_enabled
removed-never_returns_example =
    removed-never_returns stored discovered 10 true default_settings ui_on all_on none describe
      first later 2 true ((refl, tt), (tt, tt)) (omega arith) refl

-- The first account has been polled, and its polls have failed since 5.
abbrev polled : Engine
polled = record two_accounts { subs = (record (account 1) { usage = some busy }) ∷ account 2 ∷ [] }

-- Two polls, the second a minute and a half after the first, and what the cache then waits.
abbrev waits : Error → Option ℕ → String
waits error none = "no wait"
waits error (some wait) = if wait == seconds 59 then "59 s" else "another wait"

abbrev offline : Timestamp → ℕ → Failed
offline now asked = record {
  force = false;
  asked = asked;
  done = asked;
  instant = asked + seconds 1;
  fetched = err (foreign "offline");
  error = foreign "offline";
  now = now;
}

fail_all-stale_example :
    health 1 500 (fail_all waits 1 1 (offline 400 0 ∷ offline 450 (seconds 90) ∷ []) polled)
    ≡ some (SubHealth.stale 5 "59 s")
unfolding exhausted_until lookup retain peek subbier.Poller.get store insert entry_failed backoff
    capture subbier.Poller.retry_after subbier.Poller.is_deadline_exceeded
    subbier.Poller.is_rate_limited
fail_all-stale_example =
    fail_all-stale waits 1 1 (offline 400 0) (offline 450 (seconds 90) ∷ []) polled
      (record (account 1) { usage = some busy }) busy 500 refl refl (refl, (refl, tt)) refl refl
      refl

abbrev newer : Tokens
newer = record { access = "b"; refresh = some "r"; expires_at = none }

abbrev reloaded : Loaded
reloaded = record {
  ui = ui_on;
  sub_enabled = all_on;
  settings = default_settings;
  bind_resolves = true;
}

abbrev access_of : Option SubEntry → String
access_of none = ""
access_of (some entry) = entry.tokens.access

abbrev refreshed : Engine
refreshed =
    run describe (serves (rotates 1 newer) ∷ reloads (some reloaded) ∷ rotated 1 newer 60 ∷ [])
      two_accounts

-- A request refreshes the tokens of an account, the engine reads its configuration again, and then
-- it hears of the refresh: the registry is back at the old tokens.
old_tokens : access_of (get 1 refreshed.registry) ≡ "a"
unfolding run reload_config tokens_refreshed serve store_tokens get
old_tokens = refl

-- ===== src/Engine/Polling.antt =====
-- crates/libsubby/src/engine.rs: poll_round and what it is made of.
--
-- What the token manager, the poller and the adopted sources answer, and the readings of the clocks,
-- are arguments. `describe` is the text of an error with the wait that the cache has for it. Between
-- two phases the proxy's requests run; what they do is a function on the state.
use subbier.Base.{
  ℕ, ◌+◌, ◌*◌, ◌^◌, ◌/◌, Bool, true, false, ◌&&◌, not, Option, none, some, List, [], ◌∷◌, map,
  String, ◌==◌, same_string, ltb, leb, if◌then◌else◌, find, filter, filter_map, is_some, unwrap_or,
}
use subbier.Model.{SubId, Timestamp, Tokens}
use subbier.Auth.{same_option_text}
use subbier.Poller.{Error, Polled, ok, err, CacheEntry, peek, is_unauthorized, UsageCache}
use subbier.Registry.{store_tokens, set_needs_login}
use subbier.Engine.{Credentials, Sub, SubRecord, Engine, update_record, record_usage}
use subbier.Engine.Accounts.{schedule_persist, adopt_tokens, mark_needs_login}

-- Five minutes.
abbrev pub recheck_interval : ℕ
recheck_interval = 300 * 10 ^ 9

abbrev pub publish_debounce : ℕ
publish_debounce = 200 * 10 ^ 6

unfoldable pub mark_dirty : ℕ → Engine → Engine
mark_dirty now e = record e { dirty_at = some (unwrap_or (now + publish_debounce) e.dirty_at) }

abbrev pub is_enabled : Engine → SubRecord → Bool
is_enabled e r = e.sub_enabled r.sub.key

-- `now.duration_since(at) >= RELOGIN_RECHECK_INTERVAL`, with the subtraction moved.
abbrev pub is_due : Timestamp → Option Timestamp → Bool
is_due now none = true
is_due now (some at) = leb (at + recheck_interval) now

unfoldable pub due : Timestamp → Engine → List (SubId × Sub)
due now e =
    map (λ r. (r.id, r.sub))
      (filter (λ r. is_due now r.relogin_checked_at)
        (filter (λ r. is_some r.needs_login && is_enabled e r) e.subs))

unfoldable pub targets : Engine → List (SubId × Sub)
targets e =
    map (λ r. (r.id, r.sub)) (filter (λ r. is_enabled e r && not (is_some r.needs_login)) e.subs)

abbrev pub same_moment : Option Timestamp → Option Timestamp → Bool
same_moment none none = true
same_moment (some a) (some b) = a == b
same_moment _ _ = false

-- Equality of tokens, as derived.
abbrev pub same_tokens : Tokens → Tokens → Bool
same_tokens a b =
    same_string a.access b.access
    && (same_option_text a.refresh b.refresh && same_moment a.expires_at b.expires_at)

abbrev pub checked : Timestamp → SubRecord → SubRecord
checked now r = record r { relogin_checked_at = some now }

abbrev pub recovered : Credentials → SubRecord → SubRecord
recovered c r = record r {
  sub = record r.sub { credentials = c };
  needs_login = none;
  poll_error = none;
  failing_since = none;
  relogin_checked_at = none;
}

abbrev pub recover : SubId → Credentials → Engine → Engine
recover id c e = record e {
  subs = update_record (recovered c) id e.subs;
  registry = (store_tokens id c.tokens (set_needs_login id false e.registry)).0;
}

-- One turn of the loop over what the sources hold, on the record with that id, and whether it
-- recovers the account.
abbrev pub recheck_one :
    Timestamp → SubId → Option Credentials → Engine → Option SubRecord → Engine × Bool
recheck_one now id found e none = (e, false)
recheck_one now id none e (some r) =
    (record e { subs = update_record (checked now) id e.subs }, false)
recheck_one now id (some c) e (some r) =
    let noted : Engine = record e { subs = update_record (checked now) id e.subs } in
    if same_tokens c.tokens r.sub.credentials.tokens
    then (noted, false)
    else (recover id c noted, true)

unfoldable pub recheck_all : Timestamp → List (SubId × Option Credentials) → Engine → Engine × Bool
unfolding update_record
recheck_all now [] e = (e, false)
recheck_all now ((id, c) ∷ found) e =
    let turn = recheck_one now id c e (find (λ r. r.id == id) e.subs) in
    let rest = recheck_all now found turn.0 in (rest.0, if turn.1 then true else rest.1)

-- The end of `recheck_signed_out`, once the sources of the accounts that are due have been read.
unfoldable pub rechecked : (now instant : ℕ) → List (SubId × Option Credentials) → Engine → Engine
unfolding recheck_all mark_dirty
rechecked now instant found e =
    let turn = recheck_all now found e in
    if turn.1 then mark_dirty instant (schedule_persist instant turn.0) else turn.0

-- What ensure_fresh returns; the account that it was given stands beside it.
pub data Refreshed : Type 0 where
  changed : Bool → Refreshed
  failed : (permanent : Bool) (message : String) → Refreshed

-- One turn of `refresh_tokens`: the state, and whether the account is still worth polling.
abbrev pub refresh_one : (now instant : ℕ) → SubId → Sub → Refreshed → Engine → Engine × Bool
refresh_one now instant id sub (changed true) e =
    (adopt_tokens id sub.credentials.tokens instant e, true)
refresh_one now instant id sub (changed false) e = (e, true)
refresh_one now instant id sub (failed true message) e = (mark_needs_login id message now e, false)
refresh_one now instant id sub (failed false message) e = (e, true)

abbrev pub cons_if : Bool → SubId × Sub → List (SubId × Sub) → List (SubId × Sub)
cons_if b x xs = if b then x ∷ xs else xs

unfoldable pub refresh_tokens :
    (now instant : ℕ) → List ((SubId × Sub) × Refreshed) → Engine → Engine × List (SubId × Sub)
refresh_tokens now instant [] e = (e, [])
refresh_tokens now instant ((target, outcome) ∷ results) e =
    let turn = refresh_one now instant target.0 target.1 outcome e in
    let rest = refresh_tokens now instant results turn.0 in (rest.0, cons_if turn.1 target rest.1)

abbrev pub is_rejected : Polled → Bool
is_rejected (ok usage) = false
is_rejected (err error) = is_unauthorized error

-- The targets whose poll came back 401.
unfoldable pub rejected : List (SubId × Sub) → List (SubId × Polled) → List (SubId × Sub)
rejected targets results =
    filter_map (λ r. find (λ t. t.0 == r.0) targets) (filter (λ r. is_rejected r.1) results)

-- One turn of `retry_unauthorized`: the state, and whether the account is polled again.
abbrev pub retry_one : (now instant : ℕ) → SubId → Sub → Refreshed → Engine → Engine × Bool
retry_one now instant id sub (changed true) e =
    (adopt_tokens id sub.credentials.tokens instant e, true)
retry_one now instant id sub (changed false) e = (e, false)
retry_one now instant id sub (failed true message) e = (mark_needs_login id message now e, false)
retry_one now instant id sub (failed false message) e = (e, false)

unfoldable pub refresh_rejected :
    (now instant : ℕ) → List ((SubId × Sub) × Refreshed) → Engine → Engine × List (SubId × Sub)
refresh_rejected now instant [] e = (e, [])
refresh_rejected now instant ((target, outcome) ∷ results) e =
    let turn = retry_one now instant target.0 target.1 outcome e in
    let rest = refresh_rejected now instant results turn.0 in (rest.0, cons_if turn.1 target rest.1)

-- The first result of the account, replaced.
unfoldable pub replace_result : SubId → Polled → List (SubId × Polled) → List (SubId × Polled)
replace_result id result [] = []
replace_result id result (r ∷ rs) =
    if r.0 == id then (id, result) ∷ rs else r ∷ replace_result id result rs

unfoldable pub merge_results : (again results : List (SubId × Polled)) → List (SubId × Polled)
unfolding replace_result
merge_results [] results = results
merge_results (r ∷ again) results = merge_results again (replace_result r.0 r.1 results)

-- `SignedDuration::try_from`, which holds less than 2^63 seconds.
abbrev pub signed : Option ℕ → Option ℕ
signed none = none
signed (some wait) = if ltb (wait / 10 ^ 9) (2 ^ 63) then some wait else none

abbrev pub entry_wait : Option CacheEntry → Option ℕ
entry_wait none = none
entry_wait (some entry) = signed entry.retry_in

abbrev pub record_wait : ℕ → UsageCache → Option SubRecord → Option ℕ
record_wait instant cache none = none
record_wait instant cache (some r) = entry_wait (peek r.sub.key instant cache)

unfoldable pub retry_in : SubId → ℕ → Engine → Option ℕ
retry_in id instant e = record_wait instant e.usage (find (λ r. r.id == id) e.subs)

abbrev pub poll_failed : Timestamp → String → SubRecord → SubRecord
poll_failed now message r = record r {
  poll_error = some message;
  failing_since = some (unwrap_or now r.failing_since);
}

module _ (describe : Error → Option ℕ → String) where
  -- One turn of the loop over the results; the router reads `clock`.
  unfoldable pub record_result : (now instant clock : ℕ) → SubId × Polled → Engine → Engine
  unfolding retry_in update_record
  record_result now instant clock (id, ok usage) e = record_usage id usage now clock e
  record_result now instant clock (id, err error) e = record e {
    subs = update_record (poll_failed now (describe error (retry_in id instant e))) id e.subs;
  }

  unfoldable pub record_results :
      (now : ℕ) (clocks : SubId → ℕ × ℕ) → List (SubId × Polled) → Engine → Engine
  unfolding record_result
  record_results now clocks [] e = e
  record_results now clocks (r ∷ results) e =
      record_results now clocks results (record_result now (clocks r.0).0 (clocks r.0).1 r e)

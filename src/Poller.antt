-- ===== src/Poller.antt =====
-- crates/libsubby/src/usage/mod.rs: the cache of usage reports and its backoff.
--
-- A `SubKey` is a number, since the code only compares keys. Durations and instants are nanoseconds.
-- What the provider answers to a fetch, and the two readings of the clock of a poll, are arguments.
pub mod Backoff
pub mod Freshness
mod Samples
use Prim.Native.Nat.{Ordering}
use Prim.Native.String.{compare}
use subbier.Base.{
  ℕ, ◌+◌, ◌-◌, ◌*◌, ◌^◌, min, Bool, true, false, Option, none, some, String, List, [], ◌∷◌, ltb,
  ◌==◌, if◌then◌else◌, get_elem?, unwrap_or, filter_some,
}
use subbier.Base.OrdMap.{OrdMap, lookup, insert, remove}
use subbier.Model.{Usage}

abbrev pub SubKey : Type 0
SubKey = ℕ

abbrev pub seconds : ℕ → ℕ
seconds n = n * 10 ^ 9

abbrev pub same_text : String → String → Bool
same_text a b = elim (compare a b) [ Ordering.eq ↦ true | _ ↦ false ]

-- error.rs. `foreign` is every variant that usage/mod.rs does not tell apart, by its `to_string`;
-- an HTTP error also knows whether it is a timeout.
pub data Error : Type 0 where
  upstream : (status : ℕ) (message : String) (retry_after : Option ℕ) → Error
  http : (is_timeout : Bool) (text : String) → Error
  other : String → Error
  foreign : String → Error

-- Only read for errors that are not `upstream`.
abbrev pub to_string : Error → String
to_string (upstream status message retry_after) = message
to_string (http is_timeout text) = text
to_string (other text) = text
to_string (foreign text) = text

abbrev pub deadline_message : String
deadline_message = "usage fetch exceeded the round-level deadline"

abbrev pub deadline_exceeded : Error
deadline_exceeded = other deadline_message

unfoldable pub is_deadline_exceeded : Error → Bool
is_deadline_exceeded (other text) = same_text text deadline_message
is_deadline_exceeded (http is_timeout text) = is_timeout
is_deadline_exceeded (upstream status message retry_after) = false
is_deadline_exceeded (foreign text) = false

unfoldable pub is_unauthorized : Error → Bool
is_unauthorized (upstream status message retry_after) = status == 401
is_unauthorized (http is_timeout text) = false
is_unauthorized (other text) = false
is_unauthorized (foreign text) = false

pub data Polled : Type 0 where
  ok : Usage → Polled
  err : Error → Polled

pub data CachedError : Type 0 where
  cached_upstream : (status : ℕ) (message : String) (retry_after : Option ℕ) → CachedError
  deadline : CachedError
  cached_other : String → CachedError

-- The arms of `CachedError::capture` after the first.
abbrev pub capture_text : Error → CachedError
capture_text e = if is_deadline_exceeded e then deadline else cached_other (to_string e)

unfoldable pub capture : Error → CachedError
capture (upstream status message retry_after) = cached_upstream status message retry_after
capture (http is_timeout text) = capture_text (http is_timeout text)
capture (other text) = capture_text (other text)
capture (foreign text) = capture_text (foreign text)

unfoldable pub into_error : CachedError → Error
into_error (cached_upstream status message retry_after) = upstream status message retry_after
into_error deadline = deadline_exceeded
into_error (cached_other text) = other text

unfoldable pub is_rate_limited : CachedError → Bool
is_rate_limited (cached_upstream status message retry_after) = status == 429
is_rate_limited deadline = false
is_rate_limited (cached_other text) = false

unfoldable pub retry_after : CachedError → Option ℕ
retry_after (cached_upstream status message after) = after
retry_after deadline = none
retry_after (cached_other text) = none

abbrev pub ttl_ok : ℕ
ttl_ok = seconds 60

abbrev pub backoff_rungs : List ℕ
backoff_rungs = seconds 30 ∷ seconds 60 ∷ seconds 120 ∷ seconds 300 ∷ seconds 900 ∷ []

-- `BACKOFF[rung.min(BACKOFF.len() - 1)]`; the index is at most 4, so the default is never read.
abbrev pub rung_wait : ℕ → ℕ
rung_wait rung = unwrap_or 0 (get_elem? backoff_rungs (min rung 4))

unfoldable pub backoff : ℕ → CachedError → ℕ
backoff failures error =
    let rung = failures - 1 + (if is_rate_limited error then 1 else 0) in
    let computed = rung_wait rung in
    unwrap_or computed (filter_some (λ floor. ltb computed floor) (retry_after error))

pub data Kept : Type 0 where
  kept_ok : Usage → Kept
  kept_err : CachedError → Kept

pub record Entry : Type 0 where
  pub fetched_at : ℕ
  pub result : Kept
  pub failures : ℕ
  pub ttl : ℕ

unfoldable pub entry_ok : Usage → ℕ → Entry
entry_ok usage now = record { fetched_at = now; result = kept_ok usage; failures = 0; ttl = ttl_ok }

-- `u32::saturating_add(1)`.
abbrev pub next_failures : ℕ → ℕ
next_failures previous = min (previous + 1) (2 ^ 32 - 1)

unfoldable pub entry_failed : CachedError → ℕ → ℕ → Entry
entry_failed error previous now = record {
  fetched_at = now;
  result = kept_err error;
  failures = next_failures previous;
  ttl = backoff (next_failures previous) error;
}

abbrev pub give_back : Kept → Polled
give_back (kept_ok usage) = ok usage
give_back (kept_err error) = err (into_error error)

abbrev pub UsageCache : Type 0
UsageCache = OrdMap Entry

-- `fresh`, on what the map holds.
abbrev pub fresh_entry : ℕ → Option Entry → Option Polled
fresh_entry now none = none
fresh_entry now (some e) =
    if ltb (now - e.fetched_at) e.ttl then some (give_back e.result) else none

unfoldable pub fresh : SubKey → ℕ → UsageCache → Option Polled
fresh key now cache = fresh_entry now (lookup key cache)

abbrev pub failures_of : Option Entry → ℕ
failures_of none = 0
failures_of (some e) = e.failures

abbrev pub entry_for : Polled → ℕ → ℕ → Entry
entry_for (ok usage) previous now = entry_ok usage now
entry_for (err error) previous now = entry_failed (capture error) previous now

unfoldable pub store : SubKey → Polled → ℕ → UsageCache → UsageCache
store key result now cache =
    insert key (entry_for result (failures_of (lookup key cache)) now) cache

unfoldable pub observe : SubKey → Usage → ℕ → UsageCache → UsageCache
observe key usage now cache = insert key (entry_ok usage now) cache

unfoldable pub invalidate : SubKey → UsageCache → UsageCache
invalidate key cache = remove key cache

pub record CacheEntry : Type 0 where
  pub retry_in : Option ℕ
  pub usage : Polled

abbrev pub peek_entry : ℕ → Option Entry → Option CacheEntry
peek_entry now none = none
peek_entry now (some e) = some (record {
  retry_in = elim e.result [ kept_ok u ↦ none | kept_err x ↦ some (e.ttl - (now - e.fetched_at)) ];
  usage = give_back e.result;
})

unfoldable pub peek : SubKey → ℕ → UsageCache → Option CacheEntry
peek key now cache = peek_entry now (lookup key cache)

-- What `get` comes to on a hit or a miss. `done` is the clock when the fetch has returned.
abbrev pub got :
    SubKey → (done : ℕ) (fetched : Polled) → UsageCache → Option Polled → UsageCache × Polled
got key done fetched cache (some hit) = (cache, hit)
got key done fetched cache none = (store key fetched done cache, fetched)

unfoldable pub get :
    SubKey → Bool → (now done : ℕ) (fetched : Polled) → UsageCache → UsageCache × Polled
unfolding fresh store
get key force now done fetched cache =
    got key done fetched cache (if force then none else fresh key now cache)

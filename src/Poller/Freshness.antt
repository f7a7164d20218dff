-- ===== src/Poller/Freshness.antt =====
-- For how long the cache answers in place of a fetch, and with what.
use subbier.Base.{
  ℕ, ◌≤◌, ◌≡◌, ◌-◌, ◌+◌, ◌^◌, min, refl, false, none, some, arith, ltb, ◌==◌, if◌then◌else◌, List,
  [], ◌∷◌, length,
}
use subbier.Base.OrdMap.{lookup, lookup-insert}
use subbier.Model.{Usage}
use subbier.Poller.{
  get, SubKey, Error, upstream, http, other, foreign, Polled, ok, err, capture, into_error,
  is_deadline_exceeded, is_unauthorized, deadline_message, same_text, to_string, entry_ok,
  entry_failed, entry_for, failures_of, backoff, next_failures, ttl_ok, UsageCache, fresh, store,
}

-- What a result reads like after a stay in the cache.
abbrev pub settled : Polled → Polled
settled (ok usage) = ok usage
settled (err error) = err (into_error (capture error))

-- How long a result stays fresh, given the failures before it.
abbrev pub stay : Polled → ℕ → ℕ
stay (ok usage) previous = ttl_ok
stay (err error) previous = backoff (next_failures previous) (capture error)

-- A stored result answers for its key, in place of a fetch, for as long as it stays fresh: a minute
-- after a success, and the backoff of one more failure than before after an error. From then on
-- nothing answers, and what answers for every other key is what answered before.
store-fresh :
    (key other_key : SubKey) (result : Polled) (done at : ℕ) (cache : UsageCache)
    → fresh other_key at (store key result done cache) ≡ (
        if key == other_key
        then (if ltb (at - done) (stay result (failures_of (lookup key cache)))
            then some (settled result)
            else none)
        else fresh other_key at cache)
unfolding fresh store entry_ok entry_failed
store-fresh key other_key (ok usage) done at cache =
    rw
      (lookup-insert key other_key (entry_for (ok usage) (failures_of (lookup key cache)) done)
        cache)
      (ground arith)
store-fresh key other_key (err error) done at cache =
    rw
      (lookup-insert key other_key (entry_for (err error) (failures_of (lookup key cache)) done)
        cache)
      (ground arith)

-- The number of failures in a row that the cache has on record for a key.
pub failures_on_record : SubKey → UsageCache → ℕ
failures_on_record key cache = failures_of (lookup key cache)

pub fail_all : SubKey → List (Error × ℕ) → UsageCache → UsageCache
fail_all key [] cache = cache
fail_all key ((e, done) ∷ es) cache = fail_all key es (store key (err e) done cache)

store-failures :
    (key : SubKey) (result : Polled) (done : ℕ) (cache : UsageCache)
    → failures_of (lookup key (store key result done cache))
      ≡ (entry_for result (failures_of (lookup key cache)) done).failures
unfolding store
store-failures key result done cache =
    rw (lookup-insert key key (entry_for result (failures_of (lookup key cache)) done) cache)
      (ground arith)

fail_all_from :
    (key : SubKey) (es : List (Error × ℕ)) (cache : UsageCache)
    → failures_on_record key cache ≤ 2 ^ 32 - 1
    → failures_on_record key (fail_all key es cache)
      ≡ min (failures_on_record key cache + length es) (2 ^ 32 - 1)
unfolding fail_all failures_on_record entry_failed
fail_all_from key [] cache h = omega arith
fail_all_from key ((e, done) ∷ es) cache h =
    let one = store-failures key (err e) done cache in
    omega (arith, one, fail_all_from key es (store key (err e) done cache) (omega (arith, one)))

-- After a success, as many failures in a row as there are errors stored, up to the bound of a `u32`,
-- are on record; the success itself clears the record.
pub fail_all-failures :
    (key : SubKey) (usage : Usage) (started : ℕ) (es : List (Error × ℕ)) (cache : UsageCache)
    → failures_on_record key (fail_all key es (store key (ok usage) started cache))
      ≡ min (length es) (2 ^ 32 - 1)
unfolding failures_on_record entry_ok
fail_all-failures key usage started es cache =
    let none_yet = store-failures key (ok usage) started cache in
    omega (
      arith,
      none_yet,
      fail_all_from key es (store key (ok usage) started cache) (omega (arith, none_yet)),
    )

-- Callers read an error that comes out of the cache as they read the one that went in: as a missed
-- deadline or not, and as a 401 or not. The text of an error that is not a missed deadline must not
-- be the text of one.
pub into_error-capture :
    (e : Error)
    → (is_deadline_exceeded e ≡ false → same_text (to_string e) deadline_message ≡ false)
    → (is_deadline_exceeded (into_error (capture e)) ≡ is_deadline_exceeded e)
      × (is_unauthorized (into_error (capture e)) ≡ is_unauthorized e)
unfolding capture into_error is_deadline_exceeded is_unauthorized
into_error-capture (upstream status message after) h = (refl, refl)
into_error-capture (http timeout text) h = ground arith
into_error-capture (other text) h = ground arith
into_error-capture (foreign text) h = ground arith

-- After any result has been stored, an unforced `get` of that key gives the result back, without a
-- fetch and without a change to the cache, for as long as it stays fresh, which is a minute after a
-- success and the backoff of one more failure than before after an error; from then on it gives
-- what its fetch brings, and stores it.
pub get-store :
    (key : SubKey) (result : Polled) (done : ℕ) (cache : UsageCache) (now back : ℕ)
    (fetched : Polled)
    → get key false now back fetched (store key result done cache) ≡ (
        if ltb (now - done) (stay result (failures_of (lookup key cache)))
        then (store key result done cache, settled result)
        else (store key fetched back (store key result done cache), fetched))
unfolding get
get-store key result done cache now back fetched =
    rw (store-fresh key key result done now cache) (ground arith)

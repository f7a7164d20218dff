-- ===== src/Engine/Failures.antt =====
-- A run of failed polls of one account, for poll_round and health_of of engine.rs.
use subbier.Base.{
  ℕ, Bool, ◌≡◌, ◌∙◌, refl, ap, sym, subst, Option, none, some, List, [], ◌∷◌, String, ◌==◌, find,
  unwrap_or,
}
use subbier.Model.{SubId, Timestamp, Usage}
use subbier.Balance.Router.{State, exhausted_until}
use subbier.Poller.{SubKey, Error, Polled, err, UsageCache, peek, get}
use subbier.Engine.{SubRecord, Engine, SubHealth, update_record, health_of}
use subbier.Engine.Health.{health, health_found, find-update_record, find-id}
use subbier.Engine.Polling.{poll_failed, entry_wait, record_wait, retry_in, record_result}

-- A failed poll: whether it was forced, the readings of the cache's clock when it was asked, when a
-- fetch had returned and when it was recorded, what a fetch answers, the error that came of it, from
-- the cache or the fetch, and the time at which it was recorded.
pub record Failed : Type 0 where
  pub force : Bool
  pub asked : ℕ
  pub done : ℕ
  pub instant : ℕ
  pub fetched : Polled
  pub error : Error
  pub now : Timestamp

abbrev pub poll : SubKey → Failed → UsageCache → UsageCache × Polled
poll key x cache = get key x.force x.asked x.done x.fetched cache

-- Each of them fails, one after the other.
abbrev pub Fail : SubKey → UsageCache → List Failed → Type 0
Fail key cache [] = Unit
Fail key cache (x ∷ xs) = ((poll key x cache).1 ≡ err x.error) × Fail key (poll key x cache).0 xs

module _ (describe : Error → Option ℕ → String) (id : SubId) (key : SubKey) where
  -- The polls of the account, one after the other: the cache's `get`, then the engine's record of it.
  unfoldable pub fail_all : List Failed → Engine → Engine
  unfolding record_result
  fail_all [] e = e
  fail_all (x ∷ xs) e =
      let polled = poll key x e.usage in
      fail_all xs
        (record_result describe x.now x.instant 0 (id, polled.1) (record e { usage = polled.0 }))

  -- The message of a poll that has left this cache.
  abbrev message : UsageCache → Failed → String
  message cache x = describe x.error (entry_wait (peek key x.instant cache))

  -- The record after them.
  abbrev failed_record : UsageCache → SubRecord → List Failed → SubRecord
  failed_record cache r [] = r
  failed_record cache r (x ∷ xs) =
      let after = (poll key x cache).0 in
      failed_record after (poll_failed x.now (message after x) r) xs

  abbrev noted : UsageCache → Failed → String → Engine → Engine
  noted cache x m e = record e {
    subs = update_record (poll_failed x.now m) id e.subs;
    usage = cache;
  }

  fail_all-record :
      (xs : List Failed) (e : Engine) (r : SubRecord)
      → find (λ r. r.id == id) e.subs ≡ some r
      → r.sub.key ≡ key
      → Fail key e.usage xs
      → (find (λ r. r.id == id) (fail_all xs e).subs ≡ some (failed_record e.usage r xs))
        × ((fail_all xs e).router ≡ e.router)
  unfolding fail_all record_result retry_in
  fail_all-record [] e r h k f = (h, refl)
  fail_all-record (x ∷ xs) e r h k f =
      let after = (poll key x e.usage).0 in
      let m : String = message after x in
      let q : m ≡ describe x.error (record_wait x.instant after (find (λ r. r.id == id) e.subs)) =
        sym (
          ap (λ o. describe x.error (record_wait x.instant after o)) h
          ∙ ap (λ j. describe x.error (entry_wait (peek j x.instant after))) k) in
      let recorded : Polled → Engine = λ y.
        fail_all xs
          (record_result describe x.now x.instant 0 (id, y) (record e { usage = after })) in
      subst
        (λ y.
          (find (λ r. r.id == id) (recorded y).subs ≡ some (failed_record e.usage r (x ∷ xs)))
          × ((recorded y).router ≡ e.router))
        (sym f.0)
        (subst
          (λ m'.
            (find (λ r. r.id == id) (fail_all xs (noted after x m' e)).subs
              ≡ some (failed_record after (poll_failed x.now m r) xs))
            × ((fail_all xs (noted after x m' e)).router ≡ e.router))
          q
          (fail_all-record xs (noted after x m e) (poll_failed x.now m r)
            (find-update_record (poll_failed x.now m) id e.subs r (λ x. refl) h) k f.1))

  -- The message of the last one, with the wait of the cache that it leaves.
  abbrev pub last_message : UsageCache → Failed → List Failed → String
  last_message cache x [] = message (poll key x cache).0 x
  last_message cache x (y ∷ ys) = last_message (poll key x cache).0 y ys

  failed_record-last :
      (cache : UsageCache) (r : SubRecord) (x : Failed) (xs : List Failed)
      → failed_record cache r (x ∷ xs) ≡ record r {
        poll_error = some (last_message cache x xs);
        failing_since = some (unwrap_or x.now r.failing_since);
      }
  failed_record-last cache r x [] = refl
  failed_record-last cache r x (y ∷ ys) =
      let after = (poll key x cache).0 in
      failed_record-last after (poll_failed x.now (message after x) r) y ys

  stale-health :
      (r : SubRecord) (u : Usage) (since at : Timestamp) (error : String) (s : State)
      → r.needs_login ≡ none
      → r.usage ≡ some u
      → r.failing_since ≡ some since
      → r.poll_error ≡ some error
      → (exhausted_until r.id at s).1 ≡ none
      → (health_of r at s).1 ≡ SubHealth.stale since error
  unfolding health_of
  stale-health r u since at error s n k f p q = rw (n, q, p, f, k) refl

  -- After one or more polls in a row that failed, from the cache or from a fetch, each of which leaves
  -- its failure in the cache, an account that was polled with success before, that needs no sign-in
  -- and that is not quarantined is stale: since the first of them, or since the polls failed if they
  -- did so before, and with the message of the last one, which names the wait that the cache then has.
  pub fail_all-stale :
      (x : Failed) (xs : List Failed) (e : Engine) (r : SubRecord) (u : Usage) (at : Timestamp)
      → find (λ r. r.id == id) e.subs ≡ some r
      → r.sub.key ≡ key
      → Fail key e.usage (x ∷ xs)
      → r.needs_login ≡ none
      → r.usage ≡ some u
      → (exhausted_until id at e.router).1 ≡ none
      → health id at (fail_all (x ∷ xs) e)
        ≡ some (SubHealth.stale (unwrap_or x.now r.failing_since) (last_message e.usage x xs))
  fail_all-stale x xs e r u at h c f n k q =
      let w = fail_all-record (x ∷ xs) e r h c f in
      let i = find-id id e.subs r h in
      let z : SubRecord = record r {
        poll_error = some (last_message e.usage x xs);
        failing_since = some (unwrap_or x.now r.failing_since);
      } in
      let y : (exhausted_until z.id at e.router).1 ≡ none = rw i q in
      ap (λ s. health_found at s (find (λ r. r.id == id) (fail_all (x ∷ xs) e).subs)) w.1
      ∙ (ap (health_found at e.router) (w.0 ∙ ap some (failed_record-last e.usage r x xs))
          ∙ ap some (
              stale-health z u (unwrap_or x.now r.failing_since) at (last_message e.usage x xs)
                e.router n k refl refl y))

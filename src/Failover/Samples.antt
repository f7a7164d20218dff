-- ===== src/Failover/Samples.antt =====
-- A provider that refuses the first account and serves the second, for the theorems on failover.
use subbier.Base.{
  ℕ, suc, ◌+◌, ◌≤◌, refl, length, false, true, none, some, List, [], ◌∷◌, map, codes, if◌then◌else◌,
  ◌==◌,
}
use subbier.Model.{SubId, codex, claude}
use subbier.Balance.Router.{SubStatus, default_settings, new}
use subbier.Balance.Router.Invariant.{new-IsValid}
use subbier.Failover.{
  Reply, replied, unchanged, Outside, Prepared, claude_request, World, attempt, select_next,
  forward_with_failover,
}
use subbier.Failover.Attempts.{Attempted, attempt-Attempted}
use subbier.Failover.Requests.{
  allowed, Answered, forward_with_failover-Answered, forward_with_failover-attempts,
}

abbrev account : SubId → SubStatus
account n = record {
  sub = n;
  provider = claude;
  enabled = true;
  needs_login = false;
  proxied_in_flight = 0;
  proxied_requests_total = 0;
  session_pct = none;
  weekly_pct = none;
}

abbrev reply : ℕ → List ℕ → Reply
reply status text = record {
  status = status;
  text = text;
  observed = none;
  dies = false;
  completes = true;
}

-- The outside counts what happens to it, and that is its clock.
abbrev provider : Outside ℕ
provider = record {
  sight = λ o. record {
    statuses = account 1 ∷ account 2 ∷ [];
    scorer = λ subs deadline. map (λ s. none) subs;
    meanwhile = λ s. s;
    now = o;
    later = suc o;
  };
  pass_select = λ o. o + 2;
  token_in_registry = λ id o. some id;
  refresh_token = λ id token force o. (o, unchanged token);
  persist_tokens = λ id token o. o;
  send = λ id token o.
      (suc o, replied (if id == 1 then reply 429 (codes "usage limit") else reply 200 []));
  usage_for_exhaustion = λ id o. (suc o, none);
  clock = λ o. (suc o, o);
  store_observed = λ id usage o. suc o;
  place = λ id o. o;
}

abbrev start : World ℕ
start = record { router = new default_settings; has_error = false; spans = []; outside = 7 }

-- A Codex request with a cache key that no account has been given.
abbrev keyed : Prepared
keyed = record {
  provider = codex;
  client_stream = false;
  has_key = true;
  hints = record { chain = none; key = none };
}

attempt-Attempted_example : Attempted 1 [] (attempt provider (claude_request true) 1 1 start)
attempt-Attempted_example =
    attempt-Attempted provider (claude_request true) 1 [] 1 start
      (new-IsValid default_settings, refl)

forward_with_failover-Answered_example : Answered (forward_with_failover provider keyed none start)
forward_with_failover-Answered_example =
    forward_with_failover-Answered provider keyed none start (λ o s v. v)
      (new-IsValid default_settings)

forward_with_failover-attempts_example :
    length (forward_with_failover provider (claude_request true) none start).0.spans
    ≤ 0 + allowed (select_next provider (claude_request true) none start).1
forward_with_failover-attempts_example =
    forward_with_failover-attempts provider (claude_request true) none start (λ o s v. v)
      (new-IsValid default_settings)

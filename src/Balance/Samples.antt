-- ===== src/Balance/Samples.antt =====
-- Three accounts, a router and a few requests, for the theorems on balance/.
use subbier.Base.{ℕ, ◌≡◌, refl, true, false, Option, none, some, List, [], ◌∷◌, arith, codes, map}
use subbier.Base.OrdMap.{lookup, insert, retain}
use subbier.Model.{
  SubId, Timestamp, points, codex, default_sticky, UsageWindow, Usage, lowest_usage, highest_usage,
  least_connections,
}
use subbier.Balance.Failure.{Attempt, usage_limit, new_attempt}
use subbier.Balance.Failure.Markers.{Occurs}
use subbier.Balance.Exhaustion.{exhaust_until}
use subbier.Balance.Exhaustion.Ends.{IsEnd, exhaust_until-IsEnd}
use subbier.Balance.Strategy.{
  Candidate, StrategyState, pick, pick_round_robin, by_lowest_usage, pick_min_by, min_from,
  known_first, candidate_pct,
}
use subbier.Balance.Strategy.Ranking.{
  Preferred, PrefersLow, PrefersHigh, PrefersIdle, pick-Preferred,
}
use subbier.Balance.Strategy.RoundRobin.Cycle.{Visits, round_robin_cycle}
use subbier.Balance.Router.{
  admits, has_ceiling, usable, usable, proxies, is_sticky, SubStatus, PoolGate, default_settings,
  State, new, sweep, exhaust, eligible_in,
}
use subbier.Balance.Selection.{Hints, Selection, ok}
use subbier.Balance.Ladder.{in_pool, live_subs, select_locked, ladder}
use subbier.Balance.Selection.{err, pool_empty}
use subbier.Balance.Ladder.Live.{eligible, ids_of, eligible_in-live_subs}
use subbier.Balance.Ladder.Wishes.{Grants, wishes}
use subbier.Balance.Select.{select_in}
use subbier.Balance.Select.Sound.{Outcome, select_in-wish}
use subbier.Balance.History.{
  run, apply, pins, exhausts, selects, fails, clears_current, current-not_quarantined,
  select_in-history,
}

abbrev account : SubId → SubStatus
account n = record {
  sub = n;
  provider = codex;
  enabled = true;
  needs_login = false;
  proxied_in_flight = 0;
  proxied_requests_total = n;
  session_pct = none;
  weekly_pct = some (points 40);
}

abbrev accounts : List SubStatus
accounts = account 1 ∷ account 2 ∷ account 3 ∷ []

abbrev window : ℕ → Timestamp → UsageWindow
window n resets_at = record { pct = points n; resets_at = some resets_at; started_at = none }

-- The session is full until 900, and the week at half until 2000.
abbrev used_up : Usage
used_up = record {
  plan = none;
  session = some (window 100 900);
  weekly = some (window 50 2000);
  scoped = [];
  limit_reached = some true;
}

abbrev no_hints : Hints
no_hints = record { chain = none; key = none }

abbrev hinted : Hints
hinted = record { chain = some 1; key = some 3 }

abbrev team : PoolGate
team = record {
  name = "team";
  members = some (1 ∷ 2 ∷ []);
  max_session_pct = points 100;
  max_weekly_pct = points 80;
}

abbrev fresh : State
fresh = new default_settings

-- The first account is quarantined until 900.
abbrev tired : State
tired = (exhaust 1 (some used_up) 100 fresh).0

abbrev candidates : List Candidate
candidates =
    record {
      sub = 7;
      usage_pct = some (points 30);
      proxied_in_flight = 2;
      proxied_requests_total = 9;
    }
    ∷ record { sub = 4; usage_pct = none; proxied_in_flight = 0; proxied_requests_total = 5 }
    ∷ []

abbrev head_candidate : Candidate
head_candidate = record {
  sub = 9;
  usage_pct = some (points 100);
  proxied_in_flight = 0;
  proxied_requests_total = 6;
}

abbrev after_nine : StrategyState
after_nine = record { last_picked = some 9 }

pick-lowest : (pick lowest_usage (head_candidate ∷ candidates) after_nine).0 ≡ 1
unfolding pick by_lowest_usage pick_min_by min_from known_first candidate_pct
pick-lowest = refl

-- The tests and the witnesses.
limited : Attempt
unfolding new_attempt
limited = new_attempt 429 (codes "{\"error\":\"Usage Limit\"}")

contains_limit : Occurs (codes "usage limit") (codes "a USAGE limit was hit")
contains_limit = record {
  before = codes "a ";
  found = codes "USAGE limit";
  after = codes " was hit";
  splits = refl;
  equal = refl;
}

exhaust_until-IsEnd_example : IsEnd 100 (some used_up) (exhaust_until 100 (some used_up))
exhaust_until-IsEnd_example = exhaust_until-IsEnd 100 (some used_up)

until_session_reset : exhaust_until 100 (some used_up) ≡ 900
unfolding exhaust_until
until_session_reset = refl

pick-Preferred_example :
    Preferred PrefersLow
      (head_candidate ∷ candidates)
      (pick lowest_usage (head_candidate ∷ candidates) after_nine).0
    × Preferred PrefersHigh
        (head_candidate ∷ candidates)
        (pick highest_usage (head_candidate ∷ candidates) after_nine).0
    × Preferred PrefersIdle
        (head_candidate ∷ candidates)
        (pick least_connections (head_candidate ∷ candidates) after_nine).0
    × ((pick lowest_usage (head_candidate ∷ candidates) after_nine).1 ≡ after_nine)
    × ((pick highest_usage (head_candidate ∷ candidates) after_nine).1 ≡ after_nine)
    × ((pick least_connections (head_candidate ∷ candidates) after_nine).1 ≡ after_nine)
pick-Preferred_example = pick-Preferred head_candidate candidates after_nine

round_robin_wraps :
    (pick_round_robin (head_candidate ∷ candidates) after_nine).1.last_picked ≡ some 4
unfolding pick_round_robin
round_robin_wraps = refl

round_robin_cycle_example : Visits head_candidate candidates after_nine
round_robin_cycle_example =
    round_robin_cycle head_candidate candidates after_nine
      ((omega arith, (omega arith, tt)), ((omega arith, tt), (tt, tt)))

-- A pool whose limits are 100 percent does not admit an account at 100 percent, and says that it has
-- no usable one.
abbrev open_team : PoolGate
open_team = record team {
  max_session_pct = points 100;
  max_weekly_pct = points 100;
  members = none;
}

a_full_member_is_no_ceiling :
    live_subs fresh codex
      ((record (account 1) { session_pct = some (points 100) }) ∷ [])
      (some open_team)
    ≡ err (pool_empty open_team.name false)
unfolding live_subs usable admits has_ceiling proxies new
a_full_member_is_no_ceiling = refl

eligible_in-live_subs_example :
    (eligible_in codex accounts (some team) 500 tired).1
    ≡ ids_of (live_subs (sweep 500 tired) codex accounts (some team))
eligible_in-live_subs_example = eligible_in-live_subs codex accounts (some team) 500 tired

abbrev quiet : List SubId → ℕ → List (Option Usage)
quiet subs deadline = map (λ s. none) subs

select_in-wish_example :
    (after : State) × (sel : Selection) × (select_in quiet
        (run (clears_current codex ∷ []))
        codex
        accounts
        hinted
        none
        500
        600
        tired
      ≡ (after, some (ok sel)))
    × Grants (sweep 500 tired) codex (eligible (sweep 500 tired) codex none accounts) 3 after sel
unfolding exhaust proxies new sweep wishes usable is_sticky default_sticky lookup insert retain
    exhaust_until
select_in-wish_example =
    select_in-wish quiet (run (clears_current codex ∷ [])) codex accounts hinted none 500 600 tired
      3 refl refl

select_in-history_example :
    Outcome
      (sweep 500 (run (pins (some 1) ∷ exhausts 1 (some used_up) 100 ∷ []) (new default_settings)))
      codex
      accounts
      (some team)
      (select_in quiet
        (run (fails 2 usage_limit none 550 ∷ []))
        codex
        accounts
        no_hints
        (some team)
        500
        600
        (run (pins (some 1) ∷ exhausts 1 (some used_up) 100 ∷ []) (new default_settings)))
select_in-history_example =
    select_in-history default_settings (pins (some 1) ∷ exhausts 1 (some used_up) 100 ∷ [])
      (fails 2 usage_limit none 550 ∷ []) quiet codex accounts no_hints (some team) 500 600

current-not_quarantined_example :
    lookup 2
      (run
        (selects codex (account 2 ∷ []) (record { chain = some 2; key = none }) none 100 ∷ [])
        (new default_settings)).exhausted
    ≡ none
unfolding run apply new select_locked sweep ladder live_subs usable proxies in_pool retain lookup
current-not_quarantined_example =
    current-not_quarantined default_settings
      (selects codex (account 2 ∷ []) (record { chain = some 2; key = none }) none 100 ∷ []) codex 2
      refl

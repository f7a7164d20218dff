-- ===== src/Registry/Samples.antt =====
-- Two accounts, a pool with one of them and a stored conversation, for the theorems on the registry.
use subbier.Base.{
  ℕ, Bool, ◌^◌, ◌≡◌, refl, true, false, none, some, Option, List, [], ◌∷◌, codes, ◌==◌, ◌*◌,
  if◌then◌else◌,
}
use subbier.Base.OrdMap.{lookup, retain}
use subbier.Model.{SubId, codex, Usage, points}
use subbier.Balance.Ladder.{live_subs, ladder}
use subbier.Balance.Router.{
  contains, admits, State, default_settings, new, PoolGate, sweep, pin, proxies, usable,
}
use subbier.Balance.Router.Invariant.{new-IsValid, pin-IsValid}
use subbier.Balance.Selection.{Hints, Selection, pinned}
use subbier.Balance.Select.{select_in}
use subbier.Transcripts.{
  Row, Store, Chain, default_limits, chain, walk, assemble, is_whole, items_of,
}
use subbier.Registry.{
  SubEntry, SubRegistry, PoolConfig, Reads, statuses, get, id_of, sub_key, key_account, pool_gate,
}
use subbier.Registry.Entries.{Operation, upserts, removes, enables, run, run_map, run-run_map}
use subbier.Registry.Pools.{IsMember, pool_gate-select_in}
use subbier.Registry.Conversations.{hinted, prepare_hints, FollowsTo, prepare_hints-select_in}

abbrev key : ℕ → List ℕ
key n = sub_key codex (if n == 4 then codes "acct-a" else codes "acct:b")

abbrev account : SubId → ℕ → SubEntry
account id stored = record {
  id = id;
  key = stored;
  provider = codex;
  label = codes "Work";
  email = none;
  tokens = record { access = "t"; refresh = none; expires_at = none };
  enabled = true;
  needs_login = false;
}

abbrev accounts : SubRegistry
accounts = account 1 4 ∷ account 2 5 ∷ []

abbrev changes : List Operation
changes = enables 2 false ∷ removes 1 ∷ upserts (account 3 6) ∷ []

run-run_map_example : get 3 (run changes accounts) ≡ run_map changes (λ j. get j accounts) 3
run-run_map_example = run-run_map changes accounts 3

abbrev reads : Reads
reads = record {
  proxied_in_flight = λ id. 0;
  proxied_requests_total = λ id. 0;
  last_session_pct = λ key. none;
  last_weekly_pct = λ key. none;
}

abbrev is_space : ℕ → Bool
is_space c = c == 32

abbrev whole : ℕ → ℕ
whole u = u * 100

-- The pool of the account that is stored as 5, by its bare account id.
abbrev pools : List PoolConfig
pools =
    record {
      name = "Team";
      provider = none;
      subs = record { provider = none; id = codes " ACCT:B" } ∷ [];
      max_sub_session_utilization = 2 ^ 149;
      max_sub_weekly_utilization = 2 ^ 149;
    }
    ∷ []

abbrev team : PoolGate
team = record {
  name = "Team";
  members = some (2 ∷ []);
  max_session_pct = points 100;
  max_weekly_pct = points 100;
}

abbrev quiet : List SubId → ℕ → List (Option Usage)
quiet subs deadline = []

abbrev no_hints : Hints
no_hints = record { chain = none; key = none }

abbrev router : State
router = pin (some 2) (new default_settings)

abbrev held : State
held = record router { current = record { codex = some 2; claude = none } }

abbrev selection : Selection
selection = record { sub = 2; reason = pinned; candidates = 1 }

pool_gate-select_in_example : IsMember is_space key whole "team" pools accounts 2
unfolding pool_gate select_in statuses sub_key key_account live_subs proxies sweep pin new usable
    contains admits lookup retain ladder
pool_gate-select_in_example =
    pool_gate-select_in is_space key whole "team" pools accounts team quiet (λ s. s) codex reads
      accounts no_hints 500 600 router held selection
      (pin-IsValid (some 2) (new-IsValid default_settings)) (λ s v. v) refl refl

abbrev row : Row
row = record {
  parent = none;
  sub = 5;
  input = 10 ∷ [];
  output = 11 ∷ [];
  bytes = 40;
  touched_at = 3;
  rowid = 1;
}

-- One turn, which the account stored as 5 has served.
abbrev talk : Store
talk = record { rows = (9, row) ∷ []; placements = []; bytes = 40 }

abbrev read_back : Chain
read_back = record { items = 10 ∷ 11 ∷ []; sub = 5 }

prepare_hints-select_in_example :
    (hints : Hints) × ((prepare_hints default_limits 5 (some 9) none accounts talk).1
      ≡ hinted hints)
    × FollowsTo 2 (
        select_in quiet
          (λ s. s)
          codex
          (statuses codex reads accounts)
          hints
          none
          500
          600
          (new default_settings))
unfolding chain walk assemble is_whole items_of lookup id_of new proxies statuses usable sweep
    retain
prepare_hints-select_in_example =
    prepare_hints-select_in default_limits accounts quiet (λ s. s) reads none 500 600
      (new default_settings) 5 9 none talk read_back 2 refl refl refl refl refl refl

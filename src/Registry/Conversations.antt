-- ===== src/Registry/Conversations.antt =====
-- The hints of a Codex request, prepare of crates/libsubby/src/proxy/codex.rs, and where the router
-- sends it.
use subbier.Base.{ℕ, ◌≡◌, refl, true, Option, none, some, List}
use subbier.Model.{SubId, Timestamp, Usage, codex}
use subbier.Transcripts.{Limits, Store, Chain, chain, placement}
use subbier.Balance.Router.{SubStatus, PoolGate, State, sweep, proxies}
use subbier.Balance.Ladder.{holds}
use subbier.Balance.Ladder.Live.{eligible}
use subbier.Balance.Ladder.Wishes.{wishes}
use subbier.Balance.Selection.{Hints, Selection, Result, ok}
use subbier.Balance.Select.{select_in}
use subbier.Balance.Select.Sound.{first_wish, select_in-wish}
use subbier.Registry.{SubRegistry, id_of, Reads, statuses}

-- `id_of` of the store's accounts: what a lookup that may find nothing leads to.
abbrev pub hint_for : SubRegistry → Option ℕ → Option SubId
hint_for entries none = none
hint_for entries (some key) = id_of key entries

pub data Hinted : Type 0 where
  hinted : Hints → Hinted
  rejected : (status : ℕ) → Hinted

-- `UnknownPreviousResponse::HTTP_STATUS`.
abbrev pub http_status : ℕ
http_status = 400

-- `hints.chain`, or the rejection of a request whose conversation is not stored.
abbrev pub hint_chain : SubRegistry → Option SubId → Option (Option Chain) → Hinted
hint_chain entries key none = hinted (record { chain = none; key = key })
hint_chain entries key (some none) = rejected http_status
hint_chain entries key (some (some c)) = hinted (record { chain = id_of c.sub entries; key = key })

abbrev pub read_chain : ℕ → Option ℕ → Store → Store × Option (Option Chain)
read_chain now none s = (s, none)
read_chain now (some head) s = let r = chain head now s in (r.0, some r.1)

abbrev pub read_placement : Limits → ℕ → Option ℕ → Store → Store × Option ℕ
read_placement limits now none s = (s, none)
read_placement limits now (some key) s = placement limits key now s

-- The part of `prepare` that reads the store: the conversation, then the placement of the cache key.
unfoldable pub prepare_hints :
    Limits
    → (now : ℕ) → (previous_response_id key : Option ℕ) → SubRegistry
    → Store
    → Store × Hinted
unfolding id_of
prepare_hints limits now previous_response_id key entries s =
    let c = read_chain now previous_response_id s in
    let p = read_placement limits now key c.0 in
    (p.0, hint_chain entries (hint_for entries p.1) c.1)

-- Where the request goes.
pub record FollowsTo (sub : SubId) (r : State × Option (Result Selection)) : Type 0 where
  pub after : State
  pub selection : Selection
  pub answers : r ≡ (after, some (ok selection))
  pub follows : selection.sub ≡ sub

module _ (limits : Limits) (entries : SubRegistry) where
  -- The hints that `prepare` finds for a conversation it can read.
  prepare_hints-chain :
      (now head : ℕ) (key : Option ℕ) (s : Store) (c : Chain) (sub : SubId)
      → (chain head now s).1 ≡ some c
      → id_of c.sub entries ≡ some sub
      → (k : Option SubId) × ((prepare_hints limits now (some head) key entries s).1
          ≡ hinted (record { chain = some sub; key = k }))
  unfolding prepare_hints
  prepare_hints-chain now head key s c sub e i =
      (hint_for entries (read_placement limits now key (chain head now s).0).1, rw (e, i) refl)

  first_wish-chain :
      (swept : State) (subs : List SubStatus) (pool : Option PoolGate) (hints : Hints) (sub : SubId)
      → swept.pinned ≡ none
      → swept.settings.auto_switch ≡ true
      → hints.chain ≡ some sub
      → holds (eligible swept codex pool subs) sub ≡ true
      → first_wish swept codex subs hints pool ≡ some sub
  unfolding wishes
  first_wish-chain swept subs pool hints sub p a c h = rw (p, a, c, h) refl

  -- A request that continues a stored conversation goes to the account that served it, whatever the
  -- scorer reports and whatever other requests do meanwhile, provided that the account is still
  -- registered and eligible, no account is pinned, auto-switch is on and Codex is proxied.
  pub prepare_hints-select_in :
      (scorer : List SubId → ℕ → List (Option Usage)) (meanwhile : State → State) (reads : Reads)
      (pool : Option PoolGate) (now later : Timestamp) (router : State) (seconds head : ℕ)
      (key : Option ℕ) (s : Store) (c : Chain) (sub : SubId)
      → (chain head seconds s).1 ≡ some c
      → id_of c.sub entries ≡ some sub
      → router.pinned ≡ none
      → router.settings.auto_switch ≡ true
      → proxies router.settings codex ≡ true
      → holds (eligible (sweep now router) codex pool (statuses codex reads entries)) sub ≡ true
      → (hints : Hints) × ((prepare_hints limits seconds (some head) key entries s).1
          ≡ hinted hints)
        × FollowsTo sub (
            select_in scorer meanwhile codex
              (statuses codex reads entries)
              hints
              pool
              now
              later
              router)
  unfolding sweep
  prepare_hints-select_in scorer meanwhile reads pool now later router seconds head key s c sub e i
        p a q h =
      let (k, found) = prepare_hints-chain seconds head key s c sub e i in
      let hints : Hints = record { chain = some sub; key = k } in
      let subs = statuses codex reads entries in
      let (after, selection, answers, grants) =
        select_in-wish scorer meanwhile codex subs hints pool now later router sub q
          (first_wish-chain (sweep now router) subs pool hints sub p a refl h) in
      (
        hints,
        found,
        record {
          after = after;
          selection = selection;
          answers = answers;
          follows = grants.granted;
        },
      )

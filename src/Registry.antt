-- ===== src/Registry.antt =====
-- crates/libsubby/src/proxy/mod.rs: the SubRegistry, the gate of a pool, and the hints that a Codex
-- request gets from the store (prepare of proxy/codex.rs), with PoolConfig::matches of config/mod.rs
-- and SubKey of model.rs.
--
-- The stored key of an account is a number, as in Transcripts; `text_of` gives its text. Other texts
-- are lists of characters. `percent` is the f32 product of a utilisation with 100. An operation takes
-- the entries and returns the new ones.
pub mod Keys
pub mod Entries
pub mod Pools
pub mod Conversations
mod Samples
use subbier.Base.{
  ℕ, ◌+◌, Bool, true, false, ◌&&◌, ◌||◌, not, Option, none, some, List, [], ◌∷◌, ◌++◌, map, String,
  ◌==◌, if◌then◌else◌, codes, same_text, split_once, trim, eq_ignore_ascii_case, filter, find, any,
  is_some, is_none_or, is_some_and, is_empty, unwrap_or, length,
}
use subbier.Model.{SubId, Pct, Provider, codex, claude, same_provider, Tokens, StrategyKind}
use subbier.Balance.Router.{SubStatus, PoolGate}
use subbier.Balance.Selection.{Hints, Result, ok, err, unknown_pool}
use subbier.Transcripts.{Limits, Store, Chain, chain, placement}

-- `Provider::id`.
unfoldable pub provider_id : Provider → List ℕ
provider_id Provider.codex = codes "codex"
provider_id Provider.claude = codes "claude"

-- `Provider::from_str`.
unfoldable pub parse_provider : List ℕ → Option Provider
parse_provider text =
    if same_text text (codes "codex")
    then some codex
    else if same_text text (codes "claude")
    then some claude
    else none

-- `SubKey::new`.
unfoldable pub sub_key : Provider → List ℕ → List ℕ
unfolding provider_id
sub_key provider account = provider_id provider ++ (b':' ∷ account)

abbrev pub parse_first : Option (List ℕ × List ℕ) → Option Provider
parse_first none = none
parse_first (some parts) = parse_provider parts.0

-- `SubKey::provider`.
unfoldable pub key_provider : List ℕ → Option Provider
unfolding parse_provider
key_provider key = parse_first (split_once b':' key)

abbrev pub second_part : Option (List ℕ × List ℕ) → List ℕ
second_part none = []
second_part (some parts) = parts.1

-- `SubKey::account`.
unfoldable pub key_account : List ℕ → List ℕ
key_account key = second_part (split_once b':' key)

pub record SubEntry : Type 0 where
  pub id : SubId
  pub key : ℕ
  pub provider : Provider
  pub label : List ℕ
  pub email : Option (List ℕ)
  pub tokens : Tokens
  pub enabled : Bool
  pub needs_login : Bool

-- The entries in the registry, in order.
abbrev pub SubRegistry : Type 0
SubRegistry = List SubEntry

-- The first entry with the id, put through `f`.
unfoldable pub update_first : (SubEntry → SubEntry) → SubId → SubRegistry → SubRegistry
update_first f id [] = []
update_first f id (e ∷ es) = if e.id == id then f e ∷ es else e ∷ update_first f id es

unfoldable pub get : SubId → SubRegistry → Option SubEntry
get id entries = find (λ e. e.id == id) entries

unfoldable pub upsert : SubEntry → SubRegistry → SubRegistry
unfolding update_first
upsert entry entries =
    if is_some (find (λ e. e.id == entry.id) entries)
    then update_first (λ e. entry) entry.id entries
    else entries ++ (entry ∷ [])

unfoldable pub remove : SubId → SubRegistry → SubRegistry × Bool
remove id entries =
    let kept = filter (λ e. not (e.id == id)) entries in (kept, not (length kept == length entries))

abbrev pub id_found : Option SubEntry → Option SubId
id_found none = none
id_found (some e) = some e.id

unfoldable pub id_of : ℕ → SubRegistry → Option SubId
id_of key entries = id_found (find (λ e. e.key == key) entries)

unfoldable pub of_provider : Provider → SubRegistry → List SubEntry
of_provider provider entries = filter (λ e. same_provider e.provider provider) entries

unfoldable pub set_enabled : SubId → Bool → SubRegistry → SubRegistry
unfolding update_first
set_enabled id enabled entries = update_first (λ e. record e { enabled = enabled }) id entries

unfoldable pub set_needs_login : SubId → Bool → SubRegistry → SubRegistry
unfolding update_first
set_needs_login id needs_login entries =
    update_first (λ e. record e { needs_login = needs_login }) id entries

-- The entry returned is the one with the new tokens.
unfoldable pub store_tokens : SubId → Tokens → SubRegistry → SubRegistry × Option SubEntry
unfolding update_first get
store_tokens id tokens entries =
    let after = update_first (λ e. record e { tokens = tokens }) id entries in (after, get id after)

pub record PoolMember : Type 0 where
  pub provider : Option Provider
  pub id : List ℕ

pub record PoolConfig : Type 0 where
  pub name : String
  pub provider : Option Provider
  pub subs : List PoolMember
  pub max_sub_session_utilization : ℕ
  pub max_sub_weekly_utilization : ℕ

-- Whether the key is not known to be of the provider that is asked for.
abbrev pub is_other_provider : List ℕ → Option Provider → Bool
is_other_provider key none = false
is_other_provider key (some p) = not (is_some_and (λ q. same_provider q p) (key_provider key))

module _ (is_whitespace : ℕ → Bool) (text_of : ℕ → List ℕ) (percent : ℕ → Pct) where
  -- `PoolMember::matches`.
  unfoldable pub member_matches : SubEntry → PoolMember → Bool
  member_matches e member =
      if is_other_provider (text_of e.key) member.provider
      then false
      else let want = trim is_whitespace member.id in
        eq_ignore_ascii_case want (text_of e.key)
        || (eq_ignore_ascii_case want e.label
            || (is_some_and (eq_ignore_ascii_case want) e.email
                || eq_ignore_ascii_case want (key_account (text_of e.key))))

  -- `PoolConfig::matches`.
  unfoldable pub pool_matches : PoolConfig → SubEntry → Bool
  unfolding member_matches
  pool_matches pool e =
      if is_other_provider (text_of e.key) pool.provider
      then false
      else if is_empty pool.subs
      then true
      else any (member_matches e) pool.subs

  unfoldable pub resolve_pool : PoolConfig → SubRegistry → List SubId
  unfolding pool_matches
  resolve_pool pool entries = map (λ e. e.id) (filter (pool_matches pool) entries)

  abbrev pub gate_of : SubRegistry → String → Option PoolConfig → Result PoolGate
  gate_of entries name none = err (unknown_pool name)
  gate_of entries name (some pool) = ok (record {
    name = pool.name;
    members = some (resolve_pool pool entries);
    max_session_pct = percent pool.max_sub_session_utilization;
    max_weekly_pct = percent pool.max_sub_weekly_utilization;
  })

  abbrev pub is_named : String → PoolConfig → Bool
  is_named name pool = eq_ignore_ascii_case (codes pool.name) (trim is_whitespace (codes name))

  unfoldable pub pool_gate : String → List PoolConfig → SubRegistry → Result PoolGate
  unfolding resolve_pool
  pool_gate name pools entries = gate_of entries name (find (is_named name) pools)

-- What a status reads beside the entry: the counts of the metrics, and the usage last polled.
pub record Reads : Type 0 where
  pub proxied_in_flight : SubId → ℕ
  pub proxied_requests_total : SubId → ℕ
  pub last_session_pct : ℕ → Option Pct
  pub last_weekly_pct : ℕ → Option Pct

abbrev pub status : Reads → SubEntry → SubStatus
status reads e = record {
  sub = e.id;
  provider = e.provider;
  enabled = e.enabled;
  needs_login = e.needs_login;
  proxied_in_flight = reads.proxied_in_flight e.id;
  proxied_requests_total = reads.proxied_requests_total e.id;
  session_pct = reads.last_session_pct e.key;
  weekly_pct = reads.last_weekly_pct e.key;
}

unfoldable pub statuses : Provider → Reads → SubRegistry → List SubStatus
statuses provider reads entries =
    map (status reads) (filter (λ e. same_provider e.provider provider) entries)

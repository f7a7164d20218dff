-- ===== src/Engine/Accounts.antt =====
-- crates/libsubby/src/engine.rs: the commands and events that add accounts, sign them in again,
-- switch them on and off and carry their tokens.
--
-- Instants are numbers of nanoseconds, and `now` of an instant is an argument. What ensure_fresh,
-- discovery and the sign-in bring is an argument too; `next_id` is a `u32`, which wraps.
use subbier.Base.{
  ℕ, ◌+◌, ◌*◌, ◌%◌, ◌^◌, Bool, true, ◌&&◌, not, Option, none, some, List, [], ◌∷◌, ◌++◌, map,
  String, ◌==◌, ltb, if◌then◌else◌, find, is_some, unwrap_or,
}
use subbier.Model.{SubId, Timestamp, Tokens}
use subbier.Auth.{same_option_text}
use subbier.Balance.Router.{RouterSettings, set_settings}
use subbier.Registry.{SubEntry, store_tokens, set_needs_login, set_enabled}
use subbier.Engine.{
  Credentials, Sub, SubRecord, Engine, UiConfig, no_such_sub, could_not_write, could_not_reload,
  bad_bind, note_error, persist_subs, update_record,
}

abbrev pub persist_debounce : ℕ
persist_debounce = 500 * 10 ^ 6

unfoldable pub schedule_persist : ℕ → Engine → Engine
schedule_persist now e = record e {
  persist_at = some (unwrap_or (now + persist_debounce) e.persist_at);
}

-- `SubRecord::new`.
abbrev pub new_record : SubId → Sub → SubRecord
new_record id sub = record {
  id = id;
  sub = sub;
  usage = none;
  polled_at = none;
  failing_since = none;
  poll_error = none;
  needs_login = none;
  relogin_checked_at = none;
}

unfoldable pub adopt : Sub → Engine → Engine
adopt sub e = record e {
  next_id = (e.next_id + 1) % 2 ^ 32;
  subs = e.subs ++ (new_record e.next_id sub ∷ []);
}

-- The first record with the key, put through `f`.
unfoldable pub update_keyed : (SubRecord → SubRecord) → ℕ → List SubRecord → List SubRecord
update_keyed f key [] = []
update_keyed f key (r ∷ rs) = if r.sub.key == key then f r ∷ rs else r ∷ update_keyed f key rs

abbrev pub find_key : ℕ → List SubRecord → Option SubRecord
find_key key rs = find (λ r. r.sub.key == key) rs

abbrev pub with_credentials : (Credentials → Credentials) → SubRecord → SubRecord
with_credentials f r = record r { sub = record r.sub { credentials = f r.sub.credentials } }

abbrev pub takes_plan : Sub → SubRecord → Bool
takes_plan sub r =
    is_some sub.credentials.plan
    && not (same_option_text r.sub.credentials.plan sub.credentials.plan)

-- One turn of the loop, on the record with that key, and how many accounts it adopts.
abbrev pub merge_found : ℕ → Sub → Engine → Option SubRecord → Engine × ℕ
merge_found now sub e none = (adopt sub e, 1)
merge_found now sub e (some r) =
    if takes_plan sub r
    then (
      record e {
        subs =
            update_keyed (with_credentials (λ c. record c { plan = sub.credentials.plan })) sub.key
              e.subs;
        persist_at = some now;
      },
      0,
    )
    else (e, 0)

unfoldable pub merge_discovered : ℕ → List Sub → Engine → Engine × ℕ
unfolding adopt update_keyed
merge_discovered now [] e = (e, 0)
merge_discovered now (sub ∷ found) e =
    let turn = merge_found now sub e (find_key sub.key e.subs) in
    let rest = merge_discovered now found turn.0 in (rest.0, turn.1 + rest.1)

-- `SubEntry::new`, `enabled` and `needs_login`.
abbrev pub entry_of : (ℕ → Bool) → SubRecord → SubEntry
entry_of sub_enabled r = record {
  id = r.id;
  key = r.sub.key;
  provider = r.sub.provider;
  label = r.sub.label;
  email = r.sub.credentials.email;
  tokens = r.sub.credentials.tokens;
  enabled = sub_enabled r.sub.key;
  needs_login = is_some r.needs_login;
}

unfoldable pub sync_registry : Engine → Engine
sync_registry e = record e { registry = map (entry_of e.sub_enabled) e.subs }

-- What `Command::Rediscover` does before it polls: it polls only if this adopts accounts.
unfoldable pub rediscover : ℕ → List Sub → Bool → Engine → Engine × ℕ
unfolding merge_discovered persist_subs sync_registry
rediscover now found written e =
    let merged = merge_discovered now found e in
    (if ltb 0 merged.1 then sync_registry (persist_subs written merged.0) else merged.0, merged.1)

unfoldable pub adopt_all : List Sub → Engine → Engine
unfolding adopt
adopt_all [] e = e
adopt_all (sub ∷ subs) e = adopt_all subs (adopt sub e)

-- The end of `EngineBuilder::build`: the stored accounts, and those discovered.
unfoldable pub load : (stored found : List Sub) → ℕ → Bool → RouterSettings → Engine → Engine
unfolding adopt_all merge_discovered persist_subs sync_registry
load stored found now written settings e =
    let merged = merge_discovered now found (adopt_all stored e) in
    let saved = if ltb 0 merged.1 then persist_subs written merged.0 else merged.0 in
    sync_registry (record saved { router = set_settings settings saved.router })

abbrev pub signed_in : Credentials → SubRecord → SubRecord
signed_in credentials r = record r {
  sub = record r.sub { credentials = credentials };
  needs_login = none;
  poll_error = none;
  failing_since = none;
}

-- `sub` is what `auth::to_sub` makes of the credentials.
unfoldable pub finish_login : Sub → Bool → Engine → Engine
unfolding adopt update_keyed persist_subs sync_registry
finish_login sub written e =
    let after : Engine =
      if is_some (find_key sub.key e.subs)
      then record e { subs = update_keyed (signed_in sub.credentials) sub.key e.subs }
      else adopt sub e in
    sync_registry (persist_subs written after)

abbrev pub with_tokens : Tokens → SubRecord → SubRecord
with_tokens tokens r = with_credentials (λ c. record c { tokens = tokens }) r

unfoldable pub adopt_tokens : SubId → Tokens → ℕ → Engine → Engine
unfolding schedule_persist update_record
adopt_tokens id tokens now e = schedule_persist now (record e {
  subs = update_record (with_tokens tokens) id e.subs;
  registry = (store_tokens id tokens e.registry).0;
})

unfoldable pub mark_needs_login : SubId → String → Timestamp → Engine → Engine
unfolding update_record
mark_needs_login id message now e = record e {
  subs =
      update_record (λ r. record r { needs_login = some message; relogin_checked_at = some now }) id
        e.subs;
  registry = set_needs_login id true e.registry;
}

-- `Event::TokensRefreshed`.
unfoldable pub tokens_refreshed : ℕ → Tokens → ℕ → Engine → Engine
unfolding schedule_persist update_keyed
tokens_refreshed key tokens now e =
    if is_some (find_key key e.subs)
    then schedule_persist now (record e { subs = update_keyed (with_tokens tokens) key e.subs })
    else e

-- `write_config`, whose write succeeds or not.
abbrev pub write_config : Bool → Engine → Engine
write_config written e = if written then e else note_error could_not_write e

abbrev pub enable_found : SubId → Bool → Bool → Engine → Option SubRecord → Engine
enable_found sub enabled written e none = note_error (no_such_sub sub) e
enable_found sub enabled written e (some r) =
    let after =
      write_config written
        (record e { sub_enabled = λ k. if k == r.sub.key then enabled else e.sub_enabled k }) in
    record after { registry = set_enabled sub enabled after.registry }

unfoldable pub set_sub_enabled : SubId → Bool → Bool → Engine → Engine
unfolding note_error
set_sub_enabled sub enabled written e =
    enable_found sub enabled written e (find (λ r. r.id == sub) e.subs)

-- What is read from a configuration that loads: the `ui` node, the switches of the accounts, what
-- the router takes, and whether `proxy.bind` resolves.
pub record Loaded : Type 0 where
  pub ui : UiConfig
  pub sub_enabled : ℕ → Bool
  pub settings : RouterSettings
  pub bind_resolves : Bool

-- `apply_config`, without the pools and the listener.
unfoldable pub apply_config : Loaded → Engine → Engine
unfolding note_error sync_registry
apply_config config e =
    let after : Engine = if config.bind_resolves then e else note_error bad_bind e in
    sync_registry (record after { router = set_settings config.settings after.router })

unfoldable pub reload_config : Option Loaded → Engine → Engine
unfolding note_error apply_config
reload_config none e = note_error could_not_reload e
reload_config (some config) e =
    apply_config config
      (record e { ui = config.ui; sub_enabled = config.sub_enabled; last_error = none })

-- `SetNotificationsEnabled`.
unfoldable pub set_notifications : Bool → Bool → Engine → Engine
unfolding note_error
set_notifications on written e =
    write_config written (record e { ui = record e.ui { notifications = on } })

-- `publish`: the snapshot itself is left out, and what building it asks of the router is an event of
-- the router.
unfoldable pub publish : Engine → Engine
publish e = record e { alerts = []; dirty_at = none }

-- ===== src/Engine/Validity/Commands.antt =====
-- The invariant of the engine of engine.rs under the commands that add no account.
use subbier.Base.{
  ℕ, ◌≡◌, refl, inl, inr, Bool, true, false, Option, none, some, ◌==◌, find, Bool-cases,
  Option-cases, if◌then◌else◌, is_some,
}
use subbier.Model.{SubId, Tokens, Provider, at}
use subbier.Balance.Router.{State}
use subbier.Balance.Router.Invariant as Router
use subbier.Metrics.{forget}
use subbier.Base.OrdMap.{remove-IsSorted}
use subbier.Poller.{invalidate}
use subbier.Registry as Registry
use subbier.Engine.{
  SubRecord, Engine, note_error, persist_subs, remove_sub, forget_router, remove_record, forget_pin,
  forget_current, holds,
}
use subbier.Engine.Accounts.{
  Loaded, tokens_refreshed, schedule_persist, with_tokens, find_key, enable_found, reload_config,
  apply_config, set_notifications, sync_registry,
}
use subbier.Engine.Identities.{
  Bounds, Table, Table-remove_record, Table-gone, identities, identities-update_keyed,
}
use subbier.Engine.Mirror.{Mirrors-sync, Mirrors-keyed, Mirrors-remove}
use subbier.Engine.Switches.{Mirrors-enable}
use subbier.Engine.Validity.{IsValid, with_mirror, with_subs}

pub persist_subs-IsValid :
    (b : Bounds) (written : Bool) (e : Engine) → IsValid b e → IsValid b (persist_subs written e)
unfolding persist_subs note_error
persist_subs-IsValid b true e v = v
persist_subs-IsValid b false e v = v

forget_pin-IsValid :
    (sub : SubId) (s : State) → Router.IsValid s → Router.IsValid (forget_pin sub s)
forget_pin-IsValid sub s v = elim (Bool-cases (holds sub s.pinned)) [
  | inl y ↦ rw y (Router.pin-IsValid none v)
  | inr n ↦ rw n v
]

forget_current-IsValid :
    (sub : SubId) (p : Provider) (s : State)
    → Router.IsValid s
    → Router.IsValid (forget_current sub p s)
forget_current-IsValid sub p s v = elim (Bool-cases (holds sub (at s.current p))) [
  | inl y ↦ rw y (Router.clear_current-IsValid p v)
  | inr n ↦ rw n v
]

forget_router-IsValid :
    (sub : SubId) (s : State) → Router.IsValid s → Router.IsValid (forget_router sub s)
forget_router-IsValid sub s v = forget_current-IsValid sub Provider.claude _ (
    forget_current-IsValid sub Provider.codex _
      (forget_pin-IsValid sub _ (Router.clear_exhaustion-IsValid sub v)))

pub enable_found-IsValid :
    (b : Bounds) (sub : SubId) (on written : Bool) (e : Engine) (o : Option SubRecord)
    → find (λ r. r.id == sub) e.subs ≡ o
    → IsValid b e
    → IsValid b (enable_found sub on written e o)
unfolding note_error Registry.set_enabled
enable_found-IsValid b sub on written e none h v = v
enable_found-IsValid b sub on true e (some r) h v =
    with_mirror v
      (Mirrors-enable e.sub_enabled sub on r e.registry e.subs h v.table.unique v.mirror)
enable_found-IsValid b sub on false e (some r) h v =
    with_mirror v
      (Mirrors-enable e.sub_enabled sub on r e.registry e.subs h v.table.unique v.mirror)

pub tokens_refreshed-IsValid :
    (b : Bounds) (key : ℕ) (tokens : Tokens) (now : ℕ) (e : Engine)
    → IsValid b e
    → IsValid b (tokens_refreshed key tokens now e)
unfolding tokens_refreshed schedule_persist
tokens_refreshed-IsValid b key tokens now e v = elim (Bool-cases (is_some (find_key key e.subs))) [
  | inl y ↦ rw y (
      with_subs v (identities-update_keyed (with_tokens tokens) key e.subs (λ r. refl)) (
        Mirrors-keyed (with_tokens tokens) e.sub_enabled key e.registry e.subs (λ on r. refl)
          v.mirror))
  | inr n ↦ rw n v
]

pub set_notifications-IsValid :
    (b : Bounds) (on written : Bool) (e : Engine)
    → IsValid b e
    → IsValid b (set_notifications on written e)
unfolding set_notifications note_error
set_notifications-IsValid b on true e v = v
set_notifications-IsValid b on false e v = v

pub reload_config-IsValid :
    (b : Bounds) (config : Option Loaded) (e : Engine)
    → IsValid b e
    → IsValid b (reload_config config e)
unfolding reload_config apply_config note_error sync_registry
reload_config-IsValid b none e v = v
reload_config-IsValid b (some config) e v =
    let routed = Router.set_settings-IsValid config.settings v.routed in
    elim (Bool-cases config.bind_resolves) [
      | inl y ↦ rw y (record {
        table = v.table;
        mirror = Mirrors-sync config.sub_enabled e.subs;
        routed = routed;
        counted = v.counted;
      })
      | inr n ↦ rw n (record {
        table = v.table;
        mirror = Mirrors-sync config.sub_enabled e.subs;
        routed = routed;
        counted = v.counted;
      })
    ]

-- The engine without the account, before it is saved.
abbrev removed : SubId → SubRecord → Engine → Engine
removed sub r e = record e {
  subs = remove_record sub e.subs;
  usage = invalidate r.sub.key e.usage;
  registry = (Registry.remove sub e.registry).0;
  metrics = forget sub e.metrics;
  router = forget_router sub e.router;
  severities = λ i k. if i == sub then none else e.severities i k;
}

removed-IsValid :
    (b c : Bounds) (sub : SubId) (r : SubRecord) (e : Engine)
    → Table c e.next_id (identities (remove_record sub e.subs))
    → IsValid b e
    → IsValid c (removed sub r e)
unfolding forget Registry.remove
removed-IsValid b c sub r e t v = record {
  table = t;
  mirror = Mirrors-remove e.sub_enabled sub e.registry e.subs v.table.unique v.mirror;
  routed = forget_router-IsValid sub e.router v.routed;
  counted = remove-IsSorted sub e.metrics.subs v.counted;
}

pub remove_sub-IsValid :
    (b : Bounds) (sub : SubId) (written : Bool) (e : Engine)
    → IsValid b e
    → IsValid b (remove_sub sub written e)
unfolding remove_sub note_error
remove_sub-IsValid b sub written e v = elim (Option-cases (find (λ r. r.id == sub) e.subs)) [
  | inl z ↦ rw z v
  | inr (r, z) ↦ rw z (
      persist_subs-IsValid b written (removed sub r e)
        (removed-IsValid b b sub r e (Table-remove_record b e.next_id sub e.subs v.table) v))
]

-- Afterwards the id is gone.
pub remove_sub-gone :
    (b : Bounds) (sub : SubId) (written : Bool) (e : Engine)
    → is_some (find (λ r. r.id == sub) e.subs) ≡ true
    → IsValid b e
    → IsValid (record b { gone = sub }) (remove_sub sub written e)
unfolding remove_sub
remove_sub-gone b sub written e h v = elim (Option-cases (find (λ r. r.id == sub) e.subs)) [
  | inl z ↦ absurd (let y : is_some {A = SubRecord} none ≡ true = rw z at h in cc)
  | inr (r, z) ↦ rw z (
      persist_subs-IsValid (record b { gone = sub }) written (removed sub r e)
        (removed-IsValid b (record b { gone = sub }) sub r e
          (Table-gone b e.next_id sub e.subs h v.table) v))
]

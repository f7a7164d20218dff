-- ===== src/Engine/Validity/Logins.antt =====
-- The invariant of the engine of engine.rs when accounts get tokens or need a sign-in.
use subbier.Base.{
  ℕ, refl, ap, inl, inr, Bool, true, false, Option, none, some, List, [], ◌∷◌, String, Bool-cases,
}
use subbier.Model.{SubId, Timestamp, Tokens}
use subbier.Registry.{store_tokens, set_needs_login}
use subbier.Engine.{Credentials, SubRecord, Engine, update_record}
use subbier.Engine.Accounts.{schedule_persist, adopt_tokens, mark_needs_login}
use subbier.Engine.Polling.{
  mark_dirty, checked, recover, recovered, recheck_one, recheck_all, rechecked, same_tokens,
}
use subbier.Engine.Identities.{Bounds, KeepsIdentity, identities-update_record}
use subbier.Engine.Mirror.{Shown, KeepsShown, Mirrors-update, Mirrors-entry, Mirrors-record}
use subbier.Engine.Validity.{IsValid, with_subs}

-- Changes that the registry does not show, and those that it takes part in.
pub records-IsValid :
    (b : Bounds) (f : SubRecord → SubRecord) (id : SubId) (e : Engine)
    → KeepsIdentity f
    → KeepsShown f
    → IsValid b e
    → IsValid b (record e { subs = update_record f id e.subs })
records-IsValid b f id e k s v =
    with_subs v (identities-update_record f id e.subs k)
      (Mirrors-record f e.sub_enabled id e.registry e.subs s v.mirror)

pub adopt_tokens-IsValid :
    (b : Bounds) (id : SubId) (tokens : Tokens) (now : ℕ) (e : Engine)
    → IsValid b e
    → IsValid b (adopt_tokens id tokens now e)
unfolding adopt_tokens schedule_persist store_tokens
adopt_tokens-IsValid b id tokens now e v =
    with_subs v (identities-update_record _ id e.subs (λ r. refl))
      (Mirrors-update _ _ e.sub_enabled id e.registry e.subs (λ x r q. q) v.mirror)

abbrev marked : Shown → Bool → Shown
marked s b = record s { needs_login = b }

pub mark_needs_login-IsValid :
    (b : Bounds) (id : SubId) (message : String) (now : Timestamp) (e : Engine)
    → IsValid b e
    → IsValid b (mark_needs_login id message now e)
unfolding mark_needs_login set_needs_login
mark_needs_login-IsValid b id message now e v =
    with_subs v (identities-update_record _ id e.subs (λ r. refl)) (
      Mirrors-update _ _ e.sub_enabled id e.registry e.subs (λ x r q. ap (λ s. marked s true) q)
        v.mirror)

pub recover-IsValid :
    (b : Bounds) (id : SubId) (c : Credentials) (e : Engine)
    → IsValid b e
    → IsValid b (recover id c e)
unfolding set_needs_login store_tokens
recover-IsValid b id c e v =
    with_subs v (identities-update_record (recovered c) id e.subs (λ r. refl)) (
      Mirrors-entry _ e.sub_enabled id _ _ (λ x. refl)
        (Mirrors-update _ (recovered c) e.sub_enabled id e.registry e.subs
          (λ x r q. ap (λ s. marked s false) q) v.mirror))

pub recheck_one-IsValid :
    (b : Bounds) (now : Timestamp) (id : SubId) (c : Option Credentials) (e : Engine)
    (r : Option SubRecord)
    → IsValid b e
    → IsValid b (recheck_one now id c e r).0
recheck_one-IsValid b now id c e none v = v
recheck_one-IsValid b now id none e (some r) v =
    records-IsValid b (checked now) id e (λ r. refl) (λ on r. refl) v
recheck_one-IsValid b now id (some c) e (some r) v =
    let w = records-IsValid b (checked now) id e (λ r. refl) (λ on r. refl) v in
    elim (Bool-cases (same_tokens c.tokens r.sub.credentials.tokens)) [
      | inl y ↦ rw y w
      | inr n ↦
          rw n
            (recover-IsValid b id c (record e { subs = update_record (checked now) id e.subs }) w)
    ]

pub recheck_all-IsValid :
    (b : Bounds) (now : Timestamp) (found : List (SubId × Option Credentials)) (e : Engine)
    → IsValid b e
    → IsValid b (recheck_all now found e).0
unfolding recheck_all
recheck_all-IsValid b now [] e v = v
recheck_all-IsValid b now ((id, c) ∷ found) e v =
    recheck_all-IsValid b now found _ (recheck_one-IsValid b now id c e _ v)

pub rechecked-IsValid :
    (b : Bounds) (now instant : ℕ) (found : List (SubId × Option Credentials)) (e : Engine)
    → IsValid b e
    → IsValid b (rechecked now instant found e)
unfolding rechecked mark_dirty schedule_persist
rechecked-IsValid b now instant found e v =
    let w = recheck_all-IsValid b now found e v in
    elim (Bool-cases (recheck_all now found e).1) [ inl y ↦ rw y w | inr n ↦ rw n w ]

-- ===== src/Engine/Validity/Adoption.antt =====
-- The invariant of the engine of engine.rs when accounts are discovered, stored or signed in.
use subbier.Base.{
  ℕ, suc, ◌+◌, ◌≡◌, refl, sym, subst, inl, inr, Bool, true, false, Option, none, some, List, [],
  ◌∷◌, ◌++◌, ◌==◌, All, arith, length, ltb, Bool-cases, Option-cases, if◌then◌else◌, is_some,
}
use subbier.Base.OrdMap.{IsSorted}
use subbier.Balance.Router.{RouterSettings, set_settings}
use subbier.Balance.Router.Invariant as Router
use subbier.Engine.{Sub, SubRecord, Engine, persist_subs, note_error}
use subbier.Engine.Accounts.{
  adopt, new_record, find_key, takes_plan, merge_found, merge_discovered, sync_registry, rediscover,
  adopt_all, load, signed_in, finish_login, update_keyed,
}
use subbier.Engine.Identities.{
  Bounds, one_more, Table, identities, identities-update_keyed, Table-adopt, Table-weaken,
}
use subbier.Engine.Mirror.{Mirrors, Mirrors-sync, Mirrors-keyed}
use subbier.Engine.Validity.{IsValid}

-- Room for that many more accounts.
abbrev pub more : ℕ → Bounds → Bounds
more n b = record { room = n + b.room; gone = b.gone }

-- What an adoption leaves out of sync: everything but the registry.
pub record Loose (b : Bounds) (e : Engine) : Type 0 where
  pub table : Table b e.next_id (identities e.subs)
  pub routed : Router.IsValid e.router
  pub counted : IsSorted e.metrics.subs

Loose-adopt :
    (b : Bounds) (sub : Sub) (e : Engine)
    → find_key sub.key e.subs ≡ none
    → Loose (one_more b) e
    → Loose b (adopt sub e)
unfolding adopt
Loose-adopt b sub e h v = record {
  table = Table-adopt b e.next_id sub e.subs h v.table;
  routed = v.routed;
  counted = v.counted;
}

Loose-weaken : (b : Bounds) (e : Engine) → Loose (one_more b) e → Loose b e
Loose-weaken b e v = record {
  table = Table-weaken b v.table;
  routed = v.routed;
  counted = v.counted;
}

merge_found-Loose :
    (b : Bounds) (now : ℕ) (sub : Sub) (e : Engine)
    → Loose (one_more b) e
    → Loose b (merge_found now sub e (find_key sub.key e.subs)).0
merge_found-Loose b now sub e v = elim (Option-cases (find_key sub.key e.subs)) [
  | inl z ↦ rw z (Loose-adopt b sub e z v)
  | inr (r, z) ↦ rw z (elim (Bool-cases (takes_plan sub r)) [
    | inl y ↦ rw y (record {
      table =
          subst (Table b e.next_id) (sym (identities-update_keyed _ sub.key e.subs (λ r. refl)))
            (Table-weaken b v.table);
      routed = v.routed;
      counted = v.counted;
    })
    | inr n ↦ rw n (Loose-weaken b e v)
  ])
]

merge_discovered-Loose :
    (b : Bounds) (now : ℕ) (found : List Sub) (e : Engine)
    → Loose (more (length found) b) e
    → Loose b (merge_discovered now found e).0
unfolding merge_discovered
merge_discovered-Loose b now [] e v =
    subst (λ n. Loose (record { room = n; gone = b.gone }) e) (omega arith) v
merge_discovered-Loose b now (sub ∷ found) e v =
    let q : suc (length found) + b.room ≡ suc (length found + b.room) = omega arith in
    let w : Loose (one_more (more (length found) b)) e =
      subst (λ n. Loose (record { room = n; gone = b.gone }) e) q v in
    merge_discovered-Loose b now found _ (merge_found-Loose (more (length found) b) now sub e w)

-- Without an adoption the registry stays a mirror.
merge_found-Mirrors :
    (now : ℕ) (sub : Sub) (e : Engine) (o : Option SubRecord)
    → let turn = merge_found now sub e o in
      turn.1 ≡ 0
      → Mirrors e.sub_enabled e.registry e.subs
      → Mirrors turn.0.sub_enabled turn.0.registry turn.0.subs
merge_found-Mirrors now sub e none h m = absurd (ground arith)
merge_found-Mirrors now sub e (some r) h m = elim (Bool-cases (takes_plan sub r)) [
  | inl y ↦ rw y (Mirrors-keyed _ e.sub_enabled sub.key e.registry e.subs (λ on r. refl) m)
  | inr n ↦ rw n m
]

merge_discovered-Mirrors :
    (now : ℕ) (found : List Sub) (e : Engine)
    → (merge_discovered now found e).1 ≡ 0
    → Mirrors e.sub_enabled e.registry e.subs
    → let after = (merge_discovered now found e).0 in
      Mirrors after.sub_enabled after.registry after.subs
unfolding merge_discovered
merge_discovered-Mirrors now [] e h m = m
merge_discovered-Mirrors now (sub ∷ found) e h m =
    let turn : Engine × ℕ = merge_found now sub e (find_key sub.key e.subs) in
    merge_discovered-Mirrors now found turn.0 (omega (arith, h))
      (merge_found-Mirrors now sub e (find_key sub.key e.subs) (omega (arith, h)) m)

persist_subs-Loose :
    (b : Bounds) (written : Bool) (e : Engine) → Loose b e → Loose b (persist_subs written e)
unfolding persist_subs note_error
persist_subs-Loose b true e v = record { table = v.table; routed = v.routed; counted = v.counted }
persist_subs-Loose b false e v = record { table = v.table; routed = v.routed; counted = v.counted }

sync_registry-IsValid : (b : Bounds) (e : Engine) → Loose b e → IsValid b (sync_registry e)
unfolding sync_registry
sync_registry-IsValid b e v = record {
  table = v.table;
  mirror = Mirrors-sync e.sub_enabled e.subs;
  routed = v.routed;
  counted = v.counted;
}

IsValid-Loose : (b : Bounds) (e : Engine) → IsValid b e → Loose b e
IsValid-Loose b e v = record { table = v.table; routed = v.routed; counted = v.counted }

pub rediscover-IsValid :
    (b : Bounds) (now : ℕ) (found : List Sub) (written : Bool) (e : Engine)
    → IsValid (more (length found) b) e
    → IsValid b (rediscover now found written e).0
unfolding rediscover
rediscover-IsValid b now found written e v =
    let merged : Engine × ℕ = merge_discovered now found e in
    let w : Loose b merged.0 = merge_discovered-Loose b now found e (IsValid-Loose _ e v) in
    elim (Bool-cases (ltb 0 merged.1)) [
      | inl y ↦ rw y (
          sync_registry-IsValid b (persist_subs written merged.0)
            (persist_subs-Loose b written merged.0 w))
      | inr n ↦
          let z : merged.1 ≡ 0 = ground (arith, n) in
          rw n (record {
            table = w.table;
            mirror = merge_discovered-Mirrors now found e z v.mirror;
            routed = w.routed;
            counted = w.counted;
          })
    ]

pub finish_login-IsValid :
    (b : Bounds) (sub : Sub) (written : Bool) (e : Engine)
    → IsValid (one_more b) e
    → IsValid b (finish_login sub written e)
unfolding finish_login
finish_login-IsValid b sub written e v =
    let w = IsValid-Loose (one_more b) e v in
    let renewed : Engine = record e {
      subs = update_keyed (signed_in sub.credentials) sub.key e.subs;
    } in
    let after : Engine = if is_some (find_key sub.key e.subs) then renewed else adopt sub e in
    let l : Loose b after = elim (Option-cases (find_key sub.key e.subs)) [
      | inl z ↦ rw z (Loose-adopt b sub e z w)
      | inr (r, z) ↦ rw z (record {
        table =
            subst (Table b e.next_id) (sym (identities-update_keyed _ sub.key e.subs (λ r. refl)))
              (Table-weaken b w.table);
        routed = w.routed;
        counted = w.counted;
      })
    ] in
    sync_registry-IsValid b (persist_subs written after) (persist_subs-Loose b written after l)

-- No two of the accounts have the same key.
abbrev pub Apart : List Sub → Type 0
Apart [] = Unit {0}
Apart (s ∷ ss) = All (λ t. (s.key == t.key) ≡ false) ss × Apart ss

abbrev Unknown : List Sub → List SubRecord → Type 0
Unknown ss rs = All (λ t. find_key t.key rs ≡ none) ss

find_key-snoc :
    (key : ℕ) (rs : List SubRecord) (r : SubRecord)
    → find_key key rs ≡ none
    → (r.sub.key == key) ≡ false
    → find_key key (rs ++ (r ∷ [])) ≡ none
find_key-snoc key [] r h n = rw n refl
find_key-snoc key (x ∷ xs) r h n = elim (Bool-cases (x.sub.key == key)) [
  | inl y ↦ absurd (let z : some x ≡ none = rw y at h in cc)
  | inr m ↦ let z : find_key key xs ≡ none = rw m at h in rw m (find_key-snoc key xs r z n)
]

Unknown-snoc :
    (s : Sub) (id : ℕ) (ss : List Sub) (rs : List SubRecord)
    → All (λ t. (s.key == t.key) ≡ false) ss
    → Unknown ss rs
    → Unknown ss (rs ++ (new_record id s ∷ []))
Unknown-snoc s id [] rs a u = tt
Unknown-snoc s id (t ∷ ss) rs a u =
    (find_key-snoc t.key rs (new_record id s) u.0 a.0, Unknown-snoc s id ss rs a.1 u.1)

adopt_all-Loose :
    (b : Bounds) (ss : List Sub) (e : Engine)
    → Apart ss
    → Unknown ss e.subs
    → Loose (more (length ss) b) e
    → Loose b (adopt_all ss e)
unfolding adopt_all adopt
adopt_all-Loose b [] e a u v =
    subst (λ n. Loose (record { room = n; gone = b.gone }) e) (omega arith) v
adopt_all-Loose b (s ∷ ss) e a u v =
    let q : suc (length ss) + b.room ≡ suc (length ss + b.room) = omega arith in
    let w : Loose (one_more (more (length ss) b)) e =
      subst (λ n. Loose (record { room = n; gone = b.gone }) e) q v in
    adopt_all-Loose b ss (adopt s e) a.1 (Unknown-snoc s e.next_id ss e.subs a.0 u.1)
      (Loose-adopt (more (length ss) b) s e u.0 w)

Unknown-empty : (ss : List Sub) → Unknown ss []
Unknown-empty [] = tt
Unknown-empty (s ∷ ss) = (refl, Unknown-empty ss)

pub load-IsValid :
    (b : Bounds) (stored found : List Sub) (now : ℕ) (written : Bool) (settings : RouterSettings)
    (e : Engine)
    → Apart stored
    → e.subs ≡ []
    → Loose (more (length stored) (more (length found) b)) e
    → IsValid b (load stored found now written settings e)
unfolding load
load-IsValid b stored found now written settings e a n v =
    let known : Engine = adopt_all stored e in
    let merged : Engine × ℕ = merge_discovered now found known in
    let l : Loose b merged.0 = merge_discovered-Loose b now found known (
      adopt_all-Loose (more (length found) b) stored e a
        (subst (Unknown stored) (sym n) (Unknown-empty stored)) v) in
    let saved : Engine = if ltb 0 merged.1 then persist_subs written merged.0 else merged.0 in
    let w : Loose b saved = elim (Bool-cases (ltb 0 merged.1)) [
      | inl y ↦ rw y (persist_subs-Loose b written merged.0 l)
      | inr m ↦ rw m l
    ] in
    sync_registry-IsValid b (record saved { router = set_settings settings saved.router })
      (record {
        table = w.table;
        routed = Router.set_settings-IsValid settings w.routed;
        counted = w.counted;
      })

-- ===== src/Engine/Mirror.antt =====
-- The registry as a mirror of the accounts of engine.rs, under the operations on both.
use subbier.Base.{
  ℕ, ◌≡◌, ◌∙◌, refl, ap, sym, inl, inr, Bool, true, false, not, List, [], ◌∷◌, map, All, ◌==◌,
  arith, filter, Bool-cases,
}
use subbier.Model.{SubId, Provider}
use subbier.Registry.{SubEntry, SubRegistry, update_first}
use subbier.Engine.{SubRecord, update_record, remove_record}
use subbier.Engine.Accounts.{update_keyed, entry_of}
use subbier.Engine.Identities.{identity, identities, Unique, Fresh}

-- What the registry must hold of an account: all but its tokens and its address, which requests and
-- the sources of credentials change first.
pub record Shown : Type 0 where
  pub id : SubId
  pub key : ℕ
  pub provider : Provider
  pub label : List ℕ
  pub enabled : Bool
  pub needs_login : Bool

abbrev pub shown : SubEntry → Shown
shown e = record {
  id = e.id;
  key = e.key;
  provider = e.provider;
  label = e.label;
  enabled = e.enabled;
  needs_login = e.needs_login;
}

-- The entries are those of the accounts, in their order.
abbrev pub Mirrors : (ℕ → Bool) → SubRegistry → List SubRecord → Type 0
Mirrors on [] [] = Unit {0}
Mirrors on (e ∷ es) (r ∷ rs) = (shown e ≡ shown (entry_of on r)) × Mirrors on es rs
Mirrors on _ _ = ⊥

pub Mirrors-sync : (on : ℕ → Bool) (rs : List SubRecord) → Mirrors on (map (entry_of on) rs) rs
Mirrors-sync on [] = tt
Mirrors-sync on (r ∷ rs) = (refl, Mirrors-sync on rs)

-- The same change on both sides.
pub Mirrors-update :
    (f : SubEntry → SubEntry) (g : SubRecord → SubRecord) (on : ℕ → Bool) (id : SubId)
    (es : SubRegistry) (rs : List SubRecord)
    → ((e : SubEntry) (r : SubRecord)
        → shown e ≡ shown (entry_of on r)
        → shown (f e) ≡ shown (entry_of on (g r)))
    → Mirrors on es rs
    → Mirrors on (update_first f id es) (update_record g id rs)
unfolding update_first update_record
Mirrors-update f g on id [] [] k m = tt
Mirrors-update f g on id [] (r ∷ rs) k m = absurd m
Mirrors-update f g on id (e ∷ es) [] k m = absurd m
Mirrors-update f g on id (e ∷ es) (r ∷ rs) k m =
    let q : e.id ≡ r.id = ap (λ s. s.id) m.0 in
    elim (Bool-cases (r.id == id)) [
      | inl y ↦ let z : (e.id == id) ≡ true = rw q y in rw (y, z) (k e r m.0, m.1)
      | inr n ↦
          let z : (e.id == id) ≡ false = rw q n in
          rw (n, z) (m.0, Mirrors-update f g on id es rs k m.1)
    ]

-- A change of what is not shown, on one side.
pub Mirrors-entry :
    (f : SubEntry → SubEntry) (on : ℕ → Bool) (id : SubId) (es : SubRegistry) (rs : List SubRecord)
    → ((e : SubEntry) → shown (f e) ≡ shown e)
    → Mirrors on es rs
    → Mirrors on (update_first f id es) rs
unfolding update_first
Mirrors-entry f on id [] rs k m = m
Mirrors-entry f on id (e ∷ es) [] k m = absurd m
Mirrors-entry f on id (e ∷ es) (r ∷ rs) k m = elim (Bool-cases (e.id == id)) [
  | inl y ↦ rw y (k e ∙ m.0, m.1)
  | inr n ↦ rw n (m.0, Mirrors-entry f on id es rs k m.1)
]

abbrev pub KeepsShown : (SubRecord → SubRecord) → Type 0
KeepsShown g = (on : ℕ → Bool) (r : SubRecord) → shown (entry_of on (g r)) ≡ shown (entry_of on r)

pub Mirrors-record :
    (g : SubRecord → SubRecord) (on : ℕ → Bool) (id : SubId) (es : SubRegistry)
    (rs : List SubRecord)
    → KeepsShown g
    → Mirrors on es rs
    → Mirrors on es (update_record g id rs)
unfolding update_record
Mirrors-record g on id es [] k m = m
Mirrors-record g on id [] (r ∷ rs) k m = absurd m
Mirrors-record g on id (e ∷ es) (r ∷ rs) k m = elim (Bool-cases (r.id == id)) [
  | inl y ↦ rw y (m.0 ∙ sym (k on r), m.1)
  | inr n ↦ rw n (m.0, Mirrors-record g on id es rs k m.1)
]

pub Mirrors-keyed :
    (g : SubRecord → SubRecord) (on : ℕ → Bool) (key : ℕ) (es : SubRegistry) (rs : List SubRecord)
    → KeepsShown g
    → Mirrors on es rs
    → Mirrors on es (update_keyed g key rs)
unfolding update_keyed
Mirrors-keyed g on key es [] k m = m
Mirrors-keyed g on key [] (r ∷ rs) k m = absurd m
Mirrors-keyed g on key (e ∷ es) (r ∷ rs) k m = elim (Bool-cases (r.sub.key == key)) [
  | inl y ↦ rw y (m.0 ∙ sym (k on r), m.1)
  | inr n ↦ rw n (m.0, Mirrors-keyed g on key es rs k m.1)
]

Mirrors-filter :
    (on : ℕ → Bool) (id : SubId) (es : SubRegistry) (rs : List SubRecord)
    → All (λ x. (x.0 == id) ≡ false) (identities rs)
    → Mirrors on es rs
    → Mirrors on (filter (λ e. not (e.id == id)) es) rs
Mirrors-filter on id [] rs a m = m
Mirrors-filter on id (e ∷ es) [] a m = absurd m
Mirrors-filter on id (e ∷ es) (r ∷ rs) a m =
    let q : e.id ≡ r.id = ap (λ s. s.id) m.0 in
    let z : (e.id == id) ≡ false = rw q a.0 in rw z (m.0, Mirrors-filter on id es rs a.1 m.1)

others-differ :
    (r : SubRecord) (id : SubId) (rs : List SubRecord)
    → (r.id == id) ≡ true
    → Fresh (identity r) (identities rs)
    → All (λ x. (x.0 == id) ≡ false) (identities rs)
others-differ r id [] y f = tt
others-differ r id (x ∷ xs) y f =
    (let p = f.0.0 in ground (arith, y, p), others-differ r id xs y f.1)

pub Mirrors-remove :
    (on : ℕ → Bool) (id : SubId) (es : SubRegistry) (rs : List SubRecord)
    → Unique (identities rs)
    → Mirrors on es rs
    → Mirrors on (filter (λ e. not (e.id == id)) es) (remove_record id rs)
unfolding remove_record
Mirrors-remove on id [] [] u m = tt
Mirrors-remove on id [] (r ∷ rs) u m = absurd m
Mirrors-remove on id (e ∷ es) [] u m = absurd m
Mirrors-remove on id (e ∷ es) (r ∷ rs) u m =
    let q : e.id ≡ r.id = ap (λ s. s.id) m.0 in
    elim (Bool-cases (r.id == id)) [
      | inl y ↦
          let z : (e.id == id) ≡ true = rw q y in
          rw (y, z) (Mirrors-filter on id es rs (others-differ r id rs y u.0) m.1)
      | inr n ↦
          let z : (e.id == id) ≡ false = rw q n in
          rw (n, z) (m.0, Mirrors-remove on id es rs u.1 m.1)
    ]

-- ===== src/Engine/Switches.antt =====
-- The registry as a mirror of the accounts when one of them is switched on or off.
use subbier.Base.{
  ℕ, ◌≡◌, ◌∙◌, refl, ap, subst, inl, inr, Bool, true, false, some, List, [], ◌∷◌, All, ◌==◌, arith,
  find, Bool-cases, if◌then◌else◌,
}
use subbier.Model.{SubId}
use subbier.Registry.{SubEntry, SubRegistry, update_first}
use subbier.Engine.{SubRecord}
use subbier.Engine.Accounts.{entry_of}
use subbier.Engine.Identities.{identity, identities, Unique, Fresh}
use subbier.Engine.Mirror.{Mirrors, Shown, shown}

abbrev pub switch : ℕ → Bool → (ℕ → Bool) → ℕ → Bool
switch key b on k = if k == key then b else on k

abbrev with_enabled : Shown → Bool → Shown
with_enabled s b = record s { enabled = b }

Mirrors-switch_other :
    (on : ℕ → Bool) (key : ℕ) (b : Bool) (es : SubRegistry) (rs : List SubRecord)
    → All (λ x. (x.1 == key) ≡ false) (identities rs)
    → Mirrors on es rs
    → Mirrors (switch key b on) es rs
Mirrors-switch_other on key b [] [] a m = tt
Mirrors-switch_other on key b [] (r ∷ rs) a m = absurd m
Mirrors-switch_other on key b (e ∷ es) [] a m = absurd m
Mirrors-switch_other on key b (e ∷ es) (r ∷ rs) a m = (
  m.0 ∙ ap (with_enabled (shown (entry_of on r))) (rw a.0 refl),
  Mirrors-switch_other on key b es rs a.1 m.1,
)

key-differs :
    (x : ℕ × ℕ) (id : SubId) (rs : List SubRecord) (r : SubRecord)
    → Fresh x (identities rs)
    → find (λ r. r.id == id) rs ≡ some r
    → (x.1 == r.sub.key) ≡ false
key-differs x id [] r f h = absurd (ground arith)
key-differs x id (y ∷ ys) r f h = elim (Bool-cases (y.id == id)) [
  | inl e ↦
      let q : some y ≡ some r = rw e at h in
      let z : y ≡ r = cc in
      let w : y.sub.key ≡ r.sub.key = ap (λ o. o.sub.key) z in let p = f.0.1 in ground (arith, w, p)
  | inr n ↦ let q : find (λ r. r.id == id) ys ≡ some r = rw n at h in key-differs x id ys r f.1 q
]

keys-differ :
    (r : SubRecord) (rs : List SubRecord)
    → Fresh (identity r) (identities rs)
    → All (λ x. (x.1 == r.sub.key) ≡ false) (identities rs)
keys-differ r [] f = tt
keys-differ r (x ∷ xs) f = (f.0.1, keys-differ r xs f.1)

Mirrors-enable_head :
    (on : ℕ → Bool) (id : SubId) (b : Bool) (e : SubEntry) (x : SubRecord) (es : SubRegistry)
    (xs : List SubRecord)
    → (x.id == id) ≡ true
    → Unique (identities (x ∷ xs))
    → Mirrors on (e ∷ es) (x ∷ xs)
    → Mirrors
        (switch x.sub.key b on)
        (update_first (λ e. record e { enabled = b }) id (e ∷ es))
        (x ∷ xs)
unfolding update_first
Mirrors-enable_head on id b e x es xs y u m =
    let q : e.id ≡ x.id = ap (λ s. s.id) m.0 in
    let z : (e.id == id) ≡ true = rw q y in
    let k : (x.sub.key == x.sub.key) ≡ true = ground arith in
    rw z (
      ap (λ s. with_enabled s b) m.0 ∙ ap (with_enabled (shown (entry_of on x))) (rw k refl),
      Mirrors-switch_other on x.sub.key b es xs (keys-differ x xs u.0) m.1,
    )

pub Mirrors-enable :
    (on : ℕ → Bool) (id : SubId) (b : Bool) (r : SubRecord) (es : SubRegistry) (rs : List SubRecord)
    → find (λ r. r.id == id) rs ≡ some r
    → Unique (identities rs)
    → Mirrors on es rs
    → Mirrors (switch r.sub.key b on) (update_first (λ e. record e { enabled = b }) id es) rs
unfolding update_first
Mirrors-enable on id b r [] [] h u m = tt
Mirrors-enable on id b r [] (x ∷ xs) h u m = absurd m
Mirrors-enable on id b r (e ∷ es) [] h u m = absurd m
Mirrors-enable on id b r (e ∷ es) (x ∷ xs) h u m =
    let q : e.id ≡ x.id = ap (λ s. s.id) m.0 in
    elim (Bool-cases (x.id == id)) [
      | inl y ↦
          let o : some x ≡ some r = rw y at h in
          let w : x ≡ r = cc in
          subst
            (λ o.
              Mirrors (switch o.sub.key b on)
                (update_first (λ e. record e { enabled = b }) id (e ∷ es)) (x ∷ xs))
            w (Mirrors-enable_head on id b e x es xs y u m)
      | inr n ↦
          let z : (e.id == id) ≡ false = rw q n in
          let o : find (λ r. r.id == id) xs ≡ some r = rw n at h in
          let k : (x.sub.key == r.sub.key) ≡ false = key-differs (identity x) id xs r u.0 o in
          rw z (
            m.0 ∙ ap (with_enabled (shown (entry_of on x))) (rw k refl),
            Mirrors-enable on id b r es xs o u.1 m.1,
          )
    ]

-- ===== src/Engine/Identities.antt =====
-- The ids and keys of the accounts of engine.rs, under the operations on them.
use subbier.Base.{
  ℕ, suc, ◌+◌, ◌^◌, ◌%◌, ◌<◌, ◌≡◌, refl, ap, inl, inr, true, false, none, some, List, [], ◌∷◌, ◌++◌,
  map, All, ◌==◌, arith, find, Bool-cases, is_some,
}
use subbier.Model.{SubId}
use subbier.Engine.{Sub, SubRecord, update_record, remove_record}
use subbier.Engine.Accounts.{update_keyed, find_key, new_record}
use subbier.Engine.Removal.{UniqueIds}

abbrev pub identity : SubRecord → ℕ × ℕ
identity r = (r.id, r.sub.key)

abbrev pub identities : List SubRecord → List (ℕ × ℕ)
identities rs = map identity rs

-- Neither the id nor the key stands in the list.
abbrev pub Fresh : ℕ × ℕ → List (ℕ × ℕ) → Type 0
Fresh x xs = All (λ y. ((y.0 == x.0) ≡ false) × ((y.1 == x.1) ≡ false)) xs

-- No id and no key stands twice.
abbrev pub Unique : List (ℕ × ℕ) → Type 0
Unique [] = Unit {0}
Unique (x ∷ xs) = Fresh x xs × Unique xs

abbrev pub Below : ℕ → List (ℕ × ℕ) → Type 0
Below n xs = All (λ x. x.0 < n) xs

-- How many accounts may still be added, and an id that is not to be given again.
pub record Bounds : Type 0 where
  pub room : ℕ
  pub gone : SubId

abbrev pub IsGone : SubId → List (ℕ × ℕ) → Type 0
IsGone id xs = All (λ x. (x.0 == id) ≡ false) xs

-- What is true of the ids and keys: none stands twice, the next id is above all of them, and so are
-- as many after it as there is room for; and an id that is gone stands below the next one and not
-- in the list.
pub record Table (b : Bounds) (next : ℕ) (xs : List (ℕ × ℕ)) : Type 0 where
  pub bounded : next + b.room < 2 ^ 32
  pub below : Below next xs
  pub unique : Unique xs
  pub passed : b.gone < next
  pub absent : IsGone b.gone xs

-- Such a function changes neither the id nor the key.
abbrev pub KeepsIdentity : (SubRecord → SubRecord) → Type 0
KeepsIdentity f = (r : SubRecord) → identity (f r) ≡ identity r

pub identities-update_record :
    (f : SubRecord → SubRecord) (id : SubId) (rs : List SubRecord)
    → KeepsIdentity f
    → identities (update_record f id rs) ≡ identities rs
unfolding update_record
identities-update_record f id [] k = refl
identities-update_record f id (r ∷ rs) k = elim (Bool-cases (r.id == id)) [
  | inl y ↦ rw y (ap (λ x. x ∷ identities rs) (k r))
  | inr n ↦ rw n (ap (λ xs. identity r ∷ xs) (identities-update_record f id rs k))
]

pub identities-update_keyed :
    (f : SubRecord → SubRecord) (key : ℕ) (rs : List SubRecord)
    → KeepsIdentity f
    → identities (update_keyed f key rs) ≡ identities rs
unfolding update_keyed
identities-update_keyed f key [] k = refl
identities-update_keyed f key (r ∷ rs) k = elim (Bool-cases (r.sub.key == key)) [
  | inl y ↦ rw y (ap (λ x. x ∷ identities rs) (k r))
  | inr n ↦ rw n (ap (λ xs. identity r ∷ xs) (identities-update_keyed f key rs k))
]

-- The accounts have ids of their own.
pub Unique-UniqueIds : (rs : List SubRecord) → Unique (identities rs) → UniqueIds rs
Unique-UniqueIds [] u = tt
Unique-UniqueIds (r ∷ rs) u = (fresh-ids r rs u.0, Unique-UniqueIds rs u.1)
  where
    fresh-ids :
        (r : SubRecord) (rs : List SubRecord)
        → Fresh (identity r) (identities rs)
        → All (λ x. (x.id == r.id) ≡ false) rs
    fresh-ids r [] f = tt
    fresh-ids r (x ∷ xs) f = (f.0.0, fresh-ids r xs f.1)

All-remove_record :
    (P : ℕ × ℕ → Type 0) (id : SubId) (rs : List SubRecord)
    → All P (identities rs)
    → All P (identities (remove_record id rs))
unfolding remove_record
All-remove_record P id [] a = tt
All-remove_record P id (r ∷ rs) a = elim (Bool-cases (r.id == id)) [
  | inl y ↦ rw y a.1
  | inr n ↦ rw n (a.0, All-remove_record P id rs a.1)
]

Unique-remove_record :
    (id : SubId) (rs : List SubRecord)
    → Unique (identities rs)
    → Unique (identities (remove_record id rs))
unfolding remove_record
Unique-remove_record id [] u = tt
Unique-remove_record id (r ∷ rs) u = elim (Bool-cases (r.id == id)) [
  | inl y ↦ rw y u.1
  | inr n ↦ rw n (All-remove_record _ id rs u.0, Unique-remove_record id rs u.1)
]

pub Table-remove_record :
    (b : Bounds) (next : ℕ) (id : SubId) (rs : List SubRecord)
    → Table b next (identities rs)
    → Table b next (identities (remove_record id rs))
Table-remove_record b next id rs t = record {
  bounded = t.bounded;
  below = All-remove_record _ id rs t.below;
  unique = Unique-remove_record id rs t.unique;
  passed = t.passed;
  absent = All-remove_record _ id rs t.absent;
}

-- A new id, and a key that no account has.
Unique-snoc :
    (next key : ℕ) (rs : List (ℕ × ℕ))
    → Below next rs
    → All (λ x. (x.1 == key) ≡ false) rs
    → Unique rs
    → Unique (rs ++ ((next, key) ∷ []))
Unique-snoc next key [] b k u = (tt, tt)
Unique-snoc next key (x ∷ xs) b k u =
    (Fresh-snoc next key x xs b.0 k.0 u.0, Unique-snoc next key xs b.1 k.1 u.1)
  where
    Fresh-snoc :
        (next key : ℕ) (x : ℕ × ℕ) (xs : List (ℕ × ℕ))
        → x.0 < next
        → (x.1 == key) ≡ false
        → Fresh x xs
        → Fresh x (xs ++ ((next, key) ∷ []))
    Fresh-snoc next key x [] l n f = ((ground arith, ground arith), tt)
    Fresh-snoc next key x (y ∷ ys) l n f = (f.0, Fresh-snoc next key x ys l n f.1)

Below-snoc :
    (next key : ℕ) (rs : List (ℕ × ℕ)) → Below next rs → Below (suc next) (rs ++ ((next, key) ∷ []))
Below-snoc next key [] b = (omega arith, tt)
Below-snoc next key (x ∷ xs) b = (omega arith, Below-snoc next key xs b.1)

keys-absent :
    (key : ℕ) (rs : List SubRecord)
    → find_key key rs ≡ none
    → All (λ x. (x.1 == key) ≡ false) (identities rs)
keys-absent key [] h = tt
keys-absent key (r ∷ rs) h = elim (Bool-cases (r.sub.key == key)) [
  | inl y ↦ absurd (let z : some r ≡ none = rw y at h in cc)
  | inr n ↦ let z : find_key key rs ≡ none = rw n at h in (n, keys-absent key rs z)
]

identities-snoc :
    (rs : List SubRecord) (r : SubRecord)
    → identities (rs ++ (r ∷ [])) ≡ identities rs ++ (identity r ∷ [])
identities-snoc [] r = refl
identities-snoc (x ∷ xs) r = ap (λ ys. identity x ∷ ys) (identities-snoc xs r)

IsGone-snoc :
    (gone next key : ℕ) (xs : List (ℕ × ℕ))
    → gone < next
    → IsGone gone xs
    → IsGone gone (xs ++ ((next, key) ∷ []))
IsGone-snoc gone next key [] l a = (ground arith, tt)
IsGone-snoc gone next key (x ∷ xs) l a = (a.0, IsGone-snoc gone next key xs l a.1)

abbrev pub one_more : Bounds → Bounds
one_more b = record { room = suc b.room; gone = b.gone }

pub Table-adopt :
    (b : Bounds) (next : ℕ) (sub : Sub) (rs : List SubRecord)
    → find_key sub.key rs ≡ none
    → Table (one_more b) next (identities rs)
    → Table b ((next + 1) % 2 ^ 32) (identities (rs ++ (new_record next sub ∷ [])))
Table-adopt b next sub rs h t =
    let l = t.bounded in
    let g = t.passed in
    let w : (next + 1) % 2 ^ 32 ≡ suc next = omega (arith, l) in
    rw (w, identities-snoc rs (new_record next sub))
      (record {
        bounded = omega (arith, l);
        below = Below-snoc next sub.key (identities rs) t.below;
        unique =
            Unique-snoc next sub.key (identities rs) t.below (keys-absent sub.key rs h) t.unique;
        passed = omega (arith, g);
        absent = IsGone-snoc b.gone next sub.key (identities rs) g t.absent;
      })

pub Table-weaken :
    (b : Bounds) {next : ℕ} {xs : List (ℕ × ℕ)} → Table (one_more b) next xs → Table b next xs
Table-weaken b t = record {
  bounded = let l = t.bounded in omega (arith, l);
  below = t.below;
  unique = t.unique;
  passed = t.passed;
  absent = t.absent;
}

-- The id of an account that has just been removed is gone.
IsGone-after :
    (id next : ℕ) (rs : List SubRecord)
    → is_some (find (λ r. r.id == id) rs) ≡ true
    → Below next (identities rs)
    → Unique (identities rs)
    → (id < next) × IsGone id (identities (remove_record id rs))
unfolding remove_record
IsGone-after id next [] h b u = absurd (ground arith)
IsGone-after id next (r ∷ rs) h b u = elim (Bool-cases (r.id == id)) [
  | inl y ↦
      let q : r.id ≡ id = ground arith in let l = b.0 in rw y (rw q at l, IsGone-rest r id rs q u.0)
  | inr n ↦
      let k : is_some (find (λ r. r.id == id) rs) ≡ true = rw n at h in
      let rest = IsGone-after id next rs k b.1 u.1 in rw n (rest.0, (n, rest.1))
]
  where
    IsGone-rest :
        (r : SubRecord) (id : ℕ) (rs : List SubRecord)
        → r.id ≡ id
        → Fresh (identity r) (identities rs)
        → IsGone id (identities rs)
    IsGone-rest r id [] q f = tt
    IsGone-rest r id (x ∷ xs) q f =
        (let p = f.0.0 in ground (arith, p, q), IsGone-rest r id xs q f.1)

pub Table-gone :
    (b : Bounds) (next : ℕ) (id : SubId) (rs : List SubRecord)
    → is_some (find (λ r. r.id == id) rs) ≡ true
    → Table b next (identities rs)
    → Table (record b { gone = id }) next (identities (remove_record id rs))
Table-gone b next id rs h t = record {
  bounded = t.bounded;
  below = All-remove_record _ id rs t.below;
  unique = Unique-remove_record id rs t.unique;
  passed = (IsGone-after id next rs h t.below t.unique).0;
  absent = (IsGone-after id next rs h t.below t.unique).1;
}

-- ===== src/Base/Lists.antt =====
-- Lists measured, indexed, searched and filtered by Boolean tests.
use Prim.Native.Nat.{ℕ, zero, suc, ◌+◌, ◌≤◌}
use mathlib.Core.Path.{◌≡◌, refl, sym, ap, subst}
use mathlib.Core.Logic.{inl, inr}
use mathlib.Core.Bool.{Bool, true, false, ◌&&◌, ◌||◌}
use mathlib.Core.List.{List, [], ◌∷◌, ◌++◌, map}
use mathlib.Core.Option.{Option, none, some}
use native.Mathlib.Omega.{arith}
use subbier.Base.Tests.{if◌then◌else◌, Bool-cases}

module _ {ℓ} {A : Type ℓ} where
  abbrev pub length : List A → ℕ
  length [] = 0
  length (x ∷ xs) = suc (length xs)

  abbrev pub get_elem? : List A → ℕ → Option A
  get_elem? [] i = none
  get_elem? (x ∷ xs) zero = some x
  get_elem? (x ∷ xs) (suc i) = get_elem? xs i

  abbrev pub take : ℕ → List A → List A
  take zero xs = []
  take (suc n) [] = []
  take (suc n) (x ∷ xs) = x ∷ take n xs

  abbrev pub drop : ℕ → List A → List A
  drop zero xs = xs
  drop (suc n) [] = []
  drop (suc n) (x ∷ xs) = drop n xs

  abbrev pub is_empty : List A → Bool
  is_empty [] = true
  is_empty (x ∷ xs) = false

  abbrev pub filter : (A → Bool) → List A → List A
  filter p [] = []
  filter p (x ∷ xs) = if p x then x ∷ filter p xs else filter p xs

  abbrev pub any : (A → Bool) → List A → Bool
  any p [] = false
  any p (x ∷ xs) = p x || any p xs

  -- `Iterator::find`.
  abbrev pub find : (A → Bool) → List A → Option A
  find p [] = none
  find p (x ∷ xs) = if p x then some x else find p xs

  -- `Iterator::filter_map`.
  abbrev pub filter_map {κ} : {B : Type κ} → (A → Option B) → List A → List B
  filter_map f [] = []
  filter_map f (x ∷ xs) = elim (f x) [ none ↦ filter_map f xs | some b ↦ b ∷ filter_map f xs ]

  abbrev pub All {κ} : (A → Type κ) → List A → Type κ
  All P [] = Unit
  All P (x ∷ xs) = P x × All P xs

-- Membership with its position kept.
pub data Elem {ℓ} {A : Type ℓ} (a : A) : List A → Type ℓ where
  here : {x : A} {xs : List A} → a ≡ x → Elem a (x ∷ xs)
  there : {x : A} {xs : List A} → Elem a xs → Elem a (x ∷ xs)

module _ {ℓ} {A : Type ℓ} where
  pub length-append : (xs ys : List A) → length (xs ++ ys) ≡ length xs + length ys
  length-append [] ys = omega arith
  length-append (x ∷ xs) ys = omega (arith, length-append xs ys)

  pub Elem-length : (a : A) (xs : List A) → Elem a xs → 1 ≤ length xs
  Elem-length a [] e = elim e [ ]
  Elem-length a (x ∷ xs) e = omega arith

  pub take-append-drop : (n : ℕ) (xs : List A) → take n xs ++ drop n xs ≡ xs
  take-append-drop zero xs = refl
  take-append-drop (suc n) [] = refl
  take-append-drop (suc n) (x ∷ xs) = rw (take-append-drop n xs)

  pub take-append : (xs ys : List A) → take (length xs) (xs ++ ys) ≡ xs
  take-append [] ys = refl
  take-append (x ∷ xs) ys = rw (take-append xs ys)

module _ {ℓ} {A : Type ℓ} (p : A → Bool) where
  cons-Elem :
      (a x : A) (xs ys : List A)
      → p x ≡ true
      → (Elem a ys → Elem a xs × (p a ≡ true))
      → Elem a (x ∷ ys)
      → Elem a (x ∷ xs) × (p a ≡ true)
  cons-Elem a x xs ys h rec (here q) = (here q, rw q h)
  cons-Elem a x xs ys h rec (there t) = let r = rec t in (there r.0, r.1)

  pub filter-Elem : (a : A) (xs : List A) → Elem a (filter p xs) → Elem a xs × (p a ≡ true)
  filter-Elem a [] e = elim e [ ]
  filter-Elem a (x ∷ xs) e = elim (Bool-cases (p x)) [
    | inl h ↦ cons-Elem a x xs (filter p xs) h (filter-Elem a xs) (rw h at e)
    | inr h ↦ let r = filter-Elem a xs (rw h at e) in (there r.0, r.1)
  ]

  pub Elem-filter : (a : A) (xs : List A) → Elem a xs → p a ≡ true → Elem a (filter p xs)
  Elem-filter a [] e h = elim e [ ]
  Elem-filter a (x ∷ xs) (here q) h = rw (← q, h) (here refl)
  Elem-filter a (x ∷ xs) (there t) h = elim (Bool-cases (p x)) [
    | inl k ↦ rw k (there (Elem-filter a xs t h))
    | inr k ↦ rw k (Elem-filter a xs t h)
  ]

  pub filter-filter :
      (q : A → Bool) (xs : List A) → filter p (filter q xs) ≡ filter (λ x. q x && p x) xs
  filter-filter q [] = refl
  filter-filter q (x ∷ xs) = ground (arith, filter-filter q xs)

  pub filter-nonempty : (xs : List A) → is_empty (filter p xs) ≡ false → is_empty xs ≡ false
  filter-nonempty [] h = h
  filter-nonempty (x ∷ xs) h = refl

  pub find-true : (a : A) (xs : List A) → find p xs ≡ some a → p a ≡ true
  find-true a [] e = cc
  find-true a (x ∷ xs) e = elim (Bool-cases (p x)) [
    | inl h ↦ let q : some x ≡ some a = rw h at e in subst (λ y. p y ≡ true) (cc) h
    | inr h ↦ find-true a xs (rw h at e)
  ]

  pub any-Elem : (xs : List A) → any p xs ≡ true → (a : A) × Elem a xs × (p a ≡ true)
  any-Elem [] e = cc
  any-Elem (x ∷ xs) e = elim (Bool-cases (p x)) [
    | inl k ↦ (x, here refl, k)
    | inr k ↦ let (a, t, h) = any-Elem xs (rw k at e) in (a, there t, h)
  ]

  pub any-nonempty : (xs : List A) → any p xs ≡ true → is_empty xs ≡ false
  any-nonempty [] e = cc
  any-nonempty (x ∷ xs) e = refl

  pub Elem-any : (a : A) (xs : List A) → Elem a xs → p a ≡ true → any p xs ≡ true
  Elem-any a [] e h = elim e [ ]
  Elem-any a (x ∷ xs) (here q) h = rw (← q, h)
  Elem-any a (x ∷ xs) (there t) h = ground (arith, Elem-any a xs t h)

module _ {ℓ κ} {A : Type ℓ} (P : A → Type κ) where
  pub All-elem : (a : A) (xs : List A) → All P xs → Elem a xs → P a
  All-elem a [] h e = elim e [ ]
  All-elem a (x ∷ xs) h (here q) = subst P (sym q) h.0
  All-elem a (x ∷ xs) h (there t) = All-elem a xs h.1 t

  pub All-of_Elem : (xs : List A) → ((a : A) → Elem a xs → P a) → All P xs
  All-of_Elem [] f = tt
  All-of_Elem (x ∷ xs) f = (f x (here refl), All-of_Elem xs (λ a t. f a (there t)))

  pub All-append : (xs ys : List A) → All P xs → All P ys → All P (xs ++ ys)
  All-append [] ys h k = k
  All-append (x ∷ xs) ys h k = (h.0, All-append xs ys h.1 k)

  pub All-split : (xs ys : List A) → All P (xs ++ ys) → All P xs × All P ys
  All-split [] ys h = (tt, h)
  All-split (x ∷ xs) ys h = let r = All-split xs ys h.1 in ((h.0, r.0), r.1)

module _ {ℓ κ} {A : Type ℓ} {B : Type κ} (f : A → B) where
  pub map-Elem : (b : B) (xs : List A) → Elem b (map f xs) → (a : A) × Elem a xs × (b ≡ f a)
  map-Elem b [] e = elim e [ ]
  map-Elem b (x ∷ xs) (here q) = (x, here refl, q)
  map-Elem b (x ∷ xs) (there t) = let (a, e, q) = map-Elem b xs t in (a, there e, q)

  pub Elem-map : (a : A) (xs : List A) → Elem a xs → Elem (f a) (map f xs)
  Elem-map a [] e = elim e [ ]
  Elem-map a (x ∷ xs) (here q) = here (ap f q)
  Elem-map a (x ∷ xs) (there t) = there (Elem-map a xs t)

  pub length-map : (xs : List A) → length (map f xs) ≡ length xs
  length-map [] = refl
  length-map (x ∷ xs) = ap suc (length-map xs)

module _ {ℓ κ μ} {A : Type ℓ} (P : A → Type κ) (Q : A → Type μ) where
  pub All-imp : (xs : List A) → ((a : A) → P a → Q a) → All P xs → All Q xs
  All-imp [] f h = tt
  All-imp (x ∷ xs) f h = (f x h.0, All-imp xs f h.1)

module _ {ℓ κ} {A : Type ℓ} (P : A → Type κ) where
  pub get_elem?-All : (xs : List A) (i : ℕ) (a : A) → All P xs → get_elem? xs i ≡ some a → P a
  get_elem?-All [] i a h e = cc
  get_elem?-All (x ∷ xs) zero a h e = subst P (cc) h.0
  get_elem?-All (x ∷ xs) (suc i) a h e = get_elem?-All xs i a h.1 e

module _ {ℓ} {A : Type ℓ} (p : A → Bool) where
  pub length-filter-le : (xs : List A) → length (filter p xs) ≤ length xs
  length-filter-le [] = omega arith
  length-filter-le (x ∷ xs) = ground (arith, length-filter-le xs)

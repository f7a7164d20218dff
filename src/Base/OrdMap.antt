-- ===== src/Base/OrdMap.antt =====
-- `BTreeMap` with natural-number keys: an association list with increasing keys.
use subbier.Base.Tests.{ltb, ◌==◌, if◌then◌else◌, filter_some, is_some}
use Prim.Native.Nat.{ℕ, suc, ◌≤◌, ◌<◌}
use mathlib.Core.Path.{◌≡◌, refl}
use mathlib.Core.Bool.{Bool}
use mathlib.Core.Option.{Option, none, some}
use mathlib.Core.List.{List, [], ◌∷◌}
use native.Mathlib.Omega.{arith}

abbrev pub OrdMap {ℓ} : Type ℓ → Type ℓ
OrdMap V = List (ℕ × V)

module _ {ℓ} {V : Type ℓ} where
  unfoldable pub lookup : ℕ → OrdMap V → Option V
  lookup k [] = none
  lookup k ((j, v) ∷ m) = if j == k then some v else lookup k m

  unfoldable pub insert : ℕ → V → OrdMap V → OrdMap V
  insert k v [] = (k, v) ∷ []
  insert k v ((j, w) ∷ m) =
      if ltb k j then (k, v) ∷ (j, w) ∷ m else if j == k then (k, v) ∷ m else (j, w) ∷ insert k v m

  unfoldable pub remove : ℕ → OrdMap V → OrdMap V
  remove k [] = []
  remove k ((j, w) ∷ m) = if j == k then m else (j, w) ∷ remove k m

  -- `BTreeMap::retain`, by a test on the value.
  unfoldable pub retain : (V → Bool) → OrdMap V → OrdMap V
  retain p [] = []
  retain p ((j, w) ∷ m) = if p w then (j, w) ∷ retain p m else retain p m

  abbrev pub contains_key : ℕ → OrdMap V → Bool
  contains_key k m = is_some (lookup k m)

  -- The keys increase strictly, from `b` on.
  abbrev pub From : ℕ → OrdMap V → Type 0
  From b [] = Unit {0}
  From b ((j, v) ∷ m) = (b ≤ j) × From (suc j) m

  From-mono : {a b : ℕ} (m : OrdMap V) → a ≤ b → From b m → From a m
  From-mono [] h f = tt
  From-mono ((j, v) ∷ m) h f = (omega arith, f.1)

  pub lookup-below : (q b : ℕ) (m : OrdMap V) → From b m → q < b → lookup q m ≡ none
  unfolding lookup
  lookup-below q b [] f h = refl
  lookup-below q b ((j, v) ∷ m) f h = ground (arith, lookup-below q (suc j) m f.1)

  pub lookup-insert :
      (k q : ℕ) (v : V) (m : OrdMap V)
      → lookup q (insert k v m) ≡ (if k == q then some v else lookup q m)
  unfolding lookup insert
  lookup-insert k q v [] = ground arith
  lookup-insert k q v ((j, w) ∷ m) = ground (arith, lookup-insert k q v m)

  pub lookup-remove :
      (k q b : ℕ) (m : OrdMap V)
      → From b m
      → lookup q (remove k m) ≡ (if k == q then none else lookup q m)
  unfolding lookup remove
  lookup-remove k q b [] f = ground arith
  lookup-remove k q b ((j, w) ∷ m) f =
      ground (arith, lookup-remove k q (suc j) m f.1, lookup-below q (suc j) m f.1)

  pub lookup-retain :
      (p : V → Bool) (q b : ℕ) (m : OrdMap V)
      → From b m
      → lookup q (retain p m) ≡ filter_some p (lookup q m)
  unfolding lookup retain
  lookup-retain p q b [] f = refl
  lookup-retain p q b ((j, w) ∷ m) f =
      ground (arith, lookup-retain p q (suc j) m f.1, lookup-below q (suc j) m f.1)

  insert-From : (k b : ℕ) (v : V) (m : OrdMap V) → b ≤ k → From b m → From b (insert k v m)
  unfolding insert
  insert-From k b v [] h f = (h, tt)
  insert-From k b v ((j, w) ∷ m) h f =
      ground (arith, insert-From k (suc j) v m, From-mono {a = suc k} {b = suc j} m)

  remove-From : (k b : ℕ) (m : OrdMap V) → From b m → From b (remove k m)
  unfolding remove
  remove-From k b [] f = tt
  remove-From k b ((j, w) ∷ m) f =
      ground (arith, remove-From k (suc j) m f.1, From-mono {a = b} {b = suc j} m)

  retain-From : (p : V → Bool) (b : ℕ) (m : OrdMap V) → From b m → From b (retain p m)
  unfolding retain
  retain-From p b [] f = tt
  retain-From p b ((j, w) ∷ m) f =
      ground (arith, retain-From p (suc j) m f.1, From-mono {a = b} {b = suc j} (retain p m))

  -- The keys increase.
  abbrev pub IsSorted : OrdMap V → Type 0
  IsSorted m = From 0 m

  pub insert-IsSorted : (k : ℕ) (v : V) (m : OrdMap V) → IsSorted m → IsSorted (insert k v m)
  insert-IsSorted k v m f = insert-From k 0 v m (omega arith) f

  pub remove-IsSorted : (k : ℕ) (m : OrdMap V) → IsSorted m → IsSorted (remove k m)
  remove-IsSorted k m f = remove-From k 0 m f

  pub retain-IsSorted : (p : V → Bool) (m : OrdMap V) → IsSorted m → IsSorted (retain p m)
  retain-IsSorted p m f = retain-From p 0 m f

-- ===== src/Base/Comparator.antt =====
-- Rust's `Ordering` with `then_with`, and the comparators that are total orders.
use Prim.Native.Nat.{ℕ, compare, Ordering}
use mathlib.Core.Path.{◌≡◌}
use mathlib.Core.Logic.{◌≢◌}
use native.Mathlib.Omega.{arith}

abbrev pub flip : Ordering → Ordering
flip Ordering.lt = Ordering.gt
flip Ordering.eq = Ordering.eq
flip Ordering.gt = Ordering.lt

-- `Ordering::then_with`: the second comparison decides where the first is a tie.
abbrev pub then_with : Ordering → Ordering → Ordering
then_with Ordering.lt o = Ordering.lt
then_with Ordering.eq o = o
then_with Ordering.gt o = Ordering.gt

module _ {ℓ} {A : Type ℓ} where
  -- A comparator that a sort or a minimum may be taken by: it turns round with its arguments, and
  -- what is not greater chains.
  pub record IsOrder (cmp : A → A → Ordering) : Type ℓ where
    pub turn : (a b : A) → cmp b a ≡ flip (cmp a b)
    pub chain : (a b c : A) → cmp a b ≢ Ordering.gt → cmp b c ≢ Ordering.gt → cmp a c ≢ Ordering.gt

  pub on-IsOrder : (key : A → ℕ) → IsOrder (λ a b. compare (key a) (key b))
  on-IsOrder key = record { turn = λ a b. ground arith; chain = λ a b c h k e. ground arith }

  pub reverse-IsOrder : (key : A → ℕ) → IsOrder (λ a b. compare (key b) (key a))
  reverse-IsOrder key = record { turn = λ a b. ground arith; chain = λ a b c h k e. ground arith }

  pub then_with-IsOrder :
      (f g : A → A → Ordering) → IsOrder f → IsOrder g → IsOrder (λ a b. then_with (f a b) (g a b))
  then_with-IsOrder f g o p = record {
    turn = λ a b. ground (arith, o.turn a b, p.turn a b);
    chain = λ a b c h k e. ground (
      arith,
      o.turn a b,
      o.turn b c,
      o.turn a c,
      o.chain a b c,
      o.chain b c a,
      o.chain c a b,
      p.chain a b c,
    );
  }

-- ===== src/Auth/Joining.antt =====
-- Which refresh a caller of TokenManager::ensure_fresh joins, auth/mod.rs.
use subbier.Base.{
  ℕ, ◌≡◌, ◌≢◌, inl, inr, ap, ◌∙◌, true, false, Option, none, some, arith, ◌==◌, Bool-cases,
  Option-cases,
}
use subbier.Auth.{
  Refreshing, Cell, vacant, driven, settled, Caller, awaiting, returned, Manager, update,
  cell_found, cell_for, is_current, retire, Step, join, start, settle_cell, leave, drop_driver,
  drop_waiter, Reach, begun, next,
}
use subbier.Auth.Flight.{key_of, open_key, value_of, IsFlight, update-cases, update-same}
use subbier.Auth.Flight.Steps.{Reach-IsFlight, retire-cells}

open_cell : (o : Option Cell) (k : ℕ) → key_of o ≡ some k → value_of o ≡ none → open_key o ≡ some k
open_cell none k h v = absurd (cc)
open_cell (some (vacant key)) k h v = h
open_cell (some (driven key by)) k h v = h
open_cell (some (settled key r)) k h v = absurd (cc)

-- However the callers interleave and whichever of them are dropped: while a caller waits for a
-- refresh of an account that has no result yet, every other caller that waits for one of that account
-- without a result waits for the same, and a caller that asks for the account now joins it.
pub waiting-joined :
    (m : Manager) (key x y c d : ℕ)
    → Reach m
    → m.callers c ≡ some (awaiting key x)
    → value_of (m.cells x) ≡ none
    → m.callers d ≡ some (awaiting key y)
    → value_of (m.cells y) ≡ none
    → (x ≡ y) × (cell_for key m ≡ (m, (x, true)))
unfolding cell_for
waiting-joined m key x y c d r a v b w =
    let f = Reach-IsFlight r in
    let i : m.inflight key ≡ some x =
      f.registered x key (open_cell (m.cells x) key (f.awaited c key x a) v) in
    let j : m.inflight key ≡ some y =
      f.registered y key (open_cell (m.cells y) key (f.awaited d key y b) w) in
    (cc, ap (cell_found key m) i)

module _ {m : Manager} (f : IsFlight m) where
  -- After `retire` of a cell that stands for the account, no account has it.
  retire-gone :
      (key cell k : ℕ)
      → key_of (m.cells cell) ≡ some key
      → (retire key cell m).inflight k ≢ some cell
  unfolding retire
  retire-gone key cell k h e = elim (Bool-cases (is_current cell (m.inflight key))) [
    | inl y ↦
        let z : update key none m.inflight k ≡ some cell = rw y at e in
        elim (update-cases key k none m.inflight) [
          | inl (q, u) ↦ let w : none ≡ some cell = rw u at z in cc
          | inr u ↦
              let v : m.inflight k ≡ some cell = rw u at z in
              let g = f.mapped k cell v in
              let q : k ≡ key = cc in
              let t : update key none m.inflight key ≡ some cell = rw q at z in
              let s = update-same key none m.inflight in let w : none ≡ some cell = rw s at t in cc
        ]
    | inr n ↦
        let z : m.inflight k ≡ some cell = rw n at e in
        let g = f.mapped k cell z in
        let q : k ≡ key = cc in
        let w : m.inflight key ≡ some cell = rw q at z in
        let s : (cell == cell) ≡ false = rw w at n in ground (arith, s)
  ]

  -- `retire` adds nothing to the map.
  retire-inflight :
      (key cell k x : ℕ) → (retire key cell m).inflight k ≡ some x → m.inflight k ≡ some x
  unfolding retire
  retire-inflight key cell k x e = elim (Bool-cases (is_current cell (m.inflight key))) [
    | inr n ↦ rw n at e
    | inl y ↦
        let z : update key none m.inflight k ≡ some x = rw y at e in
        elim (update-cases key k none m.inflight) [
          | inl (q, u) ↦ absurd (let w : none ≡ some x = rw u at z in cc)
          | inr u ↦ rw u at z
        ]
  ]

-- The cells that callers have returned from are in the map no more.
Retired : Manager → Type 0
Retired m = (c k x : ℕ) (r : Refreshing) → m.callers c ≡ some (returned x r) → m.inflight k ≢ some x

-- A caller that changes to something else than having returned.
set_caller-Retired :
    (m : Manager) (c : ℕ) (o : Option Caller)
    → ((x : ℕ) (r : Refreshing) → o ≢ some (returned x r))
    → Retired m
    → Retired (record m { callers = update c o m.callers })
unfolding Retired
set_caller-Retired m c o n h d k x r e = elim (update-cases c d o m.callers) [
  | inl (q, u) ↦ absurd (n x r (rw u at e))
  | inr u ↦ h d k x r (rw u at e)
]

-- No caller has returned from a cell that is still to be made.
not_next :
    (m : Manager)
    → IsFlight m
    → (d x : ℕ) (r : Refreshing) → m.callers d ≡ some (returned x r)
    → m.next ≢ x
not_next m f d x r e y =
    let v = f.shared d x r e in
    let w : value_of (m.cells m.next) ≡ some r = rw (← y) at v in
    let n = f.unused m.next (omega arith) in let t : value_of none ≡ some r = rw n at w in cc

cell_found-Retired :
    (m : Manager) (key : ℕ) (o : Option ℕ) → IsFlight m → Retired m → Retired (cell_found key m o).0
unfolding Retired
cell_found-Retired m key (some x) f h = h
cell_found-Retired m key none f h = λ d k x r e i.
    elim (update-cases key k (some m.next) m.inflight) [
      | inl (q, u) ↦
          let z : some m.next ≡ some x = rw u at i in
          let y : m.next ≡ x = cc in not_next m f d x r e y
      | inr u ↦ h d k x r e (rw u at i)
    ]

retire-callers : (key cell : ℕ) (m : Manager) → (retire key cell m).callers ≡ m.callers
retire-callers key cell m = (retire-cells key cell m).1

step-Retired : {m n : Manager} → Step m n → IsFlight m → Retired m → Retired n
unfolding Retired cell_for
step-Retired (join m c key a) f h =
    set_caller-Retired (cell_for key m).0 c (some (awaiting key (cell_for key m).1.0)) (λ x r e. cc)
      (cell_found-Retired m key (m.inflight key) f h)
step-Retired (start m c key cell owner a e) f h = h
step-Retired (settle_cell m c key cell owner r a e) f h = h
step-Retired (leave m c key cell owner r a e) f h = λ d k x s i j.
    elim (update-cases c d (some (returned cell r)) (retire key cell m).callers) [
      | inl (q, u) ↦
          let z : some (returned cell r) ≡ some (returned x s) = rw u at i in
          let y : x ≡ cell = cc in retire-gone f key cell k (f.awaited c key cell a) (rw y at j)
      | inr u ↦
          let z : (retire key cell m).callers d ≡ some (returned x s) = rw u at i in
          h d k x s (rw (retire-callers key cell m) at z) (retire-inflight f key cell k x j)
    ]
step-Retired (drop_driver m c key cell owner a e) f h = set_caller-Retired m c none (λ x r e. cc) h
step-Retired (drop_waiter m c key cell a n) f h = set_caller-Retired m c none (λ x r e. cc) h

Reach-Retired : {m : Manager} → Reach m → Retired m
unfolding Retired
Reach-Retired begun = λ c k x r e i. cc
Reach-Retired (next h s) = step-Retired s (Reach-IsFlight h) (Reach-Retired h)

-- However the callers interleave: once a caller has returned from a refresh, nobody joins it any more;
-- a caller that asks for its account then gets another refresh.
pub returned-not_joined :
    (m : Manager) (key c x : ℕ) (r : Refreshing)
    → Reach m
    → m.callers c ≡ some (returned x r)
    → (cell_for key m).1.0 ≢ x
unfolding Retired cell_for
returned-not_joined m key c x r h e q =
    let f = Reach-IsFlight h in
    elim (Option-cases (m.inflight key)) [
      | inl n ↦ let z : m.next ≡ x = rw n at q in not_next m f c x r e z
      | inr (y, i) ↦ let z : y ≡ x = rw i at q in Reach-Retired h c key x r e (i ∙ ap some z)
    ]

-- ===== src/Auth/Flight/Steps.antt =====
-- The steps of the callers of the TokenManager of auth/mod.rs.
use subbier.Base.{ℕ, ◌≡◌, inl, inr, refl, ap, true, Option, none, some, arith, Bool-cases}
use subbier.Auth.{
  Refreshing, Cell, vacant, driven, settled, awaiting, returned, Manager, update, cell_found,
  cell_for, is_current, retire, Step, join, start, settle_cell, leave, drop_driver, drop_waiter,
  Reach, begun, next,
}
use subbier.Auth.Flight.{
  open_key, driver_of, cell_of, IsFlight, update-cases, update-same, set_cell-IsFlight,
  set_caller-IsFlight, cell_found-IsFlight,
}

current_cell : (cell : ℕ) (o : Option ℕ) → is_current cell o ≡ true → o ≡ some cell
current_cell cell none h = absurd (cc)
current_cell cell (some current) h = let q : current ≡ cell = ground arith in ap some q

retire-IsFlight :
    (key cell owner : ℕ) (r : Refreshing) (m : Manager)
    → IsFlight m
    → m.cells cell ≡ some (settled owner r)
    → IsFlight (retire key cell m)
unfolding retire
retire-IsFlight key cell owner r m f e = elim (Bool-cases (is_current cell (m.inflight key))) [
  | inr h ↦ rw h f
  | inl h ↦ rw h (record {
    registered = λ x k i.
        let g = f.registered x k i in
        elim (update-cases key k none m.inflight) [
          | inl (q, u) ↦ absurd (
              let c = current_cell cell (m.inflight key) h in
              let z : m.inflight key ≡ some x = rw q at g in
              let y : some x ≡ some cell = cc in
              let w : x ≡ cell = cc in
              let v : open_key (m.cells cell) ≡ some k = rw w at i in
              let t : open_key (some (settled owner r)) ≡ some k = rw e at v in cc)
          | inr u ↦ rw u g
        ];
    unused = f.unused;
    mapped = λ k x i. elim (update-cases key k none m.inflight) [
      | inl (q, u) ↦ absurd (let z : none ≡ some x = rw u at i in cc)
      | inr u ↦ f.mapped k x (rw u at i)
    ];
    awaited = f.awaited;
    driving = f.driving;
    shared = f.shared;
  })
]

driven_by : (o : Option Cell) (c : ℕ) → driver_of o ≡ some c → (k : ℕ) × (o ≡ some (driven k c))
driven_by none c h = absurd (cc)
driven_by (some (vacant key)) c h = absurd (cc)
driven_by (some (driven key by)) c h = (key, let q : by ≡ c = cc in rw q refl)
driven_by (some (settled key r)) c h = absurd (cc)

pub retire-cells :
    (key cell : ℕ) (m : Manager)
    → ((retire key cell m).cells ≡ m.cells) × ((retire key cell m).callers ≡ m.callers)
unfolding retire
retire-cells key cell m = elim (Bool-cases (is_current cell (m.inflight key))) [
  | inr h ↦ rw h (refl, refl)
  | inl h ↦ rw h (refl, refl)
]

-- What a caller that waits for a cell can drive.
drives_own :
    {m : Manager} (c key cell x : ℕ)
    → IsFlight m
    → m.callers c ≡ some (awaiting key cell)
    → driver_of (m.cells x) ≡ some c
    → x ≡ cell
drives_own c key cell x f h d =
    let g = f.driving x c d in let z : cell_of (some (awaiting key cell)) ≡ some x = rw h at g in cc

cell_found-callers :
    (key : ℕ) (m : Manager) (o : Option ℕ) → (cell_found key m o).0.callers ≡ m.callers
cell_found-callers key m none = refl
cell_found-callers key m (some x) = refl

step-IsFlight : {m n : Manager} → Step m n → IsFlight m → IsFlight n
unfolding cell_for
step-IsFlight (join m c key e) f =
    let (g, k) = cell_found-IsFlight m key (m.inflight key) f refl in
    set_caller-IsFlight (cell_for key m).0 c (some (awaiting key (cell_for key m).1.0)) g
      (λ j x h.
        let p : (cell_found key m (m.inflight key)).1.0 ≡ x = cc in
        let q : key ≡ j = cc in rw (← p, ← q) k)
      (λ x d. absurd (
        let i = g.driving x c d in
        let z : cell_of (m.callers c) ≡ some x =
          rw (cell_found-callers key m (m.inflight key)) at i in
        let y : cell_of none ≡ some x = rw e at z in cc))
      (λ x r h. absurd (cc))
step-IsFlight (start m c key cell owner e v) f =
    set_cell-IsFlight m cell owner (driven owner c) f (rw v refl) refl
      (λ d h. let q : c ≡ d = cc in rw (← q, e) refl)
step-IsFlight (settle_cell m c key cell owner r e v) f =
    set_cell-IsFlight m cell owner (settled owner r) f (rw v refl) refl (λ d h. absurd (cc))
step-IsFlight (leave m c key cell owner r e v) f =
    let g = retire-IsFlight key cell owner r m f v in
    let (s, t) = retire-cells key cell m in
    set_caller-IsFlight (retire key cell m) c (some (returned cell r)) g (λ j x h. absurd (cc))
      (λ x d. absurd (
        let i : driver_of (m.cells x) ≡ some c = rw s at d in
        let q = drives_own c key cell x f e i in
        let z : driver_of (m.cells cell) ≡ some c = rw q at i in
        let y : driver_of (some (settled owner r)) ≡ some c = rw v at z in cc))
      (λ x q h. let i : cell ≡ x = cc in let j : r ≡ q = cc in rw (s, ← i, ← j, v) refl)
step-IsFlight (drop_driver m c key cell owner e v) f =
    let n : Manager = record m { cells = update cell (some (vacant owner)) m.cells } in
    let g = set_cell-IsFlight m cell owner (vacant owner) f (rw v refl) refl (λ d h. absurd (cc)) in
    set_caller-IsFlight n c none g (λ j x h. absurd (cc))
      (λ x d. absurd (elim (update-cases cell x (some (vacant owner)) m.cells) [
        | inl (q, u) ↦ let z : driver_of (some (vacant owner)) ≡ some c = rw u at d in cc
        | inr u ↦
            let q = drives_own c key cell x f e (rw u at d) in
            let i : driver_of (update cell (some (vacant owner)) m.cells cell) ≡ some c =
              rw q at d in
            let z : driver_of (some (vacant owner)) ≡ some c =
              rw (update-same cell (some (vacant owner)) m.cells) at i in
            cc
      ]))
      (λ x q h. absurd (cc))
step-IsFlight (drop_waiter m c key cell e v) f =
    set_caller-IsFlight m c none f (λ j x h. absurd (cc))
      (λ x d. absurd (
        let q = drives_own c key cell x f e d in
        let i : driver_of (m.cells cell) ≡ some c = rw q at d in
        let (k, z) = driven_by (m.cells cell) c i in v k z))
      (λ x q h. absurd (cc))

pub Reach-IsFlight : {m : Manager} → Reach m → IsFlight m
Reach-IsFlight begun = record {
  registered = λ x k h. absurd (cc);
  unused = λ x l. refl;
  mapped = λ k x h. absurd (cc);
  awaited = λ c k x h. absurd (cc);
  driving = λ x c h. absurd (cc);
  shared = λ c x r h. absurd (cc);
}
Reach-IsFlight (next r s) = step-IsFlight s (Reach-IsFlight r)

-- ===== src/Auth/Flight.antt =====
-- The cells and callers of the TokenManager of auth/mod.rs: what holds in every state, under the
-- changes of one cell, of one caller and of cell_for.
pub mod Steps
use subbier.Base.{
  ℕ, suc, ◌+◌, ◌≤◌, ◌≡◌, ◌≢◌, ◌⊎◌, inl, inr, refl, sym, ap, subst, Bool, true, false, Option, none,
  some, if◌then◌else◌, ◌==◌, arith, Bool-cases, Option-cases, ==_iff,
}
use subbier.Auth.{
  Refreshing, failed, Cell, vacant, driven, settled, Caller, awaiting, returned, Manager,
  new_manager, update, cell_found, cell_for, is_current, retire, Step, join, start, settle_cell,
  leave, drop_driver, drop_waiter, Reach, begun, next,
}

-- The account of a cell, of one without a value yet, and the value.
abbrev pub key_of : Option Cell → Option ℕ
key_of none = none
key_of (some (vacant key)) = some key
key_of (some (driven key by)) = some key
key_of (some (settled key r)) = some key

abbrev pub open_key : Option Cell → Option ℕ
open_key none = none
open_key (some (vacant key)) = some key
open_key (some (driven key by)) = some key
open_key (some (settled key r)) = none

abbrev pub value_of : Option Cell → Option Refreshing
value_of (some (settled key r)) = some r
value_of _ = none

abbrev pub driver_of : Option Cell → Option ℕ
driver_of (some (driven key by)) = some by
driver_of _ = none

abbrev pub cell_of : Option Caller → Option ℕ
cell_of (some (awaiting key cell)) = some cell
cell_of _ = none

-- A cell without a value is the one in the map; the cells in the map and those that callers wait for
-- are of the right account; a driver waits for what it drives; a caller that is done has the value of
-- its cell.
pub record IsFlight (m : Manager) : Type 0 where
  pub registered : (x k : ℕ) → open_key (m.cells x) ≡ some k → m.inflight k ≡ some x
  pub unused : (x : ℕ) → m.next ≤ x → m.cells x ≡ none
  pub mapped : (k x : ℕ) → m.inflight k ≡ some x → key_of (m.cells x) ≡ some k
  pub awaited : (c k x : ℕ) → m.callers c ≡ some (awaiting k x) → key_of (m.cells x) ≡ some k
  pub driving : (x c : ℕ) → driver_of (m.cells x) ≡ some c → cell_of (m.callers c) ≡ some x
  pub shared :
      (c x : ℕ) (r : Refreshing) → m.callers c ≡ some (returned x r) → value_of (m.cells x) ≡ some r

pub update-cases :
    {A : Type 0} (k j : ℕ) (a : A) (f : ℕ → A)
    → ((j ≡ k) × (update k a f j ≡ a)) ⊎ (update k a f j ≡ f j)
update-cases k j a f = elim (Bool-cases (j == k)) [
  | inl e ↦ inl (ground arith, rw e refl)
  | inr e ↦ inr (rw e refl)
]

open_key-facts :
    (o : Option Cell) (k : ℕ) → open_key o ≡ some k → (key_of o ≡ some k) × (value_of o ≡ none)
open_key-facts none k h = absurd (cc)
open_key-facts (some (vacant key)) k h = (h, refl)
open_key-facts (some (driven key by)) k h = (h, refl)
open_key-facts (some (settled key r)) k h = absurd (cc)

pub update-same : {A : Type 0} (k : ℕ) (a : A) (f : ℕ → A) → update k a f k ≡ a
update-same k a f = let e : (k == k) ≡ true = ground arith in rw e refl

-- A cell without a value changes, and keeps its account.
pub set_cell-IsFlight :
    (m : Manager) (x k : ℕ) (v : Cell)
    → IsFlight m
    → open_key (m.cells x) ≡ some k
    → key_of (some v) ≡ some k
    → ((c : ℕ) → driver_of (some v) ≡ some c → cell_of (m.callers c) ≡ some x)
    → IsFlight (record m { cells = update x (some v) m.cells })
set_cell-IsFlight m x k v f o q d = record {
  registered = λ y j h. elim (update-cases x y (some v) m.cells) [
    | inl (e, u) ↦
        let g = open_key-facts (some v) j (rw u at h) in
        let i = f.registered x k o in let a = g.0 in cc
    | inr u ↦ f.registered y j (rw u at h)
  ];
  unused = λ y l. elim (update-cases x y (some v) m.cells) [
    | inl (e, u) ↦ absurd (
        let n : m.cells x ≡ none = rw e at (f.unused y l) in
        let z : open_key none ≡ some k = rw n at o in cc)
    | inr u ↦ rw u (f.unused y l)
  ];
  mapped = λ j y h. elim (update-cases x y (some v) m.cells) [
    | inl (e, u) ↦ rw u (
        let a = (open_key-facts (m.cells x) k o).0 in
        let b : key_of (m.cells x) ≡ some j = rw e at (f.mapped j y h) in cc)
    | inr u ↦ rw u (f.mapped j y h)
  ];
  awaited = λ c j y h. elim (update-cases x y (some v) m.cells) [
    | inl (e, u) ↦ rw u (
        let a = (open_key-facts (m.cells x) k o).0 in
        let b : key_of (m.cells x) ≡ some j = rw e at (f.awaited c j y h) in cc)
    | inr u ↦ rw u (f.awaited c j y h)
  ];
  driving = λ y c h. elim (update-cases x y (some v) m.cells) [
    | inl (e, u) ↦ rw e (d c (rw u at h))
    | inr u ↦ f.driving y c (rw u at h)
  ];
  shared = λ c y r h. elim (update-cases x y (some v) m.cells) [
    | inl (e, u) ↦ absurd (
        let a = (open_key-facts (m.cells x) k o).1 in
        let b : value_of (m.cells x) ≡ some r = rw e at (f.shared c y r h) in cc)
    | inr u ↦ rw u (f.shared c y r h)
  ];
}

-- A caller changes that drives nothing afterwards but what it waits for.
pub set_caller-IsFlight :
    (m : Manager) (c : ℕ) (o : Option Caller)
    → IsFlight m
    → ((k x : ℕ) → o ≡ some (awaiting k x) → key_of (m.cells x) ≡ some k)
    → ((x : ℕ) → driver_of (m.cells x) ≡ some c → cell_of o ≡ some x)
    → ((x : ℕ) (r : Refreshing) → o ≡ some (returned x r) → value_of (m.cells x) ≡ some r)
    → IsFlight (record m { callers = update c o m.callers })
set_caller-IsFlight m c o f a d s = record {
  registered = f.registered;
  unused = f.unused;
  mapped = f.mapped;
  awaited = λ e k x h. elim (update-cases c e o m.callers) [
    | inl (q, u) ↦ a k x (rw u at h)
    | inr u ↦ f.awaited e k x (rw u at h)
  ];
  driving = λ x e h. elim (update-cases c e o m.callers) [
    | inl (q, u) ↦ rw u (d x (rw q at h))
    | inr u ↦ rw u (f.driving x e h)
  ];
  shared = λ e x r h. elim (update-cases c e o m.callers) [
    | inl (q, u) ↦ s x r (rw u at h)
    | inr u ↦ f.shared e x r (rw u at h)
  ];
}

-- Without a refresh in flight for the account there is none without a value.
pub cell_found-IsFlight :
    (m : Manager) (key : ℕ) (o : Option ℕ)
    → IsFlight m
    → m.inflight key ≡ o
    → IsFlight (cell_found key m o).0
      × (key_of ((cell_found key m o).0.cells (cell_found key m o).1.0) ≡ some key)
cell_found-IsFlight m key (some x) f e = (f, f.mapped key x e)
cell_found-IsFlight m key none f e = (
  record {
    registered = λ x k h. elim (update-cases m.next x (some (vacant key)) m.cells) [
      | inl (q, u) ↦
          let z : some key ≡ some k = rw u at h in
          let s = update-same key (some m.next) m.inflight in cc
      | inr u ↦
          let i = f.registered x k (rw u at h) in
          elim (update-cases key k (some m.next) m.inflight) [
            | inl (q, w) ↦ absurd (let z : m.inflight key ≡ some x = rw q at i in cc)
            | inr w ↦ rw w i
          ]
    ];
    unused = λ x l. elim (update-cases m.next x (some (vacant key)) m.cells) [
      | inl (q, u) ↦ absurd (omega (arith, l, q))
      | inr u ↦ rw u (f.unused x (omega (arith, l)))
    ];
    mapped = λ k x h. elim (update-cases key k (some m.next) m.inflight) [
      | inl (q, u) ↦
          let z : some m.next ≡ some x = rw u at h in
          let s = update-same m.next (some (vacant key)) m.cells in
          let t : key_of (update m.next (some (vacant key)) m.cells m.next) ≡ some key =
            rw s refl in
          cc
      | inr u ↦ old_key k x (f.mapped k x (rw u at h))
    ];
    awaited = λ c k x h. old_key k x (f.awaited c k x h);
    driving = λ x c h. elim (update-cases m.next x (some (vacant key)) m.cells) [
      | inl (q, u) ↦ absurd (let z : driver_of (some (vacant key)) ≡ some c = rw u at h in cc)
      | inr u ↦ f.driving x c (rw u at h)
    ];
    shared = λ c x r h. elim (update-cases m.next x (some (vacant key)) m.cells) [
      | inl (q, u) ↦ absurd (
          let z : value_of (m.cells m.next) ≡ some r = rw q at (f.shared c x r h) in
          let n = f.unused m.next (omega arith) in let y : value_of none ≡ some r = rw n at z in cc)
      | inr u ↦ rw u (f.shared c x r h)
    ];
  },
  let s = update-same m.next (some (vacant key)) m.cells in rw s refl,
)
  where
    old_key :
        (k x : ℕ)
        → key_of (m.cells x) ≡ some k
        → key_of (update m.next (some (vacant key)) m.cells x) ≡ some k
    old_key k x h = elim (update-cases m.next x (some (vacant key)) m.cells) [
      | inl (q, u) ↦ absurd (
          let z : key_of (m.cells m.next) ≡ some k = rw q at h in
          let n = f.unused m.next (omega arith) in let y : key_of none ≡ some k = rw n at z in cc)
      | inr u ↦ rw u h
    ]

-- ===== src/Metrics/Gauges/Reads.antt =====
-- What each operation of proxy/metrics.rs does to the gauges.
use subbier.Base.{
  ℕ, zero, suc, ◌≤◌, ◌<◌, ◌≡◌, ◌+◌, ◌-◌, ◌^◌, ◌%◌, refl, ap, ◌∙◌, ==_iff, inl, inr, Option, none,
  some, List, [], ◌∷◌, arith, All, length, ◌==◌, Bool-cases,
}
use subbier.Base.OrdMap.{OrdMap, IsSorted, lookup, insert, lookup-insert, insert-IsSorted}
use subbier.Model.{SubId, Timestamp}
use subbier.Metrics.{
  Ref, TokenTick, Counters, Metrics, set_at, entry, entry_found, pool_entry, pool_entry_found,
  pool_refs, refs_of, on_each, started, finished, push_tick,
}
use subbier.Metrics.Gauges.{count, running_on, take_out, keep_first}

-- Every gauge reads what `f` says, and what is not allocated is not counted.
pub record Reads (f : Ref → ℕ) (m : Metrics) : Type 0 where
  pub gauge : (q : Ref) → (m.heap q).in_flight ≡ f q
  pub unused : (q : Ref) → m.next ≤ q → f q ≡ 0
  pub subs_low : (s : SubId) (r : Ref) → lookup s m.subs ≡ some r → r < m.next
  pub pools_low : (p : ℕ) (r : Ref) → lookup p m.pools ≡ some r → r < m.next
  pub subs_sorted : IsSorted m.subs

insert_low :
    (k q next r : ℕ) (m : OrdMap Ref)
    → ((s : ℕ) (r : Ref) → lookup s m ≡ some r → r < next)
    → lookup q (insert k next m) ≡ some r
    → r < suc next
insert_low k q next r m low e = elim (Bool-cases (k == q)) [
  | inl h ↦ let g = lookup-insert k q next m in ground (arith, g)
  | inr h ↦ let g = lookup-insert k q next m in let l = low q r in grind (arith, g, l)
]

entry_found-Reads :
    (f : Ref → ℕ) (sub : SubId) (m : Metrics) (o : Option Ref)
    → lookup sub m.subs ≡ o
    → Reads f m
    → Reads f (entry_found sub m o).0
      × ((entry_found sub m o).1 < (entry_found sub m o).0.next)
      × (m.next ≤ (entry_found sub m o).0.next)
entry_found-Reads f sub m (some r) e v = (v, v.subs_low sub r e, omega arith)
entry_found-Reads f sub m none e v = (
  record {
    gauge = λ q.
        let g = v.gauge q in
        let u = v.unused q in
        elim (Bool-cases (m.next == q)) [
          | inl h ↦ rw h (let z = u (ground arith) in omega (arith, z))
          | inr h ↦ rw h g
        ];
    unused = λ q h. v.unused q (omega arith);
    subs_low = λ s r h. insert_low sub s m.next r m.subs v.subs_low h;
    pools_low = λ p r h. let l = v.pools_low p r h in omega (arith, l);
    subs_sorted = insert-IsSorted sub m.next m.subs v.subs_sorted;
  },
  omega arith,
  omega arith,
)

pool_found-Reads :
    (f : Ref → ℕ) (pool : ℕ) (m : Metrics) (o : Option Ref)
    → lookup pool m.pools ≡ o
    → Reads f m
    → Reads f (pool_entry_found pool m o).0
      × ((pool_entry_found pool m o).1 < (pool_entry_found pool m o).0.next)
      × (m.next ≤ (pool_entry_found pool m o).0.next)
pool_found-Reads f pool m (some r) e v = (v, v.pools_low pool r e, omega arith)
pool_found-Reads f pool m none e v = (
  record {
    gauge = λ q.
        let g = v.gauge q in
        let u = v.unused q in
        elim (Bool-cases (m.next == q)) [
          | inl h ↦ rw h (let z = u (ground arith) in omega (arith, z))
          | inr h ↦ rw h g
        ];
    unused = λ q h. v.unused q (omega arith);
    subs_low = λ s r h. let l = v.subs_low s r h in omega (arith, l);
    pools_low = λ p r h. insert_low pool p m.next r m.pools v.pools_low h;
    subs_sorted = v.subs_sorted;
  },
  omega arith,
  omega arith,
)

-- The counters of a request are allocated, and there are at most two.
pub record Found (f : Ref → ℕ) (r : Metrics × List Ref) : Type 0 where
  pub reads : Reads f r.0
  pub low : All (λ q. q < r.0.next) r.1
  pub few : length r.1 ≤ 2

pool_refs-Found :
    (f : Ref → ℕ) (r : Ref) (m : Metrics) (pool : Option ℕ)
    → Reads f m
    → r < m.next
    → Found f (pool_refs r m pool)
unfolding pool_entry
pool_refs-Found f r m none v l = record { reads = v; low = (l, tt); few = omega arith }
pool_refs-Found f r m (some pool) v l =
    let (w, s, n) = pool_found-Reads f pool m _ refl v in
    record { reads = w; low = (omega (arith, n), (s, tt)); few = omega arith }

pub refs_of-Found :
    (f : Ref → ℕ) (sub : SubId) (pool : Option ℕ) (m : Metrics)
    → Reads f m
    → Found f (refs_of sub pool m)
unfolding refs_of entry
refs_of-Found f sub pool m v =
    let (w, s, n) = entry_found-Reads f sub m _ refl v in pool_refs-Found f _ _ pool w s

pub count-le : (q : Ref) (rs : List Ref) → count q rs ≤ length rs
unfolding count
count-le q [] = omega arith
count-le q (r ∷ rs) = ground (arith, count-le q rs)

pub count-low : (q next : Ref) (rs : List Ref) → All (λ r. r < next) rs → next ≤ q → count q rs ≡ 0
unfolding count
count-low q next [] h l = refl
count-low q next (r ∷ rs) h l = let i = count-low q next rs h.1 l in ground (arith, i)

pub on_each-started :
    (now : Timestamp) (q : Ref) (rs : List Ref) (heap : Ref → Counters)
    → (heap q).in_flight + count q rs < 2 ^ 32
    → (on_each (started now) rs heap q).in_flight ≡ (heap q).in_flight + count q rs
unfolding count
on_each-started now q [] heap h = omega arith
on_each-started now q (r ∷ rs) heap h =
    let i = on_each-started now q rs (set_at r (started now (heap r)) heap) in
    elim (Bool-cases (r == q)) [
      | inl e ↦
          let p : (heap r).in_flight ≡ (heap q).in_flight =
            ap (λ x. (heap x).in_flight) ((==_iff r q).0 e) in
          let s : (set_at r (started now (heap r)) heap q).in_flight
              ≡ ((heap r).in_flight + 1) % 2 ^ 32 =
            rw e refl in
          let c : count q (r ∷ rs) ≡ 1 + count q rs = rw e refl in
          let j = i (omega (arith, s, p, c, h)) in omega (arith, j, s, p, c, h)
      | inr e ↦
          let s : (set_at r (started now (heap r)) heap q).in_flight ≡ (heap q).in_flight =
            rw e refl in
          let c : count q (r ∷ rs) ≡ count q rs = rw e (omega arith) in
          let j = i (omega (arith, s, c, h)) in omega (arith, j, s, c, h)
    ]

pub on_each-finished :
    (q : Ref) (rs : List Ref) (heap : Ref → Counters)
    → (on_each finished rs heap q).in_flight ≡ (heap q).in_flight - count q rs
unfolding count
on_each-finished q [] heap = omega arith
on_each-finished q (r ∷ rs) heap =
    let i = on_each-finished q rs (set_at r (finished (heap r)) heap) in
    elim (Bool-cases (r == q)) [
      | inl e ↦
          let p : (heap r).in_flight ≡ (heap q).in_flight =
            ap (λ x. (heap x).in_flight) ((==_iff r q).0 e) in
          let s : (set_at r (finished (heap r)) heap q).in_flight ≡ (heap r).in_flight - 1 =
            rw e refl in
          let c : count q (r ∷ rs) ≡ 1 + count q rs = rw e refl in omega (arith, i, s, p, c)
      | inr e ↦
          let s : (set_at r (finished (heap r)) heap q).in_flight ≡ (heap q).in_flight =
            rw e refl in
          let c : count q (r ∷ rs) ≡ count q rs = rw e (omega arith) in omega (arith, i, s, c)
    ]

pub on_each-push_tick :
    (tick : TokenTick) (q : Ref) (rs : List Ref) (heap : Ref → Counters)
    → (on_each (push_tick tick) rs heap q).in_flight ≡ (heap q).in_flight
on_each-push_tick tick q [] heap = refl
on_each-push_tick tick q (r ∷ rs) heap =
    let i = on_each-push_tick tick q rs (set_at r (push_tick tick (heap r)) heap) in
    i ∙ elim (Bool-cases (r == q)) [
      | inl e ↦ rw e (ap (λ x. (heap x).in_flight) ((==_iff r q).0 e))
      | inr e ↦ rw e refl
    ]

keep_first-running :
    (q : Ref) (first : List Ref) (gs : List (List Ref)) (o : Option (List Ref × List (List Ref)))
    (g : List Ref) (rest : List (List Ref))
    → ((h : List Ref) (hs : List (List Ref))
        → o ≡ some (h, hs)
        → running_on q gs ≡ count q h + running_on q hs)
    → keep_first first o ≡ some (g, rest)
    → running_on q (first ∷ gs) ≡ count q g + running_on q rest
unfolding running_on
keep_first-running q first gs none g rest i e = cc
keep_first-running q first gs (some (h, hs)) g rest i e = let j = i h hs refl in ground (arith, j)

pub take_out-running :
    (q : Ref) (i : ℕ) (gs : List (List Ref)) (g : List Ref) (rest : List (List Ref))
    → take_out i gs ≡ some (g, rest)
    → running_on q gs ≡ count q g + running_on q rest
unfolding take_out running_on
take_out-running q i [] g rest e = cc
take_out-running q zero (h ∷ gs) g rest e = ground arith
take_out-running q (suc i) (h ∷ gs) g rest e =
    keep_first-running q h gs (take_out i gs) g rest (take_out-running q i gs) e

-- ===== src/Metrics/Gauges/Balance.antt =====
-- The gauges of proxy/metrics.rs against the requests that run.
use subbier.Base.{
  ℕ, suc, ◌≤◌, ◌<◌, ◌≡◌, ◌+◌, ◌*◌, ◌^◌, refl, sym, ◌∙◌, inl, inr, Option, none, some, List, [], ◌∷◌,
  arith, length, ◌==◌, Bool-cases,
}
use subbier.Base.OrdMap.{lookup, lookup-remove, remove-IsSorted}
use subbier.Model.{SubId, Timestamp}
use subbier.Metrics.{
  Ref, TokenTick, Metrics, new_metrics, refs_of, on_each, started, in_flight, gauge_of, drop_guard,
  push_tick, record_tokens, forget, proxied_in_flight, pool_proxied_in_flight,
}
use subbier.Metrics.Gauges.{
  count, running_on, Event, starts, ends, reports, forgets, World, take_out, end_found, step, run,
}
use subbier.Metrics.Gauges.Reads.{
  Reads, Found, refs_of-Found, count-le, count-low, on_each-started, on_each-finished,
  on_each-push_tick, take_out-running,
}

started-Reads :
    (f : Ref → ℕ) (now : Timestamp) (r : Metrics × List Ref)
    → ((q : Ref) → f q + 2 < 2 ^ 32)
    → Found f r
    → Reads (λ q. count q r.1 + f q) (record r.0 { heap = on_each (started now) r.1 r.0.heap })
started-Reads f now r room v = record {
  gauge = λ q.
      let g = v.reads.gauge q in
      let c = count-le q r.1 in
      let s = on_each-started now q r.1 r.0.heap (omega (arith, g, c, v.few, room q)) in
      omega (arith, s, g);
  unused = λ q h.
      let u = v.reads.unused q h in let c = count-low q r.0.next r.1 v.low h in omega (arith, u, c);
  subs_low = v.reads.subs_low;
  pools_low = v.reads.pools_low;
  subs_sorted = v.reads.subs_sorted;
}

pushed-Reads :
    (f : Ref → ℕ) (tick : TokenTick) (r : Metrics × List Ref)
    → Found f r
    → Reads f (record r.0 { heap = on_each (push_tick tick) r.1 r.0.heap })
pushed-Reads f tick r v = record {
  gauge = λ q. on_each-push_tick tick q r.1 r.0.heap ∙ v.reads.gauge q;
  unused = v.reads.unused;
  subs_low = v.reads.subs_low;
  pools_low = v.reads.pools_low;
  subs_sorted = v.reads.subs_sorted;
}

dropped-Reads :
    (f g : Ref → ℕ) (guard : List Ref) (m : Metrics)
    → ((q : Ref) → f q ≡ count q guard + g q)
    → Reads f m
    → Reads g (drop_guard guard m)
unfolding drop_guard
dropped-Reads f g guard m e v = record {
  gauge = λ q.
      let a = on_each-finished q guard m.heap in
      let b = v.gauge q in let c = e q in omega (arith, a, b, c);
  unused = λ q h. let b = v.unused q h in let c = e q in omega (arith, b, c);
  subs_low = v.subs_low;
  pools_low = v.pools_low;
  subs_sorted = v.subs_sorted;
}

forgotten-Reads : (f : Ref → ℕ) (sub : SubId) (m : Metrics) → Reads f m → Reads f (forget sub m)
unfolding forget
forgotten-Reads f sub m v = record {
  gauge = v.gauge;
  unused = v.unused;
  subs_low = λ s r h.
      let l = lookup-remove sub s 0 m.subs v.subs_sorted in
      let k = v.subs_low s r in
      elim (Bool-cases (sub == s)) [
        | inl e ↦ absurd (let z : none ≡ some r = sym (rw e at l) ∙ h in cc)
        | inr e ↦ k (sym (rw e at l) ∙ h)
      ];
  pools_low = v.pools_low;
  subs_sorted = remove-IsSorted sub m.subs v.subs_sorted;
}

-- The gauges are right, and no counter has more than two requests per event on it.
record Balanced (n : ℕ) (w : World) : Type 0 where
  reads : Reads (λ q. running_on q w.1) w.0
  few : (q : Ref) → running_on q w.1 ≤ 2 * n

ended-Balanced :
    (n : ℕ) (w : World) (o : Option (List Ref × List (List Ref)))
    → ((g : List Ref) (gs : List (List Ref))
        → o ≡ some (g, gs)
        → (q : Ref) → running_on q w.1 ≡ count q g + running_on q gs)
    → Balanced n w
    → Balanced (suc n) (end_found w o)
ended-Balanced n w none split b = record {
  reads = b.reads;
  few = λ q. let k = b.few q in omega (arith, k);
}
ended-Balanced n w (some (g, gs)) split b = record {
  reads =
      dropped-Reads (λ q. running_on q w.1) (λ q. running_on q gs) g w.0 (split g gs refl) b.reads;
  few = λ q. let s = split g gs refl q in let k = b.few q in omega (arith, s, k);
}

step-Balanced :
    (e : Event) (n : ℕ) (w : World)
    → 2 * suc n < 2 ^ 32
    → Balanced n w
    → Balanced (suc n) (step e w)
unfolding step in_flight record_tokens running_on
step-Balanced (starts sub pool now) n w h b =
    let found = refs_of-Found _ sub pool w.0 b.reads in
    record {
      reads =
          started-Reads _ now (refs_of sub pool w.0) (λ q. let k = b.few q in omega (arith, k, h))
            found;
      few = λ q.
          let k = b.few q in
          let c = count-le q (refs_of sub pool w.0).1 in omega (arith, k, c, found.few);
    }
step-Balanced (ends i) n w h b =
    ended-Balanced n w (take_out i w.1) (λ g gs e q. take_out-running q i w.1 g gs e) b
step-Balanced (reports sub pool tick) n w h b = record {
  reads = pushed-Reads _ tick (refs_of sub pool w.0) (refs_of-Found _ sub pool w.0 b.reads);
  few = λ q. let k = b.few q in omega (arith, k);
}
step-Balanced (forgets sub) n w h b = record {
  reads = forgotten-Reads _ sub w.0 b.reads;
  few = λ q. let k = b.few q in omega (arith, k);
}

run-Reads :
    (es : List Event) (n : ℕ) (w : World)
    → 2 * (n + length es) < 2 ^ 32
    → Balanced n w
    → Reads (λ q. running_on q (run es w).1) (run es w).0
unfolding run
run-Reads [] n w h b = b.reads
run-Reads (e ∷ es) n w h b =
    run-Reads es (suc n) (step e w) (omega (arith, h)) (step-Balanced e n w (omega (arith, h)) b)

-- How many requests run on the counters of a map's entry.
abbrev pub running_for : Option Ref → List (List Ref) → ℕ
running_for none gs = 0
running_for (some r) gs = running_on r gs

abbrev pub after : List Event → World
after es = run es (new_metrics, [])

read_entry :
    (m : Metrics) (gs : List (List Ref))
    → Reads (λ q. running_on q gs) m
    → (o : Option Ref) → gauge_of m o ≡ running_for o gs
read_entry m gs v none = refl
read_entry m gs v (some r) = v.gauge r

-- After any history of fewer than 2^31 events, in which requests start and end in any order, report
-- tokens, and accounts are forgotten and used again, the gauge of every account and of every pool
-- reads exactly the number of running requests that count against its current counters.
pub gauges_count :
    (es : List Event) (sub : SubId) (pool : ℕ)
    → 2 * length es < 2 ^ 32
    → (proxied_in_flight sub (after es).0 ≡ running_for (lookup sub (after es).0.subs) (after es).1)
      × (pool_proxied_in_flight pool (after es).0
          ≡ running_for (lookup pool (after es).0.pools) (after es).1)
unfolding proxied_in_flight pool_proxied_in_flight running_on lookup
gauges_count es sub pool h =
    let v =
      run-Reads es 0 (new_metrics, []) (omega (arith, h))
        (record {
          reads = record {
            gauge = λ q. refl;
            unused = λ q h. refl;
            subs_low = λ s r h. absurd (ground arith);
            pools_low = λ s r h. absurd (ground arith);
            subs_sorted = tt;
          };
          few = λ q. omega arith;
        }) in
    (
      read_entry _ _ v (lookup sub (after es).0.subs),
      read_entry _ _ v (lookup pool (after es).0.pools),
    )

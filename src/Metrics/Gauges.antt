-- ===== src/Metrics/Gauges.antt =====
-- Histories of requests against their counters: starts, ends in any order, token reports, and subs
-- that are forgotten while their requests run.
pub mod Reads
pub mod Balance
use subbier.Base.{
  ℕ, zero, suc, ◌≤◌, ◌<◌, ◌≡◌, ◌+◌, ◌-◌, ◌*◌, ◌^◌, ◌%◌, refl, sym, ap, ◌∙◌, ==_iff, true, false,
  inl, inr, Option, none, some, List, [], ◌∷◌, arith, All, length, ltb, ◌==◌, if◌then◌else◌,
  Bool-cases, Option-cases,
}
use subbier.Base.OrdMap.{
  OrdMap, IsSorted, lookup, insert, remove, lookup-insert, lookup-remove, insert-IsSorted,
  remove-IsSorted,
}
use subbier.Model.{SubId, Timestamp}
use subbier.Metrics.{
  Ref, TokenTick, Counters, Metrics, new_counters, new_metrics, set_at, entry, entry_found,
  pool_entry, pool_entry_found, pool_refs, refs_of, on_each, started, in_flight, finished,
  drop_guard, push_tick, record_tokens, forget, proxied_in_flight, pool_proxied_in_flight,
}

-- How often a reference stands in a list.
unfoldable pub count : Ref → List Ref → ℕ
count q [] = 0
count q (r ∷ rs) = (if r == q then 1 else 0) + count q rs

-- How many of the running requests' counters are this one.
unfoldable pub running_on : Ref → List (List Ref) → ℕ
running_on q [] = 0
running_on q (g ∷ gs) = count q g + running_on q gs

pub data Event : Type 0 where
  starts : SubId → Option ℕ → Timestamp → Event
  ends : ℕ → Event
  reports : SubId → Option ℕ → TokenTick → Event
  forgets : SubId → Event

-- The router's metrics, and the guards of the requests that run.
abbrev pub World : Type 0
World = Metrics × List (List Ref)

abbrev pub keep_first :
    List Ref → Option (List Ref × List (List Ref)) → Option (List Ref × List (List Ref))
keep_first g none = none
keep_first g (some (h, gs)) = some (h, g ∷ gs)

unfoldable pub take_out : ℕ → List (List Ref) → Option (List Ref × List (List Ref))
take_out i [] = none
take_out zero (g ∷ gs) = some (g, gs)
take_out (suc i) (g ∷ gs) = keep_first g (take_out i gs)

abbrev pub end_found : World → Option (List Ref × List (List Ref)) → World
end_found w none = w
end_found w (some (g, gs)) = (drop_guard g w.0, gs)

unfoldable pub step : Event → World → World
step (starts sub pool now) w = let r = in_flight sub pool now w.0 in (r.0, r.1 ∷ w.1)
step (ends i) w = end_found w (take_out i w.1)
step (reports sub pool tick) w = (record_tokens sub pool tick w.0, w.1)
step (forgets sub) w = (forget sub w.0, w.1)

unfoldable pub run : List Event → World → World
run [] w = w
run (e ∷ es) w = run es (step e w)

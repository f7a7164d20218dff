-- ===== src/Metrics/Samples.antt =====
-- Two requests, one of which outlives its account's entry, for the theorems on proxy/metrics.rs.
use subbier.Base.{◌≡◌, refl, none, some, List, [], ◌∷◌, arith}
use subbier.Base.OrdMap.{lookup, insert, remove}
use subbier.Metrics.{
  proxied_in_flight, pool_proxied_in_flight, in_flight, refs_of, entry, pool_entry, drop_guard,
  forget,
}
use subbier.Metrics.Gauges.{Event, starts, ends, forgets, step, run, take_out}
use subbier.Metrics.Gauges.Balance.{running_for, after, gauges_count}

abbrev busy : List Event
busy = starts 3 (some 8) 10 ∷ forgets 3 ∷ starts 3 none 20 ∷ ends 1 ∷ []

one_left : proxied_in_flight 3 (after busy).0 ≡ 1
unfolding proxied_in_flight run step in_flight refs_of entry pool_entry drop_guard forget lookup
    insert remove take_out
one_left = refl

gauges_count_example :
    (proxied_in_flight 3 (after busy).0 ≡ running_for (lookup 3 (after busy).0.subs) (after busy).1)
    × (pool_proxied_in_flight 8 (after busy).0
        ≡ running_for (lookup 8 (after busy).0.pools) (after busy).1)
gauges_count_example = gauges_count busy 3 8 (omega arith)

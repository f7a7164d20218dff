-- ===== src/Poller/Samples.antt =====
-- A cache after a few polls, for the theorems on usage/.
use subbier.Base.{
  ◌≡◌, ◌≤◌, ◌-◌, max, refl, false, none, some, [], unwrap_or, ltb, if◌then◌else◌, arith,
}
use subbier.Base.OrdMap.{lookup}
use subbier.Model.{Usage}
use subbier.Poller.{
  Error, upstream, ok, err, capture, backoff, is_rate_limited, retry_after, seconds, failures_of,
  UsageCache, get, store,
}
use subbier.Poller.Backoff.{backoff-Bounds}
use subbier.Poller.Freshness.{settled, stay, get-store}

abbrev quiet : Usage
quiet = record {
  plan = none;
  session = none;
  weekly = none;
  scoped = [];
  limit_reached = some false;
}

abbrev limited : Error
limited = upstream 429 "slow down" (some (seconds 90))

abbrev cache : UsageCache
cache = store 5 (ok quiet) 0 []

-- Two steps up the ladder for a 429, unless the provider asks for longer.
limited_wait : backoff 1 (capture limited) ≡ seconds 90
unfolding backoff capture is_rate_limited retry_after
limited_wait = refl

backoff-Bounds_example :
    (seconds 30 ≤ backoff 3 (capture limited))
    × (unwrap_or 0 (retry_after (capture limited)) ≤ backoff 3 (capture limited))
    × (backoff 1 (capture limited) ≤ backoff 3 (capture limited))
    × (backoff 3 (capture limited)
        ≤ max (seconds 900) (unwrap_or 0 (retry_after (capture limited))))
backoff-Bounds_example = backoff-Bounds 1 3 (capture limited) (omega arith)

get-store_example :
    get 5 false (seconds 70) (seconds 71) (ok quiet) (store 5 (err limited) (seconds 60) cache) ≡ (
      if ltb (seconds 70 - seconds 60) (stay (err limited) (failures_of (lookup 5 cache)))
      then (store 5 (err limited) (seconds 60) cache, settled (err limited))
      else (store 5 (ok quiet) (seconds 71) (store 5 (err limited) (seconds 60) cache), ok quiet))
get-store_example =
    get-store 5 (err limited) (seconds 60) cache (seconds 70) (seconds 71) (ok quiet)

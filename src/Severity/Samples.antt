-- ===== src/Severity/Samples.antt =====
-- Percentages and polls, for the theorems on severity.rs.
use subbier.Base.{◌≡◌, refl}
use subbier.Model.{points}
use subbier.Severity.{above, critical, severity_for}

-- A warning level above the critical one is read as the critical one.
swapped_levels : severity_for (above (points 80)) (above (points 95)) (above (points 80)) ≡ critical
unfolding severity_for
swapped_levels = refl

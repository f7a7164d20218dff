-- ===== src/Auth/SingleFlight.antt =====
-- The interleavings of the callers of TokenManager::ensure_fresh, auth/mod.rs.
use subbier.Base.{ℕ, ◌≡◌, refl, some}
use subbier.Auth.{driven, Manager, Reach}
use subbier.Auth.Flight.Steps.{Reach-IsFlight}

-- However the callers interleave and whichever of them are dropped, an account never has two refreshes
-- running: the cell and the caller that drives it are the same.
pub one_flight :
    (m : Manager) (key x y c d : ℕ)
    → Reach m
    → m.cells x ≡ some (driven key c)
    → m.cells y ≡ some (driven key d)
    → (x ≡ y) × (c ≡ d)
one_flight m key x y c d r h k =
    let f = Reach-IsFlight r in
    let i = f.registered x key (rw h refl) in
    let j = f.registered y key (rw k refl) in
    let q : x ≡ y = cc in (q, let t : m.cells x ≡ some (driven key d) = rw (← q) at k in cc)

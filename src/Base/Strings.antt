-- ===== src/Base/Strings.antt =====
-- Equality of native strings.
use Prim.Native.String.{String}
use text.Mathlib.Text.{◌==◌}
use text.Mathlib.TextEquality.{eq_iff}
use mathlib.Core.Bool.{Bool, true}
use mathlib.Core.Path.{◌≡◌}
use mathlib.Core.Logic.{◌↔◌}

abbrev pub same_string : String → String → Bool
same_string a b = a == b

pub same_string_iff : (a b : String) → (same_string a b ≡ true) ↔ (a ≡ b)
same_string_iff a b = eq_iff a b

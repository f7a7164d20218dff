-- ===== src/Base/Text.antt =====
-- Texts as lists of code points, and ASCII case.
use Prim.Native.Nat.{ℕ, ◌+◌}
use Prim.Native.Char.{code}
use Prim.Native.String.{String}
use mathlib.Core.Bool.{Bool, true, false, ◌&&◌}
use mathlib.Core.Option.{Option, none, some}
use subbier.Base.Lists.{is_empty}
use mathlib.Core.List.{List, [], ◌∷◌}
use subbier.Base.Tests.{leb, ◌==◌, if◌then◌else◌}

-- The bytes of an ASCII text.
abbrev pub codes : String → List ℕ
codes String.[] = []
codes (String.◌∷◌ c s) = code c ∷ codes s

-- `u8::to_ascii_lowercase`.
abbrev pub to_ascii_lowercase : ℕ → ℕ
to_ascii_lowercase c = if leb b'A' c && leb c b'Z' then c + 32 else c

-- `<[u8]>::eq_ignore_ascii_case`.
abbrev pub eq_ignore_ascii_case : List ℕ → List ℕ → Bool
eq_ignore_ascii_case [] [] = true
eq_ignore_ascii_case (a ∷ as') (b ∷ bs) =
    to_ascii_lowercase a == to_ascii_lowercase b && eq_ignore_ascii_case as' bs
eq_ignore_ascii_case _ _ = false

-- Equality of texts.
abbrev pub same_text : List ℕ → List ℕ → Bool
same_text [] [] = true
same_text (a ∷ as') (b ∷ bs) = a == b && same_text as' bs
same_text _ _ = false

-- `str::strip_prefix`.
abbrev pub strip_prefix : List ℕ → List ℕ → Option (List ℕ)
strip_prefix [] text = some text
strip_prefix (p ∷ ps) [] = none
strip_prefix (p ∷ ps) (c ∷ cs) = if c == p then strip_prefix ps cs else none

-- `str::split_once`, at a character.
abbrev pub split_once : ℕ → List ℕ → Option (List ℕ × List ℕ)
split_once sep [] = none
split_once sep (c ∷ cs) =
    if c == sep
    then some ([], cs)
    else elim (split_once sep cs) [ none ↦ none | some r ↦ some (c ∷ r.0, r.1) ]

-- `is_whitespace` is `char::is_whitespace`.
module _ (is_whitespace : ℕ → Bool) where
  -- `str::trim_start`.
  abbrev pub trim_start : List ℕ → List ℕ
  trim_start [] = []
  trim_start (c ∷ cs) = if is_whitespace c then trim_start cs else c ∷ cs

  -- `str::trim_end`.
  abbrev pub trim_end : List ℕ → List ℕ
  trim_end [] = []
  trim_end (c ∷ cs) =
      let rest = trim_end cs in if is_whitespace c && is_empty rest then [] else c ∷ rest

  -- `str::trim`.
  abbrev pub trim : List ℕ → List ℕ
  trim text = trim_end (trim_start text)

-- ===== src/Sse.antt =====
-- crates/libsubby/src/proxy/sse.rs: the framer that cuts a byte stream into frames, and the payload
-- of a frame.
--
-- A byte is a number, and so is a character of a decoded frame. `String::from_utf8_lossy` and
-- `char::is_whitespace` are parameters. A position in the buffer is what stands from it on.
pub mod Separators
pub mod Chunks
pub mod Payload
pub mod Aggregate
pub mod Rewrite
mod Samples
use subbier.Base.{
  ℕ, zero, suc, ◌+◌, ◌-◌, Bool, true, false, ◌&&◌, ◌||◌, Option, none, some, List, [], ◌∷◌, ◌++◌,
  map, ◌==◌, if◌then◌else◌, length, take, drop, find, is_empty,
}

-- `\r\n`, `\r` and `\n`.
abbrev pub line_breaks : List (List ℕ)
line_breaks = (13 ∷ 10 ∷ []) ∷ (13 ∷ []) ∷ (10 ∷ []) ∷ []

abbrev pub max_separator_len : ℕ
max_separator_len = 4

-- `<[u8]>::starts_with`.
abbrev pub starts_with : List ℕ → List ℕ → Bool
starts_with [] bytes = true
starts_with (p ∷ ps) [] = false
starts_with (p ∷ ps) (b ∷ bs) = b == p && starts_with ps bs

abbrev length_of : Option (List ℕ) → Option ℕ
length_of none = none
length_of (some brk) = some (length brk)

unfoldable pub line_break_at : List ℕ → Option ℕ
line_break_at bytes = length_of (find (λ brk. starts_with brk bytes) line_breaks)

-- The second of two line terminators.
abbrev pub followed_by : ℕ → Option ℕ → Option ℕ
followed_by first none = none
followed_by first (some second) = some (first + second)

abbrev pub second_break : List ℕ → Option ℕ → Option ℕ
second_break bytes none = none
second_break bytes (some first) = followed_by first (line_break_at (drop first bytes))

unfoldable pub separator_at : List ℕ → Option ℕ
separator_at bytes = second_break bytes (line_break_at bytes)

-- The loop of `push`: `skip` bytes of a separator are still to pass, `current` is the frame begun,
-- and what is left of it at the end comes beside the frames.
unfoldable pub scan : (skip : ℕ) (current bytes : List ℕ) → List (List ℕ) × List ℕ
unfolding separator_at line_break_at
scan skip current [] = ([], current)
scan (suc skip) current (b ∷ bytes) = scan skip current bytes
scan zero current (b ∷ bytes) = elim (separator_at (b ∷ bytes)) [
  | some len ↦ let rest = scan (len - 1) [] bytes in (current ∷ rest.0, rest.1)
  | none ↦ scan zero (current ++ (b ∷ [])) bytes
]

pub record SseFramer : Type 0 where
  pub buf : List ℕ
  pub scan_from : ℕ

abbrev pub new_framer : SseFramer
new_framer = record { buf = []; scan_from = 0 }

module _ {ℓ} {A : Type ℓ} (decode : List ℕ → A) where
  unfoldable pub push : List ℕ → SseFramer → SseFramer × List A
  unfolding scan
  push chunk f =
      let buf = f.buf ++ chunk in
      let r = scan 0 (take f.scan_from buf) (drop f.scan_from buf) in
      (record { buf = r.1; scan_from = length r.1 - (max_separator_len - 1) }, map decode r.0)

  unfoldable pub flush : SseFramer → SseFramer × Option A
  flush f =
      if is_empty f.buf
      then (record f { scan_from = 0 }, none)
      else (record { buf = []; scan_from = 0 }, some (decode f.buf))

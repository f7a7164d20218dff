-- ===== src/Sse/Payload.antt =====
-- crates/libsubby/src/proxy/sse.rs: the payload of a frame, a text as a list of characters.
pub mod Events
use subbier.Base.{
  ℕ, Bool, true, false, ◌&&◌, ◌||◌, Option, none, some, List, [], ◌∷◌, ◌++◌, ◌==◌, if◌then◌else◌,
  is_empty, codes, same_text, strip_prefix, trim_start, trim,
}

-- The iterator of `split_lines`, with the part of the line that it has passed.
unfoldable pub split_from : List ℕ → List ℕ → List (List ℕ)
split_from line [] = if is_empty line then [] else line ∷ []
split_from line (c ∷ []) = if c == 13 || c == 10 then line ∷ [] else (line ++ (c ∷ [])) ∷ []
split_from line (c ∷ d ∷ rest) = elim (c == 13 && d == 10) [
  | true ↦ line ∷ split_from [] rest
  | false ↦ elim (c == 13 || c == 10) [
    | true ↦ line ∷ split_from [] (d ∷ rest)
    | false ↦ split_from (line ++ (c ∷ [])) (d ∷ rest)
  ]
]

unfoldable pub split_lines : List ℕ → List (List ℕ)
unfolding split_from
split_lines frame = split_from [] frame

-- `is_whitespace` is `char::is_whitespace`.
module _ (is_whitespace : ℕ → Bool) where
  -- The loop over the lines.
  unfoldable pub payload_of : (any : Bool) (payload : List ℕ) → List (List ℕ) → List ℕ
  payload_of any payload [] = payload
  payload_of any payload (line ∷ lines) = elim (strip_prefix (codes "data:") line) [
    | none ↦ payload_of any payload lines
    | some rest ↦
        payload_of true
          ((if any then payload ++ (10 ∷ []) else payload) ++ trim_start is_whitespace rest) lines
  ]

  unfoldable pub data_payload : List ℕ → Option (List ℕ)
  unfolding split_lines payload_of
  data_payload frame =
      let payload = trim is_whitespace (payload_of false [] (split_lines frame)) in
      if is_empty payload || same_text payload (codes "[DONE]") then none else some payload

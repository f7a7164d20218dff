-- ===== src/Sse/Rewrite/Lines.antt =====
-- The lines of a frame that has been rewritten (rewrite_previous_response_id of proxy/sse.rs).
use subbier.Base.{
  ℕ, ◌≡◌, ◌∙◌, refl, ap, sym, subst, inl, inr, Bool, true, false, ◌&&◌, ◌||◌, Option, none, some,
  List, [], ◌∷◌, ◌++◌, ◌==◌, if◌then◌else◌, codes, is_empty, same_text, trim, trim_start,
  strip_prefix, is_some, All, All-append, arith, Bool-cases, Option-cases,
}
use mathlib.Core.List.{append_assoc, append-nil}
use subbier.Sse.Payload.{split_from, split_lines, payload_of, data_payload}
use subbier.Sse.Payload.Events.{NoBreak, IsPayload, split_from-NoBreak}
use subbier.Sse.Aggregate.{Json, and_then}
use subbier.Sse.Rewrite.{
  is_data, replace_lines, join, object_of, with_id, rewrite_previous_response_id,
}

-- The lines that are neither empty nor data, in order.
unfoldable pub other_lines : List (List ℕ) → List (List ℕ)
other_lines [] = []
other_lines (line ∷ lines) =
    let rest = other_lines lines in if is_empty line || is_data line then rest else line ∷ rest

-- An empty last line is lost when the lines are joined.
unfoldable without_last_empty : List (List ℕ) → List (List ℕ)
without_last_empty [] = []
without_last_empty (line ∷ []) = if is_empty line then [] else line ∷ []
without_last_empty (line ∷ next ∷ lines) = line ∷ without_last_empty (next ∷ lines)

split_from-line :
    (line text rest : List ℕ)
    → NoBreak text
    → split_from line (text ++ (10 ∷ rest)) ≡ (line ++ text) ∷ split_from [] rest
unfolding split_from
split_from-line line [] [] h = rw (append-nil line) refl
split_from-line line [] (d ∷ rest) h = rw (append-nil line) refl
split_from-line line (c ∷ []) rest h =
    let q = h.0 in
    let r : (c == 13 && 10 == 10) ≡ false = ground arith in
    rw (r, q, split_from)
      (split_from-line (line ++ (c ∷ [])) [] rest tt ∙ rw (append-nil (line ++ (c ∷ []))) refl)
split_from-line line (c ∷ d ∷ text) rest h =
    let q = h.0 in
    let r : (c == 13 && d == 10) ≡ false = ground arith in
    let i = split_from-line (line ++ (c ∷ [])) (d ∷ text) rest h.1 in
    rw (r, q, split_from) (rw (i, append_assoc line (c ∷ []) (d ∷ text)) refl)

split_lines-join :
    (lines : List (List ℕ))
    → All NoBreak lines
    → split_lines (join lines) ≡ without_last_empty lines
unfolding split_lines split_from join without_last_empty
split_lines-join [] h = refl
split_lines-join ([] ∷ []) h = refl
split_lines-join ((c ∷ line) ∷ []) h = split_from-NoBreak c line [] h.0
split_lines-join (line ∷ next ∷ lines) h =
    split_from-line [] line (join (next ∷ lines)) h.0
    ∙ ap (λ ls. line ∷ ls) (split_lines-join (next ∷ lines) h.1)

split_from-NoBreaks : (line text : List ℕ) → NoBreak line → All NoBreak (split_from line text)
unfolding split_from
split_from-NoBreaks line [] h = elim (Bool-cases (is_empty line)) [
  | inl y ↦ rw (y, All) tt
  | inr n ↦ rw (n, All) (h, tt)
]
split_from-NoBreaks line (c ∷ []) h = elim (Bool-cases (c == 13 || c == 10)) [
  | inl y ↦ rw (y, All) (h, tt)
  | inr n ↦ rw (n, All) (All-append (λ c. (c == 13 || c == 10) ≡ false) line (c ∷ []) h (n, tt), tt)
]
split_from-NoBreaks line (c ∷ d ∷ rest) h = elim (Bool-cases (c == 13 && d == 10)) [
  | inl y ↦ rw (y, All) (h, split_from-NoBreaks [] rest tt)
  | inr m ↦
      rw (m, All)
        (elim (Bool-cases (c == 13 || c == 10)) [
          | inl y ↦ rw (y, All) (h, split_from-NoBreaks [] (d ∷ rest) tt)
          | inr n ↦
              rw (n, All)
                (split_from-NoBreaks (line ++ (c ∷ [])) (d ∷ rest)
                  (All-append (λ c. (c == 13 || c == 10) ≡ false) line (c ∷ []) h (n, tt)))
        ])
]

split_lines-NoBreaks : (frame : List ℕ) → All NoBreak (split_lines frame)
unfolding split_lines
split_lines-NoBreaks frame = split_from-NoBreaks [] frame tt

replace_lines-NoBreak :
    (rewritten : List ℕ) (replaced : Bool) (lines : List (List ℕ))
    → NoBreak rewritten
    → All NoBreak lines
    → All NoBreak (replace_lines rewritten replaced lines)
unfolding replace_lines
replace_lines-NoBreak rewritten replaced [] h k = tt
replace_lines-NoBreak rewritten true (line ∷ lines) h k =
    elim (Option-cases (strip_prefix (codes "data:") line)) [
      | inl e ↦ rw (e, All) (k.0, replace_lines-NoBreak rewritten true lines h k.1)
      | inr (rest, e) ↦ rw (e, All) (replace_lines-NoBreak rewritten true lines h k.1)
    ]
replace_lines-NoBreak rewritten false (line ∷ lines) h k =
    elim (Option-cases (strip_prefix (codes "data:") line)) [
      | inl e ↦ rw (e, All) (k.0, replace_lines-NoBreak rewritten false lines h k.1)
      | inr (rest, e) ↦ rw (e, All) (h, replace_lines-NoBreak rewritten true lines h k.1)
    ]

other_lines-data :
    (line : List ℕ) (lines : List (List ℕ))
    → is_data line ≡ true
    → other_lines (line ∷ lines) ≡ other_lines lines
unfolding other_lines
other_lines-data [] lines d = refl
other_lines-data (c ∷ line) lines d = rw d refl

replaced_line :
    (rewritten : List ℕ) (replaced : Bool) (line : List ℕ) (lines : List (List ℕ))
    → is_data rewritten ≡ true
    → (found : Option (List ℕ)) → strip_prefix (codes "data:") line ≡ found
    → ((b : Bool) → other_lines (replace_lines rewritten b lines) ≡ other_lines lines)
    → other_lines (replace_lines rewritten replaced (line ∷ lines)) ≡ other_lines (line ∷ lines)
unfolding replace_lines other_lines
replaced_line rewritten replaced line lines d none e rest =
    let k : replace_lines rewritten replaced (line ∷ lines)
        ≡ line ∷ replace_lines rewritten replaced lines =
      rw e refl in
    ap other_lines k
    ∙ ap (λ ls. if is_empty line || is_data line then ls else line ∷ ls) (rest replaced)
replaced_line rewritten true line lines d (some found) e rest =
    let k : replace_lines rewritten true (line ∷ lines) ≡ replace_lines rewritten true lines =
      rw e refl in
    ap other_lines k ∙ rest true ∙ sym (other_lines-data line lines (ap is_some e))
replaced_line rewritten false line lines d (some found) e rest =
    let k : replace_lines rewritten false (line ∷ lines)
        ≡ rewritten ∷ replace_lines rewritten true lines =
      rw e refl in
    ap other_lines k
    ∙ other_lines-data rewritten (replace_lines rewritten true lines) d
    ∙ rest true
    ∙ sym (other_lines-data line lines (ap is_some e))

other_lines-replace_lines :
    (rewritten : List ℕ) (replaced : Bool) (lines : List (List ℕ))
    → is_data rewritten ≡ true
    → other_lines (replace_lines rewritten replaced lines) ≡ other_lines lines
unfolding replace_lines other_lines
other_lines-replace_lines rewritten replaced [] d = refl
other_lines-replace_lines rewritten replaced (line ∷ lines) d =
    replaced_line rewritten replaced line lines d (strip_prefix (codes "data:") line) refl
      (λ b. other_lines-replace_lines rewritten b lines d)

other_lines-without_last_empty :
    (lines : List (List ℕ)) → other_lines (without_last_empty lines) ≡ other_lines lines
unfolding without_last_empty other_lines
other_lines-without_last_empty [] = refl
other_lines-without_last_empty ([] ∷ []) = refl
other_lines-without_last_empty ((c ∷ line) ∷ []) = refl
other_lines-without_last_empty (line ∷ next ∷ lines) =
    rw (other_lines-without_last_empty (next ∷ lines)) refl

module _ (is_whitespace : ℕ → Bool) where
  payload_of-without_last_empty :
      (any : Bool) (payload : List ℕ) (lines : List (List ℕ))
      → payload_of is_whitespace any payload (without_last_empty lines)
        ≡ payload_of is_whitespace any payload lines
  unfolding without_last_empty payload_of
  payload_of-without_last_empty any payload [] = refl
  payload_of-without_last_empty any payload ([] ∷ []) = refl
  payload_of-without_last_empty any payload ((c ∷ line) ∷ []) = refl
  payload_of-without_last_empty any payload (line ∷ next ∷ lines) =
      elim (Option-cases (strip_prefix (codes "data:") line)) [
        | inl e ↦ rw e (payload_of-without_last_empty any payload (next ∷ lines))
        | inr (rest, e) ↦ rw e (payload_of-without_last_empty true _ (next ∷ lines))
      ]

  payload_of-replaced :
      (rewritten payload : List ℕ) (any : Bool) (lines : List (List ℕ))
      → payload_of is_whitespace any payload (replace_lines rewritten true lines) ≡ payload
  unfolding replace_lines payload_of
  payload_of-replaced rewritten payload any [] = refl
  payload_of-replaced rewritten payload any (line ∷ lines) =
      elim (Option-cases (strip_prefix (codes "data:") line)) [
        | inl e ↦ rw (e, e) (payload_of-replaced rewritten payload any lines)
        | inr (rest, e) ↦ rw e (payload_of-replaced rewritten payload any lines)
      ]

  -- A frame with a data line has the rewritten one's payload afterwards.
  payload_of-replace_lines :
      (rewritten text : List ℕ) (lines : List (List ℕ))
      → strip_prefix (codes "data:") rewritten ≡ some text
      → is_empty (payload_of is_whitespace false [] lines) ≡ false
      → payload_of is_whitespace false [] (replace_lines rewritten false lines)
        ≡ trim_start is_whitespace text
  unfolding replace_lines payload_of
  payload_of-replace_lines rewritten text [] d h = absurd (let z : true ≡ false = h in cc)
  payload_of-replace_lines rewritten text (line ∷ lines) d h =
      elim (Option-cases (strip_prefix (codes "data:") line)) [
        | inl e ↦
            rw (e, e)
              (payload_of-replace_lines rewritten text lines d (
                subst
                  (λ o.
                    is_empty (elim o [
                      | none ↦ payload_of is_whitespace false [] lines
                      | some rest ↦
                          payload_of is_whitespace true ([] ++ trim_start is_whitespace rest) lines
                    ])
                    ≡ false)
                  e h))
        | inr (rest, e) ↦
            rw (e, d) (payload_of-replaced rewritten (trim_start is_whitespace text) true lines)
      ]

  data_payload-nonempty :
      (frame payload : List ℕ)
      → data_payload is_whitespace frame ≡ some payload
      → is_empty (payload_of is_whitespace false [] (split_lines frame)) ≡ false
  unfolding data_payload
  data_payload-nonempty frame payload h =
      at (payload_of is_whitespace false [] (split_lines frame)) h
    where
      at :
          (text : List ℕ)
          → (let t = trim is_whitespace text in
              if is_empty t || same_text t (codes "[DONE]") then none else some t)
            ≡ some payload
          → is_empty text ≡ false
      at [] e = absurd (let z : none ≡ some payload = e in cc)
      at (c ∷ text) e = refl

  data_payload-IsPayload :
      (frame text : List ℕ)
      → IsPayload is_whitespace text
      → payload_of is_whitespace false [] (split_lines frame) ≡ text
      → data_payload is_whitespace frame ≡ some text
  unfolding data_payload
  data_payload-IsPayload frame text v t = rw (t, v.starts, v.ends, v.nonempty, v.no_end) refl

module _ {J : Type 0} (json : Json J) (string : List ℕ → J) (is_whitespace : ℕ → Bool) where
  -- A frame whose payload is an event with a response object has, once the id is written into it,
  -- the event with the id in its response as its payload, and its lines that are neither empty nor
  -- data are still there, in their order. The event is printed on one line, without blanks around
  -- it, and a space is whitespace.
  pub rewrite_previous_response_id-payload :
      (frame id payload : List ℕ) (event response : J)
      → is_whitespace 32 ≡ true
      → data_payload is_whitespace frame ≡ some payload
      → json.parse payload ≡ some event
      → and_then (json.get "response" event) (object_of json) ≡ some response
      → IsPayload is_whitespace (json.to_string (with_id json string id event response))
      → (data_payload is_whitespace
            (rewrite_previous_response_id json string is_whitespace frame id)
          ≡ some (json.to_string (with_id json string id event response)))
        × (other_lines
              (split_lines (rewrite_previous_response_id json string is_whitespace frame id))
            ≡ other_lines (split_lines frame))
  unfolding data_payload
  rewrite_previous_response_id-payload frame id payload event response w p q r v =
      let text = json.to_string (with_id json string id event response) in
      let line = codes "data: " ++ text in
      let lines = replace_lines line false (split_lines frame) in
      let o : rewrite_previous_response_id json string is_whitespace frame id ≡ join lines =
        rw (p, q, r) refl in
      let b : All NoBreak lines =
        replace_lines-NoBreak line false (split_lines frame)
          (refl, (refl, (refl, (refl, (refl, (refl, v.one_line)))))) (split_lines-NoBreaks frame) in
      let s : split_lines (join lines) ≡ without_last_empty lines = split_lines-join lines b in
      let t : payload_of is_whitespace false [] (split_lines (join lines)) ≡ text =
        ap (payload_of is_whitespace false []) s
        ∙ payload_of-without_last_empty is_whitespace false [] lines
        ∙ payload_of-replace_lines is_whitespace line (codes " " ++ text) (split_lines frame) refl
            (data_payload-nonempty is_whitespace frame payload p)
        ∙ rw w v.starts in
      (
        rw o (data_payload-IsPayload is_whitespace (join lines) text v t),
        ap (λ f. other_lines (split_lines f)) o
            ∙ ap other_lines s
            ∙ other_lines-without_last_empty lines
            ∙ other_lines-replace_lines line false (split_lines frame) refl,
      )

-- ===== src/Sse/Payload/Events.antt =====
-- A stream of events through the framer and data_payload of proxy/sse.rs.
use subbier.Base.{
  same_text, trim_start, trim_end, ℕ, ◌≡◌, refl, Bool, true, false, ◌&&◌, ◌||◌, none, some, List,
  [], ◌∷◌, ◌++◌, ◌==◌, is_empty, codes, All, All-append, All-split, All-imp, map, arith,
}
use mathlib.Core.List.{flatten, append_assoc, append-nil}
use subbier.Sse.{scan, separator_at, line_break_at}
use subbier.Sse.Separators.{ends_split}
use subbier.Sse.Chunks.{IsWhole, received, received-scan, scan-none}
use subbier.Sse.Payload.{split_from, split_lines, payload_of, data_payload}

abbrev pub NoBreak : List ℕ → Type 0
NoBreak text = All (λ c. (c == 13 || c == 10) ≡ false) text

abbrev pub NoReturn : List ℕ → Type 0
NoReturn text = All (λ c. (c == 13) ≡ false) text

ends_split-NoReturn : (bytes : List ℕ) → NoReturn bytes → ends_split bytes ≡ false
ends_split-NoReturn [] h = refl
ends_split-NoReturn (a ∷ []) h = refl
ends_split-NoReturn (a ∷ b ∷ []) h = let q = h.1.0 in ground (arith, q)
ends_split-NoReturn (a ∷ b ∷ c ∷ bytes) h = ends_split-NoReturn (b ∷ c ∷ bytes) h.1

pub IsWhole-NoReturn :
    (stream : List ℕ) (chunks : List (List ℕ))
    → NoReturn stream
    → NoReturn (flatten chunks)
    → IsWhole stream chunks
unfolding flatten
IsWhole-NoReturn stream [] h k = tt
IsWhole-NoReturn stream (c ∷ cs) h k =
    let r = All-split (λ c. (c == 13) ≡ false) c (flatten cs) k in
    (
      ends_split-NoReturn stream h,
      IsWhole-NoReturn (stream ++ c) cs (All-append (λ c. (c == 13) ≡ false) stream c h r.0) r.1,
    )

-- A frame is cut off at the first blank line.
scan-frame :
    (bytes rest current : List ℕ)
    → NoBreak bytes
    → scan 0 current (bytes ++ (10 ∷ 10 ∷ rest))
      ≡ ((current ++ bytes) ∷ (scan 0 [] rest).0, (scan 0 [] rest).1)
unfolding scan separator_at line_break_at
scan-frame [] rest current h = rw (append-nil current) refl
scan-frame (b ∷ bytes) rest current h =
    let e : separator_at (b ∷ bytes ++ (10 ∷ 10 ∷ rest)) ≡ none =
      let q = h.0 in ground (arith, q) in
    rw
      (
        scan-none current b (bytes ++ (10 ∷ 10 ∷ rest)) e,
        scan-frame bytes rest (current ++ (b ∷ [])) h.1,
        append_assoc current (b ∷ []) bytes,
      )
      refl

pub split_from-NoBreak :
    (c : ℕ) (text line : List ℕ)
    → NoBreak (c ∷ text)
    → split_from line (c ∷ text) ≡ (line ++ (c ∷ text)) ∷ []
unfolding split_from
split_from-NoBreak c [] line h = let q = h.0 in rw q refl
split_from-NoBreak c (d ∷ text) line h =
    let q = h.0 in
    let r : (c == 13 && d == 10) ≡ false = ground arith in
    let i = split_from-NoBreak d text (line ++ (c ∷ [])) h.1 in
    rw (r, q, split_from) (rw (i, append_assoc line (c ∷ []) (d ∷ text)) refl)

module _ (is_whitespace : ℕ → Bool) where
  -- A text on one line, with no blanks around it, that is not the end marker.
  pub record IsPayload (text : List ℕ) : Type 0 where
    pub one_line : NoBreak text
    pub starts : trim_start is_whitespace text ≡ text
    pub ends : trim_end is_whitespace text ≡ text
    pub nonempty : is_empty text ≡ false
    pub no_end : same_text text (codes "[DONE]") ≡ false

  pub data_payload-data :
      (text : List ℕ)
      → is_whitespace 32 ≡ true
      → IsPayload text
      → data_payload is_whitespace (codes "data: " ++ text) ≡ some text
  unfolding data_payload split_lines payload_of
  data_payload-data text w v =
      let q =
        split_from-NoBreak 100 (codes "ata: " ++ text) []
          (refl, (refl, (refl, (refl, (refl, (refl, v.one_line)))))) in
      rw (q, w, v.starts, v.starts, v.ends, v.nonempty, v.no_end) refl

-- The bytes of a frame and the payload in it.
abbrev pub Event : Type 0
Event = List ℕ × List ℕ

-- Each frame, ended by a blank line.
unfoldable pub stream_of : List Event → List ℕ
stream_of [] = []
stream_of (e ∷ es) = e.0 ++ (10 ∷ 10 ∷ stream_of es)

pub scan-stream_of :
    (events : List Event)
    → All (λ e. NoBreak e.0) events
    → scan 0 [] (stream_of events) ≡ (map (λ e. e.0) events, [])
unfolding stream_of scan
scan-stream_of [] h = refl
scan-stream_of (e ∷ es) h = rw (scan-frame e.0 (stream_of es) [] h.0, scan-stream_of es h.1) refl

no_return : (c : ℕ) → (c == 13 || c == 10) ≡ false → (c == 13) ≡ false
no_return c h = ground arith

pub stream_of-NoReturn :
    (events : List Event) → All (λ e. NoBreak e.0) events → NoReturn (stream_of events)
unfolding stream_of
stream_of-NoReturn [] h = tt
stream_of-NoReturn (e ∷ es) h =
    All-append (λ c. (c == 13) ≡ false) e.0 (10 ∷ 10 ∷ stream_of es)
      (All-imp (λ c. (c == 13 || c == 10) ≡ false) (λ c. (c == 13) ≡ false) e.0 no_return h.0)
      (refl, (refl, stream_of-NoReturn es h.1))

module _ (is_whitespace : ℕ → Bool) (decode : List ℕ → List ℕ) where
  -- The frame is on one line and reads `data: ` and the payload.
  abbrev pub Carries : Event → Type 0
  Carries e = NoBreak e.0 × (decode e.0 ≡ codes "data: " ++ e.1) × IsPayload is_whitespace e.1

  payloads :
      (events : List Event)
      → is_whitespace 32 ≡ true
      → All Carries events
      → map (data_payload is_whitespace) (map decode (map (λ e. e.0) events))
        ≡ map (λ e. some e.1) events
  payloads [] w h = refl
  payloads (e ∷ es) w h =
      rw (h.0.1, data_payload-data is_whitespace e.1 w h.0.2, payloads es w h.1) refl

  -- A stream of events, each a line of data with its payload and a blank line of line feeds after
  -- it, gives the payloads back, all of them in order, however the bytes are cut into chunks. The
  -- payloads are single lines with no blanks around them, none is empty or the end marker, the frames
  -- decode to what they should, and a space is whitespace.
  pub received-stream_of :
      (events : List Event) (chunks : List (List ℕ))
      → is_whitespace 32 ≡ true
      → All Carries events
      → flatten chunks ≡ stream_of events
      → map (data_payload is_whitespace) (received decode chunks) ≡ map (λ e. some e.1) events
  received-stream_of events chunks w h c =
      let lines = All-imp Carries (λ e. NoBreak e.0) events (λ e k. k.0) h in
      let k : NoReturn (flatten chunks) = rw c (stream_of-NoReturn events lines) in
      rw
        (
          received-scan decode chunks (IsWhole-NoReturn [] chunks tt k),
          c,
          scan-stream_of events lines,
          append-nil (map decode (map (λ e. e.0) events)),
        )
        (payloads events w h)

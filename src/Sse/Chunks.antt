-- ===== src/Sse/Chunks.antt =====
-- The framer of proxy/sse.rs over a stream that arrives in chunks.
use subbier.Base.{
  ℕ, zero, suc, ◌+◌, ◌-◌, ◌≤◌, ◌≡◌, ◌⊎◌, refl, sym, ap, subst, inl, inr, false, ◌||◌, ◌&&◌, Option,
  none, some, List, [], ◌∷◌, ◌++◌, ◌==◌, map, length, take, drop, leb, is_empty, if◌then◌else◌,
  arith, Bool-cases, Option-cases,
}
use mathlib.Core.List.{tail, flatten, append-nil, append_assoc, map-append}
use subbier.Sse.{separator_at, line_break_at, scan, SseFramer, new_framer, push, flush}
use subbier.Sse.Separators.{
  ends_split, ends_split-tail, separator_at-append, separator_at-bounds, separator_at-append_none,
}

-- What the scan comes to when more bytes follow: it is resumed at the start of the frame begun.
abbrev resumed : List (List ℕ) × List ℕ → List ℕ → List (List ℕ) × List ℕ
resumed r ys = let s = scan 0 [] (r.1 ++ ys) in (r.0 ++ s.0, s.1)

-- The bytes of the frame begun could be scanned again.
abbrev Rescans : ℕ → List ℕ → List ℕ → Type 0
Rescans zero current xs =
    (ys : List ℕ) → scan 0 [] (current ++ (xs ++ ys)) ≡ scan 0 current (xs ++ ys)
Rescans (suc skip) current xs = current ≡ []

Rescans-nil : (skip : ℕ) (xs : List ℕ) → Rescans skip [] xs
Rescans-nil zero xs = λ ys. refl
Rescans-nil (suc skip) xs = refl

-- A position with no separator either has none whatever follows, or nothing else happens up to the end.
separator_at-none :
    (xs : List ℕ)
    → separator_at xs ≡ none
    → ((ys : List ℕ) → separator_at (xs ++ ys) ≡ none)
      ⊎ ((current : List ℕ) → scan 0 current xs ≡ ([], current ++ xs))
unfolding scan separator_at line_break_at
separator_at-none [] e = inr (λ current. rw (append-nil current))
separator_at-none (a ∷ []) e = elim (Bool-cases (a == 13 || a == 10)) [
  | inl h ↦ inr (λ current. ground arith)
  | inr h ↦ inl (λ ys. ground arith)
]
separator_at-none (a ∷ b ∷ []) e = elim (Bool-cases (a == 13 && b == 10)) [
  | inl h ↦ inr (λ current. let q = append_assoc current (a ∷ []) (b ∷ []) in ground (arith, q))
  | inr h ↦ inl (λ ys. ground arith)
]
separator_at-none (a ∷ b ∷ c ∷ xs) e = inl (λ ys. separator_at-append_none a b c xs ys e)

pub scan-none :
    (current : List ℕ) (b : ℕ) (xs : List ℕ)
    → separator_at (b ∷ xs) ≡ none
    → scan 0 current (b ∷ xs) ≡ scan 0 (current ++ (b ∷ [])) xs
unfolding scan
scan-none current b xs e = rw (e, scan) refl

scan-some :
    (current : List ℕ) (b n : ℕ) (xs : List ℕ)
    → separator_at (b ∷ xs) ≡ some n
    → scan 0 current (b ∷ xs) ≡ (current ∷ (scan (n - 1) [] xs).0, (scan (n - 1) [] xs).1)
unfolding scan
scan-some current b n xs e = rw (e, scan) refl

Rescans-next :
    (current : List ℕ) (b : ℕ) (xs : List ℕ)
    → Rescans 0 current (b ∷ xs)
    → ((ys : List ℕ) → separator_at (b ∷ xs ++ ys) ≡ none)
    → Rescans 0 (current ++ (b ∷ [])) xs
Rescans-next current b xs r e ys =
    rw (append_assoc current (b ∷ []) (xs ++ ys), r ys) (scan-none current b (xs ++ ys) (e ys))

-- The scan of a longer stream is that of the shorter one, resumed.
scan-append :
    (xs ys : List ℕ) (skip : ℕ) (current : List ℕ)
    → ends_split xs ≡ false
    → skip ≤ length xs
    → Rescans skip current xs
    → scan skip current (xs ++ ys) ≡ resumed (scan skip current xs) ys
unfolding scan
scan-append [] ys zero current h l r = let q = r ys in rw q refl
scan-append [] ys (suc skip) current h l r = absurd (omega (arith, l))
scan-append (b ∷ xs) ys (suc skip) current h l r =
    rw r
      (scan-append xs ys skip [] (ends_split-tail b xs h) (omega (arith, l)) (Rescans-nil skip xs))
scan-append (b ∷ xs) ys zero current h l r = elim (Option-cases (separator_at (b ∷ xs))) [
  | inr (n, e) ↦
      let s = separator_at-append (b ∷ xs) ys n h e in
      let t = separator_at-bounds (b ∷ xs) n e in
      let i =
        scan-append xs ys (n - 1) [] (ends_split-tail b xs h) (omega (arith, t))
          (Rescans-nil (n - 1) xs) in
      rw (scan-some current b n xs e, scan-some current b n (xs ++ ys) s, i) refl
  | inl e ↦ elim (separator_at-none (b ∷ xs) e) [
    | inr f ↦ let q = r ys in rw (f current) (rw (append_assoc current (b ∷ xs) ys, q) refl)
    | inl f ↦
        rw (scan-none current b xs e, scan-none current b (xs ++ ys) (f ys))
          (scan-append xs ys 0 (current ++ (b ∷ [])) (ends_split-tail b xs h) (omega arith)
            (Rescans-next current b xs r f))
  ]
]

no_more : (xs ys : List (List ℕ)) → xs ≡ xs ++ ys → ys ≡ []
no_more [] ys e = sym e
no_more (x ∷ xs) ys e = no_more xs ys (ap tail e)

-- What a scan leaves over holds no whole frame.
remainder-scan : (xs : List ℕ) → ends_split xs ≡ false → (scan 0 [] (scan 0 [] xs).1).0 ≡ []
remainder-scan xs h =
    let r = scan-append xs [] 0 [] h (omega arith) (Rescans-nil 0 xs) in
    let e : scan 0 [] xs ≡ resumed (scan 0 [] xs) [] = rw (append-nil xs) at r in
    let f = no_more (scan 0 [] xs).0 (scan 0 [] ((scan 0 [] xs).1 ++ [])).0 (ap (λ p. p.0) e) in
    rw (append-nil (scan 0 [] xs).1) at f

-- Bytes with no separator among them, but for the last three, can be skipped.
scan-settled :
    (n : ℕ) (xs ys current : List ℕ)
    → n + 3 ≤ length xs
    → (scan 0 current xs).0 ≡ []
    → scan 0 current (xs ++ ys) ≡ scan 0 (current ++ take n xs) (drop n xs ++ ys)
scan-settled zero xs ys current l h = rw (append-nil current) refl
scan-settled (suc n) [] ys current l h = absurd (omega (arith, l))
scan-settled (suc n) (a ∷ []) ys current l h = absurd (omega (arith, l))
scan-settled (suc n) (a ∷ b ∷ []) ys current l h = absurd (omega (arith, l))
scan-settled (suc n) (a ∷ b ∷ c ∷ xs) ys current l h =
    elim (Option-cases (separator_at (a ∷ b ∷ c ∷ xs))) [
      | inr (m, e) ↦ absurd (
          let q : current ∷ (scan (m - 1) [] (b ∷ c ∷ xs)).0 ≡ [] =
            rw (scan-some current a m (b ∷ c ∷ xs) e) at h in
          cc)
      | inl e ↦
          let q : (scan 0 (current ++ (a ∷ [])) (b ∷ c ∷ xs)).0 ≡ [] =
            rw (scan-none current a (b ∷ c ∷ xs) e) at h in
          let i = scan-settled n (b ∷ c ∷ xs) ys (current ++ (a ∷ [])) (omega (arith, l)) q in
          rw
            (
              scan-none current a (b ∷ c ∷ xs ++ ys) (separator_at-append_none a b c xs ys e),
              i,
              append_assoc current (a ∷ []) (take n (b ∷ c ∷ xs)),
            )
            refl
    ]

module _ {ℓ} {A : Type ℓ} where
  take-append_le : (n : ℕ) (xs ys : List A) → n ≤ length xs → take n (xs ++ ys) ≡ take n xs
  take-append_le zero xs ys l = refl
  take-append_le (suc n) [] ys l = absurd (omega (arith, l))
  take-append_le (suc n) (x ∷ xs) ys l = rw (take-append_le n xs ys (omega (arith, l)))

  drop-append_le : (n : ℕ) (xs ys : List A) → n ≤ length xs → drop n (xs ++ ys) ≡ drop n xs ++ ys
  drop-append_le zero xs ys l = refl
  drop-append_le (suc n) [] ys l = absurd (omega (arith, l))
  drop-append_le (suc n) (x ∷ xs) ys l = drop-append_le n xs ys (omega (arith, l))

-- Scanning may start three bytes before the end of what was left over.
scan-from :
    (xs ys : List ℕ)
    → (scan 0 [] xs).0 ≡ []
    → scan 0 (take (length xs - 3) (xs ++ ys)) (drop (length xs - 3) (xs ++ ys))
      ≡ scan 0 [] (xs ++ ys)
scan-from xs ys h = elim (Bool-cases (leb 3 (length xs))) [
  | inl l ↦
      let n = length xs - 3 in
      rw (take-append_le n xs ys (omega arith), drop-append_le n xs ys (omega arith))
        (sym (scan-settled n xs ys [] (ground arith) h))
  | inr l ↦ let z : length xs - 3 ≡ 0 = ground arith in rw z refl
]

-- What the code's framer holds after the bytes `stream`.
record IsAfter (stream : List ℕ) (f : SseFramer) : Type 0 where
  rest : f.buf ≡ (scan 0 [] stream).1
  from : f.scan_from ≡ length f.buf - 3

-- No chunk but the last leaves the stream where a separator may still grow; `stream` is what came
-- before the chunks.
abbrev pub IsWhole : List ℕ → List (List ℕ) → Type 0
IsWhole stream [] = Unit
IsWhole stream (c ∷ cs) = (ends_split stream ≡ false) × IsWhole (stream ++ c) cs

abbrev pub list_of {ℓ} : {A : Type ℓ} → Option A → List A
list_of none = []
list_of (some a) = a ∷ []

module _ {ℓ} {A : Type ℓ} (decode : List ℕ → A) where
  push-scan :
      (stream chunk : List ℕ) (f : SseFramer)
      → ends_split stream ≡ false
      → IsAfter stream f
      → IsAfter (stream ++ chunk) (push decode chunk f).0
        × (map decode (scan 0 [] (stream ++ chunk)).0
            ≡ map decode (scan 0 [] stream).0 ++ (push decode chunk f).1)
  unfolding push
  push-scan stream chunk f h a =
      let xs = (scan 0 [] stream).1 in
      let q = scan-append stream chunk 0 [] h (omega arith) (Rescans-nil 0 stream) in
      let s = scan-from xs chunk (remainder-scan stream h) in
      rw (a.from, a.rest, s, q)
        (
          record { rest = sym (ap (λ p. p.1) q); from = refl },
          map-append decode (scan 0 [] stream).0 (scan 0 [] (xs ++ chunk)).0,
        )

  -- The chunks pushed one after the other.
  unfoldable pub push_all : List (List ℕ) → SseFramer → SseFramer × List A
  unfolding push
  push_all [] f = (f, [])
  push_all (c ∷ cs) f = let r = push decode c f in let s = push_all cs r.0 in (s.0, r.1 ++ s.1)

  push_all-scan :
      (stream : List ℕ) (chunks : List (List ℕ)) (f : SseFramer)
      → IsWhole stream chunks
      → IsAfter stream f
      → IsAfter (stream ++ flatten chunks) (push_all chunks f).0
        × (map decode (scan 0 [] (stream ++ flatten chunks)).0
            ≡ map decode (scan 0 [] stream).0 ++ (push_all chunks f).1)
  unfolding push_all flatten
  push_all-scan stream [] f h a =
      rw (append-nil stream) (a, sym (append-nil (map decode (scan 0 [] stream).0)))
  push_all-scan stream (c ∷ cs) f h a =
      let r = push decode c f in
      let (b, q) = push-scan stream c f h.0 a in
      let (d, t) = push_all-scan (stream ++ c) cs r.0 h.1 b in
      let s = append_assoc stream c (flatten cs) in
      (
        subst (λ x. IsAfter x (push_all cs r.0).0) s d,
        rw (← s, t, q) (append_assoc (map decode (scan 0 [] stream).0) r.1 (push_all cs r.0).1),
      )

  -- Everything that comes out of the framer, with what `flush` gives at the end.
  unfoldable pub received : List (List ℕ) → List A
  unfolding push_all flush
  received chunks = let r = push_all chunks new_framer in r.1 ++ list_of (flush decode r.0).1

  abbrev last_of : List ℕ → List A
  last_of rest = list_of (if is_empty rest then none else some (decode rest))

  flush-last : (f : SseFramer) → list_of (flush decode f).1 ≡ last_of f.buf
  unfolding flush
  flush-last f = elim (Bool-cases (is_empty f.buf)) [ inl e ↦ rw e refl | inr e ↦ rw e refl ]

  -- What comes out before the end of the stream, and what is left in the buffer.
  pub push_all-new_framer :
      (chunks : List (List ℕ))
      → IsWhole [] chunks
      → ((push_all chunks new_framer).1 ≡ map decode (scan 0 [] (flatten chunks)).0)
        × ((push_all chunks new_framer).0.buf ≡ (scan 0 [] (flatten chunks)).1)
  unfolding scan
  push_all-new_framer chunks h =
      let (a, q) = push_all-scan [] chunks new_framer h (record { rest = refl; from = refl }) in
      (sym q, a.rest)

  pub received-scan :
      (chunks : List (List ℕ))
      → IsWhole [] chunks
      → received chunks
        ≡ map decode (scan 0 [] (flatten chunks)).0 ++ last_of (scan 0 [] (flatten chunks)).1
  unfolding received
  received-scan chunks h =
      let (a, q) = push_all-scan [] chunks new_framer h (record { rest = refl; from = refl }) in
      rw (flush-last (push_all chunks new_framer).0, a.rest, q) refl

  -- The frames of a stream, the unterminated one at its end included, do not depend on the chunks that
  -- it arrives in, provided that no chunk but the last leaves the stream at a line break followed by a
  -- carriage return.
  pub received-chunks :
      (chunks : List (List ℕ))
      → IsWhole [] chunks
      → received chunks ≡ received (flatten chunks ∷ [])
  unfolding flatten
  received-chunks chunks h =
      let q = received-scan (flatten chunks ∷ []) (refl, tt) in
      rw (received-scan chunks h, q, append-nil (flatten chunks)) refl

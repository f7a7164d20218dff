-- ===== src/Sse/Separators.antt =====
-- separator_at of proxy/sse.rs, when more bytes follow.
use subbier.Base.{
  ℕ, ◌≤◌, ◌≡◌, refl, Bool, false, ◌&&◌, ◌||◌, none, some, List, [], ◌∷◌, ◌++◌, ◌==◌, if◌then◌else◌,
  length, arith,
}
use subbier.Sse.{line_break_at, separator_at}

-- Whether the first byte is a line feed.
abbrev pub is_lf_next : List ℕ → Bool
is_lf_next [] = false
is_lf_next (b ∷ bs) = b == 10

-- A line break at the front, by its first byte.
line_break_at-cons :
    (b : ℕ) (bs : List ℕ)
    → line_break_at (b ∷ bs) ≡ (
        if b == 13
        then (if is_lf_next bs then some 2 else some 1)
        else if b == 10
        then some 1
        else none)
unfolding line_break_at
line_break_at-cons b [] = ground arith
line_break_at-cons b (c ∷ bs) = ground arith

abbrev is_break : ℕ → Bool
is_break b = b == 13 || b == 10

-- The bytes end in a line break and a carriage return, which a line feed might follow.
abbrev pub ends_split : List ℕ → Bool
ends_split [] = false
ends_split (a ∷ []) = false
ends_split (a ∷ b ∷ []) = is_break a && b == 13
ends_split (a ∷ b ∷ c ∷ bs) = ends_split (b ∷ c ∷ bs)

pub ends_split-tail : (b : ℕ) (bs : List ℕ) → ends_split (b ∷ bs) ≡ false → ends_split bs ≡ false
ends_split-tail b [] h = refl
ends_split-tail b (c ∷ []) h = refl
ends_split-tail b (c ∷ d ∷ bs) h = h

-- A separator stays one, whatever follows.
pub separator_at-append :
    (xs ys : List ℕ) (n : ℕ)
    → ends_split xs ≡ false
    → separator_at xs ≡ some n
    → separator_at (xs ++ ys) ≡ some n
unfolding separator_at line_break_at
separator_at-append [] ys n h e = absurd (ground arith)
separator_at-append (a ∷ []) ys n h e = absurd (ground arith)
separator_at-append (a ∷ b ∷ []) ys n h e = ground arith
separator_at-append (a ∷ b ∷ c ∷ []) ys n h e = ground arith
separator_at-append (a ∷ b ∷ c ∷ d ∷ bs) ys n h e = ground arith

pub separator_at-bounds :
    (xs : List ℕ) (n : ℕ) → separator_at xs ≡ some n → (2 ≤ n) × (n ≤ length xs)
unfolding separator_at line_break_at
separator_at-bounds [] n e = absurd (ground arith)
separator_at-bounds (a ∷ []) n e = absurd (ground arith)
separator_at-bounds (a ∷ b ∷ []) n e = ground arith
separator_at-bounds (a ∷ b ∷ c ∷ []) n e = ground arith
separator_at-bounds (a ∷ b ∷ c ∷ d ∷ bs) n e = ground arith

-- Where there is none, three bytes are enough to tell.
pub separator_at-append_none :
    (a b c : ℕ) (xs ys : List ℕ)
    → separator_at (a ∷ b ∷ c ∷ xs) ≡ none
    → separator_at (a ∷ b ∷ c ∷ xs ++ ys) ≡ none
unfolding separator_at line_break_at
separator_at-append_none a b c xs ys e = ground arith

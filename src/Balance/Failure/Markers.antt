-- ===== src/Balance/Failure/Markers.antt =====
-- What the search for a marker in a response body finds.
use subbier.Base.{
  ℕ, ◌+◌, ◌≡◌, refl, sym, ap, subst, inl, inr, Bool, true, List, [], ◌∷◌, ◌++◌, length, take, drop,
  any, ltb, arith, Bool-cases, eq_ignore_ascii_case, length-append, take-append-drop, take-append,
}
use subbier.Balance.Failure.{windows, contains_ignore_ascii_case}

-- `needle` stands somewhere in `haystack`, up to ASCII case.
pub record Occurs (needle haystack : List ℕ) : Type 0 where
  pub before : List ℕ
  pub found : List ℕ
  pub after : List ℕ
  pub splits : haystack ≡ before ++ (found ++ after)
  pub equal : eq_ignore_ascii_case found needle ≡ true

eq_ignore_ascii_case-length :
    (xs ys : List ℕ) → eq_ignore_ascii_case xs ys ≡ true → length xs ≡ length ys
eq_ignore_ascii_case-length [] [] h = refl
eq_ignore_ascii_case-length [] (y ∷ ys) h = cc
eq_ignore_ascii_case-length (x ∷ xs) [] h = cc
eq_ignore_ascii_case-length (x ∷ xs) (y ∷ ys) h = ground (arith, eq_ignore_ascii_case-length xs ys)

abbrev hit : List ℕ → List ℕ → Bool
hit needle w = eq_ignore_ascii_case w needle

windows_sound :
    (needle haystack : List ℕ)
    → any (hit needle) (windows (length needle) haystack) ≡ true
    → Occurs needle haystack
unfolding windows
windows_sound needle [] h = cc
windows_sound needle (x ∷ xs) h = elim (Bool-cases (ltb (length (x ∷ xs)) (length needle))) [
  | inl short ↦ absurd (ground arith)
  | inr fits ↦ elim (Bool-cases (hit needle (take (length needle) (x ∷ xs)))) [
    | inl here ↦ record {
      before = [];
      found = take (length needle) (x ∷ xs);
      after = drop (length needle) (x ∷ xs);
      splits = sym (take-append-drop (length needle) (x ∷ xs));
      equal = here;
    }
    | inr later ↦
        let o = windows_sound needle xs (ground arith) in
        record {
          before = x ∷ o.before;
          found = o.found;
          after = o.after;
          splits = ap (◌∷◌ x) o.splits;
          equal = o.equal;
        }
  ]
]

windows_complete :
    (needle before found after : List ℕ) (n : ℕ)
    → length needle ≡ n + 1
    → eq_ignore_ascii_case found needle ≡ true
    → any (hit needle) (windows (length needle) (before ++ (found ++ after))) ≡ true
unfolding windows
windows_complete needle [] [] after n l h =
    absurd (omega (arith, eq_ignore_ascii_case-length [] needle h))
windows_complete needle [] (f ∷ fs) after n l h =
    let e : length (f ∷ fs) ≡ length needle = eq_ignore_ascii_case-length (f ∷ fs) needle h in
    ground (arith, length-append fs after, take-append fs after)
windows_complete needle (b ∷ bs) found after n l h = ground (
  arith,
  eq_ignore_ascii_case-length found needle h,
  length-append bs (found ++ after),
  length-append found after,
  windows_complete needle bs found after n l h,
)

pub contains-Occurs :
    (haystack needle : List ℕ)
    → contains_ignore_ascii_case haystack needle ≡ true
    → Occurs needle haystack
unfolding contains_ignore_ascii_case
contains-Occurs haystack [] h = record {
  before = [];
  found = [];
  after = haystack;
  splits = refl;
  equal = refl;
}
contains-Occurs haystack (c ∷ cs) h = windows_sound (c ∷ cs) haystack (ground arith)

pub Occurs-contains :
    (haystack needle : List ℕ)
    → Occurs needle haystack
    → contains_ignore_ascii_case haystack needle ≡ true
unfolding contains_ignore_ascii_case
Occurs-contains haystack [] o = refl
Occurs-contains haystack (c ∷ cs) o =
    subst (λ h. contains_ignore_ascii_case h (c ∷ cs) ≡ true) (sym o.splits)
      (ground (
        arith,
        eq_ignore_ascii_case-length o.found (c ∷ cs) o.equal,
        length-append o.before (o.found ++ o.after),
        length-append o.found o.after,
        windows_complete (c ∷ cs) o.before o.found o.after (length cs) (omega arith) o.equal,
      ))

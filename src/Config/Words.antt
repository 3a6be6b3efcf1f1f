-- ===== src/Config/Words.antt =====
-- `trim` and `split` on words: texts that do not begin or end with a space.
use meta_dr.Prelude.{
  ℕ, zero, suc, ◌+◌, ◌≡◌, ◌≢◌, refl, sym, ap, ◌∙◌, Bool, true, false, not, ◌||◌, none, some, List,
  [], ◌∷◌, ◌++◌, map, ◌==◌, nat_eq, text_eq, length, take, drop, Text, arith, All,
}
use mathlib.Core.List.{append_assoc, append-nil}
use meta_dr.Api.{contains}
use meta_dr.Config.{
  space, find_first_not_of, find_last_not_of, trim_front, trim_back, trim, split_loop, split,
}

abbrev pub spaces : ℕ → Text
spaces zero = []
spaces (suc k) = space ∷ spaces k

abbrev pub first_ok : Text → Bool
first_ok [] = false
first_ok (c ∷ s) = not (c == space)

abbrev pub last_ok : Text → Bool
last_ok [] = false
last_ok (c ∷ []) = not (c == space)
last_ok (c ∷ d ∷ s) = last_ok (d ∷ s)

-- A text that does not begin or end with a space, and is not empty.
abbrev pub IsWord : Text → Type 0
IsWord s = (first_ok s ≡ true) × (last_ok s ≡ true)

find_first-spaces :
    (k i : ℕ) (s : Text)
    → first_ok s ≡ true
    → find_first_not_of space i (spaces k ++ s) ≡ some (i + k)
unfolding find_first_not_of
find_first-spaces zero i [] h = ground arith
find_first-spaces zero i (c ∷ s) h = ground arith
find_first-spaces (suc k) i s h = ground (arith, find_first-spaces k (i + 1) s h)

drop-spaces : (k : ℕ) (s : Text) → drop k (spaces k ++ s) ≡ s
drop-spaces zero s = refl
drop-spaces (suc k) s = drop-spaces k s

pub trim_front-spaces : (k : ℕ) (s : Text) → first_ok s ≡ true → trim_front (spaces k ++ s) ≡ s
unfolding trim_front
trim_front-spaces k s h = ground (arith, find_first-spaces k 0 s h, drop-spaces k s)

find_last-spaces : (k i : ℕ) → find_last_not_of space i (spaces k) ≡ none
unfolding find_last_not_of
find_last-spaces zero i = refl
find_last-spaces (suc k) i = ground (arith, find_last-spaces k (i + 1))

find_last-word :
    (c : ℕ) (s : Text) (k i : ℕ)
    → last_ok (c ∷ s) ≡ true
    → find_last_not_of space i ((c ∷ s) ++ spaces k) ≡ some (i + length s)
unfolding find_last_not_of
find_last-word c [] k i h = ground (arith, find_last-spaces k (i + 1))
find_last-word c (d ∷ s) k i h = ground (arith, find_last-word d s k (i + 1) h)

take-word : (s t : Text) → take (length s) (s ++ t) ≡ s
take-word [] t = refl
take-word (c ∷ s) t = ap (◌∷◌ c) (take-word s t)

pub trim_back-spaces : (k : ℕ) (s : Text) → last_ok s ≡ true → trim_back (s ++ spaces k) ≡ s
unfolding trim_back
trim_back-spaces k [] h = ground arith
trim_back-spaces k (c ∷ s) h =
    let one : length s + 1 ≡ suc (length s) = omega arith in
    ground (arith, find_last-word c s k 0 h, take-word s (spaces k), one)

first_ok-append : (s t : Text) → first_ok s ≡ true → first_ok (s ++ t) ≡ true
first_ok-append [] t h = ground arith
first_ok-append (c ∷ s) t h = h

last_ok-append : (s t : Text) → last_ok t ≡ true → last_ok (s ++ t) ≡ true
last_ok-append [] t h = h
last_ok-append (c ∷ []) [] h = ground arith
last_ok-append (c ∷ []) (d ∷ t) h = h
last_ok-append (c ∷ d ∷ s) t h = last_ok-append (d ∷ s) t h

pub IsWord-append : (s m t : Text) → IsWord s → IsWord t → IsWord (s ++ (m ++ t))
IsWord-append s m t hs ht =
    (first_ok-append s (m ++ t) hs.0, last_ok-append s (m ++ t) (last_ok-append m t ht.1))

-- `trim` takes the spaces around a word off, and nothing else.
pub trim-spaces : (j k : ℕ) (s : Text) → IsWord s → trim (spaces j ++ (s ++ spaces k)) ≡ s
unfolding trim
trim-spaces j k s h =
    rw (trim_front-spaces j (s ++ spaces k) (first_ok-append s (spaces k) h.0))
      (trim_back-spaces k s h.1)

find_first_blank : (k i : ℕ) → find_first_not_of space i (spaces k) ≡ none
unfolding find_first_not_of
find_first_blank zero i = refl
find_first_blank (suc k) i = ground (arith, find_first_blank k (i + 1))

-- A text of spaces alone is left as it is.
pub trim_blank : (k : ℕ) → trim (spaces k) ≡ spaces k
unfolding trim trim_front trim_back
trim_blank k = ground (arith, find_first_blank k 0, find_last-spaces k 0)

pub contains-append : (c : ℕ) (s t : Text) → contains c (s ++ t) ≡ (contains c s || contains c t)
contains-append c [] t = refl
contains-append c (a ∷ s) t = ground (arith, contains-append c s t)

split_loop-append :
    (delim : ℕ) (p current rest : Text)
    → contains delim p ≡ false
    → split_loop delim current (p ++ rest) ≡ split_loop delim (current ++ p) rest
unfolding split_loop
split_loop-append delim [] current rest h = rw append-nil
split_loop-append delim (c ∷ p) current rest h =
    ground
      (arith, split_loop-append delim p (current ++ c ∷ []) rest, append_assoc current (c ∷ []) p)

split_at :
    (delim : ℕ) (current rest : Text)
    → current ≢ []
    → split_loop delim current (delim ∷ rest) ≡ trim current ∷ split_loop delim [] rest
unfolding split_loop
split_at delim [] rest h = absurd (h refl)
split_at delim (c ∷ s) rest h = ground arith

-- The parts, with a delimiter before each but the first.
abbrev pub join : ℕ → Text → List Text → Text
join delim p [] = p
join delim p (q ∷ qs) = p ++ delim ∷ join delim q qs

-- Splitting parts that are not empty and do not hold the delimiter gives the trimmed parts.
pub split-join :
    (delim : ℕ) (p : Text) (ps : List Text)
    → All (λ q. (q ≢ []) × (contains delim q ≡ false)) (p ∷ ps)
    → split (join delim p ps) delim ≡ map trim (p ∷ ps)
unfolding split split_loop
split-join delim p [] h =
    ap (split_loop delim []) (sym (append-nil p)) ∙ split_loop-append delim p [] [] h.0.1
split-join delim p (q ∷ qs) h =
    split_loop-append delim p [] (delim ∷ join delim q qs) h.0.1
    ∙ split_at delim p (join delim q qs) h.0.0
    ∙ ap (◌∷◌ (trim p)) (split-join delim q qs h.1)

-- ===== src/Config/Parse.antt =====
-- The parser of the configuration file, on the lines that a file should have.
use meta_dr.Prelude.{
  ℕ, zero, suc, ◌≡◌, ◌≢◌, refl, sym, ap, ◌∙◌, Bool, false, [], ◌∷◌, ◌++◌, ◌==◌, nat_eq, text_eq,
  Text, arith,
}
use mathlib.Core.List.{append_assoc, append-nil}
use meta_dr.Prelude.Exec.{done, throw, invalid_argument}
use meta_dr.Api.{contains}
use meta_dr.Config.{space, trim, split, pair_of, UserInput, set_entry, parse_line}
use meta_dr.Config.Words.{
  spaces, IsWord, IsWord-append, trim-spaces, trim_blank, contains-append, join, split-join,
}

abbrev pub padded : ℕ → Text → ℕ → Text
padded j s k = spaces j ++ (s ++ spaces k)

pub contains-spaces : (c k : ℕ) → (c == space) ≡ false → contains c (spaces k) ≡ false
contains-spaces c zero h = refl
contains-spaces c (suc k) h = ground (arith, contains-spaces c k h)

pub trim_word : (s : Text) → IsWord s → trim s ≡ s
trim_word s h = ap trim (sym (append-nil s)) ∙ trim-spaces 0 0 s h

trim_left : (k : ℕ) (s : Text) → IsWord s → trim (spaces k ++ s) ≡ s
trim_left k s h = ap (λ (t : Text). trim (spaces k ++ t)) (sym (append-nil s)) ∙ trim-spaces k 0 s h

pub not-nil : (s : Text) → IsWord s → s ≢ []
not-nil [] h q = ground arith
not-nil (c ∷ s) h q = cc

append-ne-nil : (s t : Text) → s ≢ [] → s ++ t ≢ []
append-ne-nil [] t h q = h refl
append-ne-nil (c ∷ s) t h q = cc

ne-nil-append : (s t : Text) → t ≢ [] → s ++ t ≢ []
ne-nil-append [] t h q = h q
ne-nil-append (c ∷ s) t h q = cc

-- A word without the delimiter.
abbrev pub IsField : ℕ → Text → Type 0
IsField delim s = IsWord s × (contains delim s ≡ false)

-- Two words with a delimiter and spaces between them.
pub split_pair :
    (delim i j : ℕ) (a b : Text)
    → (delim == space) ≡ false
    → IsField delim a
    → IsField delim b
    → split (join delim (a ++ spaces i) ((spaces j ++ b) ∷ [])) delim ≡ a ∷ b ∷ []
split_pair delim i j a b d ha hb =
    split-join delim (a ++ spaces i) ((spaces j ++ b) ∷ []) (
      (
        append-ne-nil a (spaces i) (not-nil a ha.0),
        ground (arith, contains-append delim a (spaces i), contains-spaces delim i d, ha.1),
      ),
      (
        (
          ne-nil-append (spaces j) b (not-nil b hb.0),
          ground (arith, contains-append delim (spaces j) b, contains-spaces delim j d, hb.1),
        ),
        tt,
      ),
    )
    ∙ ground (arith, trim-spaces 0 i a ha.0, trim_left j b hb.0)

abbrev pub is_comment : Text → Bool
is_comment [] = false
is_comment (c ∷ s) = c == b'#'

parse_word :
    (w text : Text) (u : UserInput) (key val : Text)
    → w ≢ []
    → is_comment w ≡ false
    → trim text ≡ w
    → split w b'=' ≡ key ∷ val ∷ []
    → parse_line text u ≡ set_entry key val u
unfolding parse_line pair_of
parse_word [] text u key val f h t s = absurd (f refl)
parse_word (c ∷ w) text u key val f h t s = ground arith

is_comment-append : (s t : Text) → s ≢ [] → is_comment (s ++ t) ≡ is_comment s
is_comment-append [] t h = absurd (h refl)
is_comment-append (c ∷ s) t h = refl

-- A line `key = val`, with any number of spaces before, after and around the `=`, sets that entry.
pub parse_line-entry :
    (h i j k : ℕ) (key val : Text) (u : UserInput)
    → IsField b'=' key
    → IsField b'=' val
    → is_comment key ≡ false
    → parse_line (padded h (join b'=' (key ++ spaces i) ((spaces j ++ val) ∷ [])) k) u
      ≡ set_entry key val u
parse_line-entry h i j k key val u hk hv c =
    let word = join b'=' (key ++ spaces i) ((spaces j ++ val) ∷ []) in
    let shape : (key ++ (spaces i ++ b'=' ∷ spaces j)) ++ val ≡ word = simp append_assoc in
    let is_word : IsWord word =
      rw (sym shape, append_assoc)
        (IsWord-append key (spaces i ++ b'=' ∷ spaces j) val hk.0 hv.0) in
    parse_word word (padded h word k) u key val (not-nil word is_word)
      (is_comment-append (key ++ spaces i) _ (append-ne-nil key (spaces i) (not-nil key hk.0))
        ∙ is_comment-append key (spaces i) (not-nil key hk.0)
        ∙ c)
      (trim-spaces h k word is_word) (split_pair b'=' i j key val refl hk hv)

-- A line of spaces alone is refused, while an empty line is skipped.
parse_line_blank :
    (k : ℕ) (u : UserInput)
    → (parse_line (spaces (suc k)) u ≡ (throw invalid_argument, u))
      × (parse_line [] u ≡ (done tt, u))
unfolding parse_line pair_of
parse_line_blank k u =
    let blank = trim_blank (suc k) in
    let alone =
      split-join b'=' (spaces (suc k)) [] ((λ q. cc, contains-spaces b'=' (suc k) refl), tt) in
    (ground (arith, blank, alone), refl)

-- ===== src/Api/Format.antt =====
-- server/kvStoreImpl.cc, `checkKeyFormat` against a description of the keys.
use meta_dr.Prelude.{
  ◌≡◌, refl, Bool, true, false, not, ◌&&◌, ◌||◌, ℕ, [], ◌∷◌, ◌==◌, nat_eq, if◌then◌else◌, leb, ltb,
  length, Text, arith,
}
use meta_dr.Types.{Error, key_malformed}
use meta_dr.Api.{slash, valid_char, check_chars, check_key_format}

-- A slash, a digit, a letter or an underscore.
unfoldable pub is_key_char : ℕ → Bool
is_key_char c =
    c == slash
    || (leb b'0' c && leb c b'9')
    || (leb b'A' c && leb c b'Z')
    || (leb b'a' c && leb c b'z')
    || c == b'_'

abbrev pub all_key_chars : Text → Bool
all_key_chars [] = true
all_key_chars (c ∷ s) = is_key_char c && all_key_chars s

abbrev pub begins_with_slash : Text → Bool
begins_with_slash [] = false
begins_with_slash (c ∷ s) = c == slash

abbrev pub ends_with_slash : Text → Bool
ends_with_slash [] = false
ends_with_slash (c ∷ []) = c == slash
ends_with_slash (c ∷ d ∷ s) = ends_with_slash (d ∷ s)

-- What a key is.
abbrev pub is_key : Text → Bool
is_key key =
    begins_with_slash key
    && (ltb 1 (length key) && (all_key_chars key && not (ends_with_slash key)))

valid_char_lem : (c : ℕ) → valid_char c ≡ is_key_char c
unfolding valid_char is_key_char
valid_char_lem c = ground arith

slash_char : is_key_char slash ≡ true
unfolding is_key_char
slash_char = refl

check_chars_lem :
    (s : Text)
    → check_chars s
      ≡ (if all_key_chars s && not (ends_with_slash s) then Error.none else key_malformed)
unfolding check_chars
check_chars_lem [] = refl
check_chars_lem (c ∷ []) = ground (arith, valid_char_lem c)
check_chars_lem (c ∷ d ∷ s) = ground (arith, valid_char_lem c, check_chars_lem (d ∷ s))

-- `checkKeyFormat` accepts exactly the texts that begin with a slash, are longer than it, do not end
-- with a slash and hold only slashes, digits, letters and underscores, and it returns KEY_MALFORMED
-- for every other text.
pub check_key_format_lem :
    (key : Text) → check_key_format key ≡ (if is_key key then Error.none else key_malformed)
unfolding check_key_format
check_key_format_lem [] = refl
check_key_format_lem (c ∷ []) = ground arith
check_key_format_lem (c ∷ d ∷ s) = ground (arith, check_chars_lem (d ∷ s), slash_char)

-- ===== src/Api.antt =====
-- server/kvStoreImpl.cc and the list of server/kvMemStore.cc: the calls of the clients. The handlers
-- are in `Api/Server`.
pub mod Server
pub mod Prune
pub mod Format
pub mod Listing
pub mod Children
use Prim.Native.Nat.{◌-◌, ◌^◌}
use meta_dr.Prelude.{
  ℕ, zero, suc, ◌+◌, Bool, true, false, not, ◌&&◌, ◌||◌, Option, none, some, List, [], ◌∷◌, ◌++◌,
  ◌==◌, nat_eq, text_eq, if◌then◌else◌, ltb, leb, length, drop, take, Text,
}
use meta_dr.Prelude.Dict.{Dict}
use meta_dr.Types.{Error, key_malformed}

abbrev pub slash : ℕ
slash = b'/'

-- The loop of `pruneKey`: `kept` is the part of the key before the index `i`, and the last argument the
-- part from `i` on. An erased character leaves `i` as it is.
unfoldable pub prune_loop : Text → ℕ → ℕ → Text → Text × ℕ
prune_loop kept i last_slash_index [] = (kept, last_slash_index)
prune_loop kept i last_slash_index (c ∷ rest) =
    let erased = prune_loop kept i last_slash_index rest in
    let at_slash = prune_loop (kept ++ c ∷ []) (i + 1) i rest in
    let other = prune_loop (kept ++ c ∷ []) (i + 1) last_slash_index rest in
    if c == slash then (if last_slash_index == i - 1 then erased else at_slash) else other

-- The pruned key and the index of its last slash; `none` is the failed `assert`.
unfoldable pub prune_key : Text → Option (Text × ℕ)
unfolding prune_loop
prune_key [] = none
prune_key (c ∷ rest) = if c == slash then some (prune_loop (c ∷ []) 1 0 rest) else none

-- `static_cast<unsigned>` of a signed `char`, from its byte.
abbrev pub to_unsigned : ℕ → ℕ
to_unsigned c = if ltb c 128 then c else 2 ^ 32 - 256 + c

unfoldable pub valid_char : ℕ → Bool
valid_char c =
    let key_int = to_unsigned c in
    (leb 47 key_int && leb key_int 57)
    || (leb 65 key_int && leb key_int 90)
    || (leb 97 key_int && leb key_int 122)
    || key_int == 95

-- The loop of `checkKeyFormat` over the characters from index 1 on.
unfoldable pub check_chars : Text → Error
unfolding valid_char
check_chars [] = Error.none
check_chars (c ∷ rest) =
    let others = check_chars rest in
    if length rest == 0 && c == slash
    then key_malformed
    else if valid_char c
    then others
    else key_malformed

unfoldable pub check_key_format : Text → Error
unfolding check_chars
check_key_format [] = key_malformed
check_key_format (c ∷ rest) =
    if not (c == slash)
    then key_malformed
    else if length rest == 0
    then key_malformed
    else check_chars rest

abbrev pub starts_with : Text → Text → Bool
starts_with [] s = true
starts_with (a ∷ p) [] = false
starts_with (a ∷ p) (b ∷ s) = a == b && starts_with p s

-- `s.find(p)`, counted from index `i`.
unfoldable pub find_text : ℕ → Text → Text → Option ℕ
find_text i p [] = if starts_with p [] then some i else none
find_text i p (c ∷ s) =
    let later = find_text (i + 1) p s in if starts_with p (c ∷ s) then some i else later

-- Whether a character stands in a text.
abbrev pub contains : ℕ → Text → Bool
contains c [] = false
contains c (b ∷ s) = b == c || contains c s

-- The order of `std::string`, by bytes.
abbrev pub text_ltb : Text → Text → Bool
text_ltb [] [] = false
text_ltb [] (b ∷ t) = true
text_ltb (a ∷ s) [] = false
text_ltb (a ∷ s) (b ∷ t) = if ltb a b then true else a == b && text_ltb s t

-- `std::set::insert` on the ascending list of the elements.
unfoldable pub set_insert : Text → List Text → List Text
set_insert k [] = k ∷ []
set_insert k (j ∷ js) =
    let rest = set_insert k js in
    if text_ltb k j then k ∷ j ∷ js else if text_ltb j k then j ∷ rest else j ∷ js

-- The test on one key in `KvMemStore::list`.
unfoldable pub listed : Text → ℕ → Text → Bool
unfolding find_text
listed prefix ignore_in_suffix key =
    if key == prefix then false else elim (find_text 0 prefix key) [
      | none ↦ false
      | some pos ↦ not (contains ignore_in_suffix (drop (pos + length prefix + 1) key))
    ]

unfoldable pub list_keys : Text → ℕ → Dict Text Text → List Text
unfolding set_insert listed
list_keys prefix ignore_in_suffix [] = []
list_keys prefix ignore_in_suffix ((key, val) ∷ kv) =
    let rest = list_keys prefix ignore_in_suffix kv in
    if listed prefix ignore_in_suffix key then set_insert key rest else rest

-- `find_last_of("/")`, as a position counted from index `i`, with the last one found so far.
unfoldable pub last_slash : ℕ → Option ℕ → Text → Option ℕ
last_slash i found [] = found
last_slash i found (c ∷ s) = last_slash (i + 1) (if c == slash then some i else found) s

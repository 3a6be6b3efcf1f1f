-- ===== src/Examples/Listing.antt =====
-- The theorem on `list`, at a primary with a key and a key below it.
use meta_dr.Prelude.{
  ◌≡◌, refl, List, [], ◌∷◌, Text, codes, nat_eq, text_eq, arith, true, Bool-cases, inl, inr,
  text_beq_iff, ◌==◌,
}
use mathlib.Core.Path.{subst}
use meta_dr.Prelude.Dict.{has, lookup}
use meta_dr.Prelude.Exec.{done}
use meta_dr.Node.{Node}
use meta_dr.Replicator.{is_primary}
use meta_dr.MemStore.{has_key}
use meta_dr.Api.{check_key_format, check_chars, valid_char, prune_key, prune_loop}
use meta_dr.Api.Children.{IsKey}
use meta_dr.Api.Server.{keys, list}
use meta_dr.Api.Server.Lists.{HasKeys, Looks, at_key, Lists, list-Lists}
use meta_dr.Examples.{fresh, text_a, text_ab, text_x}

abbrev two_keys : Node
two_keys = record (fresh 0) { kv = (text_a, text_x) ∷ (text_ab, text_x) ∷ [] }

two_keys-HasKeys : HasKeys two_keys
unfolding has lookup
two_keys-HasKeys key h = elim (Bool-cases (text_a == key)) [
  | inl q ↦ subst IsKey ((text_beq_iff text_a key).0 q) ((refl, tt), refl)
  | inr q ↦ elim (Bool-cases (text_ab == key)) [
    | inl r ↦ subst IsKey ((text_beq_iff text_ab key).0 r) ((refl, (refl, (refl, tt))), refl)
    | inr r ↦ ground arith
  ]
]

Looks-below : Looks (codes "//a") text_a two_keys
unfolding check_key_format check_chars valid_char prune_key prune_loop has_key has lookup
Looks-below = at_key 0 refl refl refl

is_first : is_primary two_keys ≡ true
unfolding is_primary
is_first = refl

list-Lists_example :
    (ls : List Text) × (list (codes "//a") two_keys ≡ (done (keys ls), two_keys))
    × Lists text_a two_keys ls
list-Lists_example = list-Lists (codes "//a") text_a two_keys is_first two_keys-HasKeys Looks-below

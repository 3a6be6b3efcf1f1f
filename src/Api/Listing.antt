-- ===== src/Api/Listing.antt =====
-- Which keys `KvMemStore::list` returns, and the tree that `create` and `remove` keep.
use meta_dr.Prelude.{
  ℕ, suc, ◌+◌, ◌<◌, ◌≡◌, ◌≢◌, ◌<◌, ◌∙◌, refl, sym, ap, ◌∙◌, true, false, some, List, [], ◌∷◌, ◌++◌,
  arith, ◌==◌, nat_eq, text_eq, text_beq, text_beq_iff, if◌then◌else◌, length, drop, take, Text,
  Bool-cases, inl, inr,
}
use mathlib.Core.List.{append_assoc}
use native.Mathlib.Nat.{zero-add}
use meta_dr.Prelude.Dict.{has-insert, Dict, lookup, insert, erase, has, lookup-erase}
use meta_dr.Api.{slash, contains, starts_with, find_text, set_insert, listed, list_keys}
use meta_dr.Api.Prune.{IsPruned}

-- `key` is `parent`, a slash and a last component.
pub record IsChild (parent key : Text) : Type 0 where
  pub leaf : Text
  pub split : key ≡ parent ++ slash ∷ leaf
  pub clean : contains slash leaf ≡ false
  pub filled : leaf ≢ []

-- Every key has its parent in the map, but for the keys just below the root.
abbrev pub IsTree : Dict Text Text → Type 0
IsTree kv =
    (parent key : Text)
    → IsChild parent key
    → has key kv ≡ true
    → parent ≢ []
    → has parent kv ≡ true

starts_with-append : (p t : Text) → starts_with p (p ++ t) ≡ true
starts_with-append [] t = refl
starts_with-append (a ∷ p) t = ground (arith, starts_with-append p t)

find_text-start : (i : ℕ) (p s : Text) → starts_with p s ≡ true → find_text i p s ≡ some i
unfolding find_text
find_text-start i p [] h = rw h
find_text-start i p (c ∷ s) h = rw h

pub drop-length : (p t : Text) → drop (length p + 1) (p ++ t) ≡ drop 1 t
drop-length [] t = refl
drop-length (a ∷ p) t =
    let e : suc (length p) + 1 ≡ suc (length p + 1) = omega arith in rw e (drop-length p t)

text_neq : (p t : Text) → t ≢ [] → text_beq (p ++ t) p ≡ false
text_neq [] [] h = absurd (h refl)
text_neq [] (c ∷ t) h = refl
text_neq (a ∷ p) t h = ground (arith, text_neq p t)

contains-drop : (c : ℕ) (t : Text) → contains c t ≡ false → contains c (drop 1 t) ≡ false
contains-drop c [] h = refl
contains-drop c (b ∷ []) h = refl
contains-drop c (b ∷ d ∷ t) h = ground arith

listed-prefix :
    (p leaf : Text) → contains slash leaf ≡ false → leaf ≢ [] → listed p slash (p ++ leaf) ≡ true
unfolding listed
listed-prefix p leaf clean filled =
    rw (text_neq p leaf filled, find_text-start 0 p (p ++ leaf) (starts_with-append p leaf))
      (rw (zero-add, drop-length p leaf, contains-drop slash leaf clean))

-- A child of a key is listed under it.
pub listed-child :
    (parent key : Text) → IsChild parent key → listed (parent ++ slash ∷ []) slash key ≡ true
listed-child parent key c =
    rw (c.split, sym (append_assoc parent (slash ∷ []) c.leaf))
      (listed-prefix (parent ++ slash ∷ []) c.leaf c.clean c.filled)

set_insert-filled : (k : Text) (js : List Text) → length (set_insert k js) ≢ 0
unfolding set_insert
set_insert-filled k [] h = ground arith
set_insert-filled k (j ∷ js) h = ground arith

list_keys-filled :
    (p key : Text) (kv : Dict Text Text)
    → has key kv ≡ true
    → listed p slash key ≡ true
    → length (list_keys p slash kv) ≢ 0
unfolding list_keys has lookup
list_keys-filled p key [] h l z = ground arith
list_keys-filled p key ((j, v) ∷ kv) h l z = ground (
  arith,
  text_beq_iff j key,
  set_insert-filled j (list_keys p slash kv),
  list_keys-filled p key kv,
)

has-erase :
    (k j : Text) (kv : Dict Text Text) → has j (erase k kv) ≡ (if k == j then false else has j kv)
unfolding has
has-erase k j kv = ground (arith, lookup-erase k j kv)

pub erase-IsTree :
    (k : Text) (kv : Dict Text Text)
    → IsTree kv
    → length (list_keys (k ++ slash ∷ []) slash kv) ≡ 0
    → IsTree (erase k kv)
erase-IsTree k kv t none_listed parent key c h filled = elim (Bool-cases (text_beq k parent)) [
  | inl q ↦ ground (
    arith,
    text_beq_iff k parent,
    listed-child parent key c,
    has-erase k key kv,
    list_keys-filled (parent ++ slash ∷ []) key kv,
  )
  | inr q ↦ ground (arith, has-erase k key kv, has-erase k parent kv, t parent key c)
]

take-length : (p t : Text) → take (length p) (p ++ t) ≡ p
take-length [] t = refl
take-length (a ∷ p) t = ap (◌∷◌ a) (take-length p t)

contains-middle : (p t : Text) → contains slash (p ++ slash ∷ t) ≡ true
contains-middle [] t = refl
contains-middle (a ∷ p) t = ground (arith, contains-middle p t)

split_unique :
    (p q s t : Text)
    → p ++ slash ∷ s ≡ q ++ slash ∷ t
    → contains slash s ≡ false
    → contains slash t ≡ false
    → p ≡ q
split_unique [] [] s t e hs ht = refl
split_unique [] (b ∷ q) s t e hs ht = ground (arith, contains-middle q t)
split_unique (a ∷ p) [] s t e hs ht = ground (arith, contains-middle p s)
split_unique (a ∷ p) (b ∷ q) s t e hs ht = ground (arith, split_unique p q s t)

-- A key may come in when it stands just below the root or below a key that is there.
pub insert-IsTree :
    (key v : Text) (last : ℕ) (kv : Dict Text Text)
    → IsTree kv
    → IsPruned key last
    → (0 < last → has (take last key) kv ≡ true)
    → IsTree (insert key v kv)
insert-IsTree key v last kv t pr below parent k c h filled = elim (Bool-cases (text_beq key k)) [
  | inl q ↦
      let same : key ≡ k = (text_beq_iff key k).0 q in
      let e : pr.parent ≡ parent =
        split_unique pr.parent parent pr.leaf c.leaf (sym pr.split ∙ same ∙ c.split) pr.clean
          c.clean in
      let cut : take last key ≡ parent =
        rw (sym pr.index, pr.split) (take-length pr.parent (slash ∷ pr.leaf) ∙ e) in
      let there : has parent kv ≡ true =
        rw (sym cut) (below (filled_length pr.parent (λ z. filled (sym e ∙ z)) pr.index)) in
      ground (arith, has-insert key parent v kv)
  | inr q ↦ ground (arith, has-insert key k v kv, has-insert key parent v kv, t parent k c)
]
  where
    filled_length : (p : Text) → p ≢ [] → length p ≡ last → 0 < last
    filled_length [] f e = absurd (f refl)
    filled_length (a ∷ p) f e = ground arith

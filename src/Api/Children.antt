-- ===== src/Api/Children.antt =====
-- What the `list` of a client returns, in terms of the keys of the map.
use meta_dr.Prelude.{
  ℕ, suc, ◌+◌, ◌-◌, ◌≡◌, ◌≢◌, refl, sym, ap, ◌∙◌, Bool, true, false, ◌&&◌, ◌||◌, some, none, Option,
  List, [], ◌∷◌, ◌++◌, ◌==◌, nat_eq, text_eq, text_beq_iff, if◌then◌else◌, length, length-append,
  drop, ltb, Text, arith, Bool-cases, Option-cases, inl, inr,
}
use mathlib.Core.Path.{subst}
use mathlib.Core.List.{append_assoc}
use meta_dr.Prelude.Dict.{Dict, lookup, has}
use meta_dr.Api.{
  slash, contains, starts_with, find_text, text_ltb, set_insert, listed, list_keys, last_slash,
}
use meta_dr.Api.Prune.{IsSingle}
use meta_dr.Api.Format.{ends_with_slash}
use meta_dr.Api.Listing.{IsChild, drop-length}

abbrev pub elem : Text → List Text → Bool
elem k [] = false
elem k (j ∷ js) = j == k || elem k js

-- The order is total.
text_ltb-total : (s t : Text) → text_ltb s t ≡ false → text_ltb t s ≡ false → s ≡ t
text_ltb-total [] [] h k = refl
text_ltb-total [] (b ∷ t) h k = ground arith
text_ltb-total (a ∷ s) [] h k = ground arith
text_ltb-total (a ∷ s) (b ∷ t) h k = ground (arith, text_ltb-total s t)

pub elem-set_insert :
    (k j : Text) (js : List Text) → elem k (set_insert j js) ≡ (j == k || elem k js)
unfolding set_insert
elem-set_insert k j [] = refl
elem-set_insert k j (i ∷ js) =
    ground (arith, elem-set_insert k j js, text_ltb-total j i, text_beq_iff j k, text_beq_iff i k)

-- The set of the listed keys.
pub elem-list_keys :
    (key p : Text) (c : ℕ) (kv : Dict Text Text)
    → elem key (list_keys p c kv) ≡ (has key kv && listed p c key)
unfolding list_keys has lookup
elem-list_keys key p c [] = refl
elem-list_keys key p c ((j, v) ∷ kv) =
    ground (
      arith,
      elem-list_keys key p c kv,
      elem-set_insert key j (list_keys p c kv),
      text_beq_iff j key,
    )

starts_with-split : (p s : Text) → starts_with p s ≡ true → (post : Text) × (s ≡ p ++ post)
starts_with-split [] s h = (s, refl)
starts_with-split (a ∷ p) [] h = ground arith
starts_with-split (a ∷ p) (b ∷ s) h =
    let (post, e) = starts_with-split p s (ground arith) in (post, ground arith)

-- A text is found where it is said to be.
find_text-split :
    (i : ℕ) (p s : Text) (pos : ℕ)
    → find_text i p s ≡ some pos
    → (pre : Text) × (post : Text) × (s ≡ pre ++ (p ++ post)) × (pos ≡ i + length pre)
unfolding find_text
find_text-split i p [] pos h =
    let (post, e) = starts_with-split p [] (ground arith) in ([], post, e, ground arith)
find_text-split i p (c ∷ s) pos h = elim (Bool-cases (starts_with p (c ∷ s))) [
  | inl q ↦ let (post, e) = starts_with-split p (c ∷ s) q in ([], post, e, ground arith)
  | inr q ↦
      let (pre, post, e, f) = find_text-split (i + 1) p s pos (ground arith) in
      (c ∷ pre, post, ap (◌∷◌ c) e, ground arith)
]

-- A key of the store: no two slashes side by side, and none at the end.
abbrev pub IsKey : Text → Type 0
IsKey key = IsSingle key × (ends_with_slash key ≡ false)

not_single : (q t : Text) → IsSingle (q ++ slash ∷ slash ∷ t) → ⊥
not_single [] t h = absurd (ground arith)
not_single (a ∷ []) t h = not_single [] t h.1
not_single (a ∷ b ∷ q) t h = not_single (b ∷ q) t h.1

ends_with_slash-append : (q : Text) → ends_with_slash (q ++ slash ∷ []) ≡ true
ends_with_slash-append [] = refl
ends_with_slash-append (a ∷ []) = refl
ends_with_slash-append (a ∷ b ∷ q) = ends_with_slash-append (b ∷ q)

-- What stands behind the prefix is the last component.
behind :
    (q key post : Text)
    → IsKey key
    → key ≡ q ++ slash ∷ post
    → contains slash (drop 1 post) ≡ false
    → IsChild q key
behind q key [] k e h = absurd (ground (arith, k.1, ends_with_slash-append q, ap ends_with_slash e))
behind q key (c ∷ post) k e h = elim (Bool-cases (c == slash)) [
  | inl same ↦
      absurd (
        not_single q post (subst IsSingle (e ∙ ap (λ d. q ++ slash ∷ d ∷ post) (ground arith)) k.0))
  | inr other ↦ record { leaf = c ∷ post; split = e; clean = ground arith; filled = λ z. cc }
]

-- A listed key is a child of a key that ends in the given one.
pub listed-IsChild :
    (parent key : Text)
    → IsKey key
    → listed (parent ++ slash ∷ []) slash key ≡ true
    → (pre : Text) × IsChild (pre ++ parent) key
unfolding listed
listed-IsChild parent key k h = elim (Option-cases (find_text 0 (parent ++ slash ∷ []) key)) [
  | inl q ↦ ground arith
  | inr (pos, q) ↦
      let (pre, post, e, f) = find_text-split 0 (parent ++ slash ∷ []) key pos q in
      let p = parent ++ slash ∷ [] in
      let whole : key ≡ (pre ++ parent) ++ slash ∷ post =
        e
        ∙ ap (λ (t : Text). pre ++ t) (append_assoc parent (slash ∷ []) post)
        ∙ sym (append_assoc pre parent (slash ∷ post)) in
      let far : drop (pos + length p + 1) key ≡ drop 1 post =
        ap (λ (t : Text). drop (pos + length p + 1) t) (e ∙ sym (append_assoc pre p post))
        ∙ ap (λ (m : ℕ). drop m ((pre ++ p) ++ post)) (omega (arith, f, length-append pre p))
        ∙ drop-length (pre ++ p) post in
      let clean : contains slash (drop (pos + length p + 1) key) ≡ false = ground (arith, q) in
      (pre, behind (pre ++ parent) key post k whole (ap (contains slash) (sym far) ∙ clean))
]

last_slash-clean :
    (i : ℕ) (found : Option ℕ) (s : Text) → contains slash s ≡ false → last_slash i found s ≡ found
unfolding last_slash
last_slash-clean i found [] h = refl
last_slash-clean i found (c ∷ s) h = ground (arith, last_slash-clean (i + 1) found s)

last_slash-append :
    (i : ℕ) (found : Option ℕ) (q leaf : Text)
    → contains slash leaf ≡ false
    → last_slash i found (q ++ slash ∷ leaf) ≡ some (i + length q)
unfolding last_slash
last_slash-append i found [] leaf h = ground (arith, last_slash-clean (i + 1) (some i) leaf)
last_slash-append i found (c ∷ q) leaf h =
    ground (arith, last_slash-append (i + 1) (if c == slash then some i else found) q leaf)

-- Where the last slash of a child stands, and what is behind it.
pub last_slash-IsChild :
    (q key : Text) (c : IsChild q key)
    → (last_slash 0 none key ≡ some (length q))
      × (ltb (length q) (length key - 1) ≡ true)
      × (drop (length q + 1) key ≡ c.leaf)
last_slash-IsChild q key c = (
  ap (last_slash 0 none) c.split
      ∙ last_slash-append 0 none q c.leaf c.clean
      ∙ ap some (omega arith),
  filled c.leaf c.filled (ap length c.split ∙ length-append q (slash ∷ c.leaf)),
  ap (drop (length q + 1)) c.split ∙ drop-length q (slash ∷ c.leaf),
)
  where
    filled :
        (leaf : Text)
        → leaf ≢ []
        → length key ≡ length q + suc (length leaf)
        → ltb (length q) (length key - 1) ≡ true
    filled [] f e = absurd (f refl)
    filled (d ∷ leaf) f e = ground (arith, e)

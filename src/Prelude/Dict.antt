-- ===== src/Prelude/Dict.antt =====
-- `std::unordered_map` as an association list with one entry for each key. The order of the entries
-- stands for the map's own unspecified order.
use Prim.Native.Nat.{suc}
use mathlib.Core.Path.{◌≡◌, refl}
use mathlib.Core.Bool.{Bool, true, false}
use mathlib.Core.List.{List, [], ◌∷◌}
use mathlib.Core.Option.{Option, none, some}
use native.Mathlib.Omega.{arith}
use meta_dr.Prelude.Tests.{Eq, ◌==◌, if◌then◌else◌}
use meta_dr.Prelude.Lists.{length}

abbrev pub Dict {ℓ κ} : Type ℓ → Type κ → Type (ℓ ⊔ κ)
Dict K V = List (K × V)

module _ {ℓ κ} {K : Type ℓ} {V : Type κ} ⦃e : Eq K⦄ where
  unfoldable pub lookup : K → Dict K V → Option V
  lookup a [] = none
  lookup a ((b, v) ∷ dict) = if b == a then some v else lookup a dict

  unfoldable pub erase : K → Dict K V → Dict K V
  erase a [] = []
  erase a ((b, v) ∷ dict) = let rest = erase a dict in if b == a then rest else (b, v) ∷ rest

  -- `dict[a] = v`
  unfoldable pub insert : K → V → Dict K V → Dict K V
  insert a v [] = (a, v) ∷ []
  insert a v ((b, u) ∷ dict) = if b == a then (a, v) ∷ dict else (b, u) ∷ insert a v dict

  -- `dict.find(a) != dict.end()`
  unfoldable pub has : K → Dict K V → Bool
  has a dict = elim (lookup a dict) [ none ↦ false | some v ↦ true ]

  -- `dict[a]`, read after a default value has been inserted for a missing key
  unfoldable pub get_or_insert : K → V → Dict K V → V × Dict K V
  get_or_insert a d dict = elim (lookup a dict) [ none ↦ (d, insert a d dict) | some v ↦ (v, dict) ]

  pub lookup-erase :
      (a b : K) (dict : Dict K V)
      → lookup b (erase a dict) ≡ (if a == b then none else lookup b dict)
  unfolding lookup erase
  lookup-erase a b [] = ground arith
  lookup-erase a b ((c, u) ∷ dict) =
      ground (arith, e.beq_iff a b, e.beq_iff c a, e.beq_iff c b, lookup-erase a b dict)

  pub lookup-insert :
      (a b : K) (v : V) (dict : Dict K V)
      → lookup b (insert a v dict) ≡ (if a == b then some v else lookup b dict)
  unfolding lookup insert
  lookup-insert a b v [] = refl
  lookup-insert a b v ((c, u) ∷ dict) =
      ground (arith, e.beq_iff a b, e.beq_iff c a, e.beq_iff c b, lookup-insert a b v dict)

  pub has-insert :
      (a b : K) (v : V) (dict : Dict K V)
      → has b (insert a v dict) ≡ (if a == b then true else has b dict)
  unfolding has
  has-insert a b v dict = ground (arith, lookup-insert a b v dict)

  pub length-insert :
      (a : K) (v : V) (dict : Dict K V)
      → length (insert a v dict) ≡ (if has a dict then length dict else suc (length dict))
  unfolding insert has lookup
  length-insert a v [] = refl
  length-insert a v ((c, u) ∷ dict) = ground (arith, length-insert a v dict)

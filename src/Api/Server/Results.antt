-- ===== src/Api/Server/Results.antt =====
-- server/kvStoreImpl.cc: which results each call sends.
use meta_dr.Prelude.{
  ℕ, Bool, ◌≡◌, refl, List, [], ◌∷◌, ◌++◌, ◌==◌, nat_eq, text_eq, length, Text, arith, Bool-cases,
  Option-cases, inl, inr, ◌⊎◌,
}
use meta_dr.Prelude.Exec.{
  Exec, Outcome, done, throw, abort, quorum_not_reached, replica_state_not_normal, runtime_error,
  invalid_argument,
}
use meta_dr.Types.{
  KvPair, Error, key_already_present, key_not_present, key_has_no_parent, key_has_children,
  key_malformed, replica_not_primary, status_not_normal,
}
use meta_dr.Prelude.Dict.{lookup}
use meta_dr.MemStore
use meta_dr.MemStore.{has_key}
use meta_dr.Node.{Node}
use meta_dr.Replicator.{Surroundings, is_primary}
use meta_dr.KvStore
use meta_dr.Api.{check_key_format, check_chars, prune_key, list_keys, slash}
use meta_dr.Api.Server.{
  Result, err, val, keys, create, remove, set, get, list, with_key, if_primary, create_error,
  catching, list_children, leaves,
}

-- A result of which `P` holds, if there is one.
abbrev pub AllSent : (Result → Type 0) → Outcome Result × Node → Type 0
AllSent P (done r, n) = P r
AllSent P (throw x, n) = Unit
AllSent P (abort, n) = Unit

-- The results of the checks that come before a call's own.
pub record Checked (P : Result → Type 0) : Type 0 where
  pub not_primary : P (err replica_not_primary)
  pub malformed : P (err key_malformed)

check_chars-cases :
    (key : Text) → (check_chars key ≡ Error.none) ⊎ (check_chars key ≡ key_malformed)
unfolding check_chars
check_chars-cases [] = inl refl
check_chars-cases (c ∷ rest) = ground (arith, check_chars-cases rest)

pub check_key_format-cases :
    (key : Text) → (check_key_format key ≡ Error.none) ⊎ (check_key_format key ≡ key_malformed)
unfolding check_key_format
check_key_format-cases [] = inr refl
check_key_format-cases (c ∷ rest) = ground (arith, check_chars-cases rest)

module _ (P : Result → Type 0) (checked : Checked P) where
  if_primary-AllSent :
      (body : Exec Node Result) (n : Node) → AllSent P (body n) → AllSent P (if_primary body n)
  unfolding if_primary
  if_primary-AllSent body n h = elim (Bool-cases (is_primary n)) [
    | inl q ↦ rw q h
    | inr q ↦ rw q checked.not_primary
  ]

  with_key-AllSent :
      (key : Text) (body : Text × ℕ → Exec Node Result) (n : Node)
      → ((pruned : Text × ℕ) → AllSent P (body pruned n))
      → AllSent P (with_key key body n)
  unfolding with_key
  with_key-AllSent key body n h = elim (check_key_format-cases key) [
    | inr q ↦ rw (with_key, q) checked.malformed
    | inl q ↦ elim (Option-cases (prune_key key)) [
      | inl p ↦ rw (with_key, q, p) tt
      | inr (pruned, p) ↦ rw (with_key, q, p) (h pruned)
    ]
  ]

-- The results of a call that changes the map.
pub record Changes (P : Result → Type 0) : Type 0 where
  pub checked : Checked P
  pub ok : P (err Error.none)
  pub no_quorum : P (err Error.quorum_not_reached)
  pub not_normal : P (err status_not_normal)

catching-AllSent :
    (P : Result → Type 0) (c : Changes P) (A : Type 0) (f : Exec Node A) (n : Node)
    → AllSent P (catching f n)
catching-AllSent P c A f n = case_of (f n)
  where
    case_of : (o : Outcome A × Node) → AllSent P (catching (λ (m : Node). o) n)
    case_of (done a, m) = c.ok
    case_of (throw quorum_not_reached, m) = c.no_quorum
    case_of (throw replica_state_not_normal, m) = c.not_normal
    case_of (throw runtime_error, m) = tt
    case_of (throw invalid_argument, m) = tt
    case_of (abort, m) = tt

pub create_error-cases :
    (key : Text) (last : ℕ) (n : Node)
    → (create_error key last n ≡ Error.none)
      ⊎ ((create_error key last n ≡ key_already_present)
          ⊎ (create_error key last n ≡ key_has_no_parent))
unfolding create_error
create_error-cases key last n = ground arith

pub create-AllSent :
    (P : Result → Type 0) (c : Changes P) (env : Surroundings) (arg : KvPair) (n : Node)
    → P (err key_already_present)
    → P (err key_has_no_parent)
    → AllSent P (create env arg n)
unfolding create
create-AllSent P c env arg n present orphan = if_primary-AllSent P c.checked _ n (
    with_key-AllSent P c.checked arg.key _ n λ pruned.
      elim (create_error-cases pruned.0 pruned.1 n) [
        | inl q ↦ rw q (catching-AllSent P c Bool (KvStore.set env pruned.0 arg.val) n)
        | inr (inl q) ↦ rw q present
        | inr (inr q) ↦ rw q orphan
      ])

pub remove-AllSent :
    (P : Result → Type 0) (c : Changes P) (env : Surroundings) (arg : Text) (n : Node)
    → P (err key_not_present)
    → P (err key_has_children)
    → AllSent P (remove env arg n)
unfolding remove
remove-AllSent P c env arg n absent parent = if_primary-AllSent P c.checked _ n (
    with_key-AllSent P c.checked arg _ n λ pruned. elim (Bool-cases (has_key pruned.0 n.kv)) [
      | inr q ↦ rw q absent
      | inl q ↦ elim (Bool-cases (length (list_keys (pruned.0 ++ slash ∷ []) slash n.kv) == 0)) [
        | inl r ↦ rw (q, r) (catching-AllSent P c Unit (KvStore.remove env pruned.0) n)
        | inr r ↦ rw (q, r) parent
      ]
    ])

pub set-AllSent :
    (P : Result → Type 0) (c : Changes P) (env : Surroundings) (arg : KvPair) (n : Node)
    → P (err key_not_present)
    → AllSent P (set env arg n)
unfolding set
set-AllSent P c env arg n absent = if_primary-AllSent P c.checked _ n (
    with_key-AllSent P c.checked arg.key _ n λ pruned. elim (Bool-cases (has_key pruned.0 n.kv)) [
      | inr q ↦ rw q absent
      | inl q ↦ rw q (catching-AllSent P c Bool (KvStore.set env pruned.0 arg.val) n)
    ])

pub get-AllSent :
    (P : Result → Type 0) (c : Checked P) (arg : Text) (n : Node)
    → ((v : Text) → P (val v))
    → P (err key_not_present)
    → AllSent P (get arg n)
unfolding get MemStore.get
get-AllSent P c arg n found absent = if_primary-AllSent P c _ n (
    with_key-AllSent P c arg _ n λ pruned. elim (Bool-cases (has_key pruned.0 n.kv)) [
      | inr q ↦ rw q absent
      | inl q ↦ elim (Option-cases (lookup pruned.0 n.kv)) [
        | inl r ↦ rw (q, r) tt
        | inr (v, r) ↦ rw (q, r) (found v)
      ]
    ])

list_children-AllSent :
    (P : Result → Type 0) (key : Text) (n : Node)
    → ((ks : List Text) → P (keys ks))
    → AllSent P (list_children key n)
unfolding list_children
list_children-AllSent P key n found =
    elim (Option-cases (leaves (list_keys (key ++ slash ∷ []) slash n.kv))) [
      | inl q ↦ rw q tt
      | inr (ks, q) ↦ rw q (found ks)
    ]

pub list-AllSent :
    (P : Result → Type 0) (c : Checked P) (arg : Text) (n : Node)
    → ((ks : List Text) → P (keys ks))
    → P (err key_not_present)
    → AllSent P (list arg n)
unfolding list
list-AllSent P c arg n found absent =
    if_primary-AllSent P c _ n (elim (Bool-cases (arg == slash ∷ [])) [
      | inl root ↦ rw root (list_children-AllSent P [] n found)
      | inr other ↦ rw other (
          with_key-AllSent P c arg _ n λ pruned. elim (Bool-cases (has_key pruned.0 n.kv)) [
            | inr q ↦ rw q absent
            | inl q ↦ rw q (list_children-AllSent P pruned.0 n found)
          ])
    ])

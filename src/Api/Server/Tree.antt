-- ===== src/Api/Server/Tree.antt =====
-- The calls of server/kvStoreImpl.cc that add and remove keys, on a primary: they end with a result,
-- and keep the tree of the keys.
use meta_dr.Prelude.{
  ℕ, ◌<◌, ◌≡◌, refl, sym, ap, true, false, none, some, [], ◌∷◌, ◌++◌, ◌==◌, nat_eq, text_eq,
  if◌then◌else◌, length, take, Text, arith, Bool-cases, Option-cases, inl, inr, ◌⊎◌,
}
use mathlib.Core.Path.{subst}
use meta_dr.Prelude.Dict.{lookup, has}
use meta_dr.Prelude.Exec.{Exec, Outcome, done, throw, quorum_not_reached, gets}
use meta_dr.Types.{KvPair, Error, key_not_present, key_has_children, replica_not_primary}
use meta_dr.MemStore.{has_key}
use meta_dr.Node.{Node}
use meta_dr.Replicator.{Surroundings}
use meta_dr.Replicator.Primary.{IsQuiet, Leads, is_primary_lem}
use meta_dr.KvStore
use meta_dr.KvStore.Laws.{set-ends, remove-ends}
use meta_dr.Api.{slash, check_key_format, list_keys}
use meta_dr.Api.Prune.{IsPruned, prune_key-IsPruned}
use meta_dr.Api.Listing.{IsTree, erase-IsTree, insert-IsTree}
use meta_dr.Api.Server.{Result, err, create, remove, with_key, if_primary, create_error, catching}

-- The call returns a result, in a state of which `P` holds.
abbrev Ends : (Node → Type 0) → Outcome Result × Node → Type 0
Ends P o = (r : Result) × (m : Node) × (o ≡ (done r, m)) × P m

check_key_format-slash :
    (key : Text) → check_key_format key ≡ Error.none → (rest : Text) × (key ≡ slash ∷ rest)
unfolding check_key_format
check_key_format-slash [] h = cc
check_key_format-slash (c ∷ rest) h = elim (Bool-cases (c == slash)) [
  | inl q ↦ (rest, ground arith)
  | inr q ↦ ground arith
]

Error-cases :
    (e : Error)
    → (e ≡ Error.none)
      ⊎ ((x : Outcome Result × Node) (f : Error → Outcome Result × Node)
          → (elim e [ Error.none ↦ x | e ↦ f e ]) ≡ f e)
Error-cases Error.none = inl refl
Error-cases _ = inr (λ x f. refl)

with_key-Ends :
    (P : Node → Type 0) (key : Text) (body : Text × ℕ → Exec Node Result) (n : Node)
    → P n
    → ((pruned : Text) (last : ℕ) → IsPruned pruned last → Ends P (body (pruned, last) n))
    → Ends P (with_key key body n)
unfolding with_key
with_key-Ends P key body n h run = elim (Error-cases (check_key_format key)) [
  | inr f ↦ (err (check_key_format key), n, f _ (λ e. (done (err e), n)), h)
  | inl ok ↦ elim (prune_key-IsPruned key) [
    | inl (pruned, last, q, pr, _) ↦
        let (r, m, e, g) = run pruned last pr in (r, m, rw (with_key, ok, q) e, g)
    | inr (q, unslashed) ↦
        let (rest, e) = check_key_format-slash key ok in absurd (unslashed rest e)
  ]
]

if_primary-Ends :
    (P : Node → Type 0) (body : Exec Node Result) (n : Node)
    → Leads n
    → Ends P (body n)
    → Ends P (if_primary body n)
unfolding if_primary
if_primary-Ends P body n lead run =
    subst (λ b. Ends P ((if b then body else gets (λ _. err replica_not_primary)) n))
      (sym (is_primary_lem n lead.primary)) run

abbrev with_err : Error → Node → Outcome Result × Node
with_err e m = (done (err e), m)

module _ {A : Type 0} (f : Exec Node A) (n m : Node) where
  catching-done : (a : A) → f n ≡ (done a, m) → catching f n ≡ (done (err Error.none), m)
  catching-done a run =
      rw (catching, run) (ap (λ (r : Outcome A × Node). with_err Error.none r.1) run)

  catching-quorum :
      f n ≡ (throw quorum_not_reached, m) → catching f n ≡ (done (err Error.quorum_not_reached), m)
  catching-quorum run =
      rw (catching, run) (ap (λ (r : Outcome A × Node). with_err Error.quorum_not_reached r.1) run)

-- A created key is pruned, new, and just below the root or below a key that is there.
create_error-none :
    (key : Text) (last : ℕ) (n : Node)
    → create_error key last n ≡ Error.none
    → (has key n.kv ≡ false) × (0 < last → has (take last key) n.kv ≡ true)
unfolding create_error has_key
create_error-none key last n h = ground arith

-- On a primary that runs in normal status, while the other threads leave its log, numbers and map
-- alone, `create` returns a result for every key, no assertion fails, and the keys stay a tree: each
-- has its parent in the map.
pub create-IsTree :
    (env : Surroundings) (arg : KvPair) (n : Node)
    → IsQuiet env
    → Leads n
    → IsTree n.kv
    → (r : Result) × (m : Node) × (create env arg n ≡ (done r, m)) × IsTree m.kv
unfolding create
create-IsTree env arg n quiet lead t =
    if_primary-Ends (λ m. IsTree m.kv) _ n lead
      (with_key-Ends (λ m. IsTree m.kv) arg.key _ n t
        λ pruned last pr. elim (Error-cases (create_error pruned last n)) [
          | inr f ↦ (err (create_error pruned last n), n, f _ (λ e. (done (err e), n)), t)
          | inl ok ↦ elim (set-ends env n quiet lead pruned arg.val) [
            | inl (m, b, run, s) ↦ (
              err Error.none,
              m,
              rw ok (catching-done (KvStore.set env pruned arg.val) n m b run),
              subst IsTree (sym s.kv) (
                  insert-IsTree pruned arg.val last n.kv t pr
                    (create_error-none pruned last n ok).1),
            )
            | inr (m, run, _, s) ↦ (
              err Error.quorum_not_reached,
              m,
              rw ok (catching-quorum (KvStore.set env pruned arg.val) n m run),
              subst IsTree (sym s.kv) t,
            )
          ]
        ])

no_key : (key : Text) (n : Node) → lookup key n.kv ≡ none → has_key key n.kv ≡ false
unfolding has_key has
no_key key n h = ground arith

some_key : (key val : Text) (n : Node) → lookup key n.kv ≡ some val → has_key key n.kv ≡ true
unfolding has_key has
some_key key val n h = ground arith

-- On a primary that runs in normal status, while the other threads leave its log, numbers and map
-- alone, `remove` returns a result for every key, no assertion fails, and the keys stay a tree: each
-- has its parent in the map.
pub remove-IsTree :
    (env : Surroundings) (arg : Text) (n : Node)
    → IsQuiet env
    → Leads n
    → IsTree n.kv
    → (r : Result) × (m : Node) × (remove env arg n ≡ (done r, m)) × IsTree m.kv
unfolding remove
remove-IsTree env arg n quiet lead t =
    if_primary-Ends (λ m. IsTree m.kv) _ n lead
      (with_key-Ends (λ m. IsTree m.kv) arg _ n t
        λ pruned last pr. elim (Option-cases (lookup pruned n.kv)) [
          | inl there' ↦
              (err key_not_present, n, rw (no_key pruned n there', if◌then◌else◌) refl, t)
          | inr (val, there) ↦
              elim (Bool-cases (length (list_keys (pruned ++ slash ∷ []) slash n.kv) == 0)) [
                | inr q ↦ (
                  err key_has_children,
                  n,
                  rw (some_key pruned val n there, if◌then◌else◌, q) refl,
                  t,
                )
                | inl q ↦ elim (remove-ends env n quiet lead pruned val there) [
                  | inl (m, run, s) ↦ (
                    err Error.none,
                    m,
                    rw (some_key pruned val n there, if◌then◌else◌, q)
                        (catching-done (KvStore.remove env pruned) n m tt run),
                    subst IsTree (sym s.kv) (erase-IsTree pruned n.kv t (ground arith)),
                  )
                  | inr (m, run, _, s) ↦ (
                    err Error.quorum_not_reached,
                    m,
                    rw (some_key pruned val n there, if◌then◌else◌, q)
                        (catching-quorum (KvStore.remove env pruned) n m run),
                    subst IsTree (sym s.kv) t,
                  )
                ]
              ]
        ])

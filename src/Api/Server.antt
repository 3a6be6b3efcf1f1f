-- ===== src/Api/Server.antt =====
-- server/kvStoreImpl.cc: `create`, `remove`, `set`, `get` and `list` as a client calls them.
pub mod Tree
pub mod Results
pub mod Reads
pub mod Lists
use meta_dr.Prelude.{
  ℕ, suc, ◌+◌, ◌-◌, Bool, true, false, not, ◌&&◌, Option, none, some, List, [], ◌∷◌, ◌++◌, ◌==◌,
  nat_eq, text_eq, if◌then◌else◌, ltb, length, drop, take, Text, Eq, ◌≡◌, ◌↔◌, arith,
}
use meta_dr.Prelude.Exec.{
  Exec, Outcome, done, throw, abort, quorum_not_reached, replica_state_not_normal, gets,
  assert_found, ◌>>=◌, ◌>>◌,
}
use meta_dr.Types.{
  KvPair, Error, key_already_present, key_not_present, key_has_no_parent, key_has_children,
  replica_not_primary, status_not_normal,
}
use meta_dr.MemStore
use meta_dr.MemStore.{has_key}
use meta_dr.Node.{Node}
use meta_dr.Replicator.{Surroundings, is_primary}
use meta_dr.KvStore
use meta_dr.Api.{slash, prune_key, check_key_format, list_keys, last_slash}

-- The union `Result` by its arms.
pub data Result : Type 0 where
  val : Text → Result
  keys : List Text → Result
  err : Error → Result

-- The two `catch` clauses around a call of the store.
abbrev catching {ℓ} : {A : Type ℓ} → Exec Node A → Exec Node Result
catching m n = elim (m n).0 [
  | done a ↦ (done (err Error.none), (m n).1)
  | throw quorum_not_reached ↦ (done (err Error.quorum_not_reached), (m n).1)
  | throw replica_state_not_normal ↦ (done (err status_not_normal), (m n).1)
  | throw x ↦ (throw x, (m n).1)
  | abort ↦ (abort, (m n).1)
]

-- `res->err()` of `create` after both checks: the second overwrites the first.
pub create_error : Text → ℕ → Node → Error
create_error key last n =
    let first = if has_key key n.kv then key_already_present else Error.none in
    if ltb 0 last
    then (if has_key (take last key) n.kv then first else key_has_no_parent)
    else first

-- The key after `checkKeyFormat` and `pruneKey`.
with_key : Text → (Text × ℕ → Exec Node Result) → Exec Node Result
with_key key body n = elim (check_key_format key) [
  | Error.none ↦ (do pruned ← assert_found (prune_key key); body pruned) n
  | e ↦ (done (err e), n)
]

if_primary : Exec Node Result → Exec Node Result
if_primary body n = (if is_primary n then body else gets (λ _. err replica_not_primary)) n

unfoldable pub create : Surroundings → KvPair → Exec Node Result
unfolding create_error with_key if_primary
create env arg = if_primary (
    with_key arg.key λ pruned n. elim (create_error pruned.0 pruned.1 n) [
      | Error.none ↦ catching (KvStore.set env pruned.0 arg.val) n
      | e ↦ (done (err e), n)
    ])

unfoldable pub remove : Surroundings → Text → Exec Node Result
unfolding with_key if_primary
remove env arg = if_primary (
    with_key arg λ pruned n.
      let key = pruned.0 in
      (if not (has_key key n.kv)
          then gets (λ _. err key_not_present)
          else if not (length (list_keys (key ++ slash ∷ []) slash n.kv) == 0)
          then gets (λ _. err key_has_children)
          else catching (KvStore.remove env key))
        n)

unfoldable pub set : Surroundings → KvPair → Exec Node Result
unfolding with_key if_primary
set env arg = if_primary (
    with_key arg.key λ pruned n.
      (if not (has_key pruned.0 n.kv)
          then gets (λ _. err key_not_present)
          else catching (KvStore.set env pruned.0 arg.val))
        n)

unfoldable pub get : Text → Exec Node Result
unfolding with_key if_primary
get arg = if_primary (
    with_key arg λ pruned n.
      if has_key pruned.0 n.kv
      then elim (MemStore.get pruned.0 n.kv) [
        | done v ↦ (done (val v), n)
        | throw x ↦ (throw x, n)
        | abort ↦ (abort, n)
      ]
      else (done (err key_not_present), n))

-- The loop of `list`: what stands behind the last slash of each key; `none` is the failed `assert`.
leaves : List Text → Option (List Text)
leaves [] = some []
leaves (k ∷ ks) =
    let rest = leaves ks in
    elim (last_slash 0 none k) [
      | none ↦ none
      | some i ↦
          if ltb i (length k - 1)
          then elim rest [ none ↦ none | some ls ↦ some (drop (i + 1) k ∷ ls) ]
          else none
    ]

list_children : Text → Exec Node Result
unfolding leaves
list_children key = do
  kv ← gets (λ n. n.kv)
  ls ← assert_found (leaves (list_keys (key ++ slash ∷ []) slash kv))
  gets (λ _. keys ls)

unfoldable pub list : Text → Exec Node Result
unfolding list_children with_key if_primary
list arg = if_primary (
    if arg == slash ∷ []
    then list_children []
    else with_key arg λ pruned n.
      (if has_key pruned.0 n.kv then list_children pruned.0 else gets (λ _. err key_not_present)) n)

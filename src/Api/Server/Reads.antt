-- ===== src/Api/Server/Reads.antt =====
-- server/kvStoreImpl.cc and server/kvMemStore.cc: what `get` reads after a call that has changed the
-- map.
use meta_dr.Prelude.{
  ℕ, ◌≡◌, refl, true, none, some, Option, [], ◌∷◌, ◌++◌, ◌==◌, nat_eq, text_eq, length, Text, arith,
  Bool-cases, Option-cases, inl, inr,
}
use meta_dr.Prelude.Dict.{lookup, has, erase, lookup-insert, lookup-erase}
use meta_dr.Prelude.Exec.{
  Exec, Outcome, done, throw, abort, quorum_not_reached, replica_state_not_normal, runtime_error,
  invalid_argument, continue, gets, modify, ◌>>=◌, ◌>>◌,
}
use meta_dr.Types.{KvPair, Error, key_not_present}
use meta_dr.MemStore
use meta_dr.MemStore.{set_int, has_key}
use meta_dr.Node.{Node}
use meta_dr.Replicator.{Surroundings, is_primary, replicate_update, replicate_delete}
use meta_dr.KvStore
use meta_dr.Api.{check_key_format, prune_key, list_keys, slash}
use meta_dr.Api.Server.{Result, err, val, create, remove, set, get, with_key, if_primary, catching}
use meta_dr.Api.Server.Results.{check_key_format-cases, create_error-cases}

-- A call of the store that returns has left `v` for the key.
abbrev Leaves : {A : Type 0} → Text → Option Text → Outcome A × Node → Type 0
Leaves key v (done a, m) = lookup key m.kv ≡ v
Leaves key v (throw x, m) = Unit
Leaves key v (abort, m) = Unit

set-Leaves :
    (env : Surroundings) (key v : Text) (n : Node) → Leaves key (some v) (KvStore.set env key v n)
unfolding KvStore.set
set-Leaves env key v n = elim (Bool-cases (is_primary n)) [
  | inr q ↦ rw q tt
  | inl q ↦ rw q (after (replicate_update env key v n))
]
  where
    after :
        (o : Outcome (Unit {0}) × Node)
        → Leaves key (some v) (
            continue o.0
              (λ _. gets (λ (n : Node). n) >>= λ m.
                modify (λ n. record n { kv = (set_int key v n.kv).1 })
                >> gets (λ _. (set_int key v m.kv).0))
              o.1)
    after (done u, m) = stored m
      where
        stored : (m : Node) → lookup key (set_int key v m.kv).1 ≡ some v
        stored m =
            unfold set_int in ground (arith, lookup-insert key key v m.kv, text_eq.beq_iff key key)
    after (throw x, m) = tt
    after (abort, m) = tt

remove-Leaves :
    (env : Surroundings) (key : Text) (n : Node) → Leaves key none (KvStore.remove env key n)
unfolding KvStore.remove
remove-Leaves env key n = elim (Option-cases (lookup key n.kv)) [
  | inl absent ↦ rw (KvStore.remove, absent) tt
  | inr (v, there) ↦ elim (Bool-cases (is_primary n)) [
    | inr q ↦ rw (KvStore.remove, there, q) tt
    | inl q ↦ rw (KvStore.remove, there, q) (after (replicate_delete env key n))
  ]
]
  where
    after :
        (o : Outcome (Unit {0}) × Node)
        → Leaves key none
            (continue o.0 (λ _. modify (λ (m : Node). record m { kv = erase key m.kv })) o.1)
    after (done u, m) = ground (arith, lookup-erase key key m.kv, text_eq.beq_iff key key)
    after (throw x, m) = tt
    after (abort, m) = tt

-- After a call that succeeded, `get` of the key on a primary sends `r`.
abbrev pub Reads : Text → Result → Outcome Result × Node → Type 0
Reads key r (done (err Error.none), m) = is_primary m ≡ true → get key m ≡ (done r, m)
Reads key r _ = Unit

-- The result for a key that is there or not.
abbrev pub result_of : Option Text → Result
result_of none = err key_not_present
result_of (some v) = val v

get_lem :
    (key pruned : Text) (last : ℕ) (v : Option Text) (m : Node)
    → check_key_format key ≡ Error.none
    → prune_key key ≡ some (pruned, last)
    → lookup pruned m.kv ≡ v
    → is_primary m ≡ true
    → get key m ≡ (done (result_of v), m)
unfolding get if_primary with_key has_key has MemStore.get lookup
get_lem key pruned last none m ok pr there primary = rw (primary, with_key, ok, pr, there) refl
get_lem key pruned last (some v) m ok pr there primary = rw (primary, with_key, ok, pr, there) refl

catching-Reads :
    {A : Type 0} (key pruned : Text) (last : ℕ) (v : Option Text) (o : Outcome A × Node)
    → check_key_format key ≡ Error.none
    → prune_key key ≡ some (pruned, last)
    → Leaves pruned v o
    → Reads key (result_of v) (catching (λ (m : Node). o) o.1)
catching-Reads key pruned last v (done a, m) ok pr h = get_lem key pruned last v m ok pr h
catching-Reads key pruned last v (throw quorum_not_reached, m) ok pr h = tt
catching-Reads key pruned last v (throw replica_state_not_normal, m) ok pr h = tt
catching-Reads key pruned last v (throw runtime_error, m) ok pr h = tt
catching-Reads key pruned last v (throw invalid_argument, m) ok pr h = tt
catching-Reads key pruned last v (abort, m) ok pr h = tt

module _ (key : Text) (r : Result) where
  if_primary-Reads :
      (body : Exec Node Result) (n : Node) → Reads key r (body n) → Reads key r (if_primary body n)
  unfolding if_primary
  if_primary-Reads body n h = elim (Bool-cases (is_primary n)) [ inl q ↦ rw q h | inr q ↦ rw q tt ]

  with_key-Reads :
      (body : Text × ℕ → Exec Node Result) (n : Node)
      → ((pruned : Text) (last : ℕ)
          → check_key_format key ≡ Error.none
          → prune_key key ≡ some (pruned, last)
          → Reads key r (body (pruned, last) n))
      → Reads key r (with_key key body n)
  unfolding with_key
  with_key-Reads body n h = elim (check_key_format-cases key) [
    | inr q ↦ rw (with_key, q) tt
    | inl q ↦ elim (Option-cases (prune_key key)) [
      | inl p ↦ rw (with_key, q, p) tt
      | inr (pruned, p) ↦ rw (with_key, q, p) (h pruned.0 pruned.1 q p)
    ]
  ]

pub create-Reads :
    (env : Surroundings) (arg : KvPair) (n : Node) → Reads arg.key (val arg.val) (create env arg n)
unfolding create
create-Reads env arg n = if_primary-Reads arg.key (val arg.val) _ n (
    with_key-Reads arg.key (val arg.val) _ n λ pruned last ok p.
      elim (create_error-cases pruned last n) [
        | inl q ↦ rw q (
            catching-Reads arg.key pruned last (some arg.val) (KvStore.set env pruned arg.val n) ok
              p (set-Leaves env pruned arg.val n))
        | inr (inl q) ↦ rw q tt
        | inr (inr q) ↦ rw q tt
      ])

pub set-Reads :
    (env : Surroundings) (arg : KvPair) (n : Node) → Reads arg.key (val arg.val) (set env arg n)
unfolding set
set-Reads env arg n = if_primary-Reads arg.key (val arg.val) _ n (
    with_key-Reads arg.key (val arg.val) _ n λ pruned last ok p.
      elim (Bool-cases (has_key pruned n.kv)) [
        | inr q ↦ rw q tt
        | inl q ↦ rw q (
            catching-Reads arg.key pruned last (some arg.val) (KvStore.set env pruned arg.val n) ok
              p (set-Leaves env pruned arg.val n))
      ])

pub remove-Reads :
    (env : Surroundings) (arg : Text) (n : Node)
    → Reads arg (err key_not_present) (remove env arg n)
unfolding remove
remove-Reads env arg n = if_primary-Reads arg (err key_not_present) _ n (
    with_key-Reads arg (err key_not_present) _ n λ pruned last ok p.
      elim (Bool-cases (has_key pruned n.kv)) [
        | inr q ↦ rw q tt
        | inl q ↦ elim (Bool-cases (length (list_keys (pruned ++ slash ∷ []) slash n.kv) == 0)) [
          | inr c ↦ rw (q, c) tt
          | inl c ↦
              rw (q, c)
                (catching-Reads arg pruned last none (KvStore.remove env pruned n) ok p
                  (remove-Leaves env pruned n))
        ]
      ])

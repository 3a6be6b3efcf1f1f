-- ===== src/KvStore.antt =====
-- server/kvMemStore.cc: `set` and `remove` of the primary, which replicate an operation before they
-- apply it.
pub mod Laws
pub mod Contract
use meta_dr.Prelude.{Bool, Option, none, some, Text, text_eq}
use meta_dr.Prelude.Dict.{lookup, erase}
use meta_dr.Prelude.Exec.{
  Exec, Outcome, done, raise, runtime_error, gets, assert, modify, ◌>>=◌, ◌>>◌,
}
use meta_dr.Node.{Node}
use meta_dr.MemStore.{set_int}
use meta_dr.Replicator.{Surroundings, is_primary, replicate_update, replicate_delete}

-- The result says whether the key was there.
unfoldable pub set : Surroundings → Text → Text → Exec Node Bool
set env key val = do
  primary ← gets is_primary
  assert primary
  replicate_update env key val
  n ← gets (λ n. n)
  modify (λ n. record n { kv = (set_int key val n.kv).1 })
  gets (λ _. (set_int key val n.kv).0)

unfoldable pub remove : Surroundings → Text → Exec Node (Unit {0})
remove env key n = elim (lookup key n.kv) [
  | none ↦ raise runtime_error n
  | some v ↦
      (do
        primary ← gets is_primary
        assert primary
        replicate_delete env key
        modify (λ m. record m { kv = erase key m.kv }))
        n
]

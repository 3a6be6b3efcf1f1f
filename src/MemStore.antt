-- ===== src/MemStore.antt =====
-- server/kvMemStore.cc without its list: the key-value map and the callbacks that the replicator
-- applies operations with. The methods run under `kvMemMutex`.
use meta_dr.Prelude.{Bool, none, some, text_eq, Text}
use meta_dr.Prelude.Dict.{Dict, lookup, insert, erase, has}
use meta_dr.Prelude.Exec.{Exec, Outcome, done, throw, runtime_error, assert, modify, ◌>>◌}
use meta_dr.Types.{LogEntry, update, delete}
use meta_dr.Node.{Node}

unfoldable pub has_key : Text → Dict Text Text → Bool
has_key key kv = has key kv

-- `get` throws for a missing key.
unfoldable pub get : Text → Dict Text Text → Outcome Text
get key kv = elim (lookup key kv) [ none ↦ throw runtime_error | some val ↦ done val ]

-- The result says whether the key was there.
unfoldable pub set_int : Text → Text → Dict Text Text → Bool × Dict Text Text
unfolding has_key
set_int key val kv = (has_key key kv, insert key val kv)

unfoldable pub remove_int : Text → Dict Text Text → Dict Text Text
remove_int key kv = elim (lookup key kv) [ none ↦ kv | some v ↦ erase key kv ]

-- `_updateCb` and `_deleteCb`, as `registerReplicator` sets them.
abbrev pub update_cb : Text → Text → Exec Node (Unit {0})
update_cb key val = modify (λ n. record n { kv = (set_int key val n.kv).1 })

abbrev pub delete_cb : Text → Exec Node (Unit {0})
delete_cb key = modify (λ n. record n { kv = remove_int key n.kv })

-- The test on `entry.opType` that `processCommit`, `updateNewView` and `recoverStateFromLog` share.
unfoldable pub apply_entry : LogEntry → Exec Node (Unit {0})
apply_entry e n = elim e.op_type [
  | update ↦ (do assert n.update_cb; update_cb e.kv_pair.key e.kv_pair.val) n
  | delete ↦ (do assert n.delete_cb; delete_cb e.kv_pair.key) n
]

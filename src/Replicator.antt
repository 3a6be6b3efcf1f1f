-- ===== src/Replicator.antt =====
-- server/vsReplicator.{h,cc}: the normal operation of a replica. A handler is one step, with its
-- logging left out; `replicate` waits for its quorum, and takes what the other threads do
-- meanwhile as an argument.
pub mod Handlers
pub mod Replay
pub mod Consistent
pub mod Commit
pub mod Heartbeats
pub mod Core
pub mod Logging
pub mod Primary
use meta_dr.Prelude.{
  ℕ, ◌+◌, ◌*◌, ◌-◌, ◌^◌, Bool, true, false, not, ◌&&◌, Option, none, some, List, [], ◌∷◌, ◌++◌,
  ◌==◌, nat_eq, if◌then◌else◌, ltb, leb, Text,
}
use meta_dr.Prelude.Dict.{Dict, lookup, insert, erase, get_or_insert}
use meta_dr.Prelude.Exec.{
  Exec, Outcome, pure, raise, gets, assert, assert_found, modify, skip, replica_state_not_normal,
  quorum_not_reached, ◌>>=◌, ◌>>◌,
}
use meta_dr.Types.{
  EndPoint, KvPair, Status, normal, recovering, status_eq, OpType, update, delete, LogEntry,
  PrepInfo, CommitInfo, PrepResponse, prepare, prepare_ok, commit,
}
use meta_dr.ReplicaState.{
  set_status, set_op_num, set_commit_num, set_last_commit_time, increment_op_num, incr,
}
use meta_dr.OpLog
use meta_dr.OpLog.{append_update, append_delete, has_entry, get_log_entry}
use meta_dr.Quorum.{quorum_reached, wait_get, count_response}
use meta_dr.Node.{
  Node, Net, Waiter, op_waiter, change_rs, change_log, notify_if, invoke, invoke_for_all_replicas,
}
use meta_dr.MemStore.{apply_entry}

pub data CvStatus : Type 0 where
  no_timeout timeout : CvStatus

-- What the other threads do while the calls of `replicate` are on their way and while it waits, and
-- how its wait ends.
pub record Surroundings : Type 0 where
  pub net : Net
  pub during_calls : Node → Node
  pub during_wait : Node → Node
  pub wake : CvStatus

unfoldable pub is_primary : Node → Bool
is_primary n = n.id == n.rs.pri_id

-- `start`, for the threads that it starts.
unfoldable pub start : Bool → Exec Node (Unit {0})
start recovering_ = do
  n ← gets (λ n. n)
  assert (not n.started)
  assert n.update_cb
  assert n.delete_cb
  if recovering_ then change_rs (set_status recovering) else skip
  modify (λ n. record n { started = true })

-- The append at the head of `replicate` and in `processPrepInfo`.
unfoldable pub append_op : PrepInfo → Exec Node (Unit {0})
append_op p = elim p.op_type [
  | update ↦ change_log (append_update p.kv_pair p.op_num)
  | delete ↦ change_log (append_delete p.kv_pair.key p.op_num)
]

abbrev pub count_op : ℕ → Exec Node ℕ
count_op op n =
    let (cnt, m) = count_response op n.wait_map in (Outcome.done cnt, record n { wait_map = m })

pub await_quorum : Surroundings → PrepInfo → Exec Node (Unit {0})
await_quorum env p = do
  cnt ← count_op p.op_num
  replicas ← gets (λ n. n.replicas)
  if quorum_reached replicas cnt then skip else do
    modify env.during_wait
    elim env.wake [ no_timeout ↦ skip | timeout ↦ raise quorum_not_reached ]

unfoldable pub commit_op : Net → PrepInfo → Exec Node (Unit {0})
commit_op net p = do
  n ← gets (λ n. n)
  log ← assert_found (OpLog.commit p.op_num n.log)
  change_log (λ _. log)
  change_rs (set_commit_num p.op_num)
  invoke_for_all_replicas net (commit (record { view_num = p.view_num; commit_num = p.op_num }))
  modify (λ n. record n { wait_map = erase p.op_num n.wait_map })

unfoldable pub replicate : Surroundings → PrepInfo → Exec Node (Unit {0})
unfolding await_quorum commit_op
replicate env p = do
  status ← gets (λ n. n.rs.status)
  if not (status == normal) then raise replica_state_not_normal else do
    append_op p
    modify (λ n. record n { wait_map = (wait_get p.op_num n.wait_map).1 })
    invoke_for_all_replicas env.net (prepare p)
    modify env.during_calls
    await_quorum env p
    commit_op env.net p

-- The part that `replicateUpdate` and `replicateDelete` share.
unfoldable pub replicate_op : Surroundings → KvPair → OpType → Exec Node (Unit {0})
replicate_op env kv_pair op_type = do
  n ← gets (λ n. n)
  assert n.started
  assert (is_primary n)
  change_rs (λ rs. (increment_op_num rs).1)
  replicate env (record {
    view_num = n.rs.view_num;
    kv_pair = kv_pair;
    op_num = incr n.rs.op_num;
    op_type = op_type;
    commit_num = n.rs.commit_num;
  })

unfoldable pub replicate_update : Surroundings → Text → Text → Exec Node (Unit {0})
replicate_update env key val = replicate_op env (record { key = key; val = val }) update

unfoldable pub replicate_delete : Surroundings → Text → Exec Node (Unit {0})
replicate_delete env key = replicate_op env (record { key = key; val = [] }) delete

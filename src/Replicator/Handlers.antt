-- ===== src/Replicator/Handlers.antt =====
-- server/vsReplicator.cc: the handlers of `prepare`, `prepareOk` and `commit`, and one round of the
-- thread that logs prepared operations.
use meta_dr.Prelude.{ℕ, not, ◌&&◌, [], ◌∷◌, ◌++◌, ◌==◌, nat_eq, if◌then◌else◌, ltb, leb}
use meta_dr.Prelude.Dict.{get_or_insert}
use meta_dr.Prelude.Exec.{Exec, gets, assert, assert_found, modify, skip, ◌>>=◌, ◌>>◌}
use meta_dr.Types.{normal, status_eq, PrepInfo, CommitInfo, PrepResponse, prepare_ok}
use meta_dr.ReplicaState.{set_op_num, set_commit_num, set_last_commit_time, incr}
use meta_dr.OpLog
use meta_dr.OpLog.{has_entry, get_log_entry}
use meta_dr.Quorum.{quorum_reached, wait_get}
use meta_dr.Node.{Node, Net, op_waiter, change_rs, change_log, notify_if, invoke}
use meta_dr.MemStore.{apply_entry}
use meta_dr.Replicator.{is_primary, append_op, count_op}

unfoldable pub process_prepare : PrepInfo → Exec Node (Unit {0})
process_prepare p = do
  rs ← gets (λ n. n.rs)
  if not (rs.status == normal)
      then skip
      else if not (p.view_num == rs.view_num)
      then skip
      else modify (λ n. record n { prep_req_q = n.prep_req_q ++ p ∷ [] })

unfoldable pub process_prepare_ok : PrepResponse → Exec Node (Unit {0})
process_prepare_ok r = do
  n ← gets (λ n. n)
  if not (n.rs.status == normal)
      then skip
      else if not (r.view_num == n.rs.view_num)
      then skip
      else do
        modify (λ n. record n { wait_map = (wait_get r.op_num n.wait_map).1 })
        if quorum_reached n.replicas (wait_get r.op_num n.wait_map).0 then skip else do
          cnt ← count_op r.op_num
          notify_if (quorum_reached n.replicas cnt) (op_waiter r.op_num)

-- The entry for a number that is already committed is looked up and its flag asserted.
unfoldable pub check_committed : ℕ → Exec Node (Unit {0})
check_committed commit_num n =
    (if ltb 0 commit_num && leb commit_num n.rs.commit_num
        then (do e ← assert_found (get_log_entry commit_num n.log); assert e.committed)
        else skip)
      n

-- The body of the last `if`, after `commitInfo->commitNum` has been overwritten by the assignment in
-- the assertion.
unfoldable pub commit_next : ℕ → Exec Node (Unit {0})
commit_next next = do
  assert (not (next == 0))
  log ← gets (λ n. n.log)
  if not (has_entry next log) then skip else do
    change_rs (set_commit_num next)
    log' ← assert_found (OpLog.commit next log)
    change_log (λ _. log')
    entry ← assert_found (get_log_entry next log')
    apply_entry entry

-- The first argument is the time of the call.
unfoldable pub process_commit : ℕ → CommitInfo → Exec Node (Unit {0})
unfolding check_committed commit_next
process_commit now c = do
  change_rs (set_last_commit_time now)
  rs ← gets (λ n. n.rs)
  if not (rs.status == normal) then skip else if not (c.view_num == rs.view_num) then skip else do
    check_committed c.commit_num
    if ltb rs.commit_num c.commit_num then commit_next (incr rs.commit_num) else skip

-- `invokePrepareOk(_replicas[_replicaState.priId()], …)`; a missing endpoint is created empty.
unfoldable pub answer_prepare : Net → PrepInfo → Exec Node (Unit {0})
answer_prepare net p = do
  n ← gets (λ n. n)
  let found = get_or_insert n.rs.pri_id (record { ip = []; port = [] }) n.replicas
  modify (λ n. record n { replicas = found.1 })
  invoke net found.0
      (prepare_ok (record { view_num = n.rs.view_num; op_num = p.op_num; replica_id = n.id }))
  skip

unfoldable pub log_prepared : Net → PrepInfo → Exec Node (Unit {0})
unfolding answer_prepare
log_prepared net p = do
  n ← gets (λ n. n)
  if is_primary n
      then skip
      else if not (n.rs.status == normal)
      then skip
      else if not (p.view_num == n.rs.view_num)
      then skip
      else do
        assert (p.op_num == incr n.rs.op_num)
        change_rs (set_op_num p.op_num)
        append_op p
        answer_prepare net p

-- One round of the loop; on an empty queue `pop` blocks.
unfoldable pub process_prep_info : Net → Exec Node (Unit {0})
unfolding log_prepared
process_prep_info net n = elim n.prep_req_q [
  | [] ↦ skip n
  | p ∷ rest ↦ log_prepared net p (record n { prep_req_q = rest })
]

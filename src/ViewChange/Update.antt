-- ===== src/ViewChange/Update.antt =====
-- server/viewChangeHandler.cc, `updateNewView` and `cleanUp`: a replica enters the new view, the new
-- primary with the log of the best `ViewChangeInfo` that it has, a backup with the log that the new
-- primary has sent.
use meta_dr.Prelude.{
  ℕ, zero, suc, ◌-◌, ◌+◌, Bool, Option, none, List, [], ◌∷◌, ◌==◌, nat_eq, if◌then◌else◌, ltb, leb,
  length, get_elem?,
}
use meta_dr.Prelude.Dict.{lookup, get_or_insert}
use meta_dr.Prelude.Exec.{Exec, done, gets, assert, assert_found, skip, ◌>>=◌, ◌>>◌}
use meta_dr.Types.{LogEntry, normal, status_eq, ViewChangeInfo, ViewStartInfo, start_view}
use meta_dr.ReplicaState.{
  set_pri_id, set_status, set_view_num, set_op_num, set_commit_num, set_last_commit_time, incr,
}
use meta_dr.OpLog.{get_log, set_log, get_log_entry, log_size}
use meta_dr.Quorum.{majority_cnt}
use meta_dr.Node.{Node, Net, change_rs, change_log, change_view_state, invoke_for_all_replicas}
use meta_dr.MemStore.{apply_entry}

-- The loop over `vcInfos` from index `i`; it returns `candidateViewChangeIdx`. The branch for a larger
-- old view leaves `highestOpNum` as it is.
unfoldable pub select_candidate : ℕ → ℕ → ℕ → ℕ → List ViewChangeInfo → ℕ
select_candidate i idx highest_old_view highest_op [] = idx
select_candidate i idx highest_old_view highest_op (v ∷ vs) =
    let same = select_candidate (i + 1) i highest_old_view v.op_num vs in
    let larger = select_candidate (i + 1) i v.old_view_num highest_op vs in
    let other = select_candidate (i + 1) idx highest_old_view highest_op vs in
    if v.old_view_num == highest_old_view
    then (if ltb highest_op v.op_num then same else other)
    else if ltb highest_old_view v.old_view_num
    then larger
    else other

unfoldable pub candidate : List ViewChangeInfo → Option ViewChangeInfo
unfolding select_candidate
candidate [] = none
candidate (v ∷ vs) = get_elem? (v ∷ vs) (select_candidate 1 0 v.old_view_num v.op_num vs)

-- The state and the log of the new view, the same statements in both branches.
unfoldable pub install : ℕ → ViewStartInfo → Exec Node (Unit {0})
install pri_id info = do
  change_rs (set_pri_id pri_id)
  change_rs (set_view_num info.view_num)
  change_rs (set_op_num info.op_num)
  change_rs (set_commit_num info.commit_num)
  change_log (set_log info.op_log)

abbrev pub read_log : Exec Node (List LogEntry)
read_log n = (done (get_log n.log).0, record n { log = (get_log n.log).1 })

-- The branch of the new primary; it returns the message for the backups.
unfoldable pub install_primary : ℕ → Exec Node ViewStartInfo
unfolding install
install_primary view_num = do
  n ← gets (λ n. n)
  let found = get_or_insert view_num [] n.view.view_change_info_map
  change_view_state (λ s. record s { view_change_info_map = found.1 })
  assert (leb (majority_cnt n.replicas) (length found.0))
  c ← assert_found (candidate found.0)
  install n.id (record {
    view_num = c.view_num;
    op_log = c.op_log;
    op_num = c.op_num;
    commit_num = c.commit_num;
    replica_id = n.id;
  })
  log ← read_log
  gets (λ _. record {
    view_num = c.view_num;
    op_log = log;
    op_num = c.op_num;
    commit_num = c.commit_num;
    replica_id = n.id;
  })

-- The branch of a backup; the look-up of a missing message is a null pointer.
unfoldable pub install_backup : ℕ → Exec Node ViewStartInfo
unfolding install
install_backup view_num = do
  infos ← gets (λ n. n.view.view_start_info_map)
  info ← assert_found (lookup view_num infos)
  assert (info.view_num == view_num)
  install info.replica_id info
  gets (λ _. info)

-- `for (i = …; i < logSize(); ++i)` with the rounds that are left.
unfoldable pub apply_committed : ℕ → ℕ → Exec Node (Unit {0})
apply_committed i zero = skip
apply_committed i (suc rounds) = do
  log ← gets (λ n. n.log)
  e ← assert_found (get_log_entry i log)
  if e.committed then apply_entry e else skip
  apply_committed (i + 1) rounds

unfoldable pub clean_up : Exec Node (Unit {0})
clean_up n =
    if n.rs.status == normal
    then (
      done tt,
      record n {
        view = record {
          view_start_req_map = [];
          do_view_change_map = [];
          view_change_info_map = [];
          start_view_map = [];
          view_start_info_map = [];
        };
      },
    )
    else skip n

-- What both branches do after the log has been replaced, up to the change of the status.
unfoldable pub finish_update : ℕ → ℕ → Exec Node (Unit {0})
unfolding apply_committed
finish_update now old_commit_num = do
  log ← gets (λ n. n.log)
  e ← assert_found (get_log_entry old_commit_num log)
  assert e.committed
  apply_committed (incr old_commit_num) (log_size log - incr old_commit_num)
  change_rs (set_last_commit_time now)
  change_rs (set_status normal)

-- The time is that of the call of the clock.
unfoldable pub update_new_view : Net → ℕ → ℕ → Bool → Exec Node (Unit {0})
update_new_view net now view_num is_primary = do
  old ← gets (λ n. n.rs.commit_num)
  info ← (if is_primary then install_primary view_num else install_backup view_num)
  finish_update now old
  if is_primary
      then (do assert (info.view_num == view_num); invoke_for_all_replicas net (start_view info))
      else skip
  clean_up

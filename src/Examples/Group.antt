-- ===== src/Examples/Group.antt =====
-- The theorems on a cluster, at three fresh replicas: an operation is stored, sent, logged by one
-- backup and applied there.
use meta_dr.Prelude.{ℕ, suc, ◌≡◌, refl, [], inl, inr, arith, nat_eq, text_eq}
use meta_dr.Prelude.Dict.{has, lookup, insert, erase, get_or_insert}
use meta_dr.Prelude.Exec.{done}
use meta_dr.Types.{CommitInfo, prepare, commit, status_eq}
use meta_dr.ReplicaState.{incr}
use meta_dr.OpLog
use meta_dr.OpLog.{append_update}
use meta_dr.MemStore.{set_int, has_key, apply_entry}
use meta_dr.Quorum.{quorum_reached, wait_get, count_response, majority_cnt}
use meta_dr.Node.{Node, invoke, invoke_for_all}
use meta_dr.Replicator.{
  no_timeout, is_primary, append_op, replicate, replicate_op, replicate_update, commit_op,
}
use meta_dr.Replicator.Handlers.{
  process_prepare, process_prep_info, log_prepared, answer_prepare, process_commit, check_committed,
  commit_next,
}
use meta_dr.Replicator.Replay.{replay}
use meta_dr.KvStore
use meta_dr.Cluster.{Cluster, set, receive, log, apply, Reach, here, next, answered, change, IsSent}
use meta_dr.Cluster.Agreement.{IsOrderly, Reach-IsOrderly, backup-replay, backups_agree}
use meta_dr.Examples.{fresh, fresh-IsConsistent, net_up, prep, text_a, text_x}

abbrev group : Cluster
group = record { primary = fresh 0; backups = λ i. fresh (suc i) }

group-IsOrderly : IsOrderly group
unfolding has lookup
group-IsOrderly = record {
  leads = record {
    primary = refl;
    normal_status = refl;
    started = refl;
    fits = ground arith;
    numbers = λ i. ground arith;
    good = tt;
  };
  follow = λ i. record {
    consistent = fresh-IsConsistent (suc i);
    normal_status = refl;
    view_num = refl;
    op_num = omega arith;
    queue = tt;
    same = λ k h. refl;
  };
}

abbrev stored : Cluster
stored = record group {
  primary = (KvStore.set (answered net_up [] [] no_timeout) text_a text_x (fresh 0)).1;
}

abbrev first_commit : CommitInfo
first_commit = record { view_num = 0; commit_num = 1 }

-- A replica after it has received, logged and applied the operation.
abbrev received : ℕ → Node
received id = (process_prepare (prep 1) (fresh id)).1

abbrev logged : ℕ → Node
logged id = (process_prep_info net_up (received id)).1

abbrev applied : ℕ → Node
applied id = (process_commit 5 first_commit (logged id)).1

sent-prepare : IsSent (prepare (prep 1)) stored.primary.sent
unfolding KvStore.set replicate_update replicate_op replicate is_primary append_op append_update
    invoke_for_all invoke quorum_reached wait_get count_response OpLog.commit lookup insert set_int
    has_key has incr erase majority_cnt get_or_insert OpLog.push_entry commit_op
sent-prepare = inl refl

sent-commit : IsSent (commit first_commit) stored.primary.sent
unfolding KvStore.set replicate_update replicate_op replicate is_primary append_op append_update
    invoke_for_all invoke quorum_reached wait_get count_response OpLog.commit lookup insert set_int
    has_key has incr erase majority_cnt get_or_insert OpLog.push_entry commit_op
sent-commit = inr (inr (inl refl))

receives : (id : ℕ) → process_prepare (prep 1) (fresh id) ≡ (done tt, received id)
unfolding process_prepare
receives id = refl

logs_first : process_prep_info net_up (received 1) ≡ (done tt, logged 1)
unfolding process_prepare process_prep_info log_prepared answer_prepare is_primary append_op
    append_update invoke incr get_or_insert lookup
logs_first = refl

logs_second : process_prep_info net_up (received 2) ≡ (done tt, logged 2)
unfolding process_prepare process_prep_info log_prepared answer_prepare is_primary append_op
    append_update invoke incr get_or_insert lookup
logs_second = refl

applies_first : process_commit 5 first_commit (logged 1) ≡ (done tt, applied 1)
unfolding process_prepare process_prep_info log_prepared answer_prepare is_primary append_op
    append_update invoke incr get_or_insert lookup process_commit check_committed commit_next
    OpLog.has_entry has insert OpLog.push_entry OpLog.commit OpLog.get_log_entry apply_entry set_int
    has_key
applies_first = refl

applies_second : process_commit 5 first_commit (logged 2) ≡ (done tt, applied 2)
unfolding process_prepare process_prep_info log_prepared answer_prepare is_primary append_op
    append_update invoke incr get_or_insert lookup process_commit check_committed commit_next
    OpLog.has_entry has insert OpLog.push_entry OpLog.commit OpLog.get_log_entry apply_entry set_int
    has_key
applies_second = refl

-- Both backups catch up.
abbrev first_done : ℕ → Node
first_done = change 0 (applied 1) (change 0 (logged 1) (change 0 (received 1) stored.backups))

abbrev caught_up : Cluster
caught_up = record stored {
  backups = change 1 (applied 2) (change 1 (logged 2) (change 1 (received 2) first_done));
}

caught_up-Reach : Reach group caught_up
caught_up-Reach =
    let s₁ = next here (set net_up [] [] no_timeout text_a text_x (ground arith) refl) in
    let s₂ = next s₁ (receive 0 (prep 1) (received 1) sent-prepare (receives 1) refl) in
    let s₃ = next s₂ (log 0 net_up (logged 1) logs_first refl) in
    let s₄ = next s₃ (apply 0 5 first_commit (applied 1) sent-commit applies_first refl) in
    let s₅ = next s₄ (receive 1 (prep 1) (received 2) sent-prepare (receives 2) refl) in
    let s₆ = next s₅ (log 1 net_up (logged 2) logs_second refl) in
    next s₆ (apply 1 5 first_commit (applied 2) sent-commit applies_second refl)

same_commit : (caught_up.backups 0).rs.commit_num ≡ (caught_up.backups 1).rs.commit_num
unfolding process_prepare process_prep_info log_prepared answer_prepare is_primary append_op
    append_update invoke incr get_or_insert lookup process_commit check_committed commit_next
    OpLog.has_entry has insert OpLog.push_entry OpLog.commit OpLog.get_log_entry apply_entry set_int
    has_key
same_commit = refl

Reach-IsOrderly_example : IsOrderly caught_up
Reach-IsOrderly_example = Reach-IsOrderly group-IsOrderly caught_up-Reach

backup-replay_example :
    (caught_up.backups 0).kv
    ≡ replay caught_up.primary.log.op_log (caught_up.backups 0).rs.commit_num
backup-replay_example = backup-replay group-IsOrderly caught_up-Reach 0

backups_agree_example : (caught_up.backups 0).kv ≡ (caught_up.backups 1).kv
backups_agree_example = backups_agree group-IsOrderly caught_up-Reach 0 1 same_commit

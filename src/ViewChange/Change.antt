-- ===== src/ViewChange/Change.antt =====
-- server/viewChangeHandler.cc, `changeView`: a replica that misses the primary's heartbeats asks for
-- the next view, and waits twice. What the other threads do meanwhile is an argument.
pub mod Attempts
pub mod Endings
use meta_dr.Prelude.{
  ℕ, zero, suc, ◌+◌, ◌-◌, ◌%◌, Bool, true, false, Option, none, some, [], ◌==◌, nat_eq,
  if◌then◌else◌, length,
}
use meta_dr.Prelude.Dict.{has, get_or_insert}
use meta_dr.Prelude.Exec.{Exec, done, assert_found, gets, assert, modify, skip, ◌>>=◌, ◌>>◌}
use meta_dr.Types.{view_change, ViewChangeInfo, start_view_change, do_view_change, u64_mod}
use meta_dr.ReplicaState.{set_pri_id, set_status, increment_view_num}
use meta_dr.Quorum.{quorum_reached, wait_get}
use meta_dr.Node.{Node, Net, change_rs, change_view_state, invoke, invoke_for_all_replicas}
use meta_dr.Replicator.{CvStatus, no_timeout, timeout}
use meta_dr.ViewChange.{count_request, count_change, push_info, get_next_primary_candidate}
use meta_dr.ViewChange.Update.{read_log, update_new_view}

pub record Surroundings : Type 0 where
  pub net : Net
  pub now : ℕ
  pub during_calls : Node → Node
  pub during_request_wait : Node → Node
  pub request_wake : CvStatus
  pub during_change_wait : Node → Node
  pub change_wake : CvStatus

-- The `while` loop that looks for a reachable primary, from the candidate and the count; it returns
-- the last candidate, and `none` if the fuel runs out.
unfoldable pub candidate_loop : Net → ViewChangeInfo → ℕ → ℕ → ℕ → Exec Node (Option ℕ)
candidate_loop net info zero cnt pri n = (done none, n)
candidate_loop net info (suc fuel) cnt pri n =
    if pri == n.id
    then (done (some pri), n)
    else let found = get_or_insert pri (record { ip = []; port = [] }) n.replicas in
      let called = invoke net found.0 (do_view_change info) (record n { replicas = found.1 }) in
      let n' = called.1 in
      let rest =
        candidate_loop net info fuel (cnt + 1) (get_next_primary_candidate n'.replicas pri) n' in
      elim called.0 [
        | done true ↦ (done (some pri), n')
        | _ ↦
            if (cnt + 1) == (length n'.replicas + u64_mod - 1) % u64_mod
            then (done (some pri), n')
            else rest
      ]

-- One round for each replica is enough.
unfoldable pub choose_primary : Net → ViewChangeInfo → Exec Node ℕ
choose_primary net info = do
  n ← gets (λ n. n)
  found ←
      candidate_loop net info (length n.replicas + 1) 0
        (get_next_primary_candidate n.replicas n.rs.pri_id)
  assert_found found

-- The counter of a `Response`, read again after a wait.
abbrev pub change_count : ℕ → Node → ℕ
change_count v n = (wait_get v n.view.do_view_change_map).0

abbrev pub request_count : ℕ → Node → ℕ
request_count v n = (wait_get v n.view.view_start_req_map).0

abbrev pub start_count : ℕ → Node → ℕ
start_count v n = (wait_get v n.view.start_view_map).0

-- `true` if the wait for the requests of the other replicas ends with a quorum, or woken up.
await_requests : Surroundings → ℕ → Exec Node Bool
await_requests env new_view_num = do
  n ← gets (λ n. n)
  invoke_for_all_replicas env.net
      (start_view_change (record { view_num = new_view_num; replica_id = n.id }))
  modify env.during_calls
  cnt ← count_request new_view_num
  replicas ← gets (λ n. n.replicas)
  if quorum_reached replicas cnt then gets (λ _. true) else do
    modify env.during_request_wait
    elim env.request_wake [ no_timeout ↦ gets (λ _. true) | timeout ↦ gets (λ _. false) ]

-- One of the two last waits: the test, the wait if it fails, and the test again as an assertion.
unfoldable pub wait_until :
    Surroundings → (Node → Bool) → Exec Node (Unit {0}) → Exec Node (Unit {0})
wait_until env is_ready next = do
  n ← gets (λ n. n)
  let enter = (do m ← gets (λ m. m); assert (is_ready m); next)
  if is_ready n then enter else do
    modify env.during_change_wait
    elim env.change_wake [ no_timeout ↦ enter | timeout ↦ skip ]

-- The replica waits as the new primary.
await_changes : Surroundings → ℕ → Exec Node (Unit {0})
await_changes env new_view_num =
    wait_until env (λ m. quorum_reached m.replicas (change_count new_view_num m))
      (update_new_view env.net env.now new_view_num true)

-- The replica waits for the message of the new primary.
await_start : Surroundings → ℕ → Exec Node (Unit {0})
await_start env new_view_num = do
  change_view_state (λ s. record s { start_view_map = (wait_get new_view_num s.start_view_map).1 })
  wait_until env (λ m. start_count new_view_num m == 1)
      (update_new_view env.net env.now new_view_num false)

-- The info that the replica sends. Its operation number is the commit number.
unfoldable pub own_change_info : ℕ → ℕ → Exec Node ViewChangeInfo
own_change_info old_view_num new_view_num = do
  log ← read_log
  n ← gets (λ n. n)
  gets (λ _. record {
    view_num = new_view_num;
    op_log = log;
    old_view_num = old_view_num;
    op_num = n.rs.commit_num;
    commit_num = n.rs.commit_num;
    replica_id = n.id;
  })

-- The part after the first wait.
join_view_change : Surroundings → ℕ → ℕ → Exec Node (Unit {0})
unfolding own_change_info await_changes await_start
join_view_change env old_view_num new_view_num = do
  info ← own_change_info old_view_num new_view_num
  push_info new_view_num info
  count_change new_view_num
  new_pri_id ← choose_primary env.net info
  change_rs (set_pri_id new_pri_id)
  n ← gets (λ n. n)
  if new_pri_id == n.id then await_changes env new_view_num else await_start env new_view_num

unfoldable pub change_view : Surroundings → Exec Node (Unit {0})
unfolding await_requests join_view_change
change_view env = do
  change_rs (set_status view_change)
  old_view_num ← gets (λ n. n.rs.view_num)
  change_rs (λ rs. (increment_view_num rs).1)
  n ← gets (λ n. n)
  if has n.rs.view_num n.view.view_start_info_map
      then update_new_view env.net env.now n.rs.view_num false
      else do
        started ← await_requests env n.rs.view_num
        if started then join_view_change env old_view_num n.rs.view_num else skip

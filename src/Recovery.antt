-- ===== src/Recovery.antt =====
-- server/recoveryHandler.cc: a restarted replica asks the others, and takes the state of the primary
-- among them.
pub mod Adopt
pub mod Restore
use Prim.Native.Nat.{◌^◌, ◌%◌}
use meta_dr.Prelude.{
  ℕ, ◌+◌, Bool, true, false, not, ◌&&◌, List, [], ◌∷◌, ◌++◌, ◌==◌, nat_eq, if◌then◌else◌, leb,
}
use meta_dr.Prelude.Dict.{Dict, insert, get_or_insert}
use meta_dr.Prelude.Exec.{
  Exec, Outcome, done, raise, runtime_error, gets, assert, modify, skip, ◌>>=◌, ◌>>◌,
}
use meta_dr.Types.{
  LogEntry, normal, recovering, status_eq, RecoveryRequest, RecoveryResponse, recovery_request,
  recovery_response,
}
use meta_dr.ReplicaState.{
  set_pri_id, set_status, set_view_num, set_op_num, set_commit_num, set_last_commit_time,
}
use meta_dr.OpLog.{set_log, get_log}
use meta_dr.Quorum.{majority_cnt, quorum_reached, wait_get, count_response}
use meta_dr.Node.{
  Node, Net, recovery_waiter, change_rs, change_log, change_recovery, notify_if, invoke,
  invoke_for_all_replicas,
}
use meta_dr.MemStore.{apply_entry}
use meta_dr.Replicator.{Surroundings, CvStatus, no_timeout, timeout, is_primary}

-- Whether one of the counters of views has reached the majority.
unfoldable pub some_majority : ℕ → Dict ℕ ℕ → Bool
some_majority majority [] = false
some_majority majority ((v, cnt) ∷ counters) =
    let others = some_majority majority counters in if leb majority cnt then true else others

-- `_waitMap.get(nonce)`
abbrev pub wait_for : ℕ → Exec Node ℕ
wait_for nonce n =
    let (cnt, m) = wait_get nonce n.recovery.wait_map in
    (done cnt, record n { recovery = record n.recovery { wait_map = m } })

abbrev pub count_answer : ℕ → Exec Node ℕ
count_answer nonce n =
    let (cnt, m) = count_response nonce n.recovery.wait_map in
    (done cnt, record n { recovery = record n.recovery { wait_map = m } })

unfoldable pub response_done : ℕ → Exec Node Bool
unfolding some_majority
response_done nonce = do
  cnt ← wait_for nonce
  n ← gets (λ n. n)
  if not (n.recovery.received_resp_from_pri && quorum_reached n.replicas cnt)
      then gets (λ _. false)
      else gets (λ _. some_majority (majority_cnt n.replicas) n.recovery.resp_view_cnt)

unfoldable pub process_recovery_request : RecoveryRequest → Exec Node (Unit {0})
process_recovery_request r = do
  rs ← gets (λ n. n.rs)
  if not (rs.status == normal)
      then skip
      else change_recovery (λ s. record s { recovery_req_q = s.recovery_req_q ++ r ∷ [] })

-- The counters of views are `unsigned`.
unfoldable pub process_recovery_response : RecoveryResponse → Exec Node (Unit {0})
unfolding response_done
process_recovery_response r = do
  rs ← gets (λ n. n.rs)
  if not (rs.status == recovering) then skip else do
    if r.is_primary then change_recovery (λ s. record s { received_resp_from_pri = true }) else skip
    change_recovery (λ s. record s {
      resp_view_cnt =
          insert r.view_num (((get_or_insert r.view_num 0 s.resp_view_cnt).0 + 1) % 2 ^ 32)
            s.resp_view_cnt;
      recovery_resp_map =
          insert r.nonce ((get_or_insert r.nonce [] s.recovery_resp_map).0 ++ r ∷ [])
            s.recovery_resp_map;
    })
    wait_for r.nonce
    count_answer r.nonce
    notify ← response_done r.nonce
    notify_if notify (recovery_waiter r.nonce)

unfoldable pub recover_state_from_log : List LogEntry → Exec Node (Unit {0})
recover_state_from_log [] = skip
recover_state_from_log (e ∷ es) = do
  if e.committed then apply_entry e else skip
  recover_state_from_log es

-- The first view whose counter has reached the majority, or 0.
unfoldable pub highest_view : ℕ → Dict ℕ ℕ → ℕ
highest_view majority [] = 0
highest_view majority ((v, cnt) ∷ counters) =
    let others = highest_view majority counters in if leb majority cnt then v else others

-- What `recover` takes over from the response of the primary.
unfoldable pub adopt : ℕ → RecoveryResponse → Exec Node (Unit {0})
unfolding recover_state_from_log
adopt now r = do
  recover_state_from_log r.op_log
  change_rs (set_pri_id r.replica_id)
  change_rs (set_view_num r.view_num)
  change_rs (set_op_num r.op_num)
  change_rs (set_commit_num r.commit_num)
  change_log (set_log r.op_log)
  change_rs (set_last_commit_time now)
  change_rs (set_status normal)

-- The loop of `recover` over the responses.
unfoldable pub adopt_primary : ℕ → ℕ → List RecoveryResponse → Exec Node (Unit {0})
unfolding adopt
adopt_primary now highest [] = skip
adopt_primary now highest (r ∷ rs) =
    let rest = adopt_primary now highest rs in
    if r.view_num == highest && r.is_primary
    then adopt now r
    else do assert (leb r.view_num highest); rest

unfoldable pub cleanup : Exec Node (Unit {0})
cleanup = change_recovery (λ s. record s {
  wait_map = [];
  recovery_resp_map = [];
  resp_view_cnt = [];
  received_resp_from_pri = false;
})

-- `recover` from the end of its wait on.
unfoldable pub restore : ℕ → ℕ → Exec Node (Unit {0})
unfolding highest_view adopt_primary cleanup
restore now nonce = do
  n ← gets (λ n. n)
  let found = get_or_insert nonce [] n.recovery.recovery_resp_map
  change_recovery (λ s. record s { recovery_resp_map = found.1 })
  adopt_primary now (highest_view (majority_cnt n.replicas) n.recovery.resp_view_cnt) found.0
  m ← gets (λ n. n)
  assert (m.rs.status == normal)
  cleanup

-- The nonce is the time of the call in seconds.
unfoldable pub recover : Surroundings → ℕ → ℕ → Exec Node (Unit {0})
unfolding response_done restore
recover env now nonce = do
  change_rs (set_status recovering)
  n ← gets (λ n. n)
  invoke_for_all_replicas env.net
      (recovery_request (record { replica_id = n.id; nonce = nonce; known_commit_num = 0 }))
  modify env.during_calls
  wait_for nonce
  answered ← response_done nonce
  if answered then skip else do
    modify env.during_wait
    elim env.wake [ no_timeout ↦ skip | timeout ↦ raise runtime_error ]
  restore now nonce

-- The response of a replica; the fields that a backup does not set have their default values.
unfoldable pub answer : ℕ → Node → RecoveryResponse
answer nonce n =
    if is_primary n
    then record {
      view_num = n.rs.view_num;
      nonce = nonce;
      replica_id = n.id;
      is_primary = true;
      op_log = (get_log n.log).0;
      op_num = n.rs.op_num;
      commit_num = n.rs.commit_num;
    }
    else record {
      view_num = n.rs.view_num;
      nonce = nonce;
      replica_id = n.id;
      is_primary = false;
      op_log = [];
      op_num = 0;
      commit_num = 0;
    }

-- One round of the thread that answers; it ends when the replica is not in normal status.
unfoldable pub process_recovery_req : Net → Exec Node (Unit {0})
unfolding answer
process_recovery_req net n =
    (if not n.recovery.serving then skip else elim n.recovery.recovery_req_q [
      | [] ↦ skip
      | r ∷ rest ↦ do
        change_recovery (λ s. record s { recovery_req_q = rest })
        if not (n.rs.status == normal)
            then change_recovery (λ s. record s { serving = false })
            else do
              modify (λ m. if is_primary m then record m { log = (get_log m.log).1 } else m)
              let found = get_or_insert r.replica_id (record { ip = []; port = [] }) n.replicas
              modify (λ m. record m { replicas = found.1 })
              invoke net found.0 (recovery_response (answer r.nonce n))
              skip
    ])
      n

-- ===== src/Node.antt =====
-- The state of one server process: `VsReplicator` with its handlers, its log and the key-value map of
-- `KvMemStore`, and what it gives to the outside: the calls that it has made and the threads that
-- it has notified.
use meta_dr.Prelude.{
  ℕ, zero, suc, ◌+◌, Bool, true, false, List, [], ◌∷◌, ◌++◌, Text, ◌==◌, nat_eq, if◌then◌else◌,
}
use meta_dr.Prelude.Dict.{Dict}
use meta_dr.Prelude.Exec.{Exec, done, modify, skip, ◌>>◌}
use meta_dr.Types.{
  EndPoint, PrepInfo, ViewChangeInfo, ViewStartInfo, RecoveryRequest, RecoveryResponse, Message,
}
use meta_dr.ReplicaState.{ReplicaState}
use meta_dr.OpLog.{OpLogHandler}
use meta_dr.Quorum.{WaitMap}

-- A thread that `cond.notify_one()` wakes, by the key of its `Response`.
pub data Waiter : Type 0 where
  op_waiter view_start_waiter do_view_change_waiter start_view_waiter recovery_waiter : ℕ → Waiter

pub record Packet : Type 0 where
  pub to : EndPoint
  pub message : Message

-- The maps of `ViewChangeHandler`.
pub record ViewChangeState : Type 0 where
  pub view_start_req_map : WaitMap
  pub do_view_change_map : WaitMap
  pub view_change_info_map : Dict ℕ (List ViewChangeInfo)
  pub start_view_map : WaitMap
  pub view_start_info_map : Dict ℕ ViewStartInfo

-- The maps of `RecoveryHandler`, its queue, and whether its thread still runs.
pub record RecoveryState : Type 0 where
  pub recovery_req_q : List RecoveryRequest
  pub wait_map : WaitMap
  pub recovery_resp_map : Dict ℕ (List RecoveryResponse)
  pub resp_view_cnt : Dict ℕ ℕ
  pub received_resp_from_pri : Bool
  pub serving : Bool

pub record Node : Type 0 where
  pub id : ℕ
  pub replicas : Dict ℕ EndPoint
  pub log : OpLogHandler
  pub rs : ReplicaState
  pub kv : Dict Text Text
  pub update_cb : Bool  -- registered
  pub delete_cb : Bool
  pub started : Bool  -- both threads run
  pub prep_req_q : List PrepInfo
  pub wait_map : WaitMap
  pub view : ViewChangeState
  pub recovery : RecoveryState
  pub sent : List Packet
  pub notified : List Waiter

abbrev pub change_rs : (ReplicaState → ReplicaState) → Exec Node (Unit {0})
change_rs f = modify (λ n. record n { rs = f n.rs })

abbrev pub change_log : (OpLogHandler → OpLogHandler) → Exec Node (Unit {0})
change_log f = modify (λ n. record n { log = f n.log })

abbrev pub change_view_state : (ViewChangeState → ViewChangeState) → Exec Node (Unit {0})
change_view_state f = modify (λ n. record n { view = f n.view })

abbrev pub change_recovery : (RecoveryState → RecoveryState) → Exec Node (Unit {0})
change_recovery f = modify (λ n. record n { recovery = f n.recovery })

-- `if (notify) resp->cond.notify_one();`
abbrev pub notify_if : Bool → Waiter → Exec Node (Unit {0})
notify_if b w = modify (λ n. if b then record n { notified = n.notified ++ w ∷ [] } else n)

-- The RPC library: whether the given try of a call returns without an exception.
abbrev pub Net : Type 0
Net = EndPoint → Message → ℕ → Bool

-- The loop `while (++tryCnt <= 2)` of the `invoke…` functions, with the number of rounds left.
unfoldable pub try_calls : (ℕ → Bool) → ℕ → ℕ → Bool
try_calls succeeds try_cnt zero = false
try_calls succeeds try_cnt (suc left) =
    if succeeds (try_cnt + 1) then true else try_calls succeeds (try_cnt + 1) left

-- An `invoke…` function: the call is made if a try succeeds; exceptions are swallowed.
unfoldable pub invoke : Net → EndPoint → Message → Exec Node Bool
unfolding try_calls
invoke net ep message n =
    if try_calls (net ep message) 0 2
    then (done true, record n { sent = n.sent ++ record { to = ep; message = message } ∷ [] })
    else (done false, n)

-- `invokeForAllReplicas` starts a thread for each replica and joins them all; the order of the calls
-- among them is the map's.
unfoldable pub invoke_for_all : Net → Message → ℕ → Dict ℕ EndPoint → Exec Node (Unit {0})
unfolding invoke
invoke_for_all net message id [] = skip
invoke_for_all net message id ((rid, ep) ∷ rest) =
    let others = invoke_for_all net message id rest in
    if rid == id then others else do invoke net ep message; others

abbrev pub invoke_for_all_replicas : Net → Message → Exec Node (Unit {0})
invoke_for_all_replicas net message n = invoke_for_all net message n.id n.replicas n

-- ===== src/Rpc.antt =====
-- server/vsReplicationImpl.cc, server/viewChangeImpl.cc and server/recoveryImpl.cc: the RPC library's
-- calls of a server process, which go to the handlers of its replicator.
use meta_dr.Prelude.{ℕ, none, some}
use meta_dr.Prelude.Exec.{Exec, abort}
use meta_dr.Types.{
  Message, prepare, prepare_ok, commit, start_view_change, do_view_change, start_view,
  recovery_request, recovery_response,
}
use meta_dr.Node.{Node}
use meta_dr.Replicator.Handlers.{process_prepare, process_prepare_ok, process_commit}
use meta_dr.ViewChange.{process_start_view_change, process_do_view_change, process_start_view}
use meta_dr.Recovery.{process_recovery_request, process_recovery_response}
use meta_dr.Config.Boot.{Process}

-- The handler of a call; the first argument is the time.
unfoldable pub handler : ℕ → Message → Exec Node (Unit {0})
handler now m = elim m [
  | prepare p ↦ process_prepare p
  | prepare_ok r ↦ process_prepare_ok r
  | commit c ↦ process_commit now c
  | start_view_change r ↦ process_start_view_change r
  | do_view_change i ↦ process_do_view_change i
  | start_view i ↦ process_start_view i
  | recovery_request r ↦ process_recovery_request r
  | recovery_response r ↦ process_recovery_response r
]

-- A call on the replicator that `getReplicator` gives, which asserts that there is one.
unfoldable pub on_replicator : {A : Type 0} → Exec Node A → Exec Process A
on_replicator run p = elim p.config.replicator [
  | none ↦ (abort, p)
  | some n ↦
      let (o, m) = run n in (o, record p { config = record p.config { replicator = some m } })
]

unfoldable pub deliver : ℕ → Message → Exec Process (Unit {0})
unfolding handler on_replicator
deliver now m = on_replicator (handler now m)

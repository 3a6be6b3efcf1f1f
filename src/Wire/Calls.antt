-- ===== src/Wire/Calls.antt =====
-- The calls between replicas on the wire: the procedure and program numbers and `call_dispatch` of
-- server/vsReplication.hh, server/viewChange.hh and server/recovery.hh, and the services that
-- server/server.cc registers.
use meta_dr.Prelude.{ℕ, Option, none, some, [], Text, ◌==◌, nat_eq, if◌then◌else◌}
use meta_dr.Prelude.Exec.{Outcome}
use meta_dr.Types.{
  PrepInfo, CommitInfo, PrepResponse, ViewChangeRequest, ViewChangeInfo, ViewStartInfo,
  RecoveryRequest, RecoveryResponse, Message, prepare, prepare_ok, commit, start_view_change,
  do_view_change, start_view, recovery_request, recovery_response,
}
use meta_dr.Config.Boot.{Process}
use meta_dr.Rpc.{deliver}
use meta_dr.Wire.{Xdr, Load, loaded, ◌>>=◌}
use meta_dr.Wire.Codec.{
  save_prep_info, load_prep_info, save_commit_info, load_commit_info, save_prep_response,
  load_prep_response, save_view_change_request, load_view_change_request, save_view_change_info,
  load_view_change_info, save_view_start_info, load_view_start_info, save_recovery_request,
  load_recovery_request, save_recovery_response, load_recovery_response,
}

-- What the RPC library carries: the numbers of a procedure, and its argument in bytes.
pub record Call : Type 0 where
  pub program : ℕ
  pub proc : ℕ
  pub args : Text

abbrev pub replication_api : ℕ
replication_api = 1074036872

abbrev pub view_change_api : ℕ
view_change_api = 1074036992

abbrev pub recovery_api : ℕ
recovery_api = 1074036994

module _ (x : Xdr) where
  unfoldable pub prepare_call : PrepInfo → Call
  unfolding save_prep_info
  prepare_call r = record { program = replication_api; proc = 1; args = save_prep_info x r [] }

  unfoldable pub prepare_ok_call : PrepResponse → Call
  unfolding save_prep_response
  prepare_ok_call r = record {
    program = replication_api;
    proc = 2;
    args = save_prep_response x r [];
  }

  unfoldable pub commit_call : CommitInfo → Call
  unfolding save_commit_info
  commit_call r = record { program = replication_api; proc = 3; args = save_commit_info x r [] }

  unfoldable pub start_view_change_call : ViewChangeRequest → Call
  unfolding save_view_change_request
  start_view_change_call r = record {
    program = view_change_api;
    proc = 1;
    args = save_view_change_request x r [];
  }

  unfoldable pub do_view_change_call : ViewChangeInfo → Call
  unfolding save_view_change_info
  do_view_change_call r = record {
    program = view_change_api;
    proc = 2;
    args = save_view_change_info x r [];
  }

  unfoldable pub start_view_call : ViewStartInfo → Call
  unfolding save_view_start_info
  start_view_call r = record {
    program = view_change_api;
    proc = 3;
    args = save_view_start_info x r [];
  }

  unfoldable pub recovery_request_call : RecoveryRequest → Call
  unfolding save_recovery_request
  recovery_request_call r = record {
    program = recovery_api;
    proc = 1;
    args = save_recovery_request x r [];
  }

  unfoldable pub recovery_response_call : RecoveryResponse → Call
  unfolding save_recovery_response
  recovery_response_call r = record {
    program = recovery_api;
    proc = 2;
    args = save_recovery_response x r [];
  }

  unfoldable pub send : Message → Call
  unfolding prepare_call prepare_ok_call commit_call start_view_change_call do_view_change_call
      start_view_call recovery_request_call recovery_response_call
  send m = elim m [
    | prepare r ↦ prepare_call r
    | prepare_ok r ↦ prepare_ok_call r
    | commit r ↦ commit_call r
    | start_view_change r ↦ start_view_change_call r
    | do_view_change r ↦ do_view_change_call r
    | start_view r ↦ start_view_call r
    | recovery_request r ↦ recovery_request_call r
    | recovery_response r ↦ recovery_response_call r
  ]

  -- No procedure has another number: `none`.
  unfoldable pub replication_dispatch : ℕ → Load Message
  unfolding load_prep_info load_prep_response load_commit_info
  replication_dispatch proc args =
      if proc == 1
      then (do r ← load_prep_info x; loaded (prepare r)) args
      else if proc == 2
      then (do r ← load_prep_response x; loaded (prepare_ok r)) args
      else if proc == 3
      then (do r ← load_commit_info x; loaded (commit r)) args
      else none

  unfoldable pub view_change_dispatch : ℕ → Load Message
  unfolding load_view_change_request load_view_change_info load_view_start_info
  view_change_dispatch proc args =
      if proc == 1
      then (do r ← load_view_change_request x; loaded (start_view_change r)) args
      else if proc == 2
      then (do r ← load_view_change_info x; loaded (do_view_change r)) args
      else if proc == 3
      then (do r ← load_view_start_info x; loaded (start_view r)) args
      else none

  unfoldable pub recovery_dispatch : ℕ → Load Message
  unfolding load_recovery_request load_recovery_response
  recovery_dispatch proc args =
      if proc == 1
      then (do r ← load_recovery_request x; loaded (recovery_request r)) args
      else if proc == 2
      then (do r ← load_recovery_response x; loaded (recovery_response r)) args
      else none

  -- The second listener has the three services.
  unfoldable pub receive : Call → Option (Message × Text)
  unfolding replication_dispatch view_change_dispatch recovery_dispatch
  receive c =
      if c.program == replication_api
      then replication_dispatch c.proc c.args
      else if c.program == view_change_api
      then view_change_dispatch c.proc c.args
      else if c.program == recovery_api
      then recovery_dispatch c.proc c.args
      else none

  -- A call of a server process; `none` if the library refuses it, and no handler runs.
  unfoldable pub serve : ℕ → Call → Process → Option (Outcome (Unit {0}) × Process)
  unfolding receive
  serve now c p = elim (receive c) [ none ↦ none | some m ↦ some (deliver now m.0 p) ]

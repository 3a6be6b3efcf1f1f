-- ===== src/Wire/Delivery.antt =====
-- A call between replicas is delivered as it was sent.
use meta_dr.Types.{
  Message, prepare, prepare_ok, commit, start_view_change, do_view_change, start_view,
  recovery_request, recovery_response,
}
use meta_dr.Prelude.{◌≡◌, ap, Option, none, some, [], Text, arith, ℕ}
use meta_dr.Config.Boot.{Process}
use meta_dr.Rpc.{deliver}
use meta_dr.Wire.{Xdr, IsXdr}
use meta_dr.Wire.Messages.{
  FitsPrepInfo, FitsCommitInfo, FitsPrepResponse, FitsViewChangeRequest, FitsViewChangeInfo,
  FitsViewStartInfo, FitsRecoveryRequest, FitsRecoveryResponse, load-save_prep_info,
  load-save_prep_response, load-save_commit_info, load-save_view_change_request,
  load-save_view_change_info, load-save_view_start_info, load-save_recovery_request,
  load-save_recovery_response,
}
use meta_dr.Wire.Calls.{
  send, receive, serve, replication_dispatch, view_change_dispatch, recovery_dispatch, prepare_call,
  prepare_ok_call, commit_call, start_view_change_call, do_view_change_call, start_view_call,
  recovery_request_call, recovery_response_call,
}

-- The argument is in the bounds of its type.
abbrev pub FitsMessage : Message → Type 0
FitsMessage m = elim m [
  | prepare r ↦ FitsPrepInfo r
  | prepare_ok r ↦ FitsPrepResponse r
  | commit r ↦ FitsCommitInfo r
  | start_view_change r ↦ FitsViewChangeRequest r
  | do_view_change r ↦ FitsViewChangeInfo r
  | start_view r ↦ FitsViewStartInfo r
  | recovery_request r ↦ FitsRecoveryRequest r
  | recovery_response r ↦ FitsRecoveryResponse r
]

receive-send :
    (x : Xdr) (l : IsXdr x) (m : Message) → FitsMessage m → receive x (send x m) ≡ some (m, [])
unfolding receive send replication_dispatch view_change_dispatch recovery_dispatch prepare_call
    prepare_ok_call commit_call start_view_change_call do_view_change_call start_view_call
    recovery_request_call recovery_response_call
receive-send x l (prepare r) h = ground (arith, load-save_prep_info x l r [] h)
receive-send x l (prepare_ok r) h = ground (arith, load-save_prep_response x l r [] h)
receive-send x l (commit r) h = ground (arith, load-save_commit_info x l r [] h)
receive-send x l (start_view_change r) h = ground (arith, load-save_view_change_request x l r [] h)
receive-send x l (do_view_change r) h = ground (arith, load-save_view_change_info x l r [] h)
receive-send x l (start_view r) h = ground (arith, load-save_view_start_info x l r [] h)
receive-send x l (recovery_request r) h = ground (arith, load-save_recovery_request x l r [] h)
receive-send x l (recovery_response r) h = ground (arith, load-save_recovery_response x l r [] h)

-- A process that serves the bytes of a call, whose numbers are in 64 bits and whose texts and log are
-- in the bounds of their types, runs the handler on the message that was sent: for every kind of
-- message, with archives that read back what they write.
pub serve-send :
    (x : Xdr) (l : IsXdr x) (now : ℕ) (m : Message) (p : Process)
    → FitsMessage m
    → serve x now (send x m) p ≡ some (deliver now m p)
unfolding serve
serve-send x l now m p h =
    ap (λ (o : Option (Message × Text)). elim o [ none ↦ none | some r ↦ some (deliver now r.0 p) ])
      (receive-send x l m h)

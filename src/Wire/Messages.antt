-- ===== src/Wire/Messages.antt =====
-- Every struct of the calls between replicas is read back from its bytes.
use meta_dr.Prelude.{◌^◌, ◌<◌, ◌≡◌, some, Text, arith}
use meta_dr.Types.{
  PrepInfo, CommitInfo, PrepResponse, ViewChangeRequest, ViewChangeInfo, ViewStartInfo,
  RecoveryRequest, RecoveryResponse,
}
use meta_dr.Wire.{Xdr, IsXdr}
use meta_dr.Wire.Codec.{
  op_type_number, op_log, save_kv_pair, save_prep_info, load_prep_info, save_commit_info,
  load_commit_info, save_prep_response, load_prep_response, save_view_change_request,
  load_view_change_request, save_view_change_info, load_view_change_info, save_view_start_info,
  load_view_start_info, save_recovery_request, load_recovery_request, save_recovery_response,
  load_recovery_response,
}
use meta_dr.Wire.Laws.{
  FitsPair, FitsLog, op_type_number-of, op_type_bound, load-save_kv_pair, op_log-ReadsBack,
}

pub record FitsPrepInfo (r : PrepInfo) : Type 0 where
  pub view_num : r.view_num < 2 ^ 64
  pub kv_pair : FitsPair r.kv_pair
  pub op_num : r.op_num < 2 ^ 64
  pub commit_num : r.commit_num < 2 ^ 64

pub record FitsCommitInfo (r : CommitInfo) : Type 0 where
  pub view_num : r.view_num < 2 ^ 64
  pub commit_num : r.commit_num < 2 ^ 64

pub record FitsPrepResponse (r : PrepResponse) : Type 0 where
  pub view_num : r.view_num < 2 ^ 64
  pub op_num : r.op_num < 2 ^ 64
  pub replica_id : r.replica_id < 2 ^ 64

pub record FitsViewChangeRequest (r : ViewChangeRequest) : Type 0 where
  pub view_num : r.view_num < 2 ^ 64
  pub replica_id : r.replica_id < 2 ^ 64

pub record FitsViewChangeInfo (r : ViewChangeInfo) : Type 0 where
  pub view_num : r.view_num < 2 ^ 64
  pub op_log : FitsLog r.op_log
  pub old_view_num : r.old_view_num < 2 ^ 64
  pub op_num : r.op_num < 2 ^ 64
  pub commit_num : r.commit_num < 2 ^ 64
  pub replica_id : r.replica_id < 2 ^ 64

pub record FitsViewStartInfo (r : ViewStartInfo) : Type 0 where
  pub view_num : r.view_num < 2 ^ 64
  pub op_log : FitsLog r.op_log
  pub op_num : r.op_num < 2 ^ 64
  pub commit_num : r.commit_num < 2 ^ 64
  pub replica_id : r.replica_id < 2 ^ 64

pub record FitsRecoveryRequest (r : RecoveryRequest) : Type 0 where
  pub replica_id : r.replica_id < 2 ^ 64
  pub nonce : r.nonce < 2 ^ 64
  pub known_commit_num : r.known_commit_num < 2 ^ 64

pub record FitsRecoveryResponse (r : RecoveryResponse) : Type 0 where
  pub view_num : r.view_num < 2 ^ 64
  pub nonce : r.nonce < 2 ^ 64
  pub replica_id : r.replica_id < 2 ^ 64
  pub op_log : FitsLog r.op_log
  pub op_num : r.op_num < 2 ^ 64
  pub commit_num : r.commit_num < 2 ^ 64

module _ (x : Xdr) (l : IsXdr x) where
  pub load-save_prep_info :
      (r : PrepInfo) (rest : Text)
      → FitsPrepInfo r
      → load_prep_info x (save_prep_info x r rest) ≡ some (r, rest)
  unfolding load_prep_info save_prep_info
  load-save_prep_info r rest h =
      let s4 = x.u64.save r.commit_num rest in
      let s3 = x.u32.save (op_type_number r.op_type) s4 in
      let s2 = x.u64.save r.op_num s3 in
      let s1 = save_kv_pair x r.kv_pair s2 in
      ground (
        arith,
        l.u64 r.view_num s1 h.view_num,
        load-save_kv_pair x l r.kv_pair s2 h.kv_pair,
        l.u64 r.op_num s3 h.op_num,
        l.u32 (op_type_number r.op_type) s4 (op_type_bound r.op_type),
        op_type_number-of r.op_type,
        l.u64 r.commit_num rest h.commit_num,
      )

  pub load-save_commit_info :
      (r : CommitInfo) (rest : Text)
      → FitsCommitInfo r
      → load_commit_info x (save_commit_info x r rest) ≡ some (r, rest)
  unfolding load_commit_info save_commit_info
  load-save_commit_info r rest h =
      let s1 = x.u64.save r.commit_num rest in
      ground (arith, l.u64 r.view_num s1 h.view_num, l.u64 r.commit_num rest h.commit_num)

  pub load-save_prep_response :
      (r : PrepResponse) (rest : Text)
      → FitsPrepResponse r
      → load_prep_response x (save_prep_response x r rest) ≡ some (r, rest)
  unfolding load_prep_response save_prep_response
  load-save_prep_response r rest h =
      let s2 = x.u64.save r.replica_id rest in
      let s1 = x.u64.save r.op_num s2 in
      ground (
        arith,
        l.u64 r.view_num s1 h.view_num,
        l.u64 r.op_num s2 h.op_num,
        l.u64 r.replica_id rest h.replica_id,
      )

  pub load-save_view_change_request :
      (r : ViewChangeRequest) (rest : Text)
      → FitsViewChangeRequest r
      → load_view_change_request x (save_view_change_request x r rest) ≡ some (r, rest)
  unfolding load_view_change_request save_view_change_request
  load-save_view_change_request r rest h =
      let s1 = x.u64.save r.replica_id rest in
      ground (arith, l.u64 r.view_num s1 h.view_num, l.u64 r.replica_id rest h.replica_id)

  pub load-save_view_change_info :
      (r : ViewChangeInfo) (rest : Text)
      → FitsViewChangeInfo r
      → load_view_change_info x (save_view_change_info x r rest) ≡ some (r, rest)
  unfolding load_view_change_info save_view_change_info
  load-save_view_change_info r rest h =
      let s5 = x.u64.save r.replica_id rest in
      let s4 = x.u64.save r.commit_num s5 in
      let s3 = x.u64.save r.op_num s4 in
      let s2 = x.u64.save r.old_view_num s3 in
      let s1 = (op_log x).save r.op_log s2 in
      ground (
        arith,
        l.u64 r.view_num s1 h.view_num,
        op_log-ReadsBack x l r.op_log s2 h.op_log,
        l.u64 r.old_view_num s3 h.old_view_num,
        l.u64 r.op_num s4 h.op_num,
        l.u64 r.commit_num s5 h.commit_num,
        l.u64 r.replica_id rest h.replica_id,
      )

  pub load-save_view_start_info :
      (r : ViewStartInfo) (rest : Text)
      → FitsViewStartInfo r
      → load_view_start_info x (save_view_start_info x r rest) ≡ some (r, rest)
  unfolding load_view_start_info save_view_start_info
  load-save_view_start_info r rest h =
      let s4 = x.u64.save r.replica_id rest in
      let s3 = x.u64.save r.commit_num s4 in
      let s2 = x.u64.save r.op_num s3 in
      let s1 = (op_log x).save r.op_log s2 in
      ground (
        arith,
        l.u64 r.view_num s1 h.view_num,
        op_log-ReadsBack x l r.op_log s2 h.op_log,
        l.u64 r.op_num s3 h.op_num,
        l.u64 r.commit_num s4 h.commit_num,
        l.u64 r.replica_id rest h.replica_id,
      )

  pub load-save_recovery_request :
      (r : RecoveryRequest) (rest : Text)
      → FitsRecoveryRequest r
      → load_recovery_request x (save_recovery_request x r rest) ≡ some (r, rest)
  unfolding load_recovery_request save_recovery_request
  load-save_recovery_request r rest h =
      let s2 = x.u64.save r.known_commit_num rest in
      let s1 = x.u64.save r.nonce s2 in
      ground (
        arith,
        l.u64 r.replica_id s1 h.replica_id,
        l.u64 r.nonce s2 h.nonce,
        l.u64 r.known_commit_num rest h.known_commit_num,
      )

  pub load-save_recovery_response :
      (r : RecoveryResponse) (rest : Text)
      → FitsRecoveryResponse r
      → load_recovery_response x (save_recovery_response x r rest) ≡ some (r, rest)
  unfolding load_recovery_response save_recovery_response
  load-save_recovery_response r rest h =
      let s6 = x.u64.save r.commit_num rest in
      let s5 = x.u64.save r.op_num s6 in
      let s4 = (op_log x).save r.op_log s5 in
      let s3 = x.bool.save r.is_primary s4 in
      let s2 = x.u64.save r.replica_id s3 in
      let s1 = x.u64.save r.nonce s2 in
      ground (
        arith,
        l.u64 r.view_num s1 h.view_num,
        l.u64 r.nonce s2 h.nonce,
        l.u64 r.replica_id s3 h.replica_id,
        l.bool r.is_primary s4 tt,
        op_log-ReadsBack x l r.op_log s5 h.op_log,
        l.u64 r.op_num s6 h.op_num,
        l.u64 r.commit_num rest h.commit_num,
      )

-- ===== src/Wire/Codec.antt =====
-- The `xdr_traits` of the structs and enums: `save` and `load` go through the fields in their order.
use meta_dr.Prelude.{
  ℕ, Option, none, some, [], ◌∷◌, Text, List, get_elem?, ◌==◌, nat_eq, if◌then◌else◌,
}
use meta_dr.Types.{
  KvPair, Error, key_already_present, key_not_present, key_has_no_parent, key_has_children,
  key_malformed, replica_not_primary, status_not_normal, OpType, update, delete, LogEntry, PrepInfo,
  CommitInfo, PrepResponse, ViewChangeRequest, ViewChangeInfo, ViewStartInfo, RecoveryRequest,
  RecoveryResponse,
}
use meta_dr.Api.Server.{Result, val, keys, err}
use meta_dr.Wire.{Archive, Xdr, Load, loaded, ◌>>=◌, max_size}

-- The values of an enum are numbered from 0. A number that names no value is not loaded.
unfoldable pub error_number : Error → ℕ
error_number Error.none = 0
error_number key_already_present = 1
error_number key_not_present = 2
error_number key_has_no_parent = 3
error_number key_has_children = 4
error_number key_malformed = 5
error_number replica_not_primary = 6
error_number Error.quorum_not_reached = 7
error_number status_not_normal = 8

abbrev pub errors : List Error
errors =
    Error.none ∷ key_already_present ∷ key_not_present ∷ key_has_no_parent ∷ key_has_children
    ∷ key_malformed ∷ replica_not_primary ∷ Error.quorum_not_reached ∷ status_not_normal ∷ []

unfoldable pub error_of : ℕ → Option Error
error_of n = get_elem? errors n

unfoldable pub op_type_number : OpType → ℕ
op_type_number update = 0
op_type_number delete = 1

unfoldable pub op_type_of : ℕ → Option OpType
op_type_of n = get_elem? (update ∷ delete ∷ []) n

-- The value that a number names.
abbrev pub named : {A : Type 0} → Option A → Load A
named o s = elim o [ none ↦ none | some a ↦ some (a, s) ]

module _ (x : Xdr) where
  -- `LongString`
  abbrev pub long_string : Archive Text
  long_string = x.string max_size

  unfoldable pub save_kv_pair : KvPair → Text → Text
  save_kv_pair kv rest = (x.string 512).save kv.key (long_string.save kv.val rest)

  unfoldable pub load_kv_pair : Load KvPair
  load_kv_pair = do
    key ← (x.string 512).load
    value ← long_string.load
    loaded (record { key = key; val = value })

  unfoldable pub save_log_entry : LogEntry → Text → Text
  unfolding save_kv_pair op_type_number
  save_log_entry e rest =
      save_kv_pair e.kv_pair
        (x.u32.save (op_type_number e.op_type) (x.u64.save e.op_num (x.bool.save e.committed rest)))

  unfoldable pub load_log_entry : Load LogEntry
  unfolding load_kv_pair op_type_of
  load_log_entry = do
    kv_pair ← load_kv_pair
    op_type ← x.u32.load
    op_type ← named (op_type_of op_type)
    op_num ← x.u64.load
    committed ← x.bool.load
    loaded (record { kv_pair = kv_pair; op_type = op_type; op_num = op_num; committed = committed })

  -- `OpLog`
  abbrev pub op_log : Archive (List LogEntry)
  op_log = x.array (record { save = save_log_entry; load = load_log_entry })

  unfoldable pub save_prep_info : PrepInfo → Text → Text
  unfolding save_kv_pair op_type_number
  save_prep_info r rest = x.u64.save r.view_num (
      save_kv_pair r.kv_pair (
        x.u64.save r.op_num (x.u32.save (op_type_number r.op_type) (x.u64.save r.commit_num rest))))

  unfoldable pub load_prep_info : Load PrepInfo
  unfolding load_kv_pair op_type_of
  load_prep_info = do
    view_num ← x.u64.load
    kv_pair ← load_kv_pair
    op_num ← x.u64.load
    op_type ← x.u32.load
    op_type ← named (op_type_of op_type)
    commit_num ← x.u64.load
    loaded (record {
      view_num = view_num;
      kv_pair = kv_pair;
      op_num = op_num;
      op_type = op_type;
      commit_num = commit_num;
    })

  unfoldable pub save_commit_info : CommitInfo → Text → Text
  save_commit_info r rest = x.u64.save r.view_num (x.u64.save r.commit_num rest)

  unfoldable pub load_commit_info : Load CommitInfo
  load_commit_info = do
    view_num ← x.u64.load
    commit_num ← x.u64.load
    loaded (record { view_num = view_num; commit_num = commit_num })

  unfoldable pub save_prep_response : PrepResponse → Text → Text
  save_prep_response r rest =
      x.u64.save r.view_num (x.u64.save r.op_num (x.u64.save r.replica_id rest))

  unfoldable pub load_prep_response : Load PrepResponse
  load_prep_response = do
    view_num ← x.u64.load
    op_num ← x.u64.load
    replica_id ← x.u64.load
    loaded (record { view_num = view_num; op_num = op_num; replica_id = replica_id })

  unfoldable pub save_view_change_request : ViewChangeRequest → Text → Text
  save_view_change_request r rest = x.u64.save r.view_num (x.u64.save r.replica_id rest)

  unfoldable pub load_view_change_request : Load ViewChangeRequest
  load_view_change_request = do
    view_num ← x.u64.load
    replica_id ← x.u64.load
    loaded (record { view_num = view_num; replica_id = replica_id })

  unfoldable pub save_view_change_info : ViewChangeInfo → Text → Text
  unfolding save_log_entry load_log_entry
  save_view_change_info r rest = x.u64.save r.view_num (
      op_log.save r.op_log (
        x.u64.save r.old_view_num
          (x.u64.save r.op_num (x.u64.save r.commit_num (x.u64.save r.replica_id rest)))))

  unfoldable pub load_view_change_info : Load ViewChangeInfo
  unfolding save_log_entry load_log_entry
  load_view_change_info = do
    view_num ← x.u64.load
    log ← op_log.load
    old_view_num ← x.u64.load
    op_num ← x.u64.load
    commit_num ← x.u64.load
    replica_id ← x.u64.load
    loaded (record {
      view_num = view_num;
      op_log = log;
      old_view_num = old_view_num;
      op_num = op_num;
      commit_num = commit_num;
      replica_id = replica_id;
    })

  unfoldable pub save_view_start_info : ViewStartInfo → Text → Text
  unfolding save_log_entry load_log_entry
  save_view_start_info r rest = x.u64.save r.view_num (
      op_log.save r.op_log
        (x.u64.save r.op_num (x.u64.save r.commit_num (x.u64.save r.replica_id rest))))

  unfoldable pub load_view_start_info : Load ViewStartInfo
  unfolding save_log_entry load_log_entry
  load_view_start_info = do
    view_num ← x.u64.load
    log ← op_log.load
    op_num ← x.u64.load
    commit_num ← x.u64.load
    replica_id ← x.u64.load
    loaded (record {
      view_num = view_num;
      op_log = log;
      op_num = op_num;
      commit_num = commit_num;
      replica_id = replica_id;
    })

  unfoldable pub save_recovery_request : RecoveryRequest → Text → Text
  save_recovery_request r rest =
      x.u64.save r.replica_id (x.u64.save r.nonce (x.u64.save r.known_commit_num rest))

  unfoldable pub load_recovery_request : Load RecoveryRequest
  load_recovery_request = do
    replica_id ← x.u64.load
    nonce ← x.u64.load
    known_commit_num ← x.u64.load
    loaded (record { replica_id = replica_id; nonce = nonce; known_commit_num = known_commit_num })

  unfoldable pub save_recovery_response : RecoveryResponse → Text → Text
  unfolding save_log_entry load_log_entry
  save_recovery_response r rest = x.u64.save r.view_num (
      x.u64.save r.nonce (
        x.u64.save r.replica_id (
          x.bool.save r.is_primary
            (op_log.save r.op_log (x.u64.save r.op_num (x.u64.save r.commit_num rest))))))

  unfoldable pub load_recovery_response : Load RecoveryResponse
  unfolding save_log_entry load_log_entry
  load_recovery_response = do
    view_num ← x.u64.load
    nonce ← x.u64.load
    replica_id ← x.u64.load
    is_primary ← x.bool.load
    log ← op_log.load
    op_num ← x.u64.load
    commit_num ← x.u64.load
    loaded (record {
      view_num = view_num;
      nonce = nonce;
      replica_id = replica_id;
      is_primary = is_primary;
      op_log = log;
      op_num = op_num;
      commit_num = commit_num;
    })

  -- The discriminant comes first. 1 and 2 stand for the first two arms, any other for an error.
  unfoldable pub save_result : Result → Text → Text
  unfolding error_number
  save_result (val v) rest = x.u32.save 1 (long_string.save v rest)
  save_result (keys ks) rest = x.u32.save 2 ((x.array long_string).save ks rest)
  save_result (err e) rest = x.u32.save 0 (x.u32.save (error_number e) rest)

  unfoldable pub load_arm : ℕ → Load Result
  unfolding error_of
  load_arm which =
      if which == 1
      then (do v ← long_string.load; loaded (val v))
      else if which == 2
      then (do ks ← (x.array long_string).load; loaded (keys ks))
      else (do e ← x.u32.load; e ← named (error_of e); loaded (err e))

  unfoldable pub load_result : Load Result
  unfolding load_arm
  load_result = do which ← x.u32.load; load_arm which

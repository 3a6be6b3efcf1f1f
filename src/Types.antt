-- ===== src/Types.antt =====
-- The data of the protocol: include/kvStore.x, server/vrTypes.x, server/vsReplication.x,
-- server/viewChange.x, server/recovery.x and the structs generated from them, and include/endPoint.h.
-- A 64-bit `unsigned hyper` is an ℕ; the places where it is incremented write out the wrap-around.
use meta_dr.Prelude.{ℕ, ◌^◌, Bool, true, false, List, ◌≡◌, ◌↔◌, arith, Text, Eq}

abbrev pub u64_mod : ℕ
u64_mod = 2 ^ 64

pub record EndPoint : Type 0 where
  pub ip : Text
  pub port : Text

pub record KvPair : Type 0 where
  pub key : Text
  pub val : Text

pub data Error : Type 0 where
  none key_already_present key_not_present key_has_no_parent key_has_children key_malformed : Error
  replica_not_primary quorum_not_reached status_not_normal : Error

pub data Status : Type 0 where
  normal view_change recovering : Status

pub data OpType : Type 0 where
  update delete : OpType

pub record LogEntry : Type 0 where
  pub kv_pair : KvPair
  pub op_type : OpType
  pub op_num : ℕ
  pub committed : Bool

pub record PrepInfo : Type 0 where
  pub view_num : ℕ
  pub kv_pair : KvPair
  pub op_num : ℕ
  pub op_type : OpType
  pub commit_num : ℕ

pub record CommitInfo : Type 0 where
  pub view_num : ℕ
  pub commit_num : ℕ

pub record PrepResponse : Type 0 where
  pub view_num : ℕ
  pub op_num : ℕ
  pub replica_id : ℕ

pub record ViewChangeRequest : Type 0 where
  pub view_num : ℕ
  pub replica_id : ℕ

pub record ViewChangeInfo : Type 0 where
  pub view_num : ℕ
  pub op_log : List LogEntry
  pub old_view_num : ℕ
  pub op_num : ℕ
  pub commit_num : ℕ
  pub replica_id : ℕ

pub record ViewStartInfo : Type 0 where
  pub view_num : ℕ
  pub op_log : List LogEntry
  pub op_num : ℕ
  pub commit_num : ℕ
  pub replica_id : ℕ

pub record RecoveryRequest : Type 0 where
  pub replica_id : ℕ
  pub nonce : ℕ
  pub known_commit_num : ℕ

pub record RecoveryResponse : Type 0 where
  pub view_num : ℕ
  pub nonce : ℕ
  pub replica_id : ℕ
  pub is_primary : Bool
  pub op_log : List LogEntry
  pub op_num : ℕ
  pub commit_num : ℕ

-- The calls of the three replica-to-replica programs, with their arguments.
pub data Message : Type 0 where
  prepare : PrepInfo → Message
  prepare_ok : PrepResponse → Message
  commit : CommitInfo → Message
  start_view_change : ViewChangeRequest → Message
  do_view_change : ViewChangeInfo → Message
  start_view : ViewStartInfo → Message
  recovery_request : RecoveryRequest → Message
  recovery_response : RecoveryResponse → Message

abbrev pub status_beq : Status → Status → Bool
status_beq normal normal = true
status_beq view_change view_change = true
status_beq recovering recovering = true
status_beq _ _ = false

pub status_beq_iff : (a b : Status) → (status_beq a b ≡ true) ↔ (a ≡ b)
status_beq_iff a b = ground arith

instance abbrev pub status_eq : Eq Status
status_eq = record { beq = status_beq; beq_iff = status_beq_iff }

-- `LogEntry{}` and `KvPair{}`
abbrev pub default_entry : LogEntry
default_entry = record {
  kv_pair = record { key = List.[]; val = List.[] };
  op_type = update;
  op_num = 0;
  committed = false;
}

-- ===== src/Wire/Laws.antt =====
-- Every struct is read back from its bytes.
use meta_dr.Prelude.{◌^◌, ◌<◌, ◌≤◌, ◌≡◌, refl, some, List, Text, length, All, arith}
use meta_dr.Types.{KvPair, Error, OpType, update, delete, LogEntry}
use meta_dr.Api.Server.{Result, val, keys, err}
use meta_dr.Wire.{Xdr, IsXdr, ReadsBack, max_size}
use meta_dr.Wire.Codec.{
  error_number, error_of, op_type_number, op_type_of, long_string, op_log, save_kv_pair,
  load_kv_pair, save_log_entry, load_log_entry, load_arm, save_result, load_result,
}

-- The bounds of the types.
abbrev pub FitsPair : KvPair → Type 0
FitsPair kv = (length kv.key ≤ 512) × (length kv.val ≤ max_size)

abbrev pub FitsEntry : LogEntry → Type 0
FitsEntry e = FitsPair e.kv_pair × (e.op_num < 2 ^ 64)

abbrev pub FitsLog : List LogEntry → Type 0
FitsLog es = (length es ≤ max_size) × All FitsEntry es

pub error_number-of : (e : Error) → error_of (error_number e) ≡ some e
unfolding error_number error_of
error_number-of e = ground arith

pub op_type_number-of : (t : OpType) → op_type_of (op_type_number t) ≡ some t
unfolding op_type_number op_type_of
op_type_number-of update = refl
op_type_number-of delete = refl

pub op_type_bound : (t : OpType) → op_type_number t < 2 ^ 32
unfolding op_type_number
op_type_bound update = omega arith
op_type_bound delete = omega arith

pub error_bound : (e : Error) → error_number e < 2 ^ 32
unfolding error_number
error_bound e = ground arith

abbrev pub FitsResult : Result → Type 0
FitsResult r = elim r [
  | val v ↦ length v ≤ max_size
  | keys ks ↦ (length ks ≤ max_size) × All (λ k. length k ≤ max_size) ks
  | err e ↦ Unit
]

module _ (x : Xdr) (l : IsXdr x) where
  pub load-save_kv_pair :
      (kv : KvPair) (rest : Text)
      → FitsPair kv
      → load_kv_pair x (save_kv_pair x kv rest) ≡ some (kv, rest)
  unfolding load_kv_pair save_kv_pair
  load-save_kv_pair kv rest h = ground (
    arith,
    l.string 512 (omega arith) kv.key ((long_string x).save kv.val rest),
    l.string max_size (omega arith) kv.val rest,
  )

  load-save_log_entry :
      (e : LogEntry) (rest : Text)
      → FitsEntry e
      → load_log_entry x (save_log_entry x e rest) ≡ some (e, rest)
  unfolding load_log_entry save_log_entry
  load-save_log_entry e rest h =
      let s3 = x.bool.save e.committed rest in
      let s2 = x.u64.save e.op_num s3 in
      let s1 = x.u32.save (op_type_number e.op_type) s2 in
      ground (
        arith,
        load-save_kv_pair e.kv_pair s1 h.0,
        l.u32 (op_type_number e.op_type) s2 (op_type_bound e.op_type),
        op_type_number-of e.op_type,
        l.u64 e.op_num s3 h.1,
        l.bool e.committed rest tt,
      )

  pub op_log-ReadsBack : ReadsBack (op_log x) FitsLog
  op_log-ReadsBack =
      l.array (record { save = save_log_entry x; load = load_log_entry x }) FitsEntry
        load-save_log_entry

  pub load-save_result :
      (r : Result) (rest : Text)
      → FitsResult r
      → load_result x (save_result x r rest) ≡ some (r, rest)
  unfolding load_result save_result load_arm
  load-save_result (val v) rest h = ground (
    arith,
    l.u32 1 ((long_string x).save v rest) (omega arith),
    l.string max_size (omega arith) v rest h,
  )
  load-save_result (keys ks) rest h =
      let keys_back =
        l.array (long_string x) (λ k. length k ≤ max_size) (l.string max_size (omega arith)) in
      ground
        (arith, l.u32 2 ((x.array (long_string x)).save ks rest) (omega arith), keys_back ks rest h)
  load-save_result (err e) rest h = ground (
    arith,
    l.u32 0 (x.u32.save (error_number e) rest) (omega arith),
    l.u32 (error_number e) rest (error_bound e),
    error_number-of e,
  )

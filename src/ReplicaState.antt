-- ===== src/ReplicaState.antt =====
-- server/vsReplicaState.{h,cc}: the numbers that a replica keeps. Every method locks `rsMutex`, so
-- each is one step; the getters are the fields. A time is a count of clock ticks.
use meta_dr.Prelude.{ℕ, suc, ◌+◌, ◌%◌, ◌<◌, ◌≡◌, arith}
use meta_dr.Types.{Status, normal, u64_mod}

pub record ReplicaState : Type 0 where
  pub pri_id : ℕ
  pub status : Status
  pub view_num : ℕ
  pub op_num : ℕ
  pub commit_num : ℕ
  pub last_commit_time : ℕ

-- The default constructor, with the time at which it runs.
abbrev pub initial : ℕ → ReplicaState
initial now = record {
  pri_id = 0;
  status = normal;
  view_num = 0;
  op_num = 0;
  commit_num = 0;
  last_commit_time = now;
}

abbrev pub set_pri_id : ℕ → ReplicaState → ReplicaState
set_pri_id id s = record s { pri_id = id }

abbrev pub set_status : Status → ReplicaState → ReplicaState
set_status status s = record s { status = status }

abbrev pub set_view_num : ℕ → ReplicaState → ReplicaState
set_view_num n s = record s { view_num = n }

abbrev pub set_op_num : ℕ → ReplicaState → ReplicaState
set_op_num n s = record s { op_num = n }

abbrev pub set_commit_num : ℕ → ReplicaState → ReplicaState
set_commit_num n s = record s { commit_num = n }

abbrev pub set_last_commit_time : ℕ → ReplicaState → ReplicaState
set_last_commit_time t s = record s { last_commit_time = t }

-- `++` on a 64-bit unsigned number.
unfoldable pub incr : ℕ → ℕ
incr n = (n + 1) % u64_mod

pub incr_lem : (n : ℕ) → suc n < u64_mod → incr n ≡ suc n
unfolding incr
incr_lem n h = omega arith

abbrev pub increment_view_num : ReplicaState → ℕ × ReplicaState
increment_view_num s = (incr s.view_num, record s { view_num = incr s.view_num })

abbrev pub increment_op_num : ReplicaState → ℕ × ReplicaState
increment_op_num s = (incr s.op_num, record s { op_num = incr s.op_num })

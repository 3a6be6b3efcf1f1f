-- ===== src/Examples.antt =====
-- Replicas of a cluster of three, at which the theorems are applied.
pub mod Log
pub mod Replication
pub mod Store
pub mod Table
pub mod Views
pub mod Restart
pub mod Group
pub mod Setup
pub mod Session
pub mod Bytes
pub mod Links
pub mod Listing
use meta_dr.Prelude.{
  ℕ, zero, suc, ◌+◌, ◌≡◌, refl, true, false, List, [], ◌∷◌, ◌++◌, arith, Text, codes, nat_eq, ltb,
  leb, ◌&&◌,
}
use meta_dr.Prelude.Dict.{Dict, lookup, insert, has}
use meta_dr.Types.{EndPoint, KvPair, LogEntry, PrepInfo, OpType, update, delete, normal}
use meta_dr.OpLog
use meta_dr.Node.{Node, Net}
use meta_dr.Replicator.{Surroundings, no_timeout, timeout}
use meta_dr.Replicator.Replay.{replay, run_number}
use meta_dr.Replicator.Core.{SameCore, appended, appended-IsConsistent, prepared_entry}
use meta_dr.Replicator.Consistent.{IsConsistent, after_commit, after_commit-IsConsistent}
use meta_dr.Replicator.Primary.{IsQuiet}

abbrev pub text_a : Text
text_a = codes "/a"

abbrev pub text_ab : Text
text_ab = codes "/a/b"

abbrev pub text_x : Text
text_x = codes "x"

abbrev pub address : Text → EndPoint
address port = record { ip = codes "127.0.0.1"; port = port }

abbrev pub codes_primary : EndPoint
codes_primary = address (codes "8080")

abbrev pub others : ℕ → Dict ℕ EndPoint
others zero = (1, address (codes "8081")) ∷ (2, address (codes "8082")) ∷ []
others (suc zero) = (0, address (codes "8080")) ∷ (2, address (codes "8082")) ∷ []
others _ = (0, address (codes "8080")) ∷ (1, address (codes "8081")) ∷ []

-- A replica that has just been started, with replica 0 as primary.
abbrev pub fresh : ℕ → Node
fresh id = record {
  id = id;
  replicas = others id;
  log = OpLog.empty;
  rs = record {
    pri_id = 0;
    status = normal;
    view_num = 0;
    op_num = 0;
    commit_num = 0;
    last_commit_time = 0;
  };
  kv = [];
  update_cb = true;
  delete_cb = true;
  started = true;
  prep_req_q = [];
  wait_map = [];
  view = record {
    view_start_req_map = [];
    do_view_change_map = [];
    view_change_info_map = [];
    start_view_map = [];
    view_start_info_map = [];
  };
  recovery = record {
    recovery_req_q = [];
    wait_map = [];
    recovery_resp_map = [];
    resp_view_cnt = [];
    received_resp_from_pri = false;
    serving = true;
  };
  sent = [];
  notified = [];
}

pub fresh-IsConsistent : (id : ℕ) → IsConsistent (fresh id)
unfolding has lookup replay
fresh-IsConsistent id = record {
  logged = λ i. ground arith;
  flagged = λ i e h. cc;
  behind = omega arith;
  applied = refl;
  callbacks = (refl, refl);
}

-- The operation `i`, which sets the key `/a`.
abbrev pub prep : ℕ → PrepInfo
prep i = record {
  view_num = 0;
  kv_pair = record { key = text_a; val = text_x };
  op_num = i;
  op_type = update;
  commit_num = 0;
}

-- The entry of that operation, committed.
abbrev pub kept : ℕ → LogEntry
kept i = record (prepared_entry (prep i)) { committed = true }

-- A replica that has logged two operations and committed none.
abbrev pub lagging : ℕ → Node
lagging id = appended (prep 2) (appended (prep 1) (fresh id))

pub lagging-IsConsistent : (id : ℕ) → IsConsistent (lagging id)
lagging-IsConsistent id =
    appended-IsConsistent (prep 2) (appended (prep 1) (fresh id))
      (appended-IsConsistent (prep 1) (fresh id) (fresh-IsConsistent id) refl) refl

-- A replica that has logged and committed one operation.
abbrev pub settled : ℕ → Node
settled id = after_commit (prepared_entry (prep 1)) (appended (prep 1) (fresh id))

pub settled-IsConsistent : (id : ℕ) → IsConsistent (settled id)
unfolding OpLog.push_entry lookup insert
settled-IsConsistent id =
    after_commit-IsConsistent (prepared_entry (prep 1)) (appended (prep 1) (fresh id))
      (appended-IsConsistent (prep 1) (fresh id) (fresh-IsConsistent id) refl) (omega arith) refl

abbrev pub net_up : Net
net_up ep message try_cnt = true

-- Nothing else happens while an operation waits, which then is woken.
abbrev pub calm : Surroundings
calm = record { net = net_up; during_calls = λ n. n; during_wait = λ n. n; wake = no_timeout }

abbrev pub late : Surroundings
late = record { net = net_up; during_calls = λ n. n; during_wait = λ n. n; wake = timeout }

SameCore-refl : (n : Node) → SameCore n n
SameCore-refl n = record {
  log = refl;
  kv = refl;
  op_num = refl;
  commit_num = refl;
  update_cb = refl;
  delete_cb = refl;
}

pub calm-IsQuiet : IsQuiet calm
calm-IsQuiet = record { calls = SameCore-refl; wait = SameCore-refl }

pub late-IsQuiet : IsQuiet late
late-IsQuiet = record { calls = SameCore-refl; wait = SameCore-refl }

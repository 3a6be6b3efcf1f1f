-- ===== src/Replicator/Consistent.antt =====
-- The invariant of a replica in normal operation: its log holds the operations 1 to `op_num`, those up
-- to `commit_num` are the committed ones, and its map is their replay.
use meta_dr.Prelude.{ℕ, suc, ◌≤◌, ◌<◌, ◌≡◌, true, ◌&&◌, some, arith, nat_eq, text_eq, ltb, leb}
use meta_dr.Prelude.Dict.{lookup, insert, has, lookup-insert}
use meta_dr.Prelude.Exec.{done}
use meta_dr.Types.{LogEntry, status_eq}
use meta_dr.OpLog.{has_entry, get_log_entry, commit}
use meta_dr.MemStore.{apply_entry}
use meta_dr.Node.{Node}
use meta_dr.Replicator.Handlers.{commit_next}
use meta_dr.Replicator.Replay.{replay, run_number, run_entry, replay-commit}

pub record IsConsistent (n : Node) : Type 0 where
  pub logged : (i : ℕ) → has i n.log.op_log ≡ (ltb 0 i && leb i n.rs.op_num)
  pub flagged :
      (i : ℕ) (e : LogEntry) → lookup i n.log.op_log ≡ some e → e.committed ≡ leb i n.rs.commit_num
  pub behind : n.rs.commit_num ≤ n.rs.op_num
  pub applied : n.kv ≡ replay n.log.op_log n.rs.commit_num
  pub callbacks : (n.update_cb ≡ true) × (n.delete_cb ≡ true)

-- With the callbacks registered, applying an entry runs its operation on the map.
pub apply_entry_lem :
    (e : LogEntry) (n : Node)
    → n.update_cb ≡ true
    → n.delete_cb ≡ true
    → apply_entry e n ≡ (done tt, record n { kv = run_entry e n.kv })
unfolding apply_entry run_entry
apply_entry_lem e n p q = ground arith

-- The node after its next operation has been committed.
abbrev pub after_commit : LogEntry → Node → Node
after_commit e n =
    let next = suc n.rs.commit_num in
    record n {
      rs = record n.rs { commit_num = next };
      log = record n.log { op_log = insert next (record e { committed = true }) n.log.op_log };
      kv = run_entry e n.kv;
    }

pub commit_next_lem :
    (e : LogEntry) (n : Node)
    → n.update_cb ≡ true
    → n.delete_cb ≡ true
    → lookup (suc n.rs.commit_num) n.log.op_log ≡ some e
    → commit_next (suc n.rs.commit_num) n ≡ (done tt, after_commit e n)
unfolding commit_next has_entry has commit get_log_entry run_entry apply_entry
commit_next_lem e n p q h = ground (
  arith,
  lookup-insert (suc n.rs.commit_num) (suc n.rs.commit_num) (record e { committed = true })
      n.log.op_log,
)

pub after_commit-IsConsistent :
    (e : LogEntry) (n : Node)
    → IsConsistent n
    → n.rs.commit_num < n.rs.op_num
    → lookup (suc n.rs.commit_num) n.log.op_log ≡ some e
    → IsConsistent (after_commit e n)
unfolding has replay run_number run_entry
after_commit-IsConsistent e n c lt h = record {
  logged = λ i. ground (
    arith,
    c.logged i,
    lookup-insert (suc n.rs.commit_num) i (record e { committed = true }) n.log.op_log,
  );
  flagged = λ i d p. ground (
    arith,
    c.flagged i d,
    lookup-insert (suc n.rs.commit_num) i (record e { committed = true }) n.log.op_log,
  );
  behind = lt;
  applied = ground (
    arith,
    c.applied,
    replay-commit n.log.op_log (suc n.rs.commit_num) e n.rs.commit_num h,
    lookup-insert (suc n.rs.commit_num) (suc n.rs.commit_num) (record e { committed = true })
        n.log.op_log,
  );
  callbacks = c.callbacks;
}

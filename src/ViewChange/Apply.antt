-- ===== src/ViewChange/Apply.antt =====
-- The loop of `updateNewView` over the log, and what it leaves out.
use meta_dr.Prelude.{
  ℕ, zero, suc, ◌+◌, ◌-◌, ◌≤◌, ◌<◌, ◌≡◌, refl, ◌∙◌, true, false, ◌&&◌, none, some, arith, nat_eq,
  if◌then◌else◌, ltb, leb, Text, Option-cases, inl, inr,
}
use meta_dr.Prelude.Dict.{Dict, lookup, has}
use meta_dr.Prelude.Exec.{done, abort}
use meta_dr.Types.{LogEntry, normal, u64_mod}
use meta_dr.ReplicaState.{incr_lem}
use meta_dr.OpLog.{OpLogHandler, get_log_entry, log_size}
use meta_dr.Node.{Node}
use meta_dr.Replicator.Replay.{run_entry}
use meta_dr.Replicator.Consistent.{apply_entry_lem}
use meta_dr.ViewChange.Update.{apply_committed, finish_update}

-- The committed ones of the entries `i`, `i + 1`, …, `i + k - 1`, in this order.
unfoldable pub run_committed : Dict ℕ LogEntry → ℕ → ℕ → Dict Text Text → Dict Text Text
run_committed log i zero kv = kv
run_committed log i (suc k) kv =
    run_committed log (i + 1) k
      (elim (lookup i log) [ none ↦ kv | some e ↦ if e.committed then run_entry e kv else kv ])

pub apply_committed_lem :
    (i k : ℕ) (n : Node)
    → n.update_cb ≡ true
    → n.delete_cb ≡ true
    → ((j : ℕ) → i ≤ j → j < i + k → has j n.log.op_log ≡ true)
    → apply_committed i k n ≡ (done tt, record n { kv = run_committed n.log.op_log i k n.kv })
unfolding apply_committed run_committed get_log_entry has
apply_committed_lem i zero n u d h = refl
apply_committed_lem i (suc k) n u d h = elim (Option-cases (lookup i n.log.op_log)) [
  | inl q ↦ ground (arith, h i (omega arith) (omega arith))
  | inr (e, q) ↦ ground (
    arith,
    apply_entry_lem e n u d,
    apply_committed_lem (i + 1) k n u d (λ j a b. h j (omega arith) (omega arith)),
    apply_committed_lem (i + 1) k (record n { kv = run_entry e n.kv }) u d
        (λ j a b. h j (omega arith) (omega arith)),
  )
]

-- The log of the new view holds the operations 1 to `size`, and the operation that this replica has
-- committed last is there with its flag.
pub record Carries (log : OpLogHandler) (old_commit_num size : ℕ) : Type 0 where
  pub numbers : (i : ℕ) → has i log.op_log ≡ (ltb 0 i && leb i size)
  pub sized : log_size log ≡ size
  pub old_entry : LogEntry
  pub found : lookup old_commit_num log.op_log ≡ some old_entry
  pub committed : old_entry.committed ≡ true
  pub fits : suc old_commit_num < u64_mod

pub finish_update_lem :
    (now c size : ℕ) (n : Node)
    → n.update_cb ≡ true
    → n.delete_cb ≡ true
    → Carries n.log c size
    → finish_update now c n ≡ (
      done tt,
      record n {
        kv = run_committed n.log.op_log (suc c) (size - suc c) n.kv;
        rs = record n.rs { last_commit_time = now; status = normal };
      },
    )
unfolding finish_update get_log_entry
finish_update_lem now c size n u d k = simp (
  k.found,
  k.committed,
  incr_lem c k.fits,
  k.sized,
  apply_committed_lem (suc c) (size - suc c) n u d (λ j a b. k.numbers j ∙ ground arith),
)

-- A replica that has committed nothing cannot enter a new view: its assertion looks up the operation
-- 0, which no log has.
pub finish_update_zero :
    (now : ℕ) (n : Node) → has 0 n.log.op_log ≡ false → (finish_update now 0 n).0 ≡ abort
unfolding finish_update get_log_entry has
finish_update_zero now n h = ground arith

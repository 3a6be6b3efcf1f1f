-- ===== src/KvStore/Contract.antt =====
-- What `KvMemStore::set` and `KvMemStore::remove` of the primary promise, and what a timed-out
-- operation breaks.
use meta_dr.Prelude.{
  suc, ◌≡◌, refl, sym, ap, ◌∙◌, Bool, true, some, arith, Text, text_eq, nat_eq, inl, inr, ◌⊎◌,
}
use mathlib.Core.Path.{subst}
use meta_dr.Prelude.Dict.{Dict, lookup, insert, erase, lookup-insert}
use meta_dr.Prelude.Exec.{Outcome, done, throw, quorum_not_reached}
use meta_dr.Types.{KvPair, PrepInfo, LogEntry}
use meta_dr.MemStore.{set_int, remove_int}
use meta_dr.Node.{Node}
use meta_dr.Replicator.{Surroundings, timeout}
use meta_dr.Replicator.Replay.{replay, run_entry, run_number, replay-insert_later, replay-commit}
use meta_dr.Replicator.Consistent.{IsConsistent}
use meta_dr.Replicator.Core.{
  SameCore, SameCore-IsConsistent, prepared_entry, appended, appended-IsConsistent,
}
use meta_dr.Replicator.Primary.{IsQuiet, Leads, replicated}
use meta_dr.KvStore.{set, remove}
use meta_dr.KvStore.Laws.{
  update_prep, delete_prep, with_kv, replicated-IsConsistent, set-ends, remove-ends,
}

-- An operation has been committed, and the map is `kv`.
pub record Committed (n m : Node) (kv : Dict Text Text) : Type 0 where
  pub consistent : IsConsistent m
  pub map : m.kv ≡ kv
  pub op_num : m.rs.op_num ≡ suc n.rs.op_num
  pub commit_num : m.rs.commit_num ≡ suc n.rs.op_num

-- An operation has been logged, and is neither committed nor applied.
pub record Pending (n m : Node) : Type 0 where
  pub consistent : IsConsistent m
  pub map : m.kv ≡ n.kv
  pub op_num : m.rs.op_num ≡ suc n.rs.op_num
  pub commit_num : m.rs.commit_num ≡ n.rs.commit_num

Pending-appended :
    (p : PrepInfo) (n m : Node)
    → IsConsistent n
    → p.op_num ≡ suc n.rs.op_num
    → SameCore (appended p n) m
    → Pending n m
Pending-appended p n m c q s = record {
  consistent = SameCore-IsConsistent s (appended-IsConsistent p n c q);
  map = s.kv;
  op_num = s.op_num ∙ q;
  commit_num = s.commit_num;
}

-- On a consistent primary that runs in normal status and has committed all it has logged, while the
-- other threads leave its log, numbers and map alone, `set` either returns with the pair stored and
-- one more operation logged and committed, or throws `QuorumNotReached` with the operation logged
-- only and the map as it was, and this only when the wait has timed out; no assertion fails, and
-- the primary is consistent in both cases.
pub set-Committed :
    (env : Surroundings) (key val : Text) (n : Node)
    → IsQuiet env
    → Leads n
    → IsConsistent n
    → n.rs.commit_num ≡ n.rs.op_num
    → ((m : Node) × (b : Bool) × (set env key val n ≡ (done b, m))
        × Committed n m (insert key val n.kv))
      ⊎ ((m : Node) × (set env key val n ≡ (throw quorum_not_reached, m))
          × (env.wake ≡ timeout)
          × Pending n m)
unfolding run_entry set_int
set-Committed env key val n quiet lead c caught = elim (set-ends env n quiet lead key val) [
  | inl (m, b, run, s) ↦ inl (
    m,
    b,
    run,
    record {
      consistent = replicated-IsConsistent (update_prep key val n) n m c caught refl s;
      map = s.kv;
      op_num = s.op_num;
      commit_num = s.commit_num;
    },
  )
  | inr (m, run, late, s) ↦
      inr (m, run, late, Pending-appended (update_prep key val n) n m c refl s)
]

-- On a consistent primary that runs in normal status and has committed all it has logged, while the
-- other threads leave its log, numbers and map alone, `remove` of a key that is there either returns
-- with the key erased and one more operation logged and committed, or throws `QuorumNotReached`,
-- after a timeout, with the operation logged only and the map as it was; the primary is consistent
-- in both cases.
pub remove-Committed :
    (env : Surroundings) (key val : Text) (n : Node)
    → IsQuiet env
    → Leads n
    → IsConsistent n
    → n.rs.commit_num ≡ n.rs.op_num
    → lookup key n.kv ≡ some val
    → ((m : Node) × (remove env key n ≡ (done tt, m)) × Committed n m (erase key n.kv))
      ⊎ ((m : Node) × (remove env key n ≡ (throw quorum_not_reached, m))
          × (env.wake ≡ timeout)
          × Pending n m)
remove-Committed env key val n quiet lead c caught there =
    elim (remove-ends env n quiet lead key val there) [
      | inl (m, run, s) ↦ inl (
        m,
        run,
        record {
          consistent = replicated-IsConsistent (delete_prep key n) n m c caught refl (rw erased s);
          map = s.kv;
          op_num = s.op_num;
          commit_num = s.commit_num;
        },
      )
      | inr (m, run, late, s) ↦
          inr (m, run, late, Pending-appended (delete_prep key n) n m c refl s)
    ]
  where
    erased : run_entry (prepared_entry (delete_prep key n)) n.kv ≡ erase key n.kv
    erased = unfold run_entry remove_int in rw (there, remove_int)

-- What the code up to the new commit number does, over one pending operation `e`.
replay-pending :
    (kv : KvPair) (n : Node) (e : LogEntry)
    → IsConsistent n
    → n.rs.op_num ≡ suc n.rs.commit_num
    → lookup n.rs.op_num n.log.op_log ≡ some e
    → replay (replicated (update_prep kv.key kv.val n) n).log.op_log (suc n.rs.op_num)
      ≡ insert kv.key kv.val (run_entry e n.kv)
unfolding replay run_number run_entry set_int
replay-pending kv n e c one h =
    let d = prepared_entry (update_prep kv.key kv.val n) in
    let k = suc n.rs.op_num in
    let both = insert k d n.log.op_log in
    ground (
      arith,
      c.applied,
      replay-commit both k d n.rs.op_num,
      replay-insert_later n.log.op_log k d n.rs.op_num,
      lookup-insert k k d n.log.op_log,
      lookup-insert k k (record d { committed = true }) both,
    )

set-core :
    (env : Surroundings) (key val : Text) (n m : Node) (b : Bool)
    → IsQuiet env
    → Leads n
    → set env key val n ≡ (done b, m)
    → SameCore (with_kv (insert key val n.kv) (replicated (update_prep key val n) n)) m
set-core env key val n m b quiet lead run = elim (set-ends env n quiet lead key val) [
  | inl (m', b', run', s) ↦
      subst (SameCore (with_kv (insert key val n.kv) (replicated (update_prep key val n) n)))
        (ap (λ (r : Outcome Bool × Node). r.1) (sym run' ∙ run)) s
  | inr (m', run', _, s) ↦ absurd (throws (ap (λ (r : Outcome Bool × Node). r.0) (sym run' ∙ run)))
]
  where
    throws : ◌≡◌ {A = Outcome Bool} (throw quorum_not_reached) (done b) → ⊥
    throws q = cc

-- An operation that has timed out is skipped by the next one that succeeds: on a consistent primary
-- with exactly one logged and uncommitted operation, a `set` that returns raises the commit number
-- over that operation and applies its own pair alone to the map, while the operations up to the new
-- commit number, which are what a backup applies, put the pair on top of the skipped operation.
pub set_skips_pending :
    (env : Surroundings) (key val : Text) (n m : Node) (b : Bool) (e : LogEntry)
    → IsQuiet env
    → Leads n
    → IsConsistent n
    → n.rs.op_num ≡ suc n.rs.commit_num
    → lookup n.rs.op_num n.log.op_log ≡ some e
    → set env key val n ≡ (done b, m)
    → (m.rs.commit_num ≡ suc n.rs.op_num)
      × (m.kv ≡ insert key val n.kv)
      × (replay m.log.op_log m.rs.commit_num ≡ insert key val (run_entry e n.kv))
set_skips_pending env key val n m b e quiet lead c one h run =
    let s = set-core env key val n m b quiet lead run in
    (
      s.commit_num,
      s.kv,
      rw (s.commit_num, s.log) (replay-pending (record { key = key; val = val }) n e c one h),
    )

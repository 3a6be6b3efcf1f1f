-- ===== src/Replicator/Commit.antt =====
-- `processCommit` on a consistent replica.
use meta_dr.Prelude.{
  ℕ, suc, ◌≤◌, ◌<◌, ◌≡◌, refl, sym, ap, ◌∙◌, ◌&&◌, some, arith, nat_eq, if◌then◌else◌, ltb,
  Option-cases, inl, inr, ◌⊎◌,
}
use native.Mathlib.Decide.{dec_lt}
use meta_dr.Prelude.Dict.{lookup, has}
use meta_dr.Prelude.Exec.{done}
use meta_dr.Types.{LogEntry, normal, status_eq, CommitInfo, u64_mod}
use meta_dr.ReplicaState.{incr_lem}
use meta_dr.OpLog.{has_entry, get_log_entry}
use meta_dr.Node.{Node}
use meta_dr.Replicator.Handlers.{check_committed, commit_next, process_commit}
use meta_dr.Replicator.Replay.{replay, replay-commit}
use meta_dr.Replicator.Consistent.{
  IsConsistent, after_commit, after_commit-IsConsistent, commit_next_lem,
}

-- The replica after a commit message has set the time of the last commit.
abbrev pub touch : ℕ → Node → Node
touch now n = record n { rs = record n.rs { last_commit_time = now } }

-- The messages of the replica's own view reach a replica in normal status.
pub record Listens (n : Node) (c : CommitInfo) : Type 0 where
  pub normal_status : n.rs.status ≡ normal
  pub same_view : c.view_num ≡ n.rs.view_num
  pub fits : suc n.rs.op_num < u64_mod

touch-IsConsistent : (now : ℕ) (n : Node) → IsConsistent n → IsConsistent (touch now n)
touch-IsConsistent now n c = record {
  logged = c.logged;
  flagged = c.flagged;
  behind = c.behind;
  applied = c.applied;
  callbacks = c.callbacks;
}

-- The entry that is committed next.
pub next_entry :
    (n : Node)
    → IsConsistent n
    → n.rs.commit_num < n.rs.op_num
    → (e : LogEntry) × (lookup (suc n.rs.commit_num) n.log.op_log ≡ some e)
unfolding has
next_entry n c lt = elim (Option-cases (lookup (suc n.rs.commit_num) n.log.op_log)) [
  | inl q ↦ absurd (ground (arith, c.logged (suc n.rs.commit_num)))
  | inr found ↦ found
]

check_committed_lem : (k : ℕ) (n : Node) → IsConsistent n → check_committed k n ≡ (done tt, n)
unfolding check_committed get_log_entry has
check_committed_lem k n c = elim (Option-cases (lookup k n.log.op_log)) [
  | inl q ↦ ground (arith, c.logged k, c.behind)
  | inr (e, q) ↦ ground (arith, c.flagged k e q)
]

module _ (now : ℕ) (c : CommitInfo) (n : Node) (ok : IsConsistent n) (l : Listens n c) where
  pub process_commit-next :
      (e : LogEntry)
      → n.rs.commit_num < c.commit_num
      → lookup (suc n.rs.commit_num) n.log.op_log ≡ some e
      → process_commit now c n ≡ (done tt, after_commit e (touch now n))
  unfolding process_commit
  process_commit-next e lt h = ground (
    arith,
    l.normal_status,
    l.same_view,
    incr_lem n.rs.commit_num,
    check_committed_lem c.commit_num (touch now n) (touch-IsConsistent now n ok),
    commit_next_lem e (touch now n) ok.callbacks.0 ok.callbacks.1 h,
    l.fits,
    ok.behind,
  )

  pub process_commit-idle :
      (c.commit_num ≤ n.rs.commit_num) ⊎ (n.rs.commit_num ≡ n.rs.op_num)
      → process_commit now c n ≡ (done tt, touch now n)
  unfolding process_commit commit_next has_entry
  process_commit-idle h = ground (
    arith,
    l.normal_status,
    l.same_view,
    incr_lem n.rs.commit_num,
    check_committed_lem c.commit_num (touch now n) (touch-IsConsistent now n ok),
    l.fits,
    ok.behind,
    ok.logged (suc n.rs.commit_num),
  )

-- The commit number after one message.
abbrev pub next_commit_num : ℕ → Node → ℕ
next_commit_num announced n =
    if ltb n.rs.commit_num announced && ltb n.rs.commit_num n.rs.op_num
    then suc n.rs.commit_num
    else n.rs.commit_num

-- What a commit message leaves of the node `n`.
pub record Committed (n n' : Node) (commit_num : ℕ) : Type 0 where
  pub consistent : IsConsistent n'
  pub number : n'.rs.commit_num ≡ commit_num
  pub kv : n'.kv ≡ replay n.log.op_log commit_num
  pub same_log : (k : ℕ) → replay n'.log.op_log k ≡ replay n.log.op_log k
  pub same_op_num : n'.rs.op_num ≡ n.rs.op_num
  pub same_view_num : n'.rs.view_num ≡ n.rs.view_num
  pub same_status : n'.rs.status ≡ n.rs.status
  pub same_queue : n'.prep_req_q ≡ n.prep_req_q

pub Committed-after_commit :
    (now m : ℕ) (e : LogEntry) (n : Node)
    → IsConsistent n
    → n.rs.commit_num < n.rs.op_num
    → lookup (suc n.rs.commit_num) n.log.op_log ≡ some e
    → m ≡ suc n.rs.commit_num
    → Committed n (after_commit e (touch now n)) m
Committed-after_commit now m e n ok lt h q =
    let same = λ (k : ℕ). replay-commit n.log.op_log (suc n.rs.commit_num) e k h in
    let ok' = after_commit-IsConsistent e (touch now n) (touch-IsConsistent now n ok) lt h in
    record {
      consistent = ok';
      number = sym q;
      kv = ok'.applied ∙ same (suc n.rs.commit_num) ∙ ap (replay n.log.op_log) (sym q);
      same_log = same;
      same_op_num = refl;
      same_view_num = refl;
      same_status = refl;
      same_queue = refl;
    }

Committed-touch :
    (now m : ℕ) (n : Node) → IsConsistent n → m ≡ n.rs.commit_num → Committed n (touch now n) m
Committed-touch now m n ok q = record {
  consistent = touch-IsConsistent now n ok;
  number = sym q;
  kv = ok.applied ∙ ap (replay n.log.op_log) (sym q);
  same_log = λ k. refl;
  same_op_num = refl;
  same_view_num = refl;
  same_status = refl;
  same_queue = refl;
}

-- A commit message of the replica's view, whatever number it announces, makes a consistent replica
-- in normal status commit exactly the next operation, if one is logged and the announced number is
-- larger than its commit number, and nothing otherwise. No assertion fails, the map is the replay
-- of the operations up to the new commit number, and the replica stays consistent.
pub process_commit-Committed :
    (now : ℕ) (c : CommitInfo) (n : Node)
    → IsConsistent n
    → Listens n c
    → (n' : Node) × (process_commit now c n ≡ (done tt, n'))
      × Committed n n' (next_commit_num c.commit_num n)
process_commit-Committed now c n ok l = elim (dec_lt n.rs.commit_num c.commit_num) [
  | no above ↦ (
    touch now n,
    process_commit-idle now c n ok l (inl (omega arith)),
    Committed-touch now _ n ok (ground arith),
  )
  | yes below ↦ elim (dec_lt n.rs.commit_num n.rs.op_num) [
    | no all ↦ (
      touch now n,
      process_commit-idle now c n ok l (inr (omega (arith, ok.behind))),
      Committed-touch now _ n ok (ground arith),
    )
    | yes more ↦
        let (e, h) = next_entry n ok more in
        (
          after_commit e (touch now n),
          process_commit-next now c n ok l e below h,
          Committed-after_commit now _ e n ok more h (ground arith),
        )
  ]
]

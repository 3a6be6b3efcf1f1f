-- ===== src/Replicator/Heartbeats.antt =====
-- A backup that lags behind, and the commit messages of an idle primary.
use meta_dr.Prelude.{ℕ, zero, suc, ◌+◌, ◌≤◌, ◌≡◌, refl, ap, ◌∙◌, arith, nat_eq}
use meta_dr.Prelude.Exec.{Exec, done, skip, ◌>>◌}
use meta_dr.Types.{status_eq, CommitInfo}
use meta_dr.Node.{Node}
use meta_dr.Replicator.Handlers.{process_commit}
use meta_dr.Replicator.Replay.{replay}
use meta_dr.Replicator.Consistent.{IsConsistent, after_commit}
use meta_dr.Replicator.Commit.{
  touch, Listens, Committed, Committed-after_commit, next_entry, process_commit-next,
}

-- `k` commit messages with the same content, as the heartbeats of an idle primary are.
unfoldable pub heartbeats : ℕ → ℕ → CommitInfo → Exec Node (Unit {0})
heartbeats now zero c = skip
heartbeats now (suc k) c = process_commit now c >> heartbeats now k c

-- A backup that lags behind catches up: of a consistent replica that has logged `commit_num + k`
-- operations or more, `k` heartbeats that announce that number or a larger one commit exactly the
-- next `k` operations, in the order of the log, with no failed assertion, and the replica stays
-- consistent.
pub heartbeats_catch_up :
    (now k : ℕ) (c : CommitInfo) (n : Node)
    → IsConsistent n
    → Listens n c
    → n.rs.commit_num + k ≤ c.commit_num
    → n.rs.commit_num + k ≤ n.rs.op_num
    → (n' : Node) × (heartbeats now k c n ≡ (done tt, n')) × Committed n n' (n.rs.commit_num + k)
unfolding heartbeats
heartbeats_catch_up now zero c n ok l h g = (
  n,
  refl,
  record {
    consistent = ok;
    number = omega arith;
    kv = ok.applied ∙ ap (replay n.log.op_log) (omega arith);
    same_log = λ k. refl;
    same_op_num = refl;
    same_view_num = refl;
    same_status = refl;
    same_queue = refl;
  },
)
heartbeats_catch_up now (suc k) c n ok l h g =
    let (e, q) = next_entry n ok (omega arith) in
    let n₁ = after_commit e (touch now n) in
    let one = Committed-after_commit now (suc n.rs.commit_num) e n ok (omega arith) q refl in
    let l₁ : Listens n₁ c = record {
      normal_status = l.normal_status;
      same_view = l.same_view;
      fits = l.fits;
    } in
    let (n', run, rest) =
      heartbeats_catch_up now k c n₁ one.consistent l₁ (omega arith) (omega arith) in
    let arrived : suc n.rs.commit_num + k ≡ n.rs.commit_num + suc k = omega arith in
    (
      n',
      ground (arith, process_commit-next now c n ok l e (omega arith) q, run),
      record {
        consistent = rest.consistent;
        number = rest.number ∙ arrived;
        kv = rest.kv ∙ one.same_log _ ∙ ap (replay n.log.op_log) arrived;
        same_log = λ j. rest.same_log j ∙ one.same_log j;
        same_op_num = rest.same_op_num;
        same_view_num = rest.same_view_num;
        same_status = rest.same_status;
        same_queue = rest.same_queue;
      },
    )

-- ===== src/HeartBeat/Rounds.antt =====
-- The rounds of the heartbeat thread in normal status.
use meta_dr.Prelude.{ℕ, ◌+◌, ◌≤◌, ◌≡◌, ◌==◌, nat_eq, if◌then◌else◌, arith}
use meta_dr.Prelude.Exec.{done}
use meta_dr.Types.{normal, status_eq, commit}
use meta_dr.Node.{Node}
use meta_dr.Replicator.{Surroundings, is_primary}
use meta_dr.Replicator.Core.{broadcast, invoke_for_all_lem}
use meta_dr.ViewChange.Change.{Surroundings as ViewSurroundings}
use meta_dr.HeartBeat.{heart_beat_timeout, heart_beat, watch_primary}

-- A round of the primary announces its commit number.
pub heart_beat-primary :
    (env : Surroundings) (view_env : ViewSurroundings) (now nonce : ℕ) (n : Node)
    → n.rs.status ≡ normal
    → n.id ≡ n.rs.pri_id
    → heart_beat env view_env now nonce n ≡ (
      done tt,
      record n {
        sent =
            broadcast env.net
              (commit (record { view_num = n.rs.view_num; commit_num = n.rs.commit_num }))
              n.id
              n.replicas
              n.sent;
      },
    )
unfolding heart_beat is_primary
heart_beat-primary env view_env now nonce n s p = ground (
  arith,
  invoke_for_all_lem env.net
      (commit (record { view_num = n.rs.view_num; commit_num = n.rs.commit_num })) n.id n.replicas
      n,
)

-- In normal status a round that has had a commit message within the timeout sends the view and the
-- commit number to every other replica if the replica is the primary, and does nothing if it is a
-- backup; neither changes anything else.
pub heart_beat-announces :
    (env : Surroundings) (view_env : ViewSurroundings) (now nonce : ℕ) (n : Node)
    → n.rs.status ≡ normal
    → now ≤ n.rs.last_commit_time + heart_beat_timeout
    → heart_beat env view_env now nonce n ≡ (
      done tt,
      if n.id == n.rs.pri_id
          then record n {
            sent =
                broadcast env.net
                  (commit (record { view_num = n.rs.view_num; commit_num = n.rs.commit_num }))
                  n.id
                  n.replicas
                  n.sent;
          }
          else n,
    )
unfolding heart_beat watch_primary is_primary
heart_beat-announces env view_env now nonce n s h = ground (
  arith,
  invoke_for_all_lem env.net
      (commit (record { view_num = n.rs.view_num; commit_num = n.rs.commit_num })) n.id n.replicas
      n,
)

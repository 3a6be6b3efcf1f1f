-- ===== src/HeartBeat.antt =====
-- server/vsReplicator.cc, `heartBeat`: one round of the thread that announces commits on the primary
-- and watches the primary on a backup. A tick of the clock is a nanosecond.
pub mod Rounds
use meta_dr.Prelude.{ℕ, ◌*◌, ◌-◌, ◌^◌, ◌&&◌, ◌==◌, nat_eq, if◌then◌else◌, ltb}
use meta_dr.Prelude.Exec.{Exec, gets, skip, ◌>>=◌, ◌>>◌}
use meta_dr.Types.{normal, view_change, recovering, status_eq, commit}
use meta_dr.Node.{Node, invoke_for_all_replicas}
use meta_dr.Replicator.{Surroundings, is_primary}
use meta_dr.ViewChange.Change.{Surroundings as ViewSurroundings, change_view}
use meta_dr.Recovery.{recover}

-- `HEART_BEAT_TIMEOUT`, in ticks.
abbrev pub heart_beat_timeout : ℕ
heart_beat_timeout = 3 * 10 ^ 9

-- A replica that is not the primary in normal status; a subtraction that ends at 0 is not above the
-- timeout, as the negative time would not be.
unfoldable pub watch_primary : ViewSurroundings → ℕ → Exec Node (Unit {0})
watch_primary env now = do
  rs ← gets (λ n. n.rs)
  if rs.status == view_change
      then change_view env
      else if ltb heart_beat_timeout (now - rs.last_commit_time)
      then change_view env
      else skip

-- The surroundings are those of a recovery and of a view change; `nonce` is the time in seconds.
unfoldable pub heart_beat : Surroundings → ViewSurroundings → ℕ → ℕ → Exec Node (Unit {0})
unfolding watch_primary
heart_beat env view_env now nonce = do
  start ← gets (λ n. n.rs.status)
  if start == recovering then recover env now nonce else skip
  n ← gets (λ n. n)
  if is_primary n && n.rs.status == normal
      then invoke_for_all_replicas env.net
          (commit (record { view_num = n.rs.view_num; commit_num = n.rs.commit_num }))
      else watch_primary view_env now

-- ===== src/Examples/Replication.antt =====
-- The theorems on `processCommit` and `processPrepInfo`, at a backup that has two operations to commit.
use meta_dr.Prelude.{◌==◌, if◌then◌else◌, suc, ◌+◌, ◌≡◌, ◌≢◌, ◌⊎◌, refl, [], ◌∷◌, arith, nat_eq}
use meta_dr.Prelude.Dict.{lookup}
use meta_dr.Prelude.Exec.{done, abort}
use meta_dr.Types.{commit, CommitInfo}
use meta_dr.Node.{Node}
use meta_dr.Replicator.Handlers.{process_commit, process_prep_info}
use meta_dr.Replicator.Commit.{Listens, Committed, next_commit_num, process_commit-Committed}
use meta_dr.Replicator.Heartbeats.{heartbeats, heartbeats_catch_up}
use meta_dr.Replicator.Consistent.{IsConsistent}
use meta_dr.Replicator.Logging.{Takes, after_logging, process_prep_info-logs}
use meta_dr.Replicator.{timeout}
use meta_dr.Replicator.Core.{broadcast}
use meta_dr.ViewChange.Change.{Surroundings as ViewSurroundings}
use meta_dr.HeartBeat.{heart_beat}
use meta_dr.HeartBeat.Rounds.{heart_beat-announces}
use meta_dr.Examples.{
  settled, calm, others, lagging, lagging-IsConsistent, prep, net_up, codes_primary,
}

abbrev two_committed : CommitInfo
two_committed = record { view_num = 0; commit_num = 2 }

lagging-Listens : Listens (lagging 1) two_committed
lagging-Listens = record { normal_status = refl; same_view = refl; fits = ground arith }

heartbeats_catch_up_example :
    (n' : Node) × (heartbeats 5 2 two_committed (lagging 1) ≡ (done tt, n'))
    × Committed (lagging 1) n' ((lagging 1).rs.commit_num + 2)
heartbeats_catch_up_example =
    heartbeats_catch_up 5 2 two_committed (lagging 1) (lagging-IsConsistent 1) lagging-Listens
      (omega arith) (omega arith)

process_commit-Committed_example :
    (n' : Node) × (process_commit 5 two_committed (lagging 1) ≡ (done tt, n'))
    × Committed (lagging 1) n' (next_commit_num 2 (lagging 1))
process_commit-Committed_example =
    process_commit-Committed 5 two_committed (lagging 1) (lagging-IsConsistent 1) lagging-Listens

abbrev waiting : Node
waiting = record (lagging 1) { prep_req_q = prep 3 ∷ [] }

waiting-IsConsistent : IsConsistent waiting
waiting-IsConsistent =
    let c = lagging-IsConsistent 1 in
    record {
      logged = c.logged;
      flagged = c.flagged;
      behind = c.behind;
      applied = c.applied;
      callbacks = c.callbacks;
    }

waiting-Takes : Takes waiting (prep 3) [] codes_primary
unfolding lookup
waiting-Takes = record {
  queued = refl;
  backup = λ q. ground arith;
  normal_status = refl;
  same_view = refl;
  endpoint = refl;
  fits = ground arith;
}

process_prep_info-logs_example :
    ((3 ≡ suc waiting.rs.op_num)
      × (process_prep_info net_up waiting
          ≡ (done tt, after_logging net_up (prep 3) [] codes_primary waiting))
      × IsConsistent (after_logging net_up (prep 3) [] codes_primary waiting))
    ⊎ ((3 ≢ suc waiting.rs.op_num) × ((process_prep_info net_up waiting).0 ≡ abort))
process_prep_info-logs_example =
    process_prep_info-logs net_up waiting (prep 3) [] codes_primary waiting-IsConsistent
      waiting-Takes

-- The surroundings of a view change in which nothing happens.
abbrev calm_views : ViewSurroundings
calm_views = record {
  net = net_up;
  now = 5;
  during_calls = λ n. n;
  during_request_wait = λ n. n;
  request_wake = timeout;
  during_change_wait = λ n. n;
  change_wake = timeout;
}

heart_beat-announces_example : heart_beat calm calm_views 5 0 (settled 0) ≡ (
  done tt,
  if (settled 0).id == (settled 0).rs.pri_id
      then record (settled 0) {
        sent = broadcast net_up (commit (record { view_num = 0; commit_num = 1 })) 0 (others 0) [];
      }
      else settled 0,
)
heart_beat-announces_example =
    heart_beat-announces calm calm_views 5 0 (settled 0) refl (ground arith)

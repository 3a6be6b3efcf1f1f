-- ===== src/ViewChange/Enter.antt =====
-- `updateNewView`, run to its end on both sides of a view change.
use meta_dr.Prelude.{
  ℕ, suc, ◌-◌, ◌≤◌, ◌≡◌, refl, sym, ◌∙◌, ap, true, false, some, List, [], arith, nat_eq, length,
}
use meta_dr.Prelude.Dict.{lookup, has, get_or_insert}
use meta_dr.Prelude.Exec.{done, abort}
use meta_dr.Types.{LogEntry, normal, status_eq, ViewChangeInfo, ViewStartInfo, start_view}
use meta_dr.OpLog.{OpLogHandler, set_log}
use meta_dr.OpLog.Model.{IsDistinct, numbers, view, get_log_lem}
use meta_dr.OpLog.Contract.{set_log-get_log}
use meta_dr.Quorum.{majority_cnt}
use meta_dr.Node.{Node, Net, ViewChangeState}
use meta_dr.Replicator.Core.{broadcast, invoke_for_all_lem}
use meta_dr.ViewChange.Update.{
  candidate, install_primary, install_backup, clean_up, update_new_view,
}
use meta_dr.ViewChange.Apply.{run_committed, Carries, finish_update_lem, finish_update_zero}

abbrev pub cleared : ViewChangeState
cleared = record {
  view_start_req_map = [];
  do_view_change_map = [];
  view_change_info_map = [];
  start_view_map = [];
  view_start_info_map = [];
}

-- The replica in the new view, before the committed operations are applied.
abbrev pub installed : ℕ → ViewStartInfo → Node → Node
installed pri info n = record n {
  rs = record n.rs {
    pri_id = pri;
    view_num = info.view_num;
    op_num = info.op_num;
    commit_num = info.commit_num;
  };
  log = set_log info.op_log n.log;
}

-- The replica in the new view: the committed ones of the operations after its old commit number and
-- before the last of the log have been applied.
abbrev pub entered : ℕ → ℕ → ℕ → ViewStartInfo → Node → Node
entered now size pri info n =
    let m = installed pri info n in
    record m {
      kv = run_committed m.log.op_log (suc n.rs.commit_num) (size - suc n.rs.commit_num) n.kv;
      rs = record m.rs { last_commit_time = now; status = normal };
      view = cleared;
    }

-- A backup that has the message of the new primary.
pub record HasStart (n : Node) (v : ℕ) (info : ViewStartInfo) : Type 0 where
  pub stored : lookup v n.view.view_start_info_map ≡ some info
  pub same_view : info.view_num ≡ v

-- A backup that has committed something, and whose last committed operation is in the log that the
-- new primary has sent, enters the view: it takes the primary, the numbers and the log of the
-- message, and applies the committed ones of the operations from the one after its old commit
-- number up to the last but one of the log. The last operation of the log is never applied.
pub update_new_view-backup :
    (net : Net) (now v size : ℕ) (info : ViewStartInfo) (n : Node)
    → n.update_cb ≡ true
    → n.delete_cb ≡ true
    → HasStart n v info
    → Carries (set_log info.op_log n.log) n.rs.commit_num size
    → update_new_view net now v false n ≡ (done tt, entered now size info.replica_id info n)
unfolding update_new_view install_backup clean_up
update_new_view-backup net now v size info n u d h k = ground (
  arith,
  h.stored,
  h.same_view,
  finish_update_lem now n.rs.commit_num size (installed info.replica_id info n) u d k,
)

-- A backup that has committed nothing fails an assertion when it enters a view whose log has no
-- operation 0, as the log of every replica.
pub update_new_view-nothing_committed :
    (net : Net) (now v : ℕ) (info : ViewStartInfo) (n : Node)
    → HasStart n v info
    → n.rs.commit_num ≡ 0
    → has 0 (set_log info.op_log n.log).op_log ≡ false
    → (update_new_view net now v false n).0 ≡ abort
unfolding update_new_view install_backup
update_new_view-nothing_committed net now v info n h z none_at = ground (
  arith,
  h.stored,
  h.same_view,
  finish_update_zero now (installed info.replica_id info n) none_at,
)

-- The new primary has a quorum of infos, and the log of the best one names no operation twice.
pub record HasQuorum (n : Node) (v : ℕ) (infos : List ViewChangeInfo) (c : ViewChangeInfo)
    : Type 0 where
  pub stored : lookup v n.view.view_change_info_map ≡ some infos
  pub enough : majority_cnt n.replicas ≤ length infos
  pub chosen : candidate infos ≡ some c
  pub same_view : c.view_num ≡ v
  pub distinct : IsDistinct (numbers c.op_log)

-- The message to the backups.
abbrev pub start_info : ViewChangeInfo → ℕ → ViewStartInfo
start_info c id = record {
  view_num = c.view_num;
  op_log = c.op_log;
  op_num = c.op_num;
  commit_num = c.commit_num;
  replica_id = id;
}

install_primary_lem :
    (v : ℕ) (infos : List ViewChangeInfo) (c : ViewChangeInfo) (n : Node)
    → HasQuorum n v infos c
    → install_primary v n ≡ (done (start_info c n.id), installed n.id (start_info c n.id) n)
unfolding install_primary get_or_insert
install_primary_lem v infos c n h =
    let held = set_log-get_log c.op_log n.log h.distinct in
    let same = get_log_lem (set_log c.op_log n.log) held.well_formed in
    let reads : view (set_log c.op_log n.log) ≡ c.op_log =
      ap (λ (r : List LogEntry × OpLogHandler). r.0) (sym same) ∙ held.reads in
    ground (arith, h.stored, h.enough, h.chosen, same, reads)

-- The new primary, with a quorum of infos, the best of which has a log that names no operation twice
-- and holds the last operation that the replica has committed, enters the view: it takes the
-- numbers and the log of that info, applies the committed ones of the operations from the one after
-- its old commit number up to the last but one of the log, and sends that log with its own id to
-- every other replica.
pub update_new_view-primary :
    (net : Net) (now v size : ℕ) (infos : List ViewChangeInfo) (c : ViewChangeInfo) (n : Node)
    → n.update_cb ≡ true
    → n.delete_cb ≡ true
    → HasQuorum n v infos c
    → Carries (set_log c.op_log n.log) n.rs.commit_num size
    → (m : Node) × (update_new_view net now v true n ≡ (done tt, m))
      × (m ≡ record (entered now size n.id (start_info c n.id) n) {
        sent = broadcast net (start_view (start_info c n.id)) n.id n.replicas n.sent;
      })
unfolding update_new_view clean_up
update_new_view-primary net now v size infos c n u d h k =
    let info = start_info c n.id in
    let done_update = finish_update_lem now n.rs.commit_num size (installed n.id info n) u d k in
    (
      record (entered now size n.id info n) {
        sent = broadcast net (start_view info) n.id n.replicas n.sent;
      },
      ground (
        arith,
        install_primary_lem v infos c n h,
        h.same_view,
        done_update,
        invoke_for_all_lem net (start_view info) n.id n.replicas
            (record (entered now size n.id info n) { view = n.view }),
      ),
      refl,
    )

-- ===== src/Examples/Views.antt =====
-- The theorems on the view change, at the change from view 0 of replica 0 to view 1 of replica 1.
use meta_dr.Prelude.Dict.{lookup, insert, has}
use meta_dr.Prelude.Exec.{done, abort}
use meta_dr.Types.{KvPair, LogEntry, ViewChangeInfo, ViewStartInfo, update, start_view}
use meta_dr.OpLog.{OpLogHandler, empty, push_entry, set_log, log_size}
use meta_dr.Quorum.{majority_cnt}
use meta_dr.Prelude.{ℕ, ◌≤◌, ◌≡◌, refl, true, false, some, List, [], ◌∷◌, arith, nat_eq, All, ◌<◌}
use meta_dr.OpLog.Model.{IsWellFormed, get_log_lem}
use meta_dr.Replicator.Consistent.{IsConsistent}
use meta_dr.ViewChange.Change.{own_change_info}
use meta_dr.Node.{Node}
use meta_dr.Replicator.{append_op}
use meta_dr.Replicator.Core.{appended, appended-IsConsistent, prepared_entry, broadcast}
use meta_dr.Replicator.Primary.{next_prep}
use meta_dr.Replicator.Replay.{replay, run_entry, run_number}
use meta_dr.ViewChange.Update.{candidate, update_new_view}
use meta_dr.ViewChange.Candidate.{candidate-view}
use meta_dr.ViewChange.Apply.{Carries}
use meta_dr.ViewChange.Enter.{
  HasStart, HasQuorum, entered, start_info, cleared, update_new_view-backup,
  update_new_view-nothing_committed, update_new_view-primary,
}
use meta_dr.ViewChange.Agreement.{CanEnter, update_new_view-loses_last, new_view_reuses_number}
use meta_dr.Examples.{settled-IsConsistent, fresh, settled, prep, kept, net_up, text_a, text_x}

abbrev info_of : ℕ → ℕ → ℕ → List LogEntry → ViewChangeInfo
info_of id old_view op entries = record {
  view_num = 1;
  op_log = entries;
  old_view_num = old_view;
  op_num = op;
  commit_num = op;
  replica_id = id;
}

candidate-view_example :
    (c : ViewChangeInfo) × (candidate (info_of 0 0 5 [] ∷ info_of 2 1 3 [] ∷ []) ≡ some c)
    × All (λ w. w.old_view_num ≤ c.old_view_num) (info_of 0 0 5 [] ∷ info_of 2 1 3 [] ∷ [])
candidate-view_example = candidate-view (info_of 0 0 5 []) (info_of 2 1 3 [] ∷ [])

abbrev three_entries : List LogEntry
three_entries = kept 1 ∷ kept 2 ∷ kept 3 ∷ []

abbrev best_info : ViewChangeInfo
best_info = info_of 1 0 3 three_entries

abbrev two_infos : List ViewChangeInfo
two_infos = best_info ∷ info_of 2 0 1 (kept 1 ∷ []) ∷ []

abbrev primary : Node
primary = record (settled 1) {
  view = record cleared { view_change_info_map = (1, two_infos) ∷ [] };
}

abbrev backup_of : ViewStartInfo → ℕ → Node
backup_of info id = record (settled id) {
  view = record cleared { view_start_info_map = (1, info) ∷ [] };
}

abbrev backup : Node
backup = backup_of (start_info best_info 1) 2

primary-HasQuorum : HasQuorum primary 1 two_infos best_info
unfolding lookup majority_cnt candidate
primary-HasQuorum = record {
  stored = refl;
  enough = ground arith;
  chosen = ground arith;
  same_view = refl;
  distinct = (refl, (refl, (refl, tt)));
}

three_entries-Carries : (h : OpLogHandler) → Carries (set_log three_entries h) 1 3
unfolding set_log has lookup push_entry insert log_size
three_entries-Carries h = record {
  numbers = λ i. ground arith;
  sized = refl;
  old_entry = kept 1;
  found = refl;
  committed = refl;
  fits = ground arith;
}

backup-HasStart :
    (info : ViewStartInfo) (id : ℕ) → info.view_num ≡ 1 → HasStart (backup_of info id) 1 info
unfolding lookup
backup-HasStart info id q = record { stored = refl; same_view = q }

update_new_view-backup_example :
    update_new_view net_up 9 1 false backup
    ≡ (done tt, entered 9 3 1 (start_info best_info 1) backup)
update_new_view-backup_example =
    update_new_view-backup net_up 9 1 3 (start_info best_info 1) backup refl refl
      (backup-HasStart (start_info best_info 1) 2 refl) (three_entries-Carries backup.log)

update_new_view-primary_example :
    (m : Node) × (update_new_view net_up 9 1 true primary ≡ (done tt, m))
    × (m ≡ record (entered 9 3 1 (start_info best_info 1) primary) {
      sent = broadcast net_up (start_view (start_info best_info 1)) 1 primary.replicas primary.sent;
    })
update_new_view-primary_example =
    update_new_view-primary net_up 9 1 3 two_infos best_info primary refl refl primary-HasQuorum
      (three_entries-Carries primary.log)

abbrev idle_backup : Node
idle_backup = record (fresh 2) { view = backup.view }

idle_backup-HasStart : HasStart idle_backup 1 (start_info best_info 1)
unfolding lookup
idle_backup-HasStart = record { stored = refl; same_view = refl }

three_entries-zero : has 0 (set_log three_entries empty).op_log ≡ false
unfolding set_log has lookup push_entry insert
three_entries-zero = refl

update_new_view-nothing_committed_example : (update_new_view net_up 9 1 false idle_backup).0 ≡ abort
update_new_view-nothing_committed_example =
    update_new_view-nothing_committed net_up 9 1 (start_info best_info 1) idle_backup
      idle_backup-HasStart refl three_entries-zero

abbrev short_start : ViewStartInfo
short_start = start_info (info_of 1 0 2 (kept 1 ∷ kept 2 ∷ [])) 1

abbrev short_backup : Node
short_backup = backup_of short_start 2

short-Carries : (h : OpLogHandler) → Carries (set_log short_start.op_log h) 1 2
unfolding set_log has lookup push_entry insert log_size
short-Carries h = record {
  numbers = λ i. ground arith;
  sized = refl;
  old_entry = kept 1;
  found = refl;
  committed = refl;
  fits = ground arith;
}

short-replay : short_backup.kv ≡ replay (set_log short_start.op_log short_backup.log).op_log 1
unfolding set_log lookup push_entry insert replay run_number run_entry
short-replay = refl

short-last : lookup 2 (set_log short_start.op_log short_backup.log).op_log ≡ some (kept 2)
unfolding set_log lookup push_entry insert
short-last = refl

update_new_view-loses_last_example :
    (m : Node) × (update_new_view net_up 9 1 false short_backup ≡ (done tt, m))
    × (m.rs.commit_num ≡ 2)
    × (m.kv ≡ short_backup.kv)
    × (replay m.log.op_log m.rs.commit_num ≡ run_entry (kept 2) short_backup.kv)
update_new_view-loses_last_example =
    update_new_view-loses_last net_up 9 1 short_start short_backup (kept 2) (refl, refl)
      (backup-HasStart short_start 2 refl) (short-Carries short_backup.log) refl short-replay
      short-last

-- A replica that has committed an operation and logged another one.
abbrev pending : Node
pending = appended (prep 2) (settled 2)

pending-IsConsistent : IsConsistent pending
pending-IsConsistent = appended-IsConsistent (prep 2) (settled 2) (settled-IsConsistent 2) refl

pending-IsWellFormed : IsWellFormed pending.log
unfolding push_entry insert has lookup
pending-IsWellFormed = record {
  listed = λ i. ground arith;
  numbered = λ i e h. ground (arith, h);
  distinct = (refl, (refl, tt));
  sized = refl;
}

-- Its operation number is the number of the first one.
abbrev pending_info : ViewChangeInfo
pending_info = info_of 2 0 1 (kept 1 ∷ prepared_entry (prep 2) ∷ [])

pending_sends : (own_change_info 0 1 pending).0 ≡ done pending_info
unfolding own_change_info push_entry insert lookup
pending_sends = rw (get_log_lem pending.log pending-IsWellFormed) refl

abbrev pending_infos : List ViewChangeInfo
pending_infos = pending_info ∷ info_of 1 0 1 (kept 1 ∷ []) ∷ []

abbrev pending_primary : Node
pending_primary = record (settled 1) {
  view = record cleared { view_change_info_map = (1, pending_infos) ∷ [] };
}

pending-HasQuorum : HasQuorum pending_primary 1 pending_infos pending_info
unfolding lookup majority_cnt candidate
pending-HasQuorum = record {
  stored = refl;
  enough = ground arith;
  chosen = ground arith;
  same_view = refl;
  distinct = (refl, (refl, tt));
}

pending-CanEnter : CanEnter pending_primary pending_info 2
unfolding set_log has lookup push_entry insert log_size
pending-CanEnter = record {
  callbacks = (refl, refl);
  carries = record {
    numbers = λ i. ground arith;
    sized = refl;
    old_entry = kept 1;
    found = refl;
    committed = refl;
    fits = ground arith;
  };
}

abbrev new_pair : KvPair
new_pair = record { key = text_a; val = text_x }

new_view_reuses_number_example :
    (m' : Node) × (update_new_view net_up 9 1 true pending_primary ≡ (done tt, m'))
    × (m'.rs.op_num ≡ 1)
    × (m'.rs.op_num < 2)
    × ¬ IsWellFormed (append_op (next_prep new_pair update m') m').1.log
new_view_reuses_number_example =
    new_view_reuses_number net_up 9 0 1 2 pending_infos pending_info pending pending_primary
      new_pair update pending-IsWellFormed pending-IsConsistent (ground arith) pending_sends
      pending-HasQuorum pending-CanEnter

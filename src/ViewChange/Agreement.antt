-- ===== src/ViewChange/Agreement.antt =====
-- Where the replicas stand after a view change, and where the code leaves them wrong.
use meta_dr.OpLog.Refines.{numbers-view}
use meta_dr.Prelude.{
  Text, ℕ, suc, ◌-◌, ◌≡◌, ◌∙◌, true, false, some, List, [], ◌∷◌, ◌++◌, arith, nat_eq, ◌<◌, ap, sym,
}
use meta_dr.Replicator.Consistent.{IsConsistent}
use meta_dr.ViewChange.Change.{own_change_info}
use mathlib.Core.List.{append-nil, append_assoc}
use meta_dr.Prelude.Dict.{Dict, lookup}
use meta_dr.Prelude.Exec.{Outcome, throw, abort, done}
use meta_dr.Types.{LogEntry, KvPair, OpType, ViewChangeInfo, ViewStartInfo}
use meta_dr.OpLog.{OpLogHandler, empty, push_entry, store_entries, set_log}
use meta_dr.OpLog.Model.{get_log_lem, view, elem, IsDistinct, IsWellFormed, numbers}
use meta_dr.OpLog.Contract.{Holds}
use meta_dr.Node.{Node, Net}
use meta_dr.Replicator.{append_op}
use meta_dr.Replicator.Core.{append_op_lem}
use meta_dr.Replicator.Primary.{next_prep}
use meta_dr.Replicator.Replay.{replay, run_number, run_entry}
use meta_dr.ViewChange.Update.{update_new_view}
use meta_dr.ViewChange.Apply.{Carries, run_committed}
use meta_dr.ViewChange.Enter.{
  HasStart, HasQuorum, entered, update_new_view-backup, update_new_view-primary,
}

-- Two replicas have the same primary, view, numbers and log.
pub record Agree (n m : Node) (entries : List LogEntry) : Type 0 where
  pub pri_id : n.rs.pri_id ≡ m.rs.pri_id
  pub view_num : n.rs.view_num ≡ m.rs.view_num
  pub op_num : n.rs.op_num ≡ m.rs.op_num
  pub commit_num : n.rs.commit_num ≡ m.rs.commit_num
  pub status : n.rs.status ≡ m.rs.status
  pub log : n.log ≡ m.log
  pub holds : Holds n.log entries

-- The log of one of the sides of a view change.
pub record CanEnter (n : Node) (c : ViewChangeInfo) (size : ℕ) : Type 0 where
  pub callbacks : (n.update_cb ≡ true) × (n.delete_cb ≡ true)
  pub carries : Carries (set_log c.op_log n.log) n.rs.commit_num size

-- The map of the replica `n` after the committed ones of the operations from the one after its commit
-- number up to the last but one of the log of the new view.
abbrev pub entered_kv : Node → ViewChangeInfo → ℕ → OpLogHandler → Dict Text Text
entered_kv n c size h =
    run_committed (set_log c.op_log h).op_log (suc n.rs.commit_num) (size - suc n.rs.commit_num)
      n.kv

-- A backup that is one operation behind the log of the new view loses it: it takes the commit number
-- of the message, and its map stays as it was, although the operations up to that number end with
-- the one that it has not applied.
pub update_new_view-loses_last :
    (net : Net) (now v : ℕ) (info : ViewStartInfo) (n : Node) (e : LogEntry)
    → (n.update_cb ≡ true) × (n.delete_cb ≡ true)
    → HasStart n v info
    → Carries (set_log info.op_log n.log) n.rs.commit_num (suc n.rs.commit_num)
    → info.commit_num ≡ suc n.rs.commit_num
    → n.kv ≡ replay (set_log info.op_log n.log).op_log n.rs.commit_num
    → lookup (suc n.rs.commit_num) (set_log info.op_log n.log).op_log ≡ some e
    → (m : Node) × (update_new_view net now v false n ≡ (done tt, m))
      × (m.rs.commit_num ≡ suc n.rs.commit_num)
      × (m.kv ≡ n.kv)
      × (replay m.log.op_log m.rs.commit_num ≡ run_entry e n.kv)
unfolding run_committed replay run_number
update_new_view-loses_last net now v info n e u h k one before last = (
  entered now (suc n.rs.commit_num) info.replica_id info n,
  update_new_view-backup net now v (suc n.rs.commit_num) info n u.0 u.1 h k,
  one,
  rw (sub_self (suc n.rs.commit_num)),
  rw one (ground (arith, before, last)),
)
  where
    sub_self : (a : ℕ) → a - a ≡ 0
    sub_self a = omega arith

op_nums-store_entries :
    (es : List LogEntry) (h : OpLogHandler) → (store_entries es h).op_nums ≡ h.op_nums ++ numbers es
unfolding store_entries
op_nums-store_entries [] h = rw append-nil
op_nums-store_entries (e ∷ es) h =
    op_nums-store_entries es (push_entry e e.op_num h) ∙ rw append_assoc

not-IsDistinct-append : (n : ℕ) (ns : List ℕ) → elem n ns ≡ true → ¬ IsDistinct (ns ++ n ∷ [])
not-IsDistinct-append n [] h d = cc
not-IsDistinct-append n (x ∷ ns) h d = ground (arith, elem-last n ns, not-IsDistinct-append n ns)
  where
    elem-last : (n : ℕ) (ns : List ℕ) → elem n (ns ++ n ∷ []) ≡ true
    elem-last n [] = ground arith
    elem-last n (y ∷ ns) = ground (arith, elem-last n ns)

-- An operation with a number that the log of the new view has already spoils the log.
append_present :
    (entries : List LogEntry) (h : OpLogHandler) (m : Node) (kv : KvPair) (op : OpType)
    → m.log ≡ set_log entries h
    → elem (suc m.rs.op_num) (numbers entries) ≡ true
    → ¬ IsWellFormed (append_op (next_prep kv op m) m).1.log
unfolding set_log push_entry
append_present entries h m kv op q there w =
    let d = (rw (append_op_lem (next_prep kv op m) m, q) at w).distinct in
    not-IsDistinct-append (suc m.rs.op_num) (numbers entries) there
      (rw (op_nums-store_entries entries empty) at d)

abbrev given : ViewChangeInfo → Outcome ViewChangeInfo → ViewChangeInfo
given c (done x) = x
given c (throw e) = c
given c abort = c

-- The new view reuses the number of an operation: if the new primary chooses the info that a
-- consistent replica with a well-formed log and an operation that it has logged and not
-- committed has sent, it enters the view with the commit number of that replica as its operation
-- number, which is below the replica's operation number, and after the first operation that it logs
-- its own log is no longer well-formed.
pub new_view_reuses_number :
    (net : Net) (now old v size : ℕ) (infos : List ViewChangeInfo) (c : ViewChangeInfo) (n m : Node)
    (kv : KvPair) (op : OpType)
    → IsWellFormed n.log
    → IsConsistent n
    → n.rs.commit_num < n.rs.op_num
    → (own_change_info old v n).0 ≡ done c
    → HasQuorum m v infos c
    → CanEnter m c size
    → (m' : Node) × (update_new_view net now v true m ≡ (done tt, m'))
      × (m'.rs.op_num ≡ n.rs.commit_num)
      × (m'.rs.op_num < n.rs.op_num)
      × ¬ IsWellFormed (append_op (next_prep kv op m') m').1.log
unfolding own_change_info
new_view_reuses_number net now old v size infos c n m kv op w consistent pending sends q en =
    let log : c.op_log ≡ view n.log =
      ap (λ o. (given c o).op_log) (sym sends)
      ∙ ap (λ (r : List LogEntry × OpLogHandler). r.0) (get_log_lem n.log w) in
    let number : c.op_num ≡ n.rs.commit_num = ap (λ o. (given c o).op_num) (sym sends) in
    let listed : elem (suc n.rs.commit_num) n.log.op_nums ≡ true =
      sym (w.listed (suc n.rs.commit_num))
      ∙ consistent.logged (suc n.rs.commit_num)
      ∙ ground (arith, pending) in
    let present : elem (suc c.op_num) (numbers c.op_log) ≡ true =
      rw (number, log, numbers-view n.log w) listed in
    let (m', run, is) =
      update_new_view-primary net now v size infos c m en.callbacks.0 en.callbacks.1 q en.carries in
    (
      m',
      run,
      ap (λ (k : Node). k.rs.op_num) is ∙ number,
      rw (is, number) pending,
      append_present c.op_log m.log m' kv op (ap (λ (k : Node). k.log) is) (rw is present),
    )

-- ===== src/Cluster/Backups.antt =====
-- A backup goes on following the primary, whatever handler it runs.
use meta_dr.Prelude.{
  ℕ, suc, ◌≤◌, ◌<◌, ◌≡◌, refl, sym, ap, ◌∙◌, ◌⊎◌, inl, inr, true, false, not, ◌||◌, some, List, [],
  ◌∷◌, ◌++◌, ◌==◌, nat_eq, if◌then◌else◌, arith, Bool-cases, All, All-append, text_eq,
}
use mathlib.Core.Path.{subst}
use meta_dr.Prelude.Dict.{Dict, lookup, insert, has, lookup-insert, get_or_insert}
use meta_dr.Prelude.Exec.{Outcome, done, abort}
use meta_dr.Types.{EndPoint, LogEntry, PrepInfo, CommitInfo, prepare_ok, normal, status_eq, u64_mod}
use meta_dr.ReplicaState.{incr}
use native.Mathlib.Decide.{dec_le}
use meta_dr.OpLog.{OpLogHandler, push_entry}
use meta_dr.Node.{Node, Net, Packet, invoke, try_calls}
use meta_dr.Replicator.{is_primary}
use meta_dr.Replicator.Handlers.{
  process_prepare, process_commit, process_prep_info, log_prepared, answer_prepare,
}
use meta_dr.Replicator.Replay.{replay, run_number, run_entry, replay-insert_later}
use meta_dr.Replicator.Core.{
  SameCore, SameCore-IsConsistent, prepared_entry, appended, appended-IsConsistent, append_op_lem,
}
use meta_dr.Replicator.Commit.{Listens, process_commit-Committed}
use meta_dr.Cluster.Follows.{Matches, HasNumbers, Follows}

abbrev with_queue : List PrepInfo → Node → Node
with_queue q b = record b { prep_req_q = q }

Follows-queue :
    (n b : Node) (q : List PrepInfo)
    → Follows n b
    → All (Matches n.log.op_log) q
    → Follows n (with_queue q b)
Follows-queue n b q f h =
    let c = f.consistent in
    record {
      consistent = record {
        logged = c.logged;
        flagged = c.flagged;
        behind = c.behind;
        applied = c.applied;
        callbacks = c.callbacks;
      };
      normal_status = f.normal_status;
      view_num = f.view_num;
      op_num = f.op_num;
      queue = h;
      same = f.same;
    }

pub process_prepare-Follows :
    (n b : Node) (p : PrepInfo)
    → Follows n b
    → Matches n.log.op_log p
    → Follows n (process_prepare p b).1
unfolding process_prepare
process_prepare-Follows n b p f h = elim (Bool-cases (p.view_num == b.rs.view_num)) [
  | inl same ↦ subst (Follows n) (ground (arith, f.normal_status)) (
      Follows-queue n b (b.prep_req_q ++ p ∷ []) f
        (All-append (Matches n.log.op_log) b.prep_req_q (p ∷ []) f.queue (h, tt)))
  | inr other ↦ subst (Follows n) (ground (arith, f.normal_status)) f
]

-- The commit messages of the primary's view.
pub process_commit-Follows :
    (now : ℕ) (n b b' : Node) (c : CommitInfo)
    → Follows n b
    → c.view_num ≡ n.rs.view_num
    → suc n.rs.op_num < u64_mod
    → process_commit now c b ≡ (done tt, b')
    → Follows n b'
process_commit-Follows now n b b' c f v fits run =
    let l : Listens b c = record {
      normal_status = f.normal_status;
      same_view = v ∙ sym f.view_num;
      fits = omega (arith, f.op_num);
    } in
    let (m, run', k) = process_commit-Committed now c b f.consistent l in
    subst (Follows n) (ap (λ (r : Outcome (Unit {0}) × Node). r.1) (sym run' ∙ run)) (record {
      consistent = k.consistent;
      normal_status = k.same_status ∙ f.normal_status;
      view_num = k.same_view_num ∙ f.view_num;
      op_num = omega (arith, k.same_op_num, f.op_num);
      queue = subst (All (Matches n.log.op_log)) (sym k.same_queue) f.queue;
      same = λ j h. k.same_log j ∙ f.same j (omega (arith, k.same_op_num));
    })

-- A backup that has logged `p`.
record HasLogged (p : PrepInfo) (b b' : Node) : Type 0 where
  core : SameCore (appended p b) b'
  status : b'.rs.status ≡ b.rs.status
  view_num : b'.rs.view_num ≡ b.rs.view_num
  queue : b'.prep_req_q ≡ b.prep_req_q

log_prepared-HasLogged :
    (net : Net) (p : PrepInfo) (b b' : Node)
    → log_prepared net p b ≡ (done tt, b')
    → (b' ≡ b) ⊎ ((p.op_num ≡ incr b.rs.op_num) × HasLogged p b b')
unfolding log_prepared answer_prepare invoke
log_prepared-HasLogged net p b b' run =
    elim (Bool-cases
      (is_primary b || not (b.rs.status == normal) || not (p.view_num == b.rs.view_num))) [
        | inl skipped ↦
            let skips : log_prepared net p b ≡ (done tt, b) = ground arith in
            inl (ap after (sym run ∙ skips))
        | inr on ↦ elim (Bool-cases (p.op_num == incr b.rs.op_num)) [
          | inr gap ↦
              let fails : outcome (log_prepared net p b) ≡ abort = ground arith in
              absurd (not_aborted (sym (ap outcome run) ∙ fails))
          | inl here ↦ inr (
            ground arith,
            subst (HasLogged p b) (ap after (sym (runs on here) ∙ run)) (record {
              core = record {
                log = refl;
                kv = refl;
                op_num = refl;
                commit_num = refl;
                update_cb = refl;
                delete_cb = refl;
              };
              status = refl;
              view_num = refl;
              queue = refl;
            }),
          )
        ]
      ]
  where
    after : Outcome (Unit {0}) × Node → Node
    after r = r.1

    outcome : Outcome (Unit {0}) × Node → Outcome (Unit {0})
    outcome r = r.0

    not_aborted : ◌≡◌ {A = Outcome (Unit {0})} (done tt) abort → ⊥
    not_aborted q = cc

    found : EndPoint × Dict ℕ EndPoint
    found = get_or_insert b.rs.pri_id (record { ip = []; port = [] }) b.replicas

    answer : Packet
    answer = record {
      to = found.0;
      message =
          prepare_ok (record { view_num = b.rs.view_num; op_num = p.op_num; replica_id = b.id });
    }

    logged : Node
    logged = record b {
      rs = record b.rs { op_num = p.op_num };
      log = push_entry (prepared_entry p) p.op_num b.log;
      replicas = found.1;
      sent = if try_calls (net answer.to answer.message) 0 2 then b.sent ++ answer ∷ [] else b.sent;
    }

    runs :
        (is_primary b || not (b.rs.status == normal) || not (p.view_num == b.rs.view_num)) ≡ false
        → (p.op_num == incr b.rs.op_num) ≡ true
        → log_prepared net p b ≡ (done tt, logged)
    runs on here =
        ground (arith, append_op_lem p (record b { rs = record b.rs { op_num = p.op_num } }))

replay-next :
    (log log' : Dict ℕ LogEntry) (k : ℕ) (e e' : LogEntry)
    → lookup (suc k) log ≡ some e
    → lookup (suc k) log' ≡ some e'
    → e.kv_pair ≡ e'.kv_pair
    → e.op_type ≡ e'.op_type
    → replay log k ≡ replay log' k
    → replay log (suc k) ≡ replay log' (suc k)
unfolding replay run_number run_entry
replay-next log log' k e e' h h' s t r = ground arith

HasLogged-Follows :
    (n b b' : Node) (p : PrepInfo)
    → Follows n b
    → HasNumbers n
    → suc n.rs.op_num < u64_mod
    → Matches n.log.op_log p
    → p.op_num ≡ incr b.rs.op_num
    → HasLogged p b b'
    → Follows n b'
unfolding has incr push_entry
HasLogged-Follows n b b' p f numbers fits h q l =
    let bound : p.op_num ≤ n.rs.op_num = ground (arith, numbers p.op_num, h.found) in
    let positive : 0 < p.op_num = ground (arith, numbers p.op_num, h.found) in
    let q' : p.op_num ≡ suc b.rs.op_num = omega (arith, f.op_num) in
    let log : b'.log.op_log ≡ insert p.op_num (prepared_entry p) b.log.op_log =
      ap (λ (h : OpLogHandler). h.op_log) l.core.log in
    let older : (k : ℕ) → k ≤ b.rs.op_num → replay b'.log.op_log k ≡ replay n.log.op_log k = λ k j.
      rw log (
        replay-insert_later b.log.op_log p.op_num (prepared_entry p) k (omega arith)
        ∙ f.same k j) in
    let top : (k : ℕ) → k ≡ suc b.rs.op_num → replay b'.log.op_log k ≡ replay n.log.op_log k =
      λ k e. rw e (
        replay-next b'.log.op_log n.log.op_log b.rs.op_num (prepared_entry p) h.entry
          (rw (log, sym q')
            (ground (arith, lookup-insert p.op_num p.op_num (prepared_entry p) b.log.op_log)))
          (rw (sym q') h.found) (sym h.same_pair) (sym h.same_type)
          (older b.rs.op_num (omega arith))) in
    record {
      consistent = SameCore-IsConsistent l.core (appended-IsConsistent p b f.consistent q');
      normal_status = l.status ∙ f.normal_status;
      view_num = l.view_num ∙ f.view_num;
      op_num = omega (arith, l.core.op_num);
      queue = subst (All (Matches n.log.op_log)) (sym l.queue) f.queue;
      same = λ k j. elim (dec_le k b.rs.op_num) [
        | yes le ↦ older k le
        | no above ↦ top k (omega (arith, l.core.op_num))
      ];
    }

pub process_prep_info-Follows :
    (net : Net) (n b b' : Node)
    → Follows n b
    → HasNumbers n
    → suc n.rs.op_num < u64_mod
    → process_prep_info net b ≡ (done tt, b')
    → Follows n b'
unfolding process_prep_info
process_prep_info-Follows net n b b' f numbers fits run = from_queue b.prep_req_q refl
  where
    from_queue : (q : List PrepInfo) → b.prep_req_q ≡ q → Follows n b'
    from_queue [] e =
        subst (Follows n) (ap (λ (r : Outcome (Unit {0}) × Node). r.1) (sym (empty e) ∙ run)) f
      where
        empty : b.prep_req_q ≡ [] → process_prep_info net b ≡ (done tt, b)
        empty e = rw e refl
    from_queue (p ∷ rest) e =
        let all : All (Matches n.log.op_log) (p ∷ rest) = rw e at f.queue in
        let popped = with_queue rest b in
        let g = Follows-queue n b rest f all.1 in
        let run' : log_prepared net p popped ≡ (done tt, b') = rw e at run in
        elim (log_prepared-HasLogged net p popped b' run') [
          | inl same ↦ subst (Follows n) (sym same) g
          | inr (q, l) ↦ HasLogged-Follows n popped b' p g numbers fits all.0 q l
        ]

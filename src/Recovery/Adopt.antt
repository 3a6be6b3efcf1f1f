-- ===== src/Recovery/Adopt.antt =====
-- What `recover` takes over from the response of a primary.
use meta_dr.Prelude.{
  ℕ, zero, suc, ◌≤◌, ◌≡◌, refl, sym, ap, ◌∙◌, inl, inr, true, List, [], ◌∷◌, ◌++◌, map, arith,
  nat_eq, if◌then◌else◌, leb, Option-cases, Text,
}
use meta_dr.Prelude.Dict.{Dict, lookup, has}
use meta_dr.Prelude.Exec.{done}
use meta_dr.Types.{LogEntry, normal, status_eq}
use meta_dr.OpLog.{OpLogHandler, get_log, set_log, get_log_entry}
use meta_dr.OpLog.Model.{IsWellFormed, IsDistinct, entry_at, view, numbers, get_log_lem, find}
use meta_dr.OpLog.Refines.{get_log_entry_lem, numbers-view}
use meta_dr.OpLog.Contract.{set_log-get_log}
use meta_dr.Node.{Node}
use meta_dr.Replicator.Replay.{replay, run_number, run_entry, replay_congruent}
use meta_dr.Replicator.Consistent.{IsConsistent, apply_entry_lem}
use meta_dr.Replicator.Primary.{is_primary_lem}
use meta_dr.Recovery.{recover_state_from_log, adopt, answer}

-- The committed ones of some entries, in their order.
unfoldable pub run_list : List LogEntry → Dict Text Text → Dict Text Text
run_list [] kv = kv
run_list (e ∷ es) kv = run_list es (if e.committed then run_entry e kv else kv)

recover_state_from_log_lem :
    (es : List LogEntry) (n : Node)
    → n.update_cb ≡ true
    → n.delete_cb ≡ true
    → recover_state_from_log es n ≡ (done tt, record n { kv = run_list es n.kv })
unfolding recover_state_from_log run_list
recover_state_from_log_lem [] n u d = refl
recover_state_from_log_lem (e ∷ es) n u d = ground (
  arith,
  apply_entry_lem e n u d,
  recover_state_from_log_lem es n u d,
  recover_state_from_log_lem es (record n { kv = run_entry e n.kv }) u d,
)

-- The numbers 1, 2, …, `k`.
abbrev pub upto : ℕ → List ℕ
upto zero = []
upto (suc k) = upto k ++ suc k ∷ []

run_list-snoc :
    (f : ℕ → LogEntry) (ns : List ℕ) (k : ℕ) (kv : Dict Text Text)
    → run_list (map f (ns ++ k ∷ [])) kv ≡ (
        if (f k).committed
        then run_entry (f k) (run_list (map f ns) kv)
        else run_list (map f ns) kv)
unfolding run_list
run_list-snoc f [] k kv = refl
run_list-snoc f (n ∷ ns) k kv =
    run_list-snoc f ns k (if (f n).committed then run_entry (f n) kv else kv)

run_list-replay :
    (n : Node) (k : ℕ)
    → IsConsistent n
    → k ≤ n.rs.op_num
    → run_list (map (entry_at n.log.op_log) (upto k)) []
      ≡ replay n.log.op_log (if leb k n.rs.commit_num then k else n.rs.commit_num)
unfolding run_list replay has run_number
run_list-replay n zero c h = ground arith
run_list-replay n (suc k) c h = elim (Option-cases (lookup (suc k) n.log.op_log)) [
  | inl q ↦ ground (arith, c.logged (suc k))
  | inr (e, q) ↦ ground (
    arith,
    run_list-snoc (entry_at n.log.op_log) (upto k) (suc k) [],
    run_list-replay n k c (omega (arith, h)),
    c.flagged (suc k) e q,
  )
]

-- A primary in normal status that can answer: its log lists the operations in their order.
pub record Serves (p : Node) : Type 0 where
  pub consistent : IsConsistent p
  pub well_formed : IsWellFormed p.log
  pub ordered : p.log.op_nums ≡ upto p.rs.op_num
  pub primary : p.id ≡ p.rs.pri_id

pub run_list-view : (p : Node) → Serves p → run_list (get_log p.log).0 [] ≡ p.kv
run_list-view p s =
    let c = s.consistent in
    rw (get_log_lem p.log s.well_formed, s.ordered)
      (run_list-replay p p.rs.op_num c (omega arith)
        ∙ ap (replay p.log.op_log) (ground (arith, c.behind))
        ∙ sym c.applied)

pub numbers-IsDistinct : (h : OpLogHandler) → IsWellFormed h → IsDistinct (numbers (get_log h).0)
numbers-IsDistinct h w = rw (get_log_lem h w, numbers-view h w) w.distinct

-- The log that is rebuilt from the list of the entries finds the same entries.
lookup-set_log :
    (i : ℕ) (h h' : OpLogHandler)
    → IsWellFormed h
    → lookup i (set_log (get_log h).0 h').op_log ≡ lookup i h.op_log
unfolding get_log_entry
lookup-set_log i h h' w =
    let held = set_log-get_log (get_log h).0 h' (numbers-IsDistinct h w) in
    let rebuilt : OpLogHandler = set_log (get_log h).0 h' in
    let same : view rebuilt ≡ view h =
      ap (λ (r : List LogEntry × OpLogHandler). r.0) (sym (get_log_lem rebuilt held.well_formed))
      ∙ held.reads
      ∙ ap (λ (r : List LogEntry × OpLogHandler). r.0) (get_log_lem h w) in
    get_log_entry_lem i rebuilt held.well_formed ∙ ap (find i) same ∙ sym (get_log_entry_lem i h w)

-- The replica after it has taken over the state of the primary `p`.
abbrev pub adopted : ℕ → Node → Node → Node
adopted now p n = record n {
  kv = p.kv;
  log = set_log (get_log p.log).0 n.log;
  rs = record {
    pri_id = p.id;
    status = normal;
    view_num = p.rs.view_num;
    op_num = p.rs.op_num;
    commit_num = p.rs.commit_num;
    last_commit_time = now;
  };
}

pub adopt_lem :
    (now nonce : ℕ) (p n : Node)
    → Serves p
    → n.update_cb ≡ true
    → n.delete_cb ≡ true
    → n.kv ≡ []
    → adopt now (answer nonce p) n ≡ (done tt, adopted now p n)
unfolding adopt answer
adopt_lem now nonce p n s u d e = ground (
  arith,
  is_primary_lem p s.primary,
  recover_state_from_log_lem (get_log p.log).0 n u d,
  run_list-view p s,
)

pub adopted-IsConsistent :
    (now : ℕ) (p n : Node)
    → Serves p
    → n.update_cb ≡ true
    → n.delete_cb ≡ true
    → IsConsistent (adopted now p n)
unfolding has
adopted-IsConsistent now p n s u d =
    let c = s.consistent in
    let same = λ (i : ℕ). lookup-set_log i p.log n.log s.well_formed in
    record {
      logged = λ i. rw (has, same i) (c.logged i);
      flagged = λ i e h. c.flagged i e (sym (same i) ∙ h);
      behind = c.behind;
      applied =
          c.applied
          ∙ replay_congruent p.log.op_log (set_log (get_log p.log).0 n.log).op_log p.rs.commit_num
              (λ i below. sym (same i));
      callbacks = (u, d);
    }

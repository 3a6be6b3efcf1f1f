-- ===== src/Cluster/Answers.antt =====
-- What the primary's operations leave alone, while it handles the answers of the backups.
use meta_dr.Prelude.{
  ◌≡◌, refl, sym, ◌∙◌, inl, inr, List, [], ◌∷◌, ◌++◌, ◌==◌, nat_eq, if◌then◌else◌, arith,
  Bool-cases,
}
use mathlib.Core.Path.{subst}
use meta_dr.Types.{PrepResponse, normal, status_eq}
use meta_dr.Quorum.{WaitMap, wait_get, count_response, quorum_reached}
use meta_dr.Node.{Node, Net, Waiter, op_waiter}
use meta_dr.Replicator.{CvStatus}
use meta_dr.Replicator.Handlers.{process_prepare_ok}
use meta_dr.Replicator.Core.{SameCore, SameCore-trans}
use meta_dr.Replicator.Primary.{IsQuiet}
use meta_dr.Cluster.{take_answers, answered}

-- An answer changes nothing but the counters and the notifications.
process_prepare_ok_lem :
    (r : PrepResponse) (n : Node)
    → (w : WaitMap) × (l : List Waiter) × ((process_prepare_ok r n).1
        ≡ record n { wait_map = w; notified = l })
unfolding process_prepare_ok
process_prepare_ok_lem r n = elim (Bool-cases (n.rs.status == normal)) [
  | inr off ↦ (n.wait_map, n.notified, ground arith)
  | inl on ↦ elim (Bool-cases (r.view_num == n.rs.view_num)) [
    | inr other ↦ (n.wait_map, n.notified, ground arith)
    | inl same ↦
        let got = wait_get r.op_num n.wait_map in
        elim (Bool-cases (quorum_reached n.replicas got.0)) [
          | inl enough ↦ (got.1, n.notified, ground arith)
          | inr few ↦
              let counted = count_response r.op_num got.1 in
              (
                counted.1,
                if quorum_reached n.replicas counted.0
                    then n.notified ++ op_waiter r.op_num ∷ []
                    else n.notified,
                ground arith,
              )
        ]
  ]
]

-- The parts of a replica that say who it is, and the calls that it has made.
pub record SameRole (n m : Node) : Type 0 where
  pub id : m.id ≡ n.id
  pub replicas : m.replicas ≡ n.replicas
  pub pri_id : m.rs.pri_id ≡ n.rs.pri_id
  pub status : m.rs.status ≡ n.rs.status
  pub view_num : m.rs.view_num ≡ n.rs.view_num
  pub started : m.started ≡ n.started
  pub sent : m.sent ≡ n.sent

pub SameRole-trans : {a b c : Node} → SameRole a b → SameRole b c → SameRole a c
SameRole-trans s t = record {
  id = t.id ∙ s.id;
  replicas = t.replicas ∙ s.replicas;
  pri_id = t.pri_id ∙ s.pri_id;
  status = t.status ∙ s.status;
  view_num = t.view_num ∙ s.view_num;
  started = t.started ∙ s.started;
  sent = t.sent ∙ s.sent;
}

pub answer-SameRole : (r : PrepResponse) (n : Node) → SameRole n (process_prepare_ok r n).1
answer-SameRole r n =
    let (w, l, e) = process_prepare_ok_lem r n in
    subst (SameRole n) (sym e) (record {
      id = refl;
      replicas = refl;
      pri_id = refl;
      status = refl;
      view_num = refl;
      started = refl;
      sent = refl;
    })

pub answer-SameCore : (r : PrepResponse) (n : Node) → SameCore n (process_prepare_ok r n).1
answer-SameCore r n =
    let (w, l, e) = process_prepare_ok_lem r n in
    subst (SameCore n) (sym e) (record {
      log = refl;
      kv = refl;
      op_num = refl;
      commit_num = refl;
      update_cb = refl;
      delete_cb = refl;
    })

pub answers-SameRole : (rs : List PrepResponse) (n : Node) → SameRole n (take_answers rs n)
answers-SameRole [] n = record {
  id = refl;
  replicas = refl;
  pri_id = refl;
  status = refl;
  view_num = refl;
  started = refl;
  sent = refl;
}
answers-SameRole (r ∷ rs) n =
    SameRole-trans (answer-SameRole r n) (answers-SameRole rs (process_prepare_ok r n).1)

answers-SameCore : (rs : List PrepResponse) (n : Node) → SameCore n (take_answers rs n)
answers-SameCore [] n = record {
  log = refl;
  kv = refl;
  op_num = refl;
  commit_num = refl;
  update_cb = refl;
  delete_cb = refl;
}
answers-SameCore (r ∷ rs) n =
    SameCore-trans (answer-SameCore r n) (answers-SameCore rs (process_prepare_ok r n).1)

pub answered-IsQuiet :
    (net : Net) (calls wait : List PrepResponse) (wake : CvStatus)
    → IsQuiet (answered net calls wait wake)
answered-IsQuiet net calls wait wake = record {
  calls = answers-SameCore calls;
  wait = answers-SameCore wait;
}

-- ===== src/Cluster/Sends.antt =====
-- What the calls of the clients on the primary send to the backups.
use meta_dr.Prelude.{
  suc, refl, inl, inr, Bool, List, [], nat_eq, Bool-cases, Option-cases, Text, text_eq,
}
use meta_dr.Prelude.Dict.{lookup, erase}
use meta_dr.Prelude.Exec.{Exec, Outcome, done, throw, abort, continue, gets, modify, ◌>>=◌, ◌>>◌}
use meta_dr.Types.{Message, PrepInfo, PrepResponse, KvPair, OpType, update, delete, prepare, commit}
use meta_dr.OpLog
use meta_dr.OpLog.{push_entry}
use meta_dr.Quorum.{wait_get, quorum_reached}
use meta_dr.Node.{Node, Net}
use meta_dr.MemStore.{set_int}
use meta_dr.Replicator.{CvStatus, replicate_op, replicate_update, replicate_delete, commit_op}
use meta_dr.Replicator.Core.{broadcast, invoke_for_all_lem, prepared_entry}
use meta_dr.Replicator.Primary.{
  Leads, next_prep, numbered, counted, counter, woken, timed_out, replicate-steps,
  replicate_op-start, is_primary_lem,
}
use meta_dr.KvStore.{set, remove}
use meta_dr.Cluster.{answered}
use meta_dr.Cluster.Answers.{SameRole, SameRole-trans, answers-SameRole}
use meta_dr.Cluster.Acts.{AllSent-broadcast, Acts, Acts-trans, Acts-SameRole, Acts-refl, Acts-if}

-- What the two calls do to the map after the operation has been replicated.
store : Text → Text → Exec Node Bool
store key val = do
  n ← gets (λ n. n)
  modify (λ n. record n { kv = (set_int key val n.kv).1 })
  gets (λ _. (set_int key val n.kv).0)

drop : Text → Exec Node (Unit {0})
drop key = modify (λ m. record m { kv = erase key m.kv })

module _ (P : Message → Type 0) (net : Net) (calls wait : List PrepResponse) (wake : CvStatus) where
  Acts-woken :
      (p : PrepInfo) (n : Node)
      → P (prepare p)
      → Acts P n (woken (answered net calls wait wake) p n)
  Acts-woken p n h =
      let env = answered net calls wait wake in
      let n₂ = record n {
        log = push_entry (prepared_entry p) p.op_num n.log;
        wait_map = (wait_get p.op_num n.wait_map).1;
        sent = broadcast net (prepare p) n.id n.replicas n.sent;
      } in
      let first : Acts P n n₂ = record {
        id = refl;
        pri_id = refl;
        status = refl;
        view_num = refl;
        started = refl;
        sent = AllSent-broadcast P net (prepare p) n.id n.replicas n.sent h;
      } in
      let a = answers-SameRole calls n₂ in
      let here : SameRole n₂ (counted env p n) = record {
        id = a.id;
        replicas = a.replicas;
        pri_id = a.pri_id;
        status = a.status;
        view_num = a.view_num;
        started = a.started;
        sent = a.sent;
      } in
      Acts-trans first (
        Acts-if (quorum_reached (counted env p n).replicas (counter env p n)) (Acts-SameRole here)
          (Acts-SameRole (SameRole-trans here (answers-SameRole wait (counted env p n)))))

  Acts-commit_op :
      (p : PrepInfo) (n : Node)
      → P (commit (record { view_num = p.view_num; commit_num = p.op_num }))
      → Acts P n (commit_op net p n).1
  unfolding commit_op
  Acts-commit_op p n h = elim (Option-cases (OpLog.commit p.op_num n.log)) [
    | inl q ↦ rw q (Acts-refl n)
    | inr (log, q) ↦
        let c = commit (record { view_num = p.view_num; commit_num = p.op_num }) in
        let n₁ = record n { log = log; rs = record n.rs { commit_num = p.op_num } } in
        rw (q, invoke_for_all_lem net c n.id n.replicas n₁)
          (record {
            id = refl;
            pri_id = refl;
            status = refl;
            view_num = refl;
            started = refl;
            sent = AllSent-broadcast P net c n.id n.replicas n.sent h;
          })
  ]

  Acts-replicate_op :
      (kv : KvPair) (op : OpType) (n : Node)
      → Leads n
      → P (prepare (next_prep kv op n))
      → P (commit (record { view_num = n.rs.view_num; commit_num = suc n.rs.op_num }))
      → Acts P n (replicate_op (answered net calls wait wake) kv op n).1
  Acts-replicate_op kv op n l hp hc =
      let env = answered net calls wait wake in
      let p = next_prep kv op n in
      let n₀ = numbered p n in
      let start : Acts P n n₀ = record {
        id = refl;
        pri_id = refl;
        status = refl;
        view_num = refl;
        started = refl;
        sent = λ h. h;
      } in
      let woke = Acts-trans start (Acts-woken p n₀ hp) in
      rw (replicate_op-start env kv op n l, replicate-steps env p n₀ l.normal_status)
        (elim (Bool-cases (timed_out env p n₀)) [
          | inl late ↦ rw late woke
          | inr reached ↦ rw reached (Acts-trans woke (Acts-commit_op p (woken env p n₀) hc))
        ])

  after_set :
      (key val : Text) (n : Node) (o : Outcome (Unit {0})) (m : Node)
      → Acts P n m
      → Acts P n (continue o (λ _. store key val) m).1
  unfolding store
  after_set key val n (done _) m a = record {
    id = a.id;
    pri_id = a.pri_id;
    status = a.status;
    view_num = a.view_num;
    started = a.started;
    sent = a.sent;
  }
  after_set key val n (throw x) m a = a
  after_set key val n abort m a = a

  after_remove :
      (key : Text) (n : Node) (o : Outcome (Unit {0})) (m : Node)
      → Acts P n m
      → Acts P n (continue o (λ _. drop key) m).1
  unfolding drop
  after_remove key n (done _) m a = record {
    id = a.id;
    pri_id = a.pri_id;
    status = a.status;
    view_num = a.view_num;
    started = a.started;
    sent = a.sent;
  }
  after_remove key n (throw x) m a = a
  after_remove key n abort m a = a

  -- The same for the calls of the store.
  pub Acts-set :
      (key val : Text) (n : Node)
      → Leads n
      → P (prepare (next_prep (record { key = key; val = val }) update n))
      → P (commit (record { view_num = n.rs.view_num; commit_num = suc n.rs.op_num }))
      → Acts P n (set (answered net calls wait wake) key val n).1
  unfolding set replicate_update store
  Acts-set key val n l hp hc =
      let env = answered net calls wait wake in
      let kv : KvPair = record { key = key; val = val } in
      let acts = Acts-replicate_op kv update n l hp hc in
      let run = replicate_op env kv update n in
      rw (is_primary_lem n l.primary) (after_set key val n run.0 run.1 acts)

  pub Acts-remove :
      (key : Text) (n : Node)
      → Leads n
      → P (prepare (next_prep (record { key = key; val = [] }) delete n))
      → P (commit (record { view_num = n.rs.view_num; commit_num = suc n.rs.op_num }))
      → Acts P n (remove (answered net calls wait wake) key n).1
  unfolding remove replicate_delete drop
  Acts-remove key n l hp hc =
      let env = answered net calls wait wake in
      let kv : KvPair = record { key = key; val = [] } in
      let acts = Acts-replicate_op kv delete n l hp hc in
      let run = replicate_op env kv delete n in
      elim (Option-cases (lookup key n.kv)) [
        | inl q ↦ rw (remove, q) (Acts-refl n)
        | inr (v, q) ↦
            rw (remove, q, is_primary_lem n l.primary) (after_remove key n run.0 run.1 acts)
      ]

-- ===== src/Replicator/Primary.antt =====
-- `replicate` on the primary, between its two ends: with quorum, and timed out.
use meta_dr.Prelude.{
  ℕ, suc, ◌<◌, ◌≡◌, refl, ◌∙◌, Bool, true, false, [], ◌∷◌, ◌++◌, arith, nat_eq, if◌then◌else◌,
  Bool-cases, inl, inr, ◌⊎◌,
}
use meta_dr.Prelude.Dict.{insert, erase, lookup-insert}
use meta_dr.Prelude.Exec.{done, throw, quorum_not_reached}
use meta_dr.Types.{KvPair, OpType, PrepInfo, prepare, commit, normal, status_eq, u64_mod}
use meta_dr.ReplicaState.{incr_lem}
use meta_dr.OpLog
use meta_dr.OpLog.{push_entry}
use meta_dr.Quorum.{quorum_reached, wait_get}
use meta_dr.Node.{Node, Net}
use meta_dr.Replicator.{
  Surroundings, no_timeout, timeout, is_primary, count_op, commit_op, replicate, replicate_op,
}
use meta_dr.Replicator.Core.{
  SameCore, SameCore-trans, prepared_entry, appended, broadcast, invoke_for_all_lem, append_op_lem,
}

-- What the other threads do leaves the log, the numbers, the map and the callbacks alone.
pub record IsQuiet (env : Surroundings) : Type 0 where
  pub calls : (n : Node) → SameCore n (env.during_calls n)
  pub wait : (n : Node) → SameCore n (env.during_wait n)

-- The replica when `replicate` has counted itself.
abbrev pub counted : Surroundings → PrepInfo → Node → Node
counted env p n =
    let n₁ = record n {
      log = push_entry (prepared_entry p) p.op_num n.log;
      wait_map = (wait_get p.op_num n.wait_map).1;
    } in
    let n₂ = record n₁ { sent = broadcast env.net (prepare p) n.id n.replicas n.sent } in
    (count_op p.op_num (env.during_calls n₂)).1

abbrev pub counter : Surroundings → PrepInfo → Node → ℕ
counter env p n =
    let n₁ = record n {
      log = push_entry (prepared_entry p) p.op_num n.log;
      wait_map = (wait_get p.op_num n.wait_map).1;
    } in
    let n₂ = record n₁ { sent = broadcast env.net (prepare p) n.id n.replicas n.sent } in
    elim (count_op p.op_num (env.during_calls n₂)).0 [ done c ↦ c | _ ↦ 0 ]

-- The replica when the wait is over.
abbrev pub woken : Surroundings → PrepInfo → Node → Node
woken env p n =
    let n₃ = counted env p n in
    if quorum_reached n₃.replicas (counter env p n) then n₃ else env.during_wait n₃

abbrev pub timed_out : Surroundings → PrepInfo → Node → Bool
timed_out env p n =
    if quorum_reached (counted env p n).replicas (counter env p n)
    then false
    else elim env.wake [ no_timeout ↦ false | timeout ↦ true ]

pub replicate-steps :
    (env : Surroundings) (p : PrepInfo) (n : Node)
    → n.rs.status ≡ normal
    → replicate env p n ≡ (
        if timed_out env p n
        then (throw quorum_not_reached, woken env p n)
        else commit_op env.net p (woken env p n))
unfolding replicate
replicate-steps env p n h =
    let n₁ = record n {
      log = push_entry (prepared_entry p) p.op_num n.log;
      wait_map = (wait_get p.op_num n.wait_map).1;
    } in
    ground (arith, append_op_lem p n, invoke_for_all_lem env.net (prepare p) n.id n.replicas n₁)

-- The core of the replica after the operation has been logged and committed, before the caller
-- applies it to the map.
abbrev pub replicated : PrepInfo → Node → Node
replicated p n =
    let e = prepared_entry p in
    record n {
      rs = record n.rs { op_num = p.op_num; commit_num = p.op_num };
      log = record {
        op_log = insert p.op_num (record e { committed = true }) (insert p.op_num e n.log.op_log);
        op_nums = n.log.op_nums ++ p.op_num ∷ [];
      };
    }

abbrev pub numbered : PrepInfo → Node → Node
numbered p n = record n { rs = record n.rs { op_num = p.op_num } }

SameCore-if :
    {n a b : Node} (t : Bool) → SameCore n a → SameCore n b → SameCore n (if t then a else b)
SameCore-if true a b = a
SameCore-if false a b = b

SameCore-woken :
    (env : Surroundings) (p : PrepInfo) (n : Node)
    → IsQuiet env
    → SameCore (appended p n) (woken env p (numbered p n))
SameCore-woken env p n q =
    let m = numbered p n in
    let n₁ = record m {
      log = push_entry (prepared_entry p) p.op_num m.log;
      wait_map = (wait_get p.op_num m.wait_map).1;
    } in
    let n₂ = record n₁ { sent = broadcast env.net (prepare p) n.id n.replicas n.sent } in
    let c = q.calls n₂ in
    let here : SameCore (appended p n) (counted env p m) = record {
      log = c.log;
      kv = c.kv;
      op_num = c.op_num;
      commit_num = c.commit_num;
      update_cb = c.update_cb;
      delete_cb = c.delete_cb;
    } in
    SameCore-if (quorum_reached (counted env p m).replicas (counter env p m)) here
      (SameCore-trans here (q.wait (counted env p m)))

commit_op_lem :
    (net : Net) (p : PrepInfo) (n m : Node)
    → SameCore (appended p n) m
    → (m' : Node) × (commit_op net p m ≡ (done tt, m')) × SameCore (replicated p n) m'
unfolding commit_op OpLog.commit push_entry
commit_op_lem net p n m s = (
  m',
  ground (
    arith,
    s.log,
    lookup-insert p.op_num p.op_num (prepared_entry p) n.log.op_log,
    invoke_for_all_lem net (commit (record { view_num = p.view_num; commit_num = p.op_num })) m.id
        m.replicas m₁,
  ),
  record {
    log = refl;
    kv = s.kv;
    op_num = s.op_num;
    commit_num = refl;
    update_cb = s.update_cb;
    delete_cb = s.delete_cb;
  },
)
  where
    m₁ : Node
    m₁ = record m { log = (replicated p n).log; rs = record m.rs { commit_num = p.op_num } }

    m' : Node
    m' = record m₁ {
      sent =
          broadcast net (commit (record { view_num = p.view_num; commit_num = p.op_num })) m.id
            m.replicas m.sent;
      wait_map = erase p.op_num m.wait_map;
    }

-- `replicateUpdate` or `replicateDelete` gives the operation the next number.
abbrev pub next_prep : KvPair → OpType → Node → PrepInfo
next_prep kv_pair op_type n = record {
  view_num = n.rs.view_num;
  kv_pair = kv_pair;
  op_num = suc n.rs.op_num;
  op_type = op_type;
  commit_num = n.rs.commit_num;
}

pub record Leads (n : Node) : Type 0 where
  pub primary : n.id ≡ n.rs.pri_id
  pub normal_status : n.rs.status ≡ normal
  pub started : n.started ≡ true
  pub fits : suc n.rs.op_num < u64_mod

pub is_primary_lem : (n : Node) → n.id ≡ n.rs.pri_id → is_primary n ≡ true
unfolding is_primary
is_primary_lem n h = ground arith

pub replicate_op-start :
    (env : Surroundings) (kv : KvPair) (op : OpType) (n : Node)
    → Leads n
    → replicate_op env kv op n ≡ replicate env (next_prep kv op n) (numbered (next_prep kv op n) n)
unfolding replicate_op
replicate_op-start env kv op n l =
    simp (l.started, is_primary_lem n l.primary, incr_lem n.rs.op_num l.fits)

wake_late :
    (env : Surroundings) (p : PrepInfo) (n : Node) → timed_out env p n ≡ true → env.wake ≡ timeout
wake_late env p n h = ground arith

-- The two ends of the replication of an operation by a primary.
pub replicate_op-ends :
    (env : Surroundings) (kv : KvPair) (op : OpType) (n : Node)
    → IsQuiet env
    → Leads n
    → ((m : Node) × (replicate_op env kv op n ≡ (done tt, m))
        × SameCore (replicated (next_prep kv op n) n) m)
      ⊎ ((m : Node) × (replicate_op env kv op n ≡ (throw quorum_not_reached, m))
          × (env.wake ≡ timeout)
          × SameCore (appended (next_prep kv op n) n) m)
replicate_op-ends env kv op n q l =
    let p = next_prep kv op n in
    let w = SameCore-woken env p n q in
    let (m, run, core) = commit_op_lem env.net p n (woken env p (numbered p n)) w in
    let start =
      replicate_op-start env kv op n l ∙ replicate-steps env p (numbered p n) l.normal_status in
    elim (Bool-cases (timed_out env p (numbered p n))) [
      | inl late ↦
          inr (woken env p (numbered p n), start ∙ rw late, wake_late env p (numbered p n) late, w)
      | inr reached ↦ inl (m, start ∙ rw reached run, core)
    ]

-- ===== src/Replicator/Core.antt =====
-- What a replica's consistency rests on, and the calls and threads that leave it alone.
use meta_dr.Prelude.{
  ℕ, suc, ◌≡◌, refl, sym, ◌∙◌, false, List, [], ◌∷◌, ◌++◌, arith, ◌==◌, nat_eq, if◌then◌else◌,
}
use meta_dr.Prelude.Dict.{Dict, has, lookup-insert}
use meta_dr.Prelude.Exec.{done}
use meta_dr.Types.{EndPoint, LogEntry, Message, KvPair, PrepInfo, update, delete}
use meta_dr.OpLog.{push_entry, append_update, append_delete}
use meta_dr.Node.{Node, Net, Packet, try_calls, invoke, invoke_for_all}
use meta_dr.Replicator.{append_op}
use meta_dr.Replicator.Replay.{replay-insert_later}
use meta_dr.Replicator.Consistent.{IsConsistent}

-- The fields that `IsConsistent` reads are the same.
pub record SameCore (n m : Node) : Type 0 where
  pub log : m.log ≡ n.log
  pub kv : m.kv ≡ n.kv
  pub op_num : m.rs.op_num ≡ n.rs.op_num
  pub commit_num : m.rs.commit_num ≡ n.rs.commit_num
  pub update_cb : m.update_cb ≡ n.update_cb
  pub delete_cb : m.delete_cb ≡ n.delete_cb

pub SameCore-IsConsistent : {n m : Node} → SameCore n m → IsConsistent n → IsConsistent m
SameCore-IsConsistent s c = record {
  logged = λ i. ground (arith, s.log, s.op_num, c.logged i);
  flagged = λ i e h. ground (arith, s.log, s.commit_num, c.flagged i e);
  behind = ground (arith, s.op_num, s.commit_num, c.behind);
  applied = ground (arith, s.kv, s.log, s.commit_num, c.applied);
  callbacks = ground (arith, s.update_cb, s.delete_cb, c.callbacks);
}

pub SameCore-trans : {a b c : Node} → SameCore a b → SameCore b c → SameCore a c
SameCore-trans s t = record {
  log = t.log ∙ s.log;
  kv = t.kv ∙ s.kv;
  op_num = t.op_num ∙ s.op_num;
  commit_num = t.commit_num ∙ s.commit_num;
  update_cb = t.update_cb ∙ s.update_cb;
  delete_cb = t.delete_cb ∙ s.delete_cb;
}

-- The calls that `invokeForAllReplicas` adds.
unfoldable pub broadcast : Net → Message → ℕ → Dict ℕ EndPoint → List Packet → List Packet
broadcast net m id [] sent = sent
broadcast net m id ((rid, ep) ∷ rest) sent = broadcast net m id rest (
    if rid == id
    then sent
    else if try_calls (net ep m) 0 2
    then sent ++ record { to = ep; message = m } ∷ []
    else sent)

pub invoke_for_all_lem :
    (net : Net) (m : Message) (id : ℕ) (replicas : Dict ℕ EndPoint) (n : Node)
    → invoke_for_all net m id replicas n
      ≡ (done tt, record n { sent = broadcast net m id replicas n.sent })
unfolding invoke_for_all broadcast invoke
invoke_for_all_lem net m id [] n = refl
invoke_for_all_lem net m id ((rid, ep) ∷ rest) n = ground (
  arith,
  invoke_for_all_lem net m id rest n,
  invoke_for_all_lem net m id rest
      (record n { sent = n.sent ++ record { to = ep; message = m } ∷ [] }),
)

-- The entry that the log gets for a prepared operation: a delete keeps the key alone.
abbrev pub prepared_pair : PrepInfo → KvPair
prepared_pair p = elim p.op_type [
  | update ↦ p.kv_pair
  | delete ↦ record { key = p.kv_pair.key; val = [] }
]

abbrev pub prepared_entry : PrepInfo → LogEntry
prepared_entry p = record {
  kv_pair = prepared_pair p;
  op_type = p.op_type;
  op_num = p.op_num;
  committed = false;
}

-- The replica after it has logged an operation under its next number.
abbrev pub appended : PrepInfo → Node → Node
appended p n = record n {
  rs = record n.rs { op_num = p.op_num };
  log = push_entry (prepared_entry p) p.op_num n.log;
}

pub append_op_lem :
    (p : PrepInfo) (n : Node)
    → append_op p n ≡ (done tt, record n { log = push_entry (prepared_entry p) p.op_num n.log })
unfolding append_op append_update append_delete
append_op_lem p n = ground arith

pub appended-IsConsistent :
    (p : PrepInfo) (n : Node)
    → IsConsistent n
    → p.op_num ≡ suc n.rs.op_num
    → IsConsistent (appended p n)
unfolding push_entry has
appended-IsConsistent p n c q = record {
  logged =
      λ i. ground (arith, c.logged i, lookup-insert p.op_num i (prepared_entry p) n.log.op_log);
  flagged = λ i e h.
      ground
        (arith, c.flagged i e, c.behind, lookup-insert p.op_num i (prepared_entry p) n.log.op_log);
  behind = omega (arith, c.behind);
  applied =
      c.applied
      ∙ sym (
          replay-insert_later n.log.op_log p.op_num (prepared_entry p) n.rs.commit_num
            (omega (arith, c.behind)));
  callbacks = c.callbacks;
}

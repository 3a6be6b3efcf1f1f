-- ===== src/Replicator/Logging.antt =====
-- One round of `processPrepInfo` on a consistent backup.
use meta_dr.Prelude.{
  suc, ◌<◌, ◌≡◌, ◌≢◌, refl, some, List, [], ◌∷◌, ◌++◌, arith, nat_eq, if◌then◌else◌, ◌⊎◌, inl, inr,
}
use native.Mathlib.Decide.{ℕ_discrete}
use meta_dr.Prelude.Dict.{lookup, get_or_insert}
use meta_dr.Prelude.Exec.{done, abort}
use meta_dr.Types.{EndPoint, normal, status_eq, PrepInfo, prepare_ok, u64_mod}
use meta_dr.ReplicaState.{incr_lem}
use meta_dr.OpLog.{push_entry, append_update, append_delete}
use meta_dr.Node.{Node, Net, Packet, invoke, try_calls}
use meta_dr.Replicator.{is_primary, append_op}
use meta_dr.Replicator.Handlers.{process_prep_info}
use meta_dr.Replicator.Consistent.{IsConsistent}
use meta_dr.Replicator.Core.{prepared_entry, appended, appended-IsConsistent, SameCore-IsConsistent}

-- The calls that `prepareOk` leaves in the list of sent calls: one, if a try succeeds.
abbrev pub answered : Net → PrepInfo → EndPoint → Node → List Packet
answered net p ep n =
    let m =
      prepare_ok (record { view_num = n.rs.view_num; op_num = p.op_num; replica_id = n.id }) in
    if try_calls (net ep m) 0 2 then n.sent ++ record { to = ep; message = m } ∷ [] else n.sent

abbrev pub after_logging : Net → PrepInfo → List PrepInfo → EndPoint → Node → Node
after_logging net p rest ep n = record n {
  prep_req_q = rest;
  rs = record n.rs { op_num = p.op_num };
  log = push_entry (prepared_entry p) p.op_num n.log;
  sent = answered net p ep n;
}

-- The backup takes a prepared operation from its queue.
pub record Takes (n : Node) (p : PrepInfo) (rest : List PrepInfo) (primary : EndPoint)
    : Type 0 where
  pub queued : n.prep_req_q ≡ p ∷ rest
  pub backup : n.id ≢ n.rs.pri_id
  pub normal_status : n.rs.status ≡ normal
  pub same_view : p.view_num ≡ n.rs.view_num
  pub endpoint : lookup n.rs.pri_id n.replicas ≡ some primary
  pub fits : suc n.rs.op_num < u64_mod

module _ (net : Net) (n : Node) (p : PrepInfo) (rest : List PrepInfo) (ep : EndPoint) where
  process_prep_info-next :
      Takes n p rest ep
      → p.op_num ≡ suc n.rs.op_num
      → process_prep_info net n ≡ (done tt, after_logging net p rest ep n)
  unfolding process_prep_info is_primary append_op append_update append_delete get_or_insert invoke
  process_prep_info-next t q = ground (
    arith,
    t.queued,
    t.backup,
    t.normal_status,
    t.same_view,
    t.endpoint,
    incr_lem n.rs.op_num t.fits,
  )

  process_prep_info-gap :
      Takes n p rest ep → p.op_num ≢ suc n.rs.op_num → (process_prep_info net n).0 ≡ abort
  unfolding process_prep_info is_primary
  process_prep_info-gap t q =
      ground (arith, t.queued, t.backup, t.normal_status, t.same_view, incr_lem n.rs.op_num t.fits)

  after_logging-IsConsistent :
      IsConsistent n → p.op_num ≡ suc n.rs.op_num → IsConsistent (after_logging net p rest ep n)
  after_logging-IsConsistent c q =
      SameCore-IsConsistent {n = appended p n}
        (record {
          log = refl;
          kv = refl;
          op_num = refl;
          commit_num = refl;
          update_cb = refl;
          delete_cb = refl;
        })
        (appended-IsConsistent p n c q)

-- A consistent backup in normal status that knows the primary's endpoint and takes an operation of its
-- view from the queue: if it is the one after its last, the backup logs it, answers the primary,
-- commits nothing and leaves its map alone, and stays consistent; for any other number its
-- assertion fails.
pub process_prep_info-logs :
    (net : Net) (n : Node) (p : PrepInfo) (rest : List PrepInfo) (ep : EndPoint)
    → IsConsistent n
    → Takes n p rest ep
    → ((p.op_num ≡ suc n.rs.op_num)
        × (process_prep_info net n ≡ (done tt, after_logging net p rest ep n))
        × IsConsistent (after_logging net p rest ep n))
      ⊎ ((p.op_num ≢ suc n.rs.op_num) × ((process_prep_info net n).0 ≡ abort))
process_prep_info-logs net n p rest ep c t = elim (ℕ_discrete p.op_num (suc n.rs.op_num)) [
  | yes q ↦ inl (
    q,
    process_prep_info-next net n p rest ep t q,
    after_logging-IsConsistent net n p rest ep c q,
  )
  | no q ↦ inr (q, process_prep_info-gap net n p rest ep t q)
]

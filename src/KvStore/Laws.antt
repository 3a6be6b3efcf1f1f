-- ===== src/KvStore/Laws.antt =====
-- The primary's `set` and `remove` keep its map the replay of its log, as long as no earlier operation
-- has timed out.
use meta_dr.Prelude.{suc, ◌≡◌, ◌∙◌, ap, Bool, some, arith, nat_eq, Text, text_eq, [], inl, inr, ◌⊎◌}
use meta_dr.Prelude.Dict.{Dict, lookup, insert, erase, lookup-insert}
use meta_dr.Prelude.Exec.{done, throw, quorum_not_reached}
use meta_dr.Types.{update, delete, PrepInfo}
use meta_dr.OpLog.{push_entry}
use meta_dr.MemStore.{set_int, has_key}
use meta_dr.Node.{Node}
use meta_dr.Replicator.{Surroundings, timeout, replicate_update, replicate_delete}
use meta_dr.Replicator.Replay.{run_entry}
use meta_dr.Replicator.Consistent.{IsConsistent, after_commit-IsConsistent}
use meta_dr.Replicator.Core.{
  SameCore, SameCore-IsConsistent, prepared_entry, appended, appended-IsConsistent,
}
use meta_dr.Replicator.Primary.{
  IsQuiet, Leads, is_primary_lem, next_prep, replicated, replicate_op-ends,
}
use meta_dr.KvStore.{set, remove}

abbrev pub update_prep : Text → Text → Node → PrepInfo
update_prep key val = next_prep (record { key = key; val = val }) update

abbrev pub delete_prep : Text → Node → PrepInfo
delete_prep key = next_prep (record { key = key; val = [] }) delete

-- A replica whose map has taken the operation that it has committed last.
abbrev pub with_kv : Dict Text Text → Node → Node
with_kv kv n = record n { kv = kv }

-- After the commit and the change of the map the replica is as after `after_commit`.
pub replicated-IsConsistent :
    (p : PrepInfo) (n m : Node)
    → IsConsistent n
    → n.rs.commit_num ≡ n.rs.op_num
    → p.op_num ≡ suc n.rs.op_num
    → SameCore (with_kv (run_entry (prepared_entry p) n.kv) (replicated p n)) m
    → IsConsistent m
unfolding push_entry
replicated-IsConsistent p n m c caught q s =
    SameCore-IsConsistent
      (record {
        log = s.log ∙ ground arith;
        kv = s.kv;
        op_num = s.op_num;
        commit_num = s.commit_num ∙ ground arith;
        update_cb = s.update_cb;
        delete_cb = s.delete_cb;
      })
      (after_commit-IsConsistent (prepared_entry p) (appended p n) (appended-IsConsistent p n c q)
        (ground arith)
        (ground (arith, lookup-insert p.op_num p.op_num (prepared_entry p) n.log.op_log)))

module _ (env : Surroundings) (n : Node) (quiet : IsQuiet env) (lead : Leads n) where
  -- The two ends of `set`, in terms of the core of the state.
  pub set-ends :
      (key val : Text)
      → ((m : Node) × (b : Bool) × (set env key val n ≡ (done b, m))
          × SameCore (with_kv (insert key val n.kv) (replicated (update_prep key val n) n)) m)
        ⊎ ((m : Node) × (set env key val n ≡ (throw quorum_not_reached, m))
            × (env.wake ≡ timeout)
            × SameCore (appended (update_prep key val n) n) m)
  unfolding set replicate_update set_int
  set-ends key val =
      elim (replicate_op-ends env (record { key = key; val = val }) update n quiet lead) [
        | inl (m, run, s) ↦ inl (
          with_kv (insert key val m.kv) m,
          has_key key m.kv,
          simp (is_primary_lem n lead.primary, run),
          record {
            log = s.log;
            kv = ap (insert key val) s.kv;
            op_num = s.op_num;
            commit_num = s.commit_num;
            update_cb = s.update_cb;
            delete_cb = s.delete_cb;
          },
        )
        | inr (m, run, late, s) ↦ inr (m, simp (is_primary_lem n lead.primary, run), late, s)
      ]

  pub remove-ends :
      (key val : Text)
      → lookup key n.kv ≡ some val
      → ((m : Node) × (remove env key n ≡ (done tt, m))
          × SameCore (with_kv (erase key n.kv) (replicated (delete_prep key n) n)) m)
        ⊎ ((m : Node) × (remove env key n ≡ (throw quorum_not_reached, m))
            × (env.wake ≡ timeout)
            × SameCore (appended (delete_prep key n) n) m)
  unfolding remove replicate_delete
  remove-ends key val there =
      elim (replicate_op-ends env (record { key = key; val = [] }) delete n quiet lead) [
        | inl (m, run, s) ↦ inl (
          with_kv (erase key m.kv) m,
          rw (there, remove) (simp (is_primary_lem n lead.primary, run)),
          record {
            log = s.log;
            kv = ap (erase key) s.kv;
            op_num = s.op_num;
            commit_num = s.commit_num;
            update_cb = s.update_cb;
            delete_cb = s.delete_cb;
          },
        )
        | inr (m, run, late, s) ↦
            inr (m, rw (there, remove) (simp (is_primary_lem n lead.primary, run)), late, s)
      ]

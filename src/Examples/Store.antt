-- ===== src/Examples/Store.antt =====
-- The theorems on the store and on the calls of the clients, at a primary with one key.
use meta_dr.Prelude.{suc, ◌≡◌, ◌⊎◌, refl, false, Bool, some, [], arith, nat_eq, text_eq, codes}
use meta_dr.Prelude.Dict.{lookup, insert, erase, has, get_or_insert}
use meta_dr.Prelude.Exec.{done, throw, quorum_not_reached}
use meta_dr.OpLog
use meta_dr.OpLog.{push_entry, append_update}
use meta_dr.Quorum.{quorum_reached, wait_get, count_response, majority_cnt}
use meta_dr.ReplicaState.{incr}
use meta_dr.MemStore.{set_int, has_key}
use meta_dr.Node.{Node, invoke, invoke_for_all}
use meta_dr.Replicator.{timeout, is_primary, append_op, replicate, replicate_op, replicate_update}
use meta_dr.Replicator.Replay.{replay, run_entry}
use meta_dr.Replicator.Consistent.{IsConsistent}
use meta_dr.Replicator.Core.{prepared_entry, appended, appended-IsConsistent}
use meta_dr.Replicator.Primary.{Leads}
use meta_dr.KvStore
use meta_dr.KvStore.Contract.{
  Committed, Pending, set-Committed, remove-Committed, set_skips_pending,
}
use meta_dr.Api.Prune.{IsPruned}
use meta_dr.Api.Listing.{IsTree, insert-IsTree}
use meta_dr.Api.Server
use meta_dr.Api.Server.{Result}
use meta_dr.Api.Server.Tree.{create-IsTree, remove-IsTree}
use meta_dr.Examples.{
  fresh, fresh-IsConsistent, settled, settled-IsConsistent, prep, calm, late, calm-IsQuiet,
  late-IsQuiet, text_a, text_ab, text_x,
}

settled-Leads : Leads (settled 0)
settled-Leads = record { primary = refl; normal_status = refl; started = refl; fits = ground arith }

set-Committed_example :
    ((m : Node) × (b : Bool) × (KvStore.set late text_ab text_x (settled 0) ≡ (done b, m))
      × Committed (settled 0) m (insert text_ab text_x (settled 0).kv))
    ⊎ ((m : Node) × (KvStore.set late text_ab text_x (settled 0) ≡ (throw quorum_not_reached, m))
        × (late.wake ≡ timeout)
        × Pending (settled 0) m)
set-Committed_example =
    set-Committed late text_ab text_x (settled 0) late-IsQuiet settled-Leads
      (settled-IsConsistent 0) refl

settled-kv : lookup text_a (settled 0).kv ≡ some text_x
unfolding run_entry set_int insert lookup
settled-kv = refl

remove-Committed_example :
    ((m : Node) × (KvStore.remove calm text_a (settled 0) ≡ (done tt, m))
      × Committed (settled 0) m (erase text_a (settled 0).kv))
    ⊎ ((m : Node) × (KvStore.remove calm text_a (settled 0) ≡ (throw quorum_not_reached, m))
        × (calm.wake ≡ timeout)
        × Pending (settled 0) m)
remove-Committed_example =
    remove-Committed calm text_a text_x (settled 0) calm-IsQuiet settled-Leads
      (settled-IsConsistent 0) refl settled-kv

-- A primary whose first operation has timed out.
abbrev pending : Node
pending = appended (prep 1) (fresh 0)

pending-IsConsistent : IsConsistent pending
pending-IsConsistent = appended-IsConsistent (prep 1) (fresh 0) (fresh-IsConsistent 0) refl

pending-Leads : Leads pending
pending-Leads = record { primary = refl; normal_status = refl; started = refl; fits = ground arith }

abbrev skipped : Node
skipped = (KvStore.set calm text_ab text_x pending).1

pending-entry : lookup pending.rs.op_num pending.log.op_log ≡ some (prepared_entry (prep 1))
unfolding push_entry insert lookup
pending-entry = refl

skipped-run : KvStore.set calm text_ab text_x pending ≡ (done false, skipped)
unfolding KvStore.set replicate_update replicate_op replicate is_primary append_op append_update
    invoke_for_all invoke quorum_reached wait_get count_response OpLog.commit lookup insert set_int
    has_key has incr erase majority_cnt get_or_insert push_entry
skipped-run = refl

set_skips_pending_example :
    (skipped.rs.commit_num ≡ suc pending.rs.op_num)
    × (skipped.kv ≡ insert text_ab text_x pending.kv)
    × (replay skipped.log.op_log skipped.rs.commit_num
        ≡ insert text_ab text_x (run_entry (prepared_entry (prep 1)) pending.kv))
set_skips_pending_example =
    set_skips_pending calm text_ab text_x pending skipped false (prepared_entry (prep 1))
      calm-IsQuiet pending-Leads pending-IsConsistent refl pending-entry skipped-run

IsTree-empty : IsTree []
unfolding has lookup
IsTree-empty parent key c h filled = cc

IsPruned-a : IsPruned text_a 0
IsPruned-a = record {
  parent = [];
  leaf = codes "a";
  split = refl;
  index = refl;
  clean = refl;
  single = (refl, tt);
}

settled-IsTree : IsTree (settled 0).kv
unfolding run_entry set_int
settled-IsTree =
    insert-IsTree text_a text_x 0 [] IsTree-empty IsPruned-a (λ lt. absurd (omega (arith, lt)))

create-IsTree_example :
    (r : Result) × (m : Node) × (Server.create calm
        (record { key = text_ab; val = text_x })
        (settled 0)
      ≡ (done r, m))
    × IsTree m.kv
create-IsTree_example =
    create-IsTree calm (record { key = text_ab; val = text_x }) (settled 0) calm-IsQuiet
      settled-Leads settled-IsTree

remove-IsTree_example :
    (r : Result) × (m : Node) × (Server.remove late text_a (settled 0) ≡ (done r, m)) × IsTree m.kv
remove-IsTree_example =
    remove-IsTree late text_a (settled 0) late-IsQuiet settled-Leads settled-IsTree

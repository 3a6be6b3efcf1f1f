-- ===== src/Examples/Restart.antt =====
-- The theorem on the recovery, at replica 1, which has heard from the primary and from replica 2.
use meta_dr.Prelude.{◌≡◌, refl, true, [], ◌∷◌, arith, inl, nat_eq}
use meta_dr.Prelude.Dict.{lookup, insert, has}
use meta_dr.Prelude.Exec.{done}
use meta_dr.OpLog
use meta_dr.OpLog.Model.{IsWellFormed}
use meta_dr.Quorum.{majority_cnt}
use meta_dr.Node.{Node}
use meta_dr.Recovery.{highest_view, restore, answer}
use meta_dr.Recovery.Adopt.{Serves}
use meta_dr.Recovery.Restore.{Heard, Recovered, restore-Recovered}
use meta_dr.Examples.{fresh, settled, settled-IsConsistent}

settled-IsWellFormed : IsWellFormed (settled 0).log
unfolding has lookup insert OpLog.push_entry
settled-IsWellFormed = record {
  listed = λ n. ground arith;
  numbered = λ n e h. ground arith;
  distinct = (refl, tt);
  sized = refl;
}

settled-Serves : Serves (settled 0)
unfolding OpLog.push_entry
settled-Serves = record {
  consistent = settled-IsConsistent 0;
  well_formed = settled-IsWellFormed;
  ordered = refl;
  primary = refl;
}

abbrev restarted : Node
restarted = record (fresh 1) {
  recovery = record (fresh 1).recovery {
    recovery_resp_map = (7, answer 7 (settled 0) ∷ []) ∷ [];
    resp_view_cnt = (0, 2) ∷ [];
    received_resp_from_pri = true;
  };
}

restarted-Heard : Heard restarted (settled 0) 7
unfolding lookup highest_view majority_cnt answer
restarted-Heard = record {
  responses = answer 7 (settled 0) ∷ [];
  stored = refl;
  highest = ground arith;
  known = ((ground arith, λ v b. refl), tt);
  answered = inl refl;
}

restore-Recovered_example :
    (m : Node) × (restore 9 7 restarted ≡ (done tt, m)) × Recovered (settled 0) m
restore-Recovered_example =
    restore-Recovered 9 7 restarted (settled 0) settled-Serves restarted-Heard (refl, refl) refl

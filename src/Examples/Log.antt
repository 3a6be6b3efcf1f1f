-- ===== src/Examples/Log.antt =====
-- The theorems on the operation log, at a log of two entries.
use meta_dr.Prelude.{
  ◌≡◌, ◌⊎◌, ◌↔◌, refl, true, false, none, some, List, [], ◌∷◌, ◌++◌, map, length, nat_eq,
}
use meta_dr.Types.{LogEntry, KvPair, update, delete}
use meta_dr.OpLog.{
  OpLogHandler, empty, append_update, append_delete, get_log, set_log, has_entry, commit,
  get_log_entry, log_size,
}
use meta_dr.OpLog.Model.{IsWellFormed, mark_committed, find}
use meta_dr.OpLog.Contract.{
  Holds, new_entry, key_only, append_refines, commit_refines, queries_refine, set_log-get_log,
}
use meta_dr.Replicator.Core.{prepared_entry}
use meta_dr.Examples.{kept, prep, text_a, text_x}

abbrev two_entries : List LogEntry
two_entries = kept 1 ∷ prepared_entry (prep 2) ∷ []

abbrev two_log : OpLogHandler
two_log = set_log two_entries empty

two_log-IsWellFormed : IsWellFormed two_log
two_log-IsWellFormed = (set_log-get_log two_entries empty (refl, (refl, tt))).well_formed

abbrev pair_x : KvPair
pair_x = record { key = text_a; val = text_x }

append_refines_example :
    Holds (append_update pair_x 3 two_log) ((get_log two_log).0 ++ new_entry pair_x update 3 ∷ [])
    × Holds
        (append_delete text_a 3 two_log)
        ((get_log two_log).0 ++ new_entry (key_only text_a) delete 3 ∷ [])
unfolding set_log
append_refines_example = append_refines two_log pair_x text_a 3 two_log-IsWellFormed refl

commit_refines_example :
    ((has_entry 2 two_log ≡ false) × (commit 2 two_log ≡ none))
    ⊎ ((h' : OpLogHandler) × (has_entry 2 two_log ≡ true)
        × (commit 2 two_log ≡ some h')
        × Holds h' (map (mark_committed 2) (get_log two_log).0))
commit_refines_example = commit_refines 2 two_log two_log-IsWellFormed

queries_refine_example :
    (get_log_entry 1 two_log ≡ find 1 (get_log two_log).0)
    × ((has_entry 1 two_log ≡ true) ↔ ((e : LogEntry) × (find 1 (get_log two_log).0 ≡ some e)))
    × (log_size two_log ≡ length (get_log two_log).0)
    × ((get_log two_log).1 ≡ two_log)
queries_refine_example = queries_refine 1 two_log two_log-IsWellFormed

set_log-get_log_example : Holds (set_log two_entries (append_delete text_a 7 empty)) two_entries
set_log-get_log_example =
    set_log-get_log two_entries (append_delete text_a 7 empty) (refl, (refl, tt))

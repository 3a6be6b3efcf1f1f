-- ===== src/Replicator/Replay.antt =====
-- The key-value map as the replay of a log: what a replica's map should be after its commits.
use meta_dr.Prelude.{
  ℕ, zero, suc, ◌≤◌, ◌<◌, ◌≡◌, refl, true, none, some, [], arith, Text, nat_eq, text_eq,
}
use meta_dr.Prelude.Dict.{Dict, lookup, insert, lookup-insert}
use meta_dr.MemStore.{set_int, remove_int}
use meta_dr.Types.{LogEntry, update, delete}

-- One operation on the map.
unfoldable pub run_entry : LogEntry → Dict Text Text → Dict Text Text
run_entry e kv = elim e.op_type [
  | update ↦ (set_int e.kv_pair.key e.kv_pair.val kv).1
  | delete ↦ remove_int e.kv_pair.key kv
]

-- A number with no entry changes nothing.
unfoldable pub run_number : Dict ℕ LogEntry → ℕ → Dict Text Text → Dict Text Text
run_number log n kv = elim (lookup n log) [ none ↦ kv | some e ↦ run_entry e kv ]

-- The entries 1, 2, …, `n` in this order, from the empty map.
unfoldable pub replay : Dict ℕ LogEntry → ℕ → Dict Text Text
replay log zero = []
replay log (suc n) = run_number log (suc n) (replay log n)

-- A later entry does not change what the first `n` do.
pub replay-insert_later :
    (log : Dict ℕ LogEntry) (k : ℕ) (e : LogEntry) (n : ℕ)
    → n < k
    → replay (insert k e log) n ≡ replay log n
unfolding replay run_number
replay-insert_later log k e zero h = refl
replay-insert_later log k e (suc n) h =
    ground (arith, replay-insert_later log k e n, lookup-insert k (suc n) e log)

-- Setting the flag of an entry does not change what any prefix does.
pub replay-commit :
    (log : Dict ℕ LogEntry) (k : ℕ) (e : LogEntry) (n : ℕ)
    → lookup k log ≡ some e
    → replay (insert k (record e { committed = true }) log) n ≡ replay log n
unfolding replay run_number run_entry
replay-commit log k e zero h = refl
replay-commit log k e (suc n) h =
    ground
      (arith, replay-commit log k e n, lookup-insert k (suc n) (record e { committed = true }) log)

-- Two logs that agree on 1, …, `n` replay to the same map.
pub replay_congruent :
    (log log' : Dict ℕ LogEntry) (n : ℕ)
    → ((i : ℕ) → i ≤ n → lookup i log ≡ lookup i log')
    → replay log n ≡ replay log' n
unfolding replay run_number
replay_congruent log log' zero h = refl
replay_congruent log log' (suc n) h =
    ground (arith, replay_congruent log log' n (λ i p. h i (omega arith)), h (suc n) (omega arith))

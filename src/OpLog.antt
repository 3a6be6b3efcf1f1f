-- ===== src/OpLog.antt =====
-- server/inMemOpLogHandler.cc: the operation log of one replica. `_opLog` maps an operation number
-- to its entry, `_opNums` keeps the order of arrival. The methods run under `_logMutex`, so each is
-- one step.
pub mod Model
pub mod Refines
pub mod Contract
use meta_dr.Prelude.{
  ℕ, Bool, true, false, Option, none, some, List, [], ◌∷◌, ◌++◌, Text, length, nat_eq,
}
use meta_dr.Prelude.Dict.{Dict, lookup, insert, has, get_or_insert}
use meta_dr.Types.{KvPair, LogEntry, update, delete, default_entry}

pub record OpLogHandler : Type 0 where
  pub op_log : Dict ℕ LogEntry
  pub op_nums : List ℕ

abbrev pub empty : OpLogHandler
empty = record { op_log = []; op_nums = [] }

-- The last two statements of both appends.
unfoldable pub push_entry : LogEntry → ℕ → OpLogHandler → OpLogHandler
push_entry entry op_num h = record {
  op_log = insert op_num entry h.op_log;
  op_nums = h.op_nums ++ op_num ∷ [];
}

unfoldable pub append_update : KvPair → ℕ → OpLogHandler → OpLogHandler
unfolding push_entry
append_update kv_pair op_num =
    push_entry (record { kv_pair = kv_pair; op_type = update; op_num = op_num; committed = false })
      op_num

unfoldable pub append_delete : Text → ℕ → OpLogHandler → OpLogHandler
unfolding push_entry
append_delete key op_num =
    push_entry
      (record {
        kv_pair = record { key = key; val = [] };
        op_type = delete;
        op_num = op_num;
        committed = false;
      })
      op_num

unfoldable pub log_size : OpLogHandler → ℕ
log_size h = length h.op_log

-- `none` is the failed `assert`.
unfoldable pub get_log_entry : ℕ → OpLogHandler → Option LogEntry
get_log_entry op_num h = lookup op_num h.op_log

-- The loop of `getLog`: `_opLog[opNum]` inserts a default entry for a missing number.
read_entries : List ℕ → Dict ℕ LogEntry → List LogEntry × Dict ℕ LogEntry
read_entries [] m = ([], m)
read_entries (n ∷ ns) m =
    let (entry, m') = get_or_insert n default_entry m in
    let (rest, m'') = read_entries ns m' in (entry ∷ rest, m'')

unfoldable pub get_log : OpLogHandler → List LogEntry × OpLogHandler
unfolding read_entries
get_log h = let (entries, m) = read_entries h.op_nums h.op_log in (entries, record h { op_log = m })

-- The loop of `setLog`.
unfoldable pub store_entries : List LogEntry → OpLogHandler → OpLogHandler
unfolding push_entry
store_entries [] h = h
store_entries (e ∷ es) h = store_entries es (push_entry e e.op_num h)

unfoldable pub set_log : List LogEntry → OpLogHandler → OpLogHandler
unfolding store_entries
set_log entries h = store_entries entries empty

unfoldable pub has_entry : ℕ → OpLogHandler → Bool
has_entry op_num h = has op_num h.op_log

unfoldable pub commit : ℕ → OpLogHandler → Option OpLogHandler
commit op_num h = elim (lookup op_num h.op_log) [
  | none ↦ none
  | some e ↦ some (record h { op_log = insert op_num (record e { committed = true }) h.op_log })
]

-- ===== src/OpLog/Model.antt =====
-- The operation log as the plain list of its entries, and the invariant under which the handler of
-- server/inMemOpLogHandler.cc stands for that list.
use meta_dr.Prelude.{
  ℕ, ◌≡◌, refl, ◌∙◌, Bool, true, false, ◌||◌, Option, none, some, List, [], ◌∷◌, map, arith, ◌==◌,
  nat_eq, if◌then◌else◌, All, length,
}
use meta_dr.Prelude.Dict.{Dict, lookup, has, get_or_insert}
use meta_dr.Types.{LogEntry, default_entry}
use meta_dr.OpLog.{OpLogHandler, read_entries, get_log}

abbrev pub elem : ℕ → List ℕ → Bool
elem n [] = false
elem n (x ∷ xs) = x == n || elem n xs

-- No number twice.
abbrev pub IsDistinct : List ℕ → Type 0
IsDistinct [] = Unit
IsDistinct (x ∷ xs) = (elem x xs ≡ false) × IsDistinct xs

pub record IsWellFormed (h : OpLogHandler) : Type 0 where
  pub listed : (n : ℕ) → has n h.op_log ≡ elem n h.op_nums
  pub numbered : (n : ℕ) (e : LogEntry) → lookup n h.op_log ≡ some e → e.op_num ≡ n
  pub distinct : IsDistinct h.op_nums
  pub sized : length h.op_log ≡ length h.op_nums

abbrev pub entry_at : Dict ℕ LogEntry → ℕ → LogEntry
entry_at m n = elim (lookup n m) [ none ↦ default_entry | some e ↦ e ]

-- The entries in the order of arrival.
abbrev pub view : OpLogHandler → List LogEntry
view h = map (entry_at h.op_log) h.op_nums

abbrev pub numbers : List LogEntry → List ℕ
numbers = map (λ e. e.op_num)

abbrev pub mark_committed : ℕ → LogEntry → LogEntry
mark_committed n e = if e.op_num == n then record e { committed = true } else e

abbrev pub find : ℕ → List LogEntry → Option LogEntry
find n [] = none
find n (e ∷ es) = if e.op_num == n then some e else find n es

read_entries_lem :
    (ns : List ℕ) (m : Dict ℕ LogEntry)
    → All (λ n. has n m ≡ true) ns
    → read_entries ns m ≡ (map (entry_at m) ns, m)
unfolding read_entries get_or_insert has
read_entries_lem [] m h = refl
read_entries_lem (n ∷ ns) m h = ground (arith, read_entries_lem ns m h.1)

pub All-elem : (P : ℕ → Type 0) (ns : List ℕ) → ((n : ℕ) → elem n ns ≡ true → P n) → All P ns
All-elem P [] h = tt
All-elem P (n ∷ ns) h = (h n (ground arith), All-elem P ns (λ k p. h k (ground arith)))

-- Reading a well-formed log gives its view and inserts nothing.
pub get_log_lem : (h : OpLogHandler) → IsWellFormed h → get_log h ≡ (view h, h)
unfolding get_log
get_log_lem h w = rw (
    read_entries_lem h.op_nums h.op_log
      (All-elem (λ n. has n h.op_log ≡ true) h.op_nums (λ n p. w.listed n ∙ p)))

-- ===== src/OpLog/Contract.antt =====
-- What the callers of server/inMemOpLogHandler.cc rely on.
use meta_dr.Prelude.{
  ℕ, suc, ◌≡◌, refl, sym, ap, ◌∙◌, ◌↔◌, true, false, Option, none, some, List, [], ◌∷◌, ◌++◌, map,
  arith, Text, length, ◌==◌, nat_eq, inl, inr, ◌⊎◌, Option-cases,
}
use mathlib.Core.List.{append-nil, append_assoc}
use meta_dr.Prelude.Dict.{has-insert, lookup, insert, has, lookup-insert, length-insert}
use meta_dr.Types.{KvPair, LogEntry, OpType, update, delete}
use meta_dr.OpLog.{
  OpLogHandler, empty, push_entry, append_update, append_delete, get_log, store_entries, set_log,
  has_entry, commit, get_log_entry, log_size,
}
use meta_dr.OpLog.Model.{
  elem, IsDistinct, IsWellFormed, entry_at, view, numbers, mark_committed, find, get_log_lem,
}
use meta_dr.OpLog.Refines.{
  push_entry-IsWellFormed, view-push_entry, get_log_entry_lem, map-mark, IsPresent-elem,
}

abbrev pub new_entry : KvPair → OpType → ℕ → LogEntry
new_entry kv op n = record { kv_pair = kv; op_type = op; op_num = n; committed = false }

abbrev pub key_only : Text → KvPair
key_only key = record { key = key; val = [] }

pub record Holds (h : OpLogHandler) (entries : List LogEntry) : Type 0 where
  pub well_formed : IsWellFormed h
  pub reads : (get_log h).0 ≡ entries

Holds-push :
    (h : OpLogHandler) (e : LogEntry)
    → IsWellFormed h
    → elem e.op_num h.op_nums ≡ false
    → Holds (push_entry e e.op_num h) (view h ++ e ∷ [])
Holds-push h e w f =
    let w' = push_entry-IsWellFormed h e w f in
    record { well_formed = w'; reads = rw (get_log_lem _ w') (view-push_entry h e f) }

-- Appending an update or a delete under a number that the log does not have adds one uncommitted
-- entry at the end of the log and changes no other; the log stays well-formed.
pub append_refines :
    (h : OpLogHandler) (kv : KvPair) (key : Text) (n : ℕ)
    → IsWellFormed h
    → elem n h.op_nums ≡ false
    → Holds (append_update kv n h) ((get_log h).0 ++ new_entry kv update n ∷ [])
      × Holds (append_delete key n h) ((get_log h).0 ++ new_entry (key_only key) delete n ∷ [])
unfolding append_update append_delete
append_refines h kv key n w f = rw (get_log_lem h w) (
    (
      Holds-push h (new_entry kv update n) w f,
      Holds-push h (new_entry (key_only key) delete n) w f,
    ))

commit-IsWellFormed :
    (n : ℕ) (e : LogEntry) (h : OpLogHandler)
    → IsWellFormed h
    → lookup n h.op_log ≡ some e
    → IsWellFormed (record h { op_log = insert n (record e { committed = true }) h.op_log })
unfolding has
commit-IsWellFormed n e h w q = record {
  listed = λ k.
      ground
        (arith, has-insert n k (record e { committed = true }) h.op_log, w.listed k, w.listed n);
  numbered = λ k d p. ground (
    arith,
    lookup-insert n k (record e { committed = true }) h.op_log,
    w.numbered k d,
    w.numbered n e,
  );
  distinct = w.distinct;
  sized = ground (arith, length-insert n (record e { committed = true }) h.op_log, w.sized);
}

-- `commit` sets the flag of the entry with the given number and changes no other entry, and it fails
-- its assertion exactly when `hasEntry` is false.
pub commit_refines :
    (n : ℕ) (h : OpLogHandler)
    → IsWellFormed h
    → ((has_entry n h ≡ false) × (commit n h ≡ none))
      ⊎ ((h' : OpLogHandler) × (has_entry n h ≡ true)
          × (commit n h ≡ some h')
          × Holds h' (map (mark_committed n) (get_log h).0))
unfolding commit has_entry has
commit_refines n h w = elim (Option-cases (lookup n h.op_log)) [
  | inl q ↦ inl (ground arith, ground arith)
  | inr (e, q) ↦ inr (
    record h { op_log = insert n (record e { committed = true }) h.op_log },
    ground arith,
    ground arith,
    record {
      well_formed = commit-IsWellFormed n e h w q;
      reads =
          rw (get_log_lem _ (commit-IsWellFormed n e h w q), get_log_lem h w)
            (map-mark n e h.op_log h.op_nums q (IsPresent-elem h w));
    },
  )
]

-- In a well-formed log `getLogEntry` finds the entry of `getLog` with that number, `hasEntry` is true
-- exactly when there is one, `logSize` is the number of entries of `getLog`, and `getLog` changes
-- nothing.
pub queries_refine :
    (n : ℕ) (h : OpLogHandler)
    → IsWellFormed h
    → (get_log_entry n h ≡ find n (get_log h).0)
      × ((has_entry n h ≡ true) ↔ ((e : LogEntry) × (find n (get_log h).0 ≡ some e)))
      × (log_size h ≡ length (get_log h).0)
      × ((get_log h).1 ≡ h)
unfolding has_entry has log_size get_log_entry
queries_refine n h w = rw (get_log_lem h w) (
    (
      get_log_entry_lem n h w,
      (
        λ p. let (e, q) = found (lookup n h.op_log) p in (e, sym (get_log_entry_lem n h w) ∙ q),
        λ p. ground (arith, get_log_entry_lem n h w, p.1),
      ),
      w.sized ∙ sym (length-map h.op_nums),
      refl,
    ))
  where
    found :
        (o : Option LogEntry)
        → elim o [ none ↦ false | some v ↦ true ] ≡ true
        → (e : LogEntry) × (o ≡ some e)
    found none p = cc
    found (some e) p = (e, refl)

    length-map : (ns : List ℕ) → length (map (entry_at h.op_log) ns) ≡ length ns
    length-map [] = refl
    length-map (n ∷ ns) = ap suc (length-map ns)

elem-append_mid : (n : ℕ) (xs ys : List ℕ) → IsDistinct (xs ++ n ∷ ys) → elem n xs ≡ false
elem-append_mid n [] ys d = refl
elem-append_mid n (x ∷ xs) ys d = ground (arith, elem-append_mid n xs ys d.1, elem-mid x n xs ys)
  where
    elem-mid : (x n : ℕ) (xs ys : List ℕ) → elem x (xs ++ n ∷ ys) ≡ false → (x == n) ≡ false
    elem-mid x n [] ys f = ground arith
    elem-mid x n (z ∷ xs) ys f = elem-mid x n xs ys (ground arith)

store_entries-Holds :
    (es : List LogEntry) (h : OpLogHandler)
    → IsWellFormed h
    → IsDistinct (h.op_nums ++ numbers es)
    → Holds (store_entries es h) (view h ++ es)
unfolding store_entries push_entry
store_entries-Holds [] h w d = record { well_formed = w; reads = rw (get_log_lem h w, append-nil) }
store_entries-Holds (e ∷ es) h w d =
    let f = elem-append_mid e.op_num h.op_nums (numbers es) d in
    let w' = push_entry-IsWellFormed h e w f in
    let d' : IsDistinct ((h.op_nums ++ e.op_num ∷ []) ++ numbers es) = rw append_assoc d in
    let rest = store_entries-Holds es (push_entry e e.op_num h) w' d' in
    record {
      well_formed = rest.well_formed;
      reads = rest.reads ∙ rw (view-push_entry h e f, append_assoc);
    }

pub IsWellFormed-empty : IsWellFormed empty
unfolding has lookup
IsWellFormed-empty = record {
  listed = λ n. refl;
  numbered = λ n e p. cc;
  distinct = tt;
  sized = refl;
}

-- Whatever the log held, after `setLog` of entries with distinct numbers it is well-formed and
-- `getLog` returns those entries in their order.
pub set_log-get_log :
    (entries : List LogEntry) (h : OpLogHandler)
    → IsDistinct (numbers entries)
    → Holds (set_log entries h) entries
unfolding set_log
set_log-get_log entries h d = store_entries-Holds entries empty IsWellFormed-empty d

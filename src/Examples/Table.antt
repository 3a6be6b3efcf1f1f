-- ===== src/Examples/Table.antt =====
-- The theorem on the table of SQLite, at a library that keeps the table as an association list.
use meta_dr.Prelude.{
  ℕ, ◌+◌, ◌<◌, ◌≡◌, refl, ◌∙◌, Bool, true, false, ◌&&◌, ◌||◌, Option, none, some, List, [], ◌∷◌,
  ◌++◌, Text, codes, ◌==◌, nat_eq, text_eq, text_beq_iff, if◌then◌else◌, arith,
}
use meta_dr.Prelude.Dict.{Dict, lookup, insert, erase, lookup-insert, lookup-erase}
use meta_dr.Prelude.Exec.{done}
use meta_dr.Api.{slash}
use meta_dr.Api.Children.{elem}
use meta_dr.Database.{
  Sqlite, Arg, string, int, select_key, select_value, select_below, begin_sql, commit_sql,
  update_sql, insert_sql, delete_sql, sqlite_ok, sqlite_row, sqlite_done, has_key, get, set, remove,
  list, dir_depth,
}
use meta_dr.Database.Sql.{View, IsSql, IsUpdate, key_of, val_of, below}
use meta_dr.Database.Statements.{is_there, HasDepths}
use meta_dr.Database.Contract.{operations_refine}
use meta_dr.Examples.{text_a, text_x}

-- The rows to come and the one that the last step gave, with their first columns.
record Rows : Type 0 where
  left : List Text
  current : Text

abbrev Db : Type 0
Db = Dict Text (Text × ℕ) × Bool

abbrev kept_depth : Option (Text × ℕ) → ℕ
kept_depth none = 0
kept_depth (some r) = r.1

abbrev run : Text × List Arg → Db → ℕ × Db
run (fmt, []) (t, idle) = (sqlite_ok, (t, fmt == commit_sql))
run (fmt, string path ∷ []) (t, idle) = (sqlite_ok, (erase path t, idle))
run (fmt, string val ∷ string path ∷ []) (t, idle) =
    (sqlite_ok, (insert path (val, kept_depth (lookup path t)) t, idle))
run (fmt, string path ∷ string val ∷ int depth ∷ []) (t, idle) =
    (sqlite_ok, (insert path (val, depth) t, idle))
run (fmt, _) db = (1, db)

-- LIKE for a pattern that ends with its only `%`.
abbrev like : Text → Text → Bool
like [] [] = true
like [] (b ∷ k) = false
like (c ∷ p) [] = c == b'%'
like (c ∷ p) (b ∷ k) = c == b'%' || (c == b && like p k)

abbrev found : Text → Text → Option (Text × ℕ) → List Text
found fmt path none = []
found fmt path (some r) = (if fmt == select_key then path else r.0) ∷ []

abbrev select : Text → ℕ → Dict Text (Text × ℕ) → Dict Text (Text × ℕ) → List Text
select path depth all [] = []
select path depth all ((k, r) ∷ t) =
    let rest = select path depth all t in
    if below like path depth k (lookup k all) then k ∷ rest else rest

abbrev query : Text × List Arg → Db → List Text
query (fmt, string path ∷ []) (t, idle) = found fmt path (lookup path t)
query (fmt, string path ∷ int depth ∷ []) (t, idle) = select path depth t t
query (fmt, _) db = []

abbrev next : List Text → Text → ℕ × Rows
next [] c = (sqlite_done, record { left = []; current = c })
next (r ∷ rs) c = (sqlite_row, record { left = rs; current = r })

abbrev in_memory : Sqlite
in_memory = record {
  Db = Db;
  Query = Text × List Arg;
  Stmt = Rows;
  vmprintf = λ fmt args. some (fmt, args);
  exec = run;
  prepare = λ db q. record {
    status = sqlite_ok;
    stmt = record { left = query q db; current = [] };
    has_tail = false;
  };
  step = λ r. next r.left r.current;
  column = λ r i. r.current;
}

abbrev view : View in_memory
view = record { table = λ db k. lookup k db.0; idle = λ db. db.1; like = like; rows = λ r. r.left }

elem-select :
    (path : Text) (depth : ℕ) (k : Text) (all t : Dict Text (Text × ℕ))
    → elem k (select path depth all t)
      ≡ (below like path depth k (lookup k all) && is_there (lookup k t))
unfolding lookup
elem-select path depth k all [] = ground arith
elem-select path depth k all ((j, r) ∷ t) =
    ground (arith, elem-select path depth k all t, text_beq_iff j k)

below-there :
    (path : Text) (depth : ℕ) (k : Text) (o : Option (Text × ℕ))
    → (below like path depth k o && is_there o) ≡ below like path depth k o
below-there path depth k none = refl
below-there path depth k (some r) = ground arith

-- The first step of a query that finds a row or none.
abbrev Steps : Text → Text → Option (Text × ℕ) → Option Text → Type 0
Steps fmt path o first = elim first [
  | none ↦ (next (found fmt path o) []).0 ≡ sqlite_done
  | some val ↦
      ((next (found fmt path o) []).0 ≡ sqlite_row) × ((next (found fmt path o) []).1.current ≡ val)
]

Steps-select_key : (path : Text) (o : Option (Text × ℕ)) → Steps select_key path o (key_of path o)
Steps-select_key path none = refl
Steps-select_key path (some r) = (refl, refl)

Steps-select_value : (path : Text) (o : Option (Text × ℕ)) → Steps select_value path o (val_of o)
Steps-select_value path none = refl
Steps-select_value path (some r) = (refl, refl)

in_memory-IsSql : IsSql in_memory view
in_memory-IsSql = record {
  ends = λ p q. rw q refl;
  goes_on = λ p k ks q. (rw q refl, rw q refl, rw q refl);
  select_below = λ db path depth h. (
    (select_below, string path ∷ int depth ∷ []),
    record { left = select path depth db.0 db.0; current = [] },
    refl,
    refl,
    λ k. elem-select path depth k db.0 db.0 ∙ below-there path depth k (lookup k db.0),
  );
  select_key = λ db path h. (
    (select_key, string path ∷ []),
    record { left = found select_key path (lookup path db.0); current = [] },
    refl,
    refl,
    Steps-select_key path (lookup path db.0),
  );
  select_value = λ db path h. (
    (select_value, string path ∷ []),
    record { left = found select_value path (lookup path db.0); current = [] },
    refl,
    refl,
    Steps-select_value path (lookup path db.0),
  );
  begin = λ db h. ((begin_sql, []), refl, refl, (refl, refl));
  commit = λ db h. ((commit_sql, []), refl, refl, (refl, refl));
  update = λ db path val old h g q. (
    (update_sql, string val ∷ string path ∷ []),
    refl,
    refl,
    ((λ k. rw q (lookup-insert path k (val, old.1) db.0)), refl),
  );
  insert = λ db path val depth h g q. (
    (insert_sql, string path ∷ string val ∷ int depth ∷ []),
    refl,
    refl,
    ((λ k. lookup-insert path k (val, depth) db.0), refl),
  );
  delete = λ db path h.
      ((delete_sql, string path ∷ []), refl, refl, ((λ k. lookup-erase path k db.0), refl));
}

abbrev stored : Db
stored = ((text_a, (text_x, 1)) ∷ [], true)

stored-HasDepths : HasDepths (view.table stored)
unfolding lookup dir_depth
stored-HasDepths k r e = ground (arith, e, text_beq_iff text_a k)

abbrev my_val : Text
my_val = codes "myval"

operations_refine_example :
    (has_key in_memory text_a stored ≡ (done true, stored))
    × (get in_memory text_a stored ≡ (done text_x, stored))
    × ((after : Db) × (set in_memory text_a my_val stored ≡ (done true, after))
        × IsUpdate text_a (some (my_val, dir_depth text_a)) (view.table stored) (view.table after)
        × (after.1 ≡ true)
        × HasDepths (view.table after))
    × ((after : Db) × (remove in_memory text_a stored ≡ (done tt, after))
        × IsUpdate text_a none (view.table stored) (view.table after)
        × (after.1 ≡ true)
        × HasDepths (view.table after))
    × ((rounds : ℕ) × ((fuel : ℕ)
          → rounds < fuel
          → (keys : List Text) × (list in_memory fuel text_a stored ≡ (done (some keys), stored))
            × ((k : Text)
                → elem k keys ≡ (
                    is_there (view.table stored k)
                    && (like (text_a ++ slash ∷ b'%' ∷ []) k
                        && dir_depth k == dir_depth text_a + 1)))))
unfolding lookup
operations_refine_example =
    operations_refine in_memory view in_memory-IsSql text_a my_val stored (refl, refl, refl)
      (refl, refl, refl) (refl, refl) refl stored-HasDepths

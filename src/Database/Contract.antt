-- ===== src/Database/Contract.antt =====
-- The operations of server/serverdb.cc are those of a map, if SQLite does with the statements what the
-- SQL language says.
use mathlib.Core.Path.{subst}
use meta_dr.Api.{slash}
use meta_dr.Prelude.{
  ℕ, ◌+◌, ◌<◌, ◌≡◌, length, refl, sym, ap, ◌∙◌, true, false, ◌&&◌, Option, none, some, List, [],
  ◌∷◌, Text, ◌==◌, nat_eq, text_eq, text_beq_iff, if◌then◌else◌, Bool-cases, Option-cases, inl, inr,
  ◌++◌, arith,
}
use meta_dr.Prelude.Exec.{Outcome, done, throw, runtime_error}
use meta_dr.Api.Children.{elem}
use meta_dr.Database.{
  list, Sqlite, Arg, string, int, select_key, select_value, begin_sql, commit_sql, update_sql,
  insert_sql, delete_sql, sqlite_ok, dir_depth, sql_stmt, sqlexec, has_key, get, set, remove,
  with_stmt,
}
use meta_dr.Database.Sql.{
  IsLiteral, IsPattern, Runs, Table, IsUpdate, key_of, val_of, View, below, IsSql,
}
use meta_dr.Database.Listing.{collects}
use meta_dr.Database.Statements.{
  is_there, is_there-key_of, has_row, first_column, sqlexec-runs, HasDepths, HasDepths-change,
  below-deep,
}

-- What `get` does.
abbrev pub got : Option Text → Outcome Text
got none = throw runtime_error
got (some val) = done val

module _ (s : Sqlite) (v : View s) (l : IsSql s v) where
  has_key_lem :
      (path : Text) (db : s.Db)
      → IsLiteral path
      → has_key s path db ≡ (done (is_there (v.table db path)), db)
  unfolding has_key
  has_key_lem path db h =
      has_row s select_key (string path ∷ []) db (key_of path (v.table db path))
        (l.select_key db path h)
      ∙ ap (λ b. (done b, db)) (is_there-key_of path (v.table db path))

  get_lem :
      (path : Text) (db : s.Db)
      → IsLiteral path
      → get s path db ≡ (got (val_of (v.table db path)), db)
  unfolding get
  get_lem path db h =
      first_column s select_value (string path ∷ []) db (val_of (v.table db path))
        (l.select_value db path h)

  -- A change in a transaction of its own.
  changed :
      (path : Text) (new : Option (Text × ℕ)) (fmt : Text) (args : List Arg) (db : s.Db)
      → v.idle db ≡ true
      → ((b : s.Db)
          → v.table b ≡ v.table db
          → Runs s fmt args b
              (λ after. IsUpdate path new (v.table b) (v.table after) × (v.idle after ≡ v.idle b)))
      → (a b c : s.Db) × (sqlexec s begin_sql [] db ≡ (done tt, a))
        × (sqlexec s fmt args a ≡ (done tt, b))
        × (sqlexec s commit_sql [] b ≡ (done tt, c))
        × IsUpdate path new (v.table db) (v.table c)
        × (v.idle c ≡ true)
  changed path new fmt args db free runs =
      let (a, began, (same, busy)) =
        sqlexec-runs s begin_sql [] db (λ m. (v.table m ≡ v.table db) × (v.idle m ≡ false))
          (l.begin db free) in
      let (b, ran, (change, still)) =
        sqlexec-runs s fmt args a
          (λ m. IsUpdate path new (v.table a) (v.table m) × (v.idle m ≡ v.idle a)) (runs a same) in
      let (c, committed, (kept, freed)) =
        sqlexec-runs s commit_sql [] b (λ m. (v.table m ≡ v.table b) × (v.idle m ≡ true))
          (l.commit b (still ∙ busy)) in
      (
        a,
        b,
        c,
        began,
        ran,
        committed,
        λ k.
            ap (λ (t : Table). t k) kept
            ∙ change k
            ∙ ap (λ (t : Table). if path == k then new else t k) same,
        freed,
      )

  set_lem :
      (path val : Text) (db : s.Db)
      → IsLiteral path
      → IsLiteral val
      → v.idle db ≡ true
      → HasDepths (v.table db)
      → (after : s.Db) × (set s path val db ≡ (done (is_there (v.table db path)), after))
        × IsUpdate path (some (val, dir_depth path)) (v.table db) (v.table after)
        × (v.idle after ≡ true)
  unfolding set
  set_lem path val db h g free depths = elim (Option-cases (v.table db path)) [
    | inl q ↦
        let (a, b, c, began, ran, committed, change, freed) =
          changed path (some (val, dir_depth path)) insert_sql
            (string path ∷ string val ∷ int (dir_depth path) ∷ []) db free
            (λ m same.
              l.insert m path val (dir_depth path) h g (ap (λ (t : Table). t path) same ∙ q)) in
        (c, rw (has_key_lem path db h, q, began, ran, committed) refl, change, freed)
    | inr (old, q) ↦
        let (a, b, c, began, ran, committed, change, freed) =
          changed path (some (val, old.1)) update_sql (string val ∷ string path ∷ []) db free
            (λ m same. l.update m path val old h g (ap (λ (t : Table). t path) same ∙ q)) in
        (
          c,
          rw (has_key_lem path db h, q, began, ran, committed) refl,
          subst (λ d. IsUpdate path (some (val, d)) (v.table db) (v.table c)) (depths path old q)
              change,
          freed,
        )
  ]

  remove_lem :
      (path : Text) (db : s.Db)
      → IsLiteral path
      → v.idle db ≡ true
      → (after : s.Db) × (remove s path db
          ≡ (if is_there (v.table db path) then done tt else throw runtime_error, after))
        × IsUpdate path none (v.table db) (v.table after)
        × (v.idle after ≡ true)
  unfolding remove
  remove_lem path db h free = elim (Option-cases (v.table db path)) [
    | inl q ↦ (
      db,
      rw (has_key_lem path db h, q) refl,
      λ k. elim (Bool-cases (path == k)) [
        | inl same ↦ rw same (ap (v.table db) (sym ((text_beq_iff path k).0 same)) ∙ q)
        | inr other ↦ rw other refl
      ],
      free,
    )
    | inr (old, q) ↦
        let (a, b, c, began, ran, committed, change, freed) =
          changed path none delete_sql (string path ∷ []) db free (λ m same. l.delete m path h) in
        (c, rw (has_key_lem path db h, q, began, ran, committed) refl, change, freed)
  ]

  list_lem :
      (path : Text) (db : s.Db)
      → IsPattern path
      → (rounds : ℕ) × ((fuel : ℕ)
          → rounds < fuel
          → (found : List Text) × (list s fuel path db ≡ (done (some found), db))
            × ((k : Text) → elem k found ≡ below v.like path (dir_depth path + 1) k (v.table db k)))
  unfolding list sql_stmt
  list_lem path db h =
      let (q, p, printed, prepared, selected) = l.select_below db path (dir_depth path + 1) h in
      (
        length (v.rows p),
        λ fuel enough.
            let (found, after, run, members) =
              collects s v l (v.rows p) fuel [] (record { stmt = p; status = sqlite_ok }) enough
                refl in
            (
              found,
              rw (with_stmt, sql_stmt, printed, prepared, run) refl,
              λ k. ground (arith, members k, selected k),
            ),
      )

  -- The store is a map from keys to values: with statements that do what SQL says, on a connection
  -- without an open transaction, in a table that stores each key with its depth, and for a key and
  -- a value that hold no double quote and no zero byte and are not, in upper or lower case, the name of
  -- a column, the key with no single quote either: `hasKey` says whether the map has the key and
  -- `get` gives its value or throws a runtime error; `set` returns whether the key was there and
  -- leaves the map with the value and the depth at the key; `remove`, which throws a runtime error for
  -- a key that is not there, leaves the map without the key; after both no transaction is open and
  -- each key has its depth. The loop of `list` ends, and its set has exactly the keys that are one
  -- level deeper than the given one and match it, a slash and anything in the sense of LIKE.
  pub operations_refine :
      (path val : Text) (db : s.Db)
      → IsLiteral path
      → IsLiteral val
      → IsPattern path
      → v.idle db ≡ true
      → HasDepths (v.table db)
      → (has_key s path db ≡ (done (is_there (v.table db path)), db))
        × (get s path db ≡ (got (val_of (v.table db path)), db))
        × ((after : s.Db) × (set s path val db ≡ (done (is_there (v.table db path)), after))
            × IsUpdate path (some (val, dir_depth path)) (v.table db) (v.table after)
            × (v.idle after ≡ true)
            × HasDepths (v.table after))
        × ((after : s.Db) × (remove s path db
              ≡ (if is_there (v.table db path) then done tt else throw runtime_error, after))
            × IsUpdate path none (v.table db) (v.table after)
            × (v.idle after ≡ true)
            × HasDepths (v.table after))
        × ((rounds : ℕ) × ((fuel : ℕ)
              → rounds < fuel
              → (found : List Text) × (list s fuel path db ≡ (done (some found), db))
                × ((k : Text)
                    → elem k found ≡ (
                        is_there (v.table db k)
                        && (v.like (path ++ slash ∷ b'%' ∷ []) k
                            && dir_depth k == dir_depth path + 1)))))
  operations_refine path val db h g quoted free depths =
      let (a, ran, change, idle) = set_lem path val db h g free depths in
      let (b, ran', change', idle') = remove_lem path db h free in
      let (rounds, runs) = list_lem path db quoted in
      let kept : HasDepths (v.table a) =
        HasDepths-change path (some (val, dir_depth path)) (v.table db) (v.table a) change
          (λ r e. ground (arith, e)) depths in
      let kept' : HasDepths (v.table b) =
        HasDepths-change path none (v.table db) (v.table b) change' (λ r e. ground (arith, e))
          depths in
      (
        has_key_lem path db h,
        get_lem path db h,
        (a, ran, change, idle, kept),
        (b, ran', change', idle', kept'),
        (
          rounds,
          λ fuel enough.
              let (found, listed, members) = runs fuel enough in
              (
                found,
                listed,
                λ k.
                    members k
                    ∙ below-deep v.like path (dir_depth path + 1) k (v.table db k) (depths k),
              ),
        ),
      )

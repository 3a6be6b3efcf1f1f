-- ===== src/Database/Sql.antt =====
-- What the statements of server/serverdb.cc do, as the SQL language says: the hypotheses on the SQLite
-- library.
use meta_dr.Prelude.{
  ◌++◌, ◌+◌, codes, ℕ, ◌≡◌, Bool, true, false, ◌&&◌, Option, none, some, List, [], ◌∷◌, Text, ◌==◌,
  nat_eq, text_eq, if◌then◌else◌, leb,
}
use meta_dr.Api.{contains, slash}
use meta_dr.Api.Children.{elem}
use meta_dr.Database.{
  Sqlite, Arg, string, int, select_key, select_value, select_below, begin_sql, commit_sql,
  update_sql, insert_sql, delete_sql, sqlite_ok, sqlite_row, sqlite_done,
}

-- In a string between double quotes SQL reads the bytes as they are, if none is a double quote or zero
-- and the string is not the name of a column: of one of `kvpair`, or of its row number.
abbrev pub columns : List Text
columns =
    codes "key" ∷ codes "value" ∷ codes "depth" ∷ codes "rowid" ∷ codes "oid" ∷ codes "_rowid_" ∷ []

-- Names are compared in lower case.
abbrev pub to_lower : Text → Text
to_lower [] = []
to_lower (c ∷ s) = (if leb b'A' c && leb c b'Z' then c + 32 else c) ∷ to_lower s

abbrev pub IsLiteral : Text → Type 0
IsLiteral s =
    (contains b'"' s ≡ false) × (contains 0 s ≡ false) × (elem (to_lower s) columns ≡ false)

-- What a statement without a result does.
abbrev pub Runs : (s : Sqlite) → Text → List Arg → s.Db → (s.Db → Type 0) → Type 0
Runs s fmt args db P =
    (q : s.Query) × (s.vmprintf fmt args ≡ some q)
    × ((s.exec q db).0 ≡ sqlite_ok)
    × P (s.exec q db).1

-- What the first step of a query with at most one row does: there is a row with that
-- first column, or none.
abbrev pub Finds : (s : Sqlite) → Text → List Arg → s.Db → Option Text → Type 0
Finds s fmt args db found =
    (q : s.Query) × (p : s.Stmt) × (s.vmprintf fmt args ≡ some q)
    × (s.prepare db q ≡ record { status = sqlite_ok; stmt = p; has_tail = false })
    × (elim found [
      | none ↦ (s.step p).0 ≡ sqlite_done
      | some first ↦ ((s.step p).0 ≡ sqlite_row) × (s.column (s.step p).1 0 ≡ first)
    ])

-- The table `kvpair` has a value and a depth for each of its keys, as the key is the primary key.
abbrev pub Table : Type 0
Table = Text → Option (Text × ℕ)

abbrev pub IsUpdate : Text → Option (Text × ℕ) → Table → Table → Type 0
IsUpdate path val before after = (k : Text) → after k ≡ (if path == k then val else before k)

-- The first column of the row of a key, if there is one.
abbrev pub key_of : Text → Option (Text × ℕ) → Option Text
key_of path none = none
key_of path (some r) = some path

abbrev pub val_of : Option (Text × ℕ) → Option Text
val_of none = none
val_of (some r) = some r.0

-- In single quotes, where no name can stand.
abbrev pub IsPattern : Text → Type 0
IsPattern s = (contains b'\'' s ≡ false) × (contains 0 s ≡ false)

-- How SQLite is read: the table, whether there is no open transaction, the operator LIKE with
-- the pattern first, and the first columns of the rows that a query has yet to give.
pub record View (s : Sqlite) : Type 0 where
  pub table : s.Db → Table
  pub idle : s.Db → Bool
  pub like : Text → Text → Bool
  pub rows : s.Stmt → List Text

abbrev pub below : (Text → Text → Bool) → Text → ℕ → Text → Option (Text × ℕ) → Bool
below like path depth k none = false
below like path depth k (some r) = like (path ++ slash ∷ b'%' ∷ []) k && r.1 == depth

-- The statements on a connection on which no error occurs and which sees no other connection's
-- changes.
pub record IsSql (s : Sqlite) (v : View s) : Type 0 where
  pub ends : (p : s.Stmt) → v.rows p ≡ [] → (s.step p).0 ≡ sqlite_done
  pub goes_on :
      (p : s.Stmt) (k : Text) (ks : List Text)
      → v.rows p ≡ k ∷ ks
      → ((s.step p).0 ≡ sqlite_row) × (s.column (s.step p).1 0 ≡ k) × (v.rows (s.step p).1 ≡ ks)
  pub select_below :
      (db : s.Db) (path : Text) (depth : ℕ)
      → IsPattern path
      → (q : s.Query) × (p : s.Stmt) × (s.vmprintf select_below (string path ∷ int depth ∷ [])
          ≡ some q)
        × (s.prepare db q ≡ record { status = sqlite_ok; stmt = p; has_tail = false })
        × ((k : Text) → elem k (v.rows p) ≡ below v.like path depth k (v.table db k))
  pub select_key :
      (db : s.Db) (path : Text)
      → IsLiteral path
      → Finds s select_key (string path ∷ []) db (key_of path (v.table db path))
  pub select_value :
      (db : s.Db) (path : Text)
      → IsLiteral path
      → Finds s select_value (string path ∷ []) db (val_of (v.table db path))
  pub begin :
      (db : s.Db)
      → v.idle db ≡ true
      → Runs s begin_sql [] db (λ db'. (v.table db' ≡ v.table db) × (v.idle db' ≡ false))
  pub commit :
      (db : s.Db)
      → v.idle db ≡ false
      → Runs s commit_sql [] db (λ db'. (v.table db' ≡ v.table db) × (v.idle db' ≡ true))
  pub update :
      (db : s.Db) (path val : Text) (old : Text × ℕ)
      → IsLiteral path
      → IsLiteral val
      → v.table db path ≡ some old
      → Runs s update_sql (string val ∷ string path ∷ []) db (λ db'.
        IsUpdate path (some (val, old.1)) (v.table db) (v.table db') × (v.idle db' ≡ v.idle db))
  pub insert :
      (db : s.Db) (path val : Text) (depth : ℕ)
      → IsLiteral path
      → IsLiteral val
      → v.table db path ≡ none
      → Runs s insert_sql (string path ∷ string val ∷ int depth ∷ []) db (λ db'.
        IsUpdate path (some (val, depth)) (v.table db) (v.table db') × (v.idle db' ≡ v.idle db))
  pub delete :
      (db : s.Db) (path : Text)
      → IsLiteral path
      → Runs s delete_sql
          (string path ∷ [])
          db
          (λ db'. IsUpdate path none (v.table db) (v.table db') × (v.idle db' ≡ v.idle db))

-- ===== src/Database.antt =====
-- server/serverdb.cc and server/sqlstmt.{h,cc}: a key-value store in a table of SQLite. The library is
-- the parameter `Sqlite`. The exceptions `sqlerr_t` and `sqldone_t` are runtime errors.
pub mod Sql
pub mod Listing
pub mod Statements
pub mod Contract
use meta_dr.Prelude.{
  ℕ, zero, suc, ◌+◌, ◌≡◌, ◌≢◌, Bool, true, false, not, Option, none, some, List, [], ◌∷◌, ◌||◌,
  Text, codes, ◌==◌, nat_eq, if◌then◌else◌,
}
use meta_dr.Prelude.Exec.{
  Exec, Outcome, done, throw, abort, runtime_error, gets, assert, modify, raise, skip, ◌>>=◌, ◌>>◌,
}
use meta_dr.Api.{slash, set_insert}

abbrev pub sqlite_ok : ℕ
sqlite_ok = 0

abbrev pub sqlite_row : ℕ
sqlite_row = 100

abbrev pub sqlite_done : ℕ
sqlite_done = 101

-- An argument for `%s` or `%d`.
pub data Arg : Type 0 where
  string : Text → Arg
  int : ℕ → Arg

pub record Prepared (Stmt : Type 0) : Type 0 where
  pub status : ℕ
  pub stmt : Stmt
  pub has_tail : Bool

-- A `Db` is a connection with the content of its file, a `Query` the text of a statement.
pub record Sqlite : Type 1 where
  pub Db : Type 0
  pub Query : Type 0
  pub Stmt : Type 0
  pub vmprintf : Text → List Arg → Option Query
  pub exec : Query → Db → ℕ × Db
  pub prepare : Db → Query → Prepared Stmt
  pub step : Stmt → ℕ × Stmt
  pub column : Stmt → ℕ → Text

-- The formats of the statements.
abbrev pub select_key : Text
select_key = codes "SELECT key, value FROM kvpair WHERE key = \"%s\""

abbrev pub select_value : Text
select_value = codes "SELECT value FROM kvpair WHERE key = \"%s\""

abbrev pub select_below : Text
select_below = codes "SELECT key FROM kvpair WHERE key LIKE '%s/%%' AND depth = %d"

abbrev pub begin_sql : Text
begin_sql = codes "BEGIN;"

abbrev pub commit_sql : Text
commit_sql = codes "COMMIT;"

abbrev pub create_sql : Text
create_sql = codes "CREATE TABLE kvpair (key TEXT PRIMARY KEY NOT NULL, value TEXT, depth INT);"

abbrev pub update_sql : Text
update_sql = codes "UPDATE kvpair SET value = \"%s\" WHERE key = \"%s\";"

abbrev pub insert_sql : Text
insert_sql = codes "INSERT INTO kvpair (key, value, depth) VALUES (\"%s\", \"%s\", %d);"

abbrev pub delete_sql : Text
delete_sql = codes "DELETE FROM kvpair WHERE key = \"%s\";"

unfoldable pub dir_depth : Text → ℕ
dir_depth [] = 0
dir_depth (c ∷ path) = let depth = dir_depth path in if c == slash then depth + 1 else depth

module _ (s : Sqlite) where
  pub record SqlStmt : Type 0 where
    pub stmt : s.Stmt
    pub status : ℕ

  unfoldable pub set_status : ℕ → Exec SqlStmt (Unit {0})
  set_status status = do
    modify (λ t. record t { status = status })
    if status == sqlite_ok || status == sqlite_row || status == sqlite_done
        then skip
        else raise runtime_error

  unfoldable pub step : Exec SqlStmt (Unit {0})
  unfolding set_status
  step t = let stepped = s.step t.stmt in set_status stepped.0 (record t { stmt = stepped.1 })

  unfoldable pub row : Exec SqlStmt Bool
  row = do
    t ← gets (λ t. t)
    if t.status == sqlite_row
        then gets (λ _. true)
        else do assert (t.status == sqlite_done); gets (λ _. false)

  unfoldable pub str : ℕ → Exec SqlStmt Text
  str i t =
      if t.status == sqlite_row
      then (done (s.column t.stmt i), t)
      else if t.status == sqlite_ok
      then (abort, t)
      else (throw runtime_error, t)

  -- The constructor of `SQLStmt`.
  unfoldable pub sql_stmt : Text → List Arg → s.Db → Outcome SqlStmt
  sql_stmt fmt args db = elim (s.vmprintf fmt args) [
    | none ↦ throw runtime_error
    | some query ↦
        let p = s.prepare db query in
        if not (p.status == sqlite_ok)
        then throw runtime_error
        else if p.has_tail
        then throw runtime_error
        else done (record { stmt = p.stmt; status = sqlite_ok })
  ]

  -- A function with a statement of its own, which ends with the function.
  abbrev pub with_stmt : {A : Type 0} → Text → List Arg → Exec SqlStmt A → Exec s.Db A
  with_stmt fmt args run db = elim (sql_stmt fmt args db) [
    | done t ↦ ((run t).0, db)
    | throw x ↦ (throw x, db)
    | abort ↦ (abort, db)
  ]

  unfoldable pub sqlexec : Text → List Arg → Exec s.Db (Unit {0})
  sqlexec fmt args db = elim (s.vmprintf fmt args) [
    | none ↦ (throw runtime_error, db)
    | some query ↦
        let ran = s.exec query db in
        if ran.0 == sqlite_ok || ran.0 == sqlite_done || ran.0 == sqlite_row
        then (done tt, ran.1)
        else (throw runtime_error, ran.1)
  ]

  unfoldable pub has_key : Text → Exec s.Db Bool
  unfolding step row sql_stmt
  has_key path = with_stmt select_key (string path ∷ []) (do step; row)

  unfoldable pub get : Text → Exec s.Db Text
  unfolding step row str sql_stmt
  get path =
      with_stmt select_value (string path ∷ [])
        (do step; found ← row; if not found then raise runtime_error else str 0)

  unfoldable pub set : Text → Text → Exec s.Db Bool
  unfolding has_key sqlexec dir_depth
  set path val = do
    update ← has_key path
    sqlexec begin_sql []
    if update
        then sqlexec update_sql (string val ∷ string path ∷ [])
        else sqlexec insert_sql (string path ∷ string val ∷ int (dir_depth path) ∷ [])
    sqlexec commit_sql []
    gets (λ _. update)

  unfoldable pub remove : Text → Exec s.Db (Unit {0})
  unfolding has_key sqlexec
  remove path = do
    found ← has_key path
    if not found
        then raise runtime_error
        else do sqlexec begin_sql []; sqlexec delete_sql (string path ∷ []); sqlexec commit_sql []

  -- The loop over the rows, which runs on fuel, with the keys found so far; `none` if the fuel is out.
  unfoldable pub collect : ℕ → List Text → Exec SqlStmt (Option (List Text))
  unfolding step row str set_insert
  collect zero r = gets (λ _. none)
  collect (suc fuel) r = do
    more ← row
    if not more then gets (λ _. some r) else do key ← str 0; step; collect fuel (set_insert key r)

  unfoldable pub list : ℕ → Text → Exec s.Db (Option (List Text))
  unfolding step sql_stmt dir_depth collect
  list fuel path =
      with_stmt select_below (string path ∷ int (dir_depth path + 1) ∷ [])
        (do step; collect fuel [])

  -- `create` and `open`, on what `sqlite3_open_v2` has opened with the given result.
  unfoldable pub create : ℕ → Exec s.Db (Unit {0})
  unfolding sqlexec
  create status = do
    assert (status == sqlite_ok)
    sqlexec begin_sql []
    sqlexec create_sql []
    sqlexec commit_sql []

  -- The first argument says that `access` finds no file.
  unfoldable pub open_db : Bool → ℕ → Exec s.Db (Unit {0})
  unfolding create
  open_db absent status = if absent then create status else assert (status == sqlite_ok)

-- ===== src/Database/Statements.antt =====
-- Runs of single statements in server/serverdb.cc, and the depths of the keys.
use meta_dr.Api.{slash}
use meta_dr.Prelude.{
  ℕ, ◌≡◌, refl, sym, ap, ◌∙◌, Bool, true, false, not, ◌&&◌, Option, none, some, List, [], ◌∷◌, Text,
  ◌==◌, nat_eq, text_eq, text_beq_iff, if◌then◌else◌, Bool-cases, inl, inr, ◌++◌,
}
use meta_dr.Prelude.Exec.{done, throw, runtime_error, raise, ◌>>=◌, ◌>>◌}
use meta_dr.Database.{
  Sqlite, Arg, dir_depth, sql_stmt, sqlexec, step, row, str, with_stmt, set_status,
}
use meta_dr.Database.Sql.{Runs, Finds, Table, IsUpdate, key_of, below}

abbrev pub is_there : {A : Type 0} → Option A → Bool
is_there none = false
is_there (some v) = true

pub is_there-key_of :
    (path : Text) (found : Option (Text × ℕ)) → is_there (key_of path found) ≡ is_there found
is_there-key_of path none = refl
is_there-key_of path (some v) = refl

module _ (s : Sqlite) (fmt : Text) (args : List Arg) (db : s.Db) where
  pub has_row :
      (found : Option Text)
      → Finds s fmt args db found
      → with_stmt s fmt args (step s >> row s) db ≡ (done (is_there found), db)
  unfolding sql_stmt step row set_status
  has_row none (q, p, printed, prepared, stepped) =
      rw (with_stmt, sql_stmt, printed, prepared, stepped) refl
  has_row (some v) (q, p, printed, prepared, (stepped, at)) =
      rw (with_stmt, sql_stmt, printed, prepared, stepped) refl

  pub first_column :
      (found : Option Text)
      → Finds s fmt args db found
      → with_stmt s fmt args
          (step s >> (row s >>= λ more. if not more then raise runtime_error else str s 0))
          db
        ≡ (elim found [ none ↦ throw runtime_error | some v ↦ done v ], db)
  unfolding sql_stmt step row str set_status
  first_column none (q, p, printed, prepared, stepped) =
      rw (with_stmt, sql_stmt, printed, prepared, stepped) refl
  first_column (some v) (q, p, printed, prepared, (stepped, at)) =
      rw (with_stmt, sql_stmt, printed, prepared, stepped, at) refl

  pub sqlexec-runs :
      (P : s.Db → Type 0)
      → Runs s fmt args db P
      → (after : s.Db) × (sqlexec s fmt args db ≡ (done tt, after)) × P after
  unfolding sqlexec
  sqlexec-runs P (q, printed, ran, holds) =
      ((s.exec q db).1, rw (sqlexec, printed, ran) refl, holds)

-- Every key is stored with its depth.
abbrev pub HasDepths : Table → Type 0
HasDepths t = (k : Text) (r : Text × ℕ) → t k ≡ some r → r.1 ≡ dir_depth k

pub HasDepths-change :
    (path : Text) (new : Option (Text × ℕ)) (t u : Table)
    → IsUpdate path new t u
    → ((r : Text × ℕ) → new ≡ some r → r.1 ≡ dir_depth path)
    → HasDepths t
    → HasDepths u
HasDepths-change path new t u change fits depths k r e = elim (Bool-cases (path == k)) [
  | inl same ↦
      fits r (sym (change k ∙ ap (λ (b : Bool). if b then new else t k) same) ∙ e)
      ∙ ap dir_depth ((text_beq_iff path k).0 same)
  | inr other ↦ depths k r (sym (change k ∙ ap (λ (b : Bool). if b then new else t k) other) ∙ e)
]

-- With the depths that the keys have.
pub below-deep :
    (like : Text → Text → Bool) (path : Text) (depth : ℕ) (k : Text) (o : Option (Text × ℕ))
    → ((r : Text × ℕ) → o ≡ some r → r.1 ≡ dir_depth k)
    → below like path depth k o
      ≡ (is_there o && (like (path ++ slash ∷ b'%' ∷ []) k && dir_depth k == depth))
below-deep like path depth k none h = refl
below-deep like path depth k (some r) h = rw (h r refl) refl

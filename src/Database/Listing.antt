-- ===== src/Database/Listing.antt =====
-- The loop of `list` in server/serverdb.cc comes to the end of the rows.
use meta_dr.Prelude.{
  ℕ, zero, suc, ◌<◌, ◌≡◌, refl, ◌||◌, some, List, [], ◌∷◌, Text, nat_eq, text_eq, length, arith,
}
use meta_dr.Prelude.Exec.{done, ◌>>◌}
use meta_dr.Api.{set_insert}
use meta_dr.Api.Children.{elem, elem-set_insert}
use meta_dr.Database.{Sqlite, SqlStmt, sqlite_row, sqlite_done, step, row, str, set_status, collect}
use meta_dr.Database.Sql.{View, IsSql}

module _ (s : Sqlite) (v : View s) (l : IsSql s v) where
  -- The loop from a statement that has given a row or its end, with the rows to come.
  pub collects :
      (ks : List Text) (fuel : ℕ) (r : List Text) (t : SqlStmt s)
      → length ks < fuel
      → v.rows t.stmt ≡ ks
      → (found : List Text) × (after : SqlStmt s) × ((step s >> collect s fuel r) t
          ≡ (done (some found), after))
        × ((k : Text) → elem k found ≡ (elem k ks || elem k r))
  unfolding step collect row str set_status
  collects [] zero r t lt q = absurd (omega arith)
  collects (key ∷ ks) zero r t lt q = absurd (omega arith)
  collects [] (suc fuel) r t lt q = (
    r,
    record { stmt = (s.step t.stmt).1; status = sqlite_done },
    rw (l.ends t.stmt q) refl,
    λ k. refl,
  )
  collects (key ∷ ks) (suc fuel) r t lt q =
      let (stepped, at, rest) = l.goes_on t.stmt key ks q in
      let next : SqlStmt s = record { stmt = (s.step t.stmt).1; status = sqlite_row } in
      let (found, after, run, members) =
        collects ks fuel (set_insert key r) next (omega arith) rest in
      (found, after, rw (stepped, at) run, λ k. ground (arith, members k, elem-set_insert k key r))

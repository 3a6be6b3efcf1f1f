-- ===== src/OpLog/Refines.antt =====
-- Every method of server/inMemOpLogHandler.cc does to the handler what its name says of the list.
use meta_dr.Prelude.{
  ℕ, ◌≡◌, refl, ◌∙◌, ap, true, false, none, some, List, [], ◌∷◌, ◌++◌, map, arith, ◌==◌, nat_eq,
  if◌then◌else◌, length-append, All,
}
use meta_dr.Prelude.Dict.{has-insert, Dict, lookup, insert, has, lookup-insert, length-insert}
use meta_dr.Types.{LogEntry}
use meta_dr.OpLog.{OpLogHandler, push_entry, get_log_entry}
use meta_dr.OpLog.Model.{
  elem, IsDistinct, All-elem, IsWellFormed, numbers, entry_at, view, mark_committed, find,
}

elem-append : (k n : ℕ) (ns : List ℕ) → elem k (ns ++ n ∷ []) ≡ (if n == k then true else elem k ns)
elem-append k n [] = ground arith
elem-append k n (x ∷ ns) = ground (arith, elem-append k n ns)

IsDistinct-append :
    (n : ℕ) (ns : List ℕ) → IsDistinct ns → elem n ns ≡ false → IsDistinct (ns ++ n ∷ [])
IsDistinct-append n [] d f = (refl, tt)
IsDistinct-append n (x ∷ ns) d f =
    (ground (arith, elem-append x n ns), IsDistinct-append n ns d.1 (ground arith))

-- A fresh entry keeps the invariant.
pub push_entry-IsWellFormed :
    (h : OpLogHandler) (e : LogEntry)
    → IsWellFormed h
    → elem e.op_num h.op_nums ≡ false
    → IsWellFormed (push_entry e e.op_num h)
unfolding push_entry
push_entry-IsWellFormed h e w f = record {
  listed = λ k.
      ground
        (arith, has-insert e.op_num k e h.op_log, elem-append k e.op_num h.op_nums, w.listed k);
  numbered = λ k d p. ground (arith, lookup-insert e.op_num k e h.op_log, w.numbered k d);
  distinct = IsDistinct-append e.op_num h.op_nums w.distinct f;
  sized = ground (
    arith,
    length-insert e.op_num e h.op_log,
    length-append h.op_nums (e.op_num ∷ []),
    w.listed e.op_num,
    w.sized,
  );
}

entry_at-insert :
    (n : ℕ) (e : LogEntry) (m : Dict ℕ LogEntry) (k : ℕ)
    → entry_at (insert n e m) k ≡ (if n == k then e else entry_at m k)
entry_at-insert n e m k = ground (arith, lookup-insert n k e m)

map-entry_at-insert :
    (n : ℕ) (e : LogEntry) (m : Dict ℕ LogEntry) (ns : List ℕ)
    → elem n ns ≡ false
    → map (entry_at (insert n e m)) ns ≡ map (entry_at m) ns
map-entry_at-insert n e m [] f = refl
map-entry_at-insert n e m (x ∷ ns) f =
    ground (arith, entry_at-insert n e m x, map-entry_at-insert n e m ns)

map-snoc {ℓ} :
    {A B : Type ℓ} (f : A → B) (xs : List A) (x : A) → map f (xs ++ x ∷ []) ≡ map f xs ++ f x ∷ []
map-snoc f [] x = refl
map-snoc f (y ∷ xs) x = ap (λ zs. f y ∷ zs) (map-snoc f xs x)

pub view-push_entry :
    (h : OpLogHandler) (e : LogEntry)
    → elem e.op_num h.op_nums ≡ false
    → view (push_entry e e.op_num h) ≡ view h ++ e ∷ []
unfolding push_entry
view-push_entry h e f = rw map-snoc (
    ground (
      arith,
      map-entry_at-insert e.op_num e h.op_log h.op_nums,
      entry_at-insert e.op_num e h.op_log e.op_num,
    ))

-- The invariant at a sublist of the numbers: each is there, under its own number.
abbrev pub IsPresent : Dict ℕ LogEntry → ℕ → Type 0
IsPresent m n = (has n m ≡ true) × ((entry_at m n).op_num ≡ n)

pub IsPresent-elem : (h : OpLogHandler) → IsWellFormed h → All (IsPresent h.op_log) h.op_nums
unfolding has
IsPresent-elem h w =
    All-elem (IsPresent h.op_log) h.op_nums
      λ n p. (w.listed n ∙ p, ground (arith, w.listed n, w.numbered n (entry_at h.op_log n)))

find-map :
    (n : ℕ) (m : Dict ℕ LogEntry) (ns : List ℕ)
    → All (IsPresent m) ns
    → find n (map (entry_at m) ns) ≡ (if elem n ns then lookup n m else none)
unfolding has
find-map n m [] p = refl
find-map n m (k ∷ ns) p = ground (arith, find-map n m ns p.1)

-- A look-up finds the entry of that number in the list, and nothing if there is none.
pub get_log_entry_lem :
    (n : ℕ) (h : OpLogHandler) → IsWellFormed h → get_log_entry n h ≡ find n (view h)
unfolding get_log_entry has
get_log_entry_lem n h w =
    ground (arith, find-map n h.op_log h.op_nums (IsPresent-elem h w), w.listed n)

pub map-mark :
    (n : ℕ) (e : LogEntry) (m : Dict ℕ LogEntry) (ns : List ℕ)
    → lookup n m ≡ some e
    → All (IsPresent m) ns
    → map (entry_at (insert n (record e { committed = true }) m)) ns
      ≡ map (mark_committed n) (map (entry_at m) ns)
map-mark n e m [] q p = refl
map-mark n e m (k ∷ ns) q p =
    ground (arith, entry_at-insert n (record e { committed = true }) m k, map-mark n e m ns q p.1)

numbers-map :
    (m : Dict ℕ LogEntry) (ns : List ℕ) → All (IsPresent m) ns → numbers (map (entry_at m) ns) ≡ ns
numbers-map m [] h = refl
numbers-map m (n ∷ ns) h = ground (arith, numbers-map m ns h.1)

-- The entries of a well-formed log stand under their own numbers.
pub numbers-view : (h : OpLogHandler) → IsWellFormed h → numbers (view h) ≡ h.op_nums
numbers-view h w = numbers-map h.op_log h.op_nums (IsPresent-elem h w)

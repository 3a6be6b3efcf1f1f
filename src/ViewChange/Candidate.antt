-- ===== src/ViewChange/Candidate.antt =====
-- Which replica becomes primary, and whose log it takes.
use meta_dr.Prelude.{
  ℕ, zero, suc, ◌+◌, ◌%◌, ◌≤◌, ◌<◌, ◌≡◌, refl, sym, ap, ◌∙◌, some, List, [], ◌∷◌, arith, ◌==◌,
  nat_eq, if◌then◌else◌, ltb, length, get_elem?, drop, All, Bool-cases, inl, inr, ◌&&◌,
}
use mathlib.Core.Path.{◌≡⟨◌⟩◌, ◌∎}
use native.Mathlib.Nat.{mod_self, mod-eq_of_lt, mod-lt, suc-mod}
use native.Mathlib.Numerals.{add-one}
use native.Mathlib.Decide.{dec_lt, ℕ_discrete}
use meta_dr.Prelude.Dict.{Dict}
use meta_dr.Types.{EndPoint, ViewChangeInfo, u64_mod}
use meta_dr.ReplicaState.{incr_lem}
use meta_dr.ViewChange.{get_next_primary_candidate}
use meta_dr.ViewChange.Update.{select_candidate, candidate}

-- The candidate after `k` more rounds.
unfoldable pub nth_candidate : Dict ℕ EndPoint → ℕ → ℕ → ℕ
nth_candidate replicas zero c = c
nth_candidate replicas (suc k) c = get_next_primary_candidate replicas (nth_candidate replicas k c)

pub next_lem :
    (replicas : Dict ℕ EndPoint) (c : ℕ)
    → c ≤ length replicas
    → suc (length replicas) < u64_mod
    → get_next_primary_candidate replicas c ≡ suc c % suc (length replicas)
unfolding get_next_primary_candidate
next_lem replicas c h fits = rw (incr_lem c (omega arith)) (elim (ℕ_discrete c (length replicas)) [
  | yes q ↦ rw (q, mod_self (suc (length replicas))) (ground arith)
  | no q ↦ rw (mod-eq_of_lt {n = suc c} {m = suc (length replicas)} (omega arith)) (ground arith)
])

-- With ids 0 to N - 1, where N - 1 is the number of the other replicas, the candidates go round:
-- `k` rounds after the replica `c` it is the turn of the replica `(c + k) mod N`.
pub round_robin :
    (replicas : Dict ℕ EndPoint) (k c : ℕ)
    → c ≤ length replicas
    → suc (length replicas) < u64_mod
    → nth_candidate replicas k c ≡ (c + k) % suc (length replicas)
unfolding nth_candidate
round_robin replicas zero c h fits =
    sym (mod-eq_of_lt (omega arith)) ∙ ap (λ (t : ℕ). t % suc (length replicas)) (omega arith)
round_robin replicas (suc k) c h fits =
    let size : ℕ = suc (length replicas) in
    let below : (c + k) % size < size = mod-lt (c + k) (omega arith) in
    get_next_primary_candidate replicas (nth_candidate replicas k c)
    ≡⟨ ap (get_next_primary_candidate replicas) (round_robin replicas k c h fits) ⟩
      get_next_primary_candidate replicas ((c + k) % size)
    ≡⟨ next_lem replicas ((c + k) % size) (omega arith) fits ⟩ suc ((c + k) % size) % size
    ≡⟨ sym (suc-mod (c + k) size) ⟩ suc (c + k) % size
    ≡⟨ ap (λ (t : ℕ). t % size) (omega arith) ⟩ (c + suc k) % size ∎

-- The element that the loop ends at, from the candidate `c`.
unfoldable pub best : ViewChangeInfo → ℕ → ℕ → List ViewChangeInfo → ViewChangeInfo
best c v op [] = c
best c v op (w ∷ ws) =
    let same = best w v w.op_num ws in
    let larger = best w w.old_view_num op ws in
    let other = best c v op ws in
    if w.old_view_num == v
    then (if ltb op w.op_num then same else other)
    else if ltb v w.old_view_num
    then larger
    else other

drop-cons :
    (i : ℕ) (all : List ViewChangeInfo) (w : ViewChangeInfo) (ws : List ViewChangeInfo)
    → drop i all ≡ w ∷ ws
    → (get_elem? all i ≡ some w) × (drop (suc i) all ≡ ws)
drop-cons zero [] w ws h = cc
drop-cons zero (x ∷ xs) w ws h = ground arith
drop-cons (suc i) [] w ws h = cc
drop-cons (suc i) (x ∷ xs) w ws h = drop-cons i xs w ws h

select_candidate-best :
    (i idx v op : ℕ) (all : List ViewChangeInfo) (c : ViewChangeInfo) (ws : List ViewChangeInfo)
    → get_elem? all idx ≡ some c
    → drop i all ≡ ws
    → get_elem? all (select_candidate i idx v op ws) ≡ some (best c v op ws)
unfolding select_candidate best
select_candidate-best i idx v op all c [] g d = g
select_candidate-best i idx v op all c (w ∷ ws) g d =
    let (here, rest) = drop-cons i all w ws d in
    let rest' : drop (i + 1) all ≡ ws = rw add-one rest in
    ground (
      arith,
      select_candidate-best (i + 1) i v w.op_num all w ws here rest',
      select_candidate-best (i + 1) i w.old_view_num op all w ws here rest',
      select_candidate-best (i + 1) idx v op all c ws g rest',
    )

-- One round goes on from a candidate whose old view is that of the round's highest.
best-cons :
    (c : ViewChangeInfo) (v op : ℕ) (w : ViewChangeInfo) (ws : List ViewChangeInfo)
    → c.old_view_num ≡ v
    → (d : ViewChangeInfo) × (u : ℕ) × (o : ℕ) × (best c v op (w ∷ ws) ≡ best d u o ws)
      × (d.old_view_num ≡ u)
      × (v ≤ u)
      × (w.old_view_num ≤ u)
unfolding best
best-cons c v op w ws q = elim (dec_lt v w.old_view_num) [
  | yes lt ↦ (w, w.old_view_num, op, ground arith, refl, omega arith, omega arith)
  | no above ↦ elim (Bool-cases (w.old_view_num == v && ltb op w.op_num)) [
    | inl higher ↦ (w, v, w.op_num, ground arith, ground arith, omega arith, omega arith)
    | inr lower ↦ (c, v, op, ground arith, q, omega arith, omega arith)
  ]
]

All-le :
    (a b : ℕ) (ws : List ViewChangeInfo)
    → a ≤ b
    → All (λ w. w.old_view_num ≤ a) ws
    → All (λ w. w.old_view_num ≤ b) ws
All-le a b [] h p = tt
All-le a b (w ∷ ws) h p = (omega (arith, p.0), All-le a b ws h p.1)

best-view :
    (c : ViewChangeInfo) (v op : ℕ) (ws : List ViewChangeInfo)
    → c.old_view_num ≡ v
    → (v ≤ (best c v op ws).old_view_num)
      × All (λ w. w.old_view_num ≤ (best c v op ws).old_view_num) ws
best-view c v op [] q = (unfold best in omega arith, tt)
best-view c v op (w ∷ ws) q =
    let (d, u, o, e, r, vu, wu) = best-cons c v op w ws q in
    let rest = best-view d u o ws r in
    let old : (best d u o ws).old_view_num ≡ (best c v op (w ∷ ws)).old_view_num =
      ap (λ (x : ViewChangeInfo). x.old_view_num) (sym e) in
    (omega arith, (omega arith, All-le _ _ ws (omega arith) rest.1))

-- Of a non-empty list of `ViewChangeInfo` one is chosen, and no other has a larger old view.
pub candidate-view :
    (v : ViewChangeInfo) (vs : List ViewChangeInfo)
    → (c : ViewChangeInfo) × (candidate (v ∷ vs) ≡ some c)
      × All (λ w. w.old_view_num ≤ c.old_view_num) (v ∷ vs)
unfolding candidate
candidate-view v vs = (
  best v v.old_view_num v.op_num vs,
  select_candidate-best 1 0 v.old_view_num v.op_num (v ∷ vs) v vs refl refl,
  best-view v v.old_view_num v.op_num vs refl,
)

-- The highest operation number is not reset when a larger old view is found: of three infos, the
-- first from an older view and the others from one newer view, the second is chosen although the
-- third has a larger operation number, whenever the first one's is at least as large.
candidate_stale :
    (a b c : ViewChangeInfo)
    → a.old_view_num < b.old_view_num
    → c.old_view_num ≡ b.old_view_num
    → b.op_num < c.op_num
    → c.op_num ≤ a.op_num
    → candidate (a ∷ b ∷ c ∷ []) ≡ some b
unfolding candidate
candidate_stale a b c older same less stale = ground arith

-- ===== src/ViewChange/Choice.antt =====
-- The loop of `changeView` over the candidates comes to an end.
use meta_dr.Prelude.{
  ℕ, zero, suc, ◌+◌, ◌-◌, ◌%◌, ◌≤◌, ◌<◌, ◌≡◌, refl, ap, ◌∙◌, false, not, ◌&&◌, Option, some, List,
  [], ◌∷◌, ◌++◌, arith, ◌==◌, nat_eq, leb, length, Bool-cases, Option-cases, inl, inr,
}
use native.Mathlib.Nat.{mod-eq_of_lt, mod-lt, add-mod_right}
use native.Mathlib.Decide.{dec_le}
use meta_dr.Prelude.Dict.{Dict, lookup, has, get_or_insert}
use meta_dr.Prelude.Exec.{Outcome, done}
use meta_dr.Types.{EndPoint, ViewChangeInfo, do_view_change, u64_mod}
use meta_dr.Node.{Node, Net, Packet, invoke, try_calls}
use meta_dr.ViewChange.{get_next_primary_candidate}
use meta_dr.ViewChange.Candidate.{nth_candidate, round_robin, next_lem}
use meta_dr.ViewChange.Change.{candidate_loop, choose_primary}

-- The replica has an endpoint for each of the ids 0 to the number of the others, but its own.
pub record HasOthers (n : Node) : Type 0 where
  pub id_bound : n.id ≤ length n.replicas
  pub known : (i : ℕ) → has i n.replicas ≡ (leb i (length n.replicas) && not (i == n.id))
  pub fits : suc (length n.replicas) < u64_mod

nth_candidate-next :
    (replicas : Dict ℕ EndPoint) (k c : ℕ)
    → nth_candidate replicas k (get_next_primary_candidate replicas c)
      ≡ nth_candidate replicas (suc k) c
unfolding nth_candidate
nth_candidate-next replicas zero c = refl
nth_candidate-next replicas (suc k) c =
    ap (get_next_primary_candidate replicas) (nth_candidate-next replicas k c)

-- Every replica comes to its turn within a round.
turn :
    (replicas : Dict ℕ EndPoint) (c id : ℕ)
    → c ≤ length replicas
    → id ≤ length replicas
    → suc (length replicas) < u64_mod
    → (d : ℕ) × (d ≤ length replicas) × (nth_candidate replicas d c ≡ id)
turn replicas c id hc hid fits = elim (dec_le c id) [
  | yes below ↦ (
    id - c,
    omega arith,
    round_robin replicas (id - c) c hc fits
        ∙ ap (λ (t : ℕ). t % suc (length replicas)) (omega arith)
        ∙ mod-eq_of_lt (omega arith),
  )
  | no above ↦
      let size : ℕ = suc (length replicas) in
      (
        id + size - c,
        omega arith,
        round_robin replicas (id + size - c) c hc fits
            ∙ ap (λ (t : ℕ). t % size) (omega arith)
            ∙ add-mod_right id size
            ∙ mod-eq_of_lt (omega arith),
      )
]

next-le :
    (replicas : Dict ℕ EndPoint) (c : ℕ)
    → c ≤ length replicas
    → suc (length replicas) < u64_mod
    → get_next_primary_candidate replicas c ≤ length replicas
next-le replicas c h fits =
    let below : suc c % suc (length replicas) < suc (length replicas) =
      mod-lt (suc c) (omega arith) in
    omega (arith, next_lem replicas c h fits)

abbrev pub with_sent : List Packet → Node → Node
with_sent s n = record n { sent = s }

-- The loop ends at a candidate, and has done nothing but calls.
abbrev Ends : Outcome (Option ℕ) × Node → Node → Type 0
Ends o n =
    (p : ℕ) × (s : List Packet) × (o ≡ (done (some p), with_sent s n)) × (p ≤ length n.replicas)

endpoint_of :
    (n : Node) (c : ℕ)
    → HasOthers n
    → c ≤ length n.replicas
    → (c == n.id) ≡ false
    → (ep : EndPoint) × (lookup c n.replicas ≡ some ep)
unfolding has
endpoint_of n c h b other = elim (Option-cases (lookup c n.replicas)) [
  | inl q ↦ ground (arith, h.known c)
  | inr found ↦ found
]

loop-Ends :
    (net : Net) (info : ViewChangeInfo) (fuel d cnt pri : ℕ) (n : Node)
    → HasOthers n
    → d < fuel
    → pri ≤ length n.replicas
    → nth_candidate n.replicas d pri ≡ n.id
    → Ends (candidate_loop net info fuel cnt pri n) n
unfolding candidate_loop nth_candidate get_or_insert invoke
loop-Ends net info zero d cnt pri n h lt b q = absurd (omega arith)
loop-Ends net info (suc fuel) zero cnt pri n h lt b q = (pri, n.sent, ground arith, b)
loop-Ends net info (suc fuel) (suc d) cnt pri n h lt b q = elim (Bool-cases (pri == n.id)) [
  | inl own ↦ (pri, n.sent, ground arith, b)
  | inr other ↦
      let (ep, found) = endpoint_of n pri h b other in
      let next = get_next_primary_candidate n.replicas pri in
      let (p, s, run, bound) =
        loop-Ends net info fuel d (cnt + 1) next n h (omega arith) (next-le n.replicas pri b h.fits)
          (nth_candidate-next n.replicas d pri ∙ q) in
      elim (Bool-cases (try_calls (net ep (do_view_change info)) 0 2)) [
        | inl called ↦
            (pri, n.sent ++ record { to = ep; message = do_view_change info } ∷ [], ground arith, b)
        | inr failed ↦
            elim (Bool-cases ((cnt + 1) == (length n.replicas + u64_mod - 1) % u64_mod)) [
              | inl last ↦ (pri, n.sent, ground arith, b)
              | inr more ↦ (p, s, ground arith, bound)
            ]
      ]
]

-- The search for the next primary comes to an end, whichever of its calls fail: on a replica that
-- knows an endpoint for each of the other ids, with a current primary among the ids, the loop returns
-- a replica id within its fuel, and nothing but the list of sent calls has changed.
pub choose_primary-returns :
    (net : Net) (info : ViewChangeInfo) (n : Node)
    → HasOthers n
    → n.rs.pri_id ≤ length n.replicas
    → (p : ℕ) × (sent : List Packet) × (choose_primary net info n ≡ (done p, with_sent sent n))
      × (p ≤ length n.replicas)
unfolding choose_primary
choose_primary-returns net info n h b =
    let first = get_next_primary_candidate n.replicas n.rs.pri_id in
    let first_bound = next-le n.replicas n.rs.pri_id b h.fits in
    let (d, in_round, q) = turn n.replicas first n.id first_bound h.id_bound h.fits in
    let (p, s, run, bound) =
      loop-Ends net info (length n.replicas + 1) d 0 first n h (omega arith) first_bound q in
    (p, s, rw run, bound)

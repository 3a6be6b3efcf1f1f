-- ===== src/Recovery/Restore.antt =====
-- A replica that has heard from the primary takes over its state.
use meta_dr.Prelude.{
  ℕ, ◌≤◌, ◌≡◌, refl, ap, ◌∙◌, ◌⊎◌, inl, inr, true, false, ◌&&◌, some, List, [], ◌∷◌, arith, ◌==◌,
  nat_eq, leb, le→leb, All, Bool-cases,
}
use meta_dr.Prelude.Dict.{lookup, get_or_insert}
use meta_dr.Prelude.Exec.{done}
use meta_dr.Types.{RecoveryResponse, normal, status_eq}
use meta_dr.OpLog.{get_log}
use meta_dr.OpLog.Contract.{Holds, set_log-get_log}
use meta_dr.Quorum.{majority_cnt}
use meta_dr.Node.{Node}
use meta_dr.Replicator.Consistent.{IsConsistent}
use meta_dr.Replicator.Primary.{is_primary_lem}
use meta_dr.Recovery.{adopt, adopt_primary, highest_view, cleanup, restore, answer}
use meta_dr.Recovery.Adopt.{Serves, adopted, numbers-IsDistinct, adopt_lem, adopted-IsConsistent}

abbrev IsAmong : RecoveryResponse → List RecoveryResponse → Type 0
IsAmong x [] = ⊥
IsAmong x (r ∷ rs) = (r ≡ x) ⊎ IsAmong x rs

-- A response is not from a later view than that of the primary `p`, and one that claims to be the
-- primary of that view is the answer of `p`.
abbrev pub IsFrom : ℕ → Node → RecoveryResponse → Type 0
IsFrom nonce p r =
    (r.view_num ≤ p.rs.view_num)
    × (r.view_num ≡ p.rs.view_num → r.is_primary ≡ true → r ≡ answer nonce p)

-- The replica `n` has the answer of the primary `p`, and a majority has answered from its view.
pub record Heard (n p : Node) (nonce : ℕ) : Type 0 where
  pub responses : List RecoveryResponse
  pub stored : lookup nonce n.recovery.recovery_resp_map ≡ some responses
  pub highest : highest_view (majority_cnt n.replicas) n.recovery.resp_view_cnt ≡ p.rs.view_num
  pub known : All (IsFrom nonce p) responses
  pub answered : IsAmong (answer nonce p) responses

answer_lem :
    (nonce : ℕ) (p : Node)
    → Serves p
    → ((answer nonce p).view_num ≡ p.rs.view_num) × ((answer nonce p).is_primary ≡ true)
unfolding answer
answer_lem nonce p s = ground (arith, is_primary_lem p s.primary)

adopt_primary_lem :
    (now nonce : ℕ) (p n : Node) (rs : List RecoveryResponse)
    → Serves p
    → All (IsFrom nonce p) rs
    → IsAmong (answer nonce p) rs
    → adopt_primary now p.rs.view_num rs n ≡ adopt now (answer nonce p) n
unfolding adopt_primary
adopt_primary_lem now nonce p n [] s k a = absurd a
adopt_primary_lem now nonce p n (r ∷ rs) s k a =
    elim (Bool-cases (r.view_num == p.rs.view_num && r.is_primary)) [
      | inl q ↦ rw q (ap (λ x. adopt now x n) (k.0.1 (ground arith) (ground arith)))
      | inr q ↦ elim a [
        | inl e ↦ absurd (not_answer e q)
        | inr later ↦
            let checked : leb r.view_num p.rs.view_num ≡ true =
              le→leb r.view_num p.rs.view_num k.0.0 in
            rw (q, checked) (adopt_primary_lem now nonce p n rs s k.1 later)
      ]
    ]
  where
    not_answer : r ≡ answer nonce p → (r.view_num == p.rs.view_num && r.is_primary) ≡ false → ⊥
    not_answer e q =
        let known = answer_lem nonce p s in
        let v : r.view_num ≡ p.rs.view_num =
          ap (λ (x : RecoveryResponse). x.view_num) e ∙ known.0 in
        let b : r.is_primary ≡ true = ap (λ (x : RecoveryResponse). x.is_primary) e ∙ known.1 in
        ground arith

-- The replica `m` stands where the primary `p` stands.
pub record Recovered (p m : Node) : Type 0 where
  pub consistent : IsConsistent m
  pub same_log : Holds m.log (get_log p.log).0
  pub same_kv : m.kv ≡ p.kv
  pub primary : m.rs.pri_id ≡ p.id
  pub view_num : m.rs.view_num ≡ p.rs.view_num
  pub op_num : m.rs.op_num ≡ p.rs.op_num
  pub commit_num : m.rs.commit_num ≡ p.rs.commit_num
  pub normal_status : m.rs.status ≡ normal

-- A replica with an empty map that has the answer of a consistent primary whose log lists the
-- operations in their order, no answer from a later view and no other answer of a primary of that
-- view, and a majority of answers from that view first among its counters, ends its recovery with no
-- failed assertion: it is consistent and in normal status, and has the view, the numbers, the log and
-- the map of that primary.
pub restore-Recovered :
    (now nonce : ℕ) (n p : Node)
    → Serves p
    → Heard n p nonce
    → (n.update_cb ≡ true) × (n.delete_cb ≡ true)
    → n.kv ≡ []
    → (m : Node) × (restore now nonce n ≡ (done tt, m)) × Recovered p m
unfolding restore cleanup get_or_insert
restore-Recovered now nonce n p s h u e =
    let ok = adopted-IsConsistent now p n s u.0 u.1 in
    (
      record (adopted now p n) {
        recovery = record n.recovery {
          wait_map = [];
          recovery_resp_map = [];
          resp_view_cnt = [];
          received_resp_from_pri = false;
        };
      },
      ground (
        arith,
        h.stored,
        h.highest,
        adopt_primary_lem now nonce p n h.responses s h.known h.answered,
        adopt_lem now nonce p n s u.0 u.1 e,
      ),
      record {
        consistent = record {
          logged = ok.logged;
          flagged = ok.flagged;
          behind = ok.behind;
          applied = ok.applied;
          callbacks = ok.callbacks;
        };
        same_log = set_log-get_log (get_log p.log).0 n.log (numbers-IsDistinct p.log s.well_formed);
        same_kv = refl;
        primary = refl;
        view_num = refl;
        op_num = refl;
        commit_num = refl;
        normal_status = refl;
      },
    )

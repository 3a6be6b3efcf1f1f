-- ===== src/Cluster/Follows.antt =====
-- A backup that follows the log of a primary, and the steps of both that keep it so.
use meta_dr.Prelude.{
  ℕ, suc, ◌≤◌, ◌≡◌, ◌≢◌, refl, sym, ◌∙◌, ◌⊎◌, inl, inr, true, ◌&&◌, some, List, [], ◌∷◌, nat_eq,
  ltb, leb, arith, All, text_eq,
}
use native.Mathlib.Decide.{ℕ_discrete}
use meta_dr.Prelude.Dict.{Dict, lookup, insert, has, lookup-insert}
use meta_dr.Types.{LogEntry, PrepInfo, normal, status_eq}
use meta_dr.Node.{Node}
use meta_dr.Replicator.Replay.{replay, replay-insert_later, replay-commit}
use meta_dr.Replicator.Consistent.{IsConsistent}
use meta_dr.Replicator.Core.{prepared_entry, prepared_pair}

-- The log has the operation that `p` carries, under its number.
pub record Matches (log : Dict ℕ LogEntry) (p : PrepInfo) : Type 0 where
  pub entry : LogEntry
  pub found : lookup p.op_num log ≡ some entry
  pub same_pair : entry.kv_pair ≡ prepared_pair p
  pub same_type : entry.op_type ≡ p.op_type

abbrev pub HasNumbers : Node → Type 0
HasNumbers n = (i : ℕ) → has i n.log.op_log ≡ (ltb 0 i && leb i n.rs.op_num)

-- The log has grown at its end, but for flags.
pub record Extends (n m : Node) : Type 0 where
  pub view_num : m.rs.view_num ≡ n.rs.view_num
  pub op_num : n.rs.op_num ≤ m.rs.op_num
  pub matches : (p : PrepInfo) → Matches n.log.op_log p → Matches m.log.op_log p
  pub same : (k : ℕ) → k ≤ n.rs.op_num → replay m.log.op_log k ≡ replay n.log.op_log k

-- The backup `b` follows the primary `n`: it is consistent and in normal status and in the same
-- view, and its log and its queue hold operations of the primary's log.
pub record Follows (n b : Node) : Type 0 where
  pub consistent : IsConsistent b
  pub normal_status : b.rs.status ≡ normal
  pub view_num : b.rs.view_num ≡ n.rs.view_num
  pub op_num : b.rs.op_num ≤ n.rs.op_num
  pub queue : All (Matches n.log.op_log) b.prep_req_q
  pub same : (k : ℕ) → k ≤ b.rs.op_num → replay b.log.op_log k ≡ replay n.log.op_log k

All-map {ℓ κ} :
    {A : Type ℓ} {P Q : A → Type κ} (xs : List A) → ((x : A) → P x → Q x) → All P xs → All Q xs
All-map [] f h = tt
All-map (x ∷ xs) f h = (f x h.0, All-map xs f h.1)

pub Follows-Extends : (n m b : Node) → Extends n m → Follows n b → Follows m b
Follows-Extends n m b e f = record {
  consistent = f.consistent;
  normal_status = f.normal_status;
  view_num = f.view_num ∙ sym e.view_num;
  op_num = omega (arith, f.op_num, e.op_num);
  queue = All-map b.prep_req_q e.matches f.queue;
  same = λ k h. f.same k h ∙ sym (e.same k (omega (arith, f.op_num)));
}

-- The log after an operation has been appended, and perhaps committed.
abbrev pub Grown : PrepInfo → Node → Node → Type 0
Grown p n m =
    let e = prepared_entry p in
    let pushed = insert p.op_num e n.log.op_log in
    (m.log.op_log ≡ pushed)
    ⊎ (m.log.op_log ≡ insert p.op_num (record e { committed = true }) pushed)

module _ (p : PrepInfo) (n m : Node) (numbers : HasNumbers n) (q : p.op_num ≡ suc n.rs.op_num)
    (q' : m.rs.op_num ≡ suc n.rs.op_num) (g : Grown p n m) where
  pub lookup-Grown : (i : ℕ) → i ≢ p.op_num → lookup i m.log.op_log ≡ lookup i n.log.op_log
  lookup-Grown i h =
      let e = prepared_entry p in
      elim g [
        | inl l ↦ rw l (ground (arith, lookup-insert p.op_num i e n.log.op_log))
        | inr l ↦ rw l (
            ground (
              arith,
              lookup-insert p.op_num i e n.log.op_log,
              lookup-insert p.op_num i (record e { committed = true })
                  (insert p.op_num e n.log.op_log),
            ))
      ]

  pub Matches-Grown : Matches m.log.op_log p
  Matches-Grown =
      let e = prepared_entry p in
      elim g [
        | inl l ↦ record {
          entry = e;
          found = rw l (ground (arith, lookup-insert p.op_num p.op_num e n.log.op_log));
          same_pair = refl;
          same_type = refl;
        }
        | inr l ↦ record {
          entry = record e { committed = true };
          found = rw l (
              ground (
                arith,
                lookup-insert p.op_num p.op_num (record e { committed = true })
                    (insert p.op_num e n.log.op_log),
              ));
          same_pair = refl;
          same_type = refl;
        }
      ]

  pub HasNumbers-Grown : HasNumbers m
  unfolding has
  HasNumbers-Grown i = elim (ℕ_discrete i p.op_num) [
    | yes here ↦ ground (arith, Matches-Grown.found)
    | no other ↦ ground (arith, lookup-Grown i other, numbers i)
  ]

  replay-Grown : (k : ℕ) → k ≤ n.rs.op_num → replay m.log.op_log k ≡ replay n.log.op_log k
  replay-Grown k h =
      let e = prepared_entry p in
      let pushed = replay-insert_later n.log.op_log p.op_num e k (omega arith) in
      elim g [
        | inl l ↦ rw l pushed
        | inr l ↦ rw l (
            replay-commit (insert p.op_num e n.log.op_log) p.op_num e k
              (ground (arith, lookup-insert p.op_num p.op_num e n.log.op_log))
            ∙ pushed)
      ]

  pub Extends-Grown : m.rs.view_num ≡ n.rs.view_num → Extends n m
  unfolding has
  Extends-Grown v = record {
    view_num = v;
    op_num = omega arith;
    matches = λ o h. record {
      entry = h.entry;
      found = lookup-Grown o.op_num (ground (arith, numbers o.op_num, h.found)) ∙ h.found;
      same_pair = h.same_pair;
      same_type = h.same_type;
    };
    same = replay-Grown;
  }

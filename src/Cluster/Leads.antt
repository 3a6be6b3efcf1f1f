-- ===== src/Cluster/Leads.antt =====
-- The steps of the primary of a cluster: it stays the primary, and its log grows at its end.
use meta_dr.Prelude.{
  ℕ, suc, ◌<◌, ◌≡◌, refl, sym, ap, ◌∙◌, inl, inr, Bool, true, List, [], ◌∷◌, nat_eq, arith,
  Option-cases, Text, text_eq,
}
use mathlib.Core.Path.{subst}
use meta_dr.Prelude.Dict.{Dict, lookup}
use meta_dr.Prelude.Exec.{Outcome}
use meta_dr.Types.{Message, PrepInfo, PrepResponse, prepare, commit, normal, status_eq, u64_mod}
use meta_dr.OpLog.{push_entry, OpLogHandler}
use meta_dr.Node.{Node, Net, Packet}
use meta_dr.Replicator.{Surroundings, CvStatus}
use meta_dr.Replicator.Handlers.{process_prepare_ok}
use meta_dr.Replicator.Replay.{replay}
use meta_dr.Replicator.Core.{SameCore, appended}
use meta_dr.Replicator.Primary.{Leads, replicated}
use meta_dr.KvStore
use meta_dr.KvStore.Laws.{update_prep, delete_prep, with_kv, set-ends, remove-ends}
use meta_dr.ViewChange.Change.{Surroundings as ViewSurroundings}
use meta_dr.HeartBeat.{heart_beat}
use meta_dr.HeartBeat.Rounds.{heart_beat-primary}
use meta_dr.Cluster.{answered}
use meta_dr.Cluster.Answers.{answered-IsQuiet, answer-SameRole, answer-SameCore}
use meta_dr.Cluster.Acts.{AllSent, AllSent-broadcast, Acts, Acts-SameRole, Acts-refl}
use meta_dr.Cluster.Sends.{Acts-set, Acts-remove}
use meta_dr.Cluster.Follows.{
  Matches, HasNumbers, Extends, Grown, Matches-Grown, HasNumbers-Grown, Extends-Grown,
}

-- A call on its way is of the primary's view, and what it prepares is in the primary's log.
abbrev pub IsGood : Node → Message → Type 0
IsGood n m = elim m [
  | prepare p ↦ Matches n.log.op_log p
  | commit c ↦ c.view_num ≡ n.rs.view_num
  | _ ↦ Unit
]

pub record IsPrimary (n : Node) : Type 0 where
  pub primary : n.id ≡ n.rs.pri_id
  pub normal_status : n.rs.status ≡ normal
  pub started : n.started ≡ true
  pub fits : suc n.rs.op_num < u64_mod
  pub numbers : HasNumbers n
  pub good : AllSent (IsGood n) n.sent

IsGood-Extends : (n m : Node) → Extends n m → (g : Message) → IsGood n g → IsGood m g
IsGood-Extends n m e (prepare p) h = e.matches p h
IsGood-Extends n m e (commit c) h = h ∙ sym e.view_num
IsGood-Extends n m e _ h = tt

AllSent-Extends :
    (n m : Node) (sent : List Packet)
    → Extends n m
    → AllSent (IsGood n) sent
    → AllSent (IsGood m) sent
AllSent-Extends n m [] e h = tt
AllSent-Extends n m (q ∷ qs) e h =
    (IsGood-Extends n m e q.message h.0, AllSent-Extends n m qs e h.1)

Extends-core : (n m : Node) → SameCore n m → m.rs.view_num ≡ n.rs.view_num → Extends n m
Extends-core n m s v = record {
  view_num = v;
  op_num = omega (arith, s.op_num);
  matches = λ p h. subst (λ (l : OpLogHandler). Matches l.op_log p) (sym s.log) h;
  same = λ k h. ap (λ (l : OpLogHandler). replay l.op_log k) s.log;
}

HasNumbers-core : (n m : Node) → SameCore n m → HasNumbers n → HasNumbers m
HasNumbers-core n m s h i = rw (s.log, s.op_num) (h i)

-- The primary after a step of its own.
pub record Goes (n m : Node) : Type 0 where
  pub leads : IsPrimary m
  pub extends : Extends n m

IsPrimary-Leads : (n : Node) → IsPrimary n → Leads n
IsPrimary-Leads n l = record {
  primary = l.primary;
  normal_status = l.normal_status;
  started = l.started;
  fits = l.fits;
}

-- A step that only sends.
Goes-core : (n m : Node) → IsPrimary n → SameCore n m → Acts (IsGood n) n m → Goes n m
Goes-core n m l s a =
    let e = Extends-core n m s a.view_num in
    record {
      leads = record {
        primary = a.id ∙ l.primary ∙ sym a.pri_id;
        normal_status = a.status ∙ l.normal_status;
        started = a.started ∙ l.started;
        fits = omega (arith, l.fits, s.op_num);
        numbers = HasNumbers-core n m s l.numbers;
        good = AllSent-Extends n m m.sent e (a.sent l.good);
      };
      extends = e;
    }

-- A step that logs the operation `p`.
Goes-Grown :
    (p : PrepInfo) (n m : Node)
    → IsPrimary n
    → suc (suc n.rs.op_num) < u64_mod
    → p.op_num ≡ suc n.rs.op_num
    → m.rs.op_num ≡ suc n.rs.op_num
    → Grown p n m
    → Acts (IsGood m) n m
    → Goes n m
Goes-Grown p n m l fits q q' g a =
    let e = Extends-Grown p n m l.numbers q q' g a.view_num in
    record {
      leads = record {
        primary = a.id ∙ l.primary ∙ sym a.pri_id;
        normal_status = a.status ∙ l.normal_status;
        started = a.started ∙ l.started;
        fits = omega arith;
        numbers = HasNumbers-Grown p n m l.numbers q q' g;
        good = a.sent (AllSent-Extends n m n.sent e l.good);
      };
      extends = e;
    }

abbrev Logs : PrepInfo → Node → Node → Type 0
Logs p n m = (m.rs.op_num ≡ suc n.rs.op_num) × Grown p n m

Logs-replicated :
    (p : PrepInfo) (n x : Node) (kv : Dict Text Text)
    → p.op_num ≡ suc n.rs.op_num
    → SameCore (with_kv kv (replicated p n)) x
    → Logs p n x
Logs-replicated p n x kv q s = (s.op_num ∙ q, inr (ap (λ (l : OpLogHandler). l.op_log) s.log))

Logs-appended :
    (p : PrepInfo) (n x : Node)
    → p.op_num ≡ suc n.rs.op_num
    → SameCore (appended p n) x
    → Logs p n x
unfolding push_entry
Logs-appended p n x q s = (s.op_num ∙ q, inl (ap (λ (l : OpLogHandler). l.op_log) s.log))

module _ (net : Net) (calls wait : List PrepResponse) (wake : CvStatus) (n : Node) (l : IsPrimary n)
    (fits : suc (suc n.rs.op_num) < u64_mod) where
  pub set-Goes : (key val : Text) → Goes n (KvStore.set (answered net calls wait wake) key val n).1
  set-Goes key val =
      let env = answered net calls wait wake in
      let p = update_prep key val n in
      let lead = IsPrimary-Leads n l in
      let m = (KvStore.set env key val n).1 in
      let (q, g) : Logs p n m =
        (elim (set-ends env n (answered-IsQuiet net calls wait wake) lead key val) [
          | inl (x, b, run, s) ↦
              subst (Logs p n) (ap (λ (r : Outcome Bool × Node). r.1) (sym run))
                (Logs-replicated p n x _ refl s)
          | inr (x, run, late, s) ↦
              subst (Logs p n) (ap (λ (r : Outcome Bool × Node). r.1) (sym run))
                (Logs-appended p n x refl s)
        ]) in
      let same_view = (Acts-set (λ _. Unit) net calls wait wake key val n lead tt tt).view_num in
      Goes-Grown p n m l fits refl q g (
        Acts-set (IsGood m) net calls wait wake key val n lead
          (Matches-Grown p n m l.numbers refl q g) (sym same_view))

  pub remove-Goes : (key : Text) → Goes n (KvStore.remove (answered net calls wait wake) key n).1
  unfolding KvStore.remove
  remove-Goes key = elim (Option-cases (lookup key n.kv)) [
    | inl missing ↦
        rw (KvStore.remove, missing)
          (Goes-core n n l
            (record {
              log = refl;
              kv = refl;
              op_num = refl;
              commit_num = refl;
              update_cb = refl;
              delete_cb = refl;
            })
            (Acts-refl n))
    | inr (val, there) ↦
        let env = answered net calls wait wake in
        let p = delete_prep key n in
        let lead = IsPrimary-Leads n l in
        let m = (KvStore.remove env key n).1 in
        let (q, g) : Logs p n m =
          (elim (remove-ends env n (answered-IsQuiet net calls wait wake) lead key val there) [
            | inl (x, run, s) ↦
                subst (Logs p n) (ap (λ (r : Outcome (Unit {0}) × Node). r.1) (sym run))
                  (Logs-replicated p n x _ refl s)
            | inr (x, run, late, s) ↦
                subst (Logs p n) (ap (λ (r : Outcome (Unit {0}) × Node). r.1) (sym run))
                  (Logs-appended p n x refl s)
          ]) in
        let same_view = (Acts-remove (λ _. Unit) net calls wait wake key n lead tt tt).view_num in
        Goes-Grown p n m l fits refl q g (
          Acts-remove (IsGood m) net calls wait wake key n lead
            (Matches-Grown p n m l.numbers refl q g) (sym same_view))
  ]

pub answer-Goes : (r : PrepResponse) (n : Node) → IsPrimary n → Goes n (process_prepare_ok r n).1
answer-Goes r n l = Goes-core n _ l (answer-SameCore r n) (Acts-SameRole (answer-SameRole r n))

pub beat-Goes :
    (env : Surroundings) (view_env : ViewSurroundings) (now nonce : ℕ) (n : Node)
    → IsPrimary n
    → Goes n (heart_beat env view_env now nonce n).1
beat-Goes env view_env now nonce n l =
    rw (heart_beat-primary env view_env now nonce n l.normal_status l.primary) (
      Goes-core n _ l
        (record {
          log = refl;
          kv = refl;
          op_num = refl;
          commit_num = refl;
          update_cb = refl;
          delete_cb = refl;
        })
        (record {
          id = refl;
          pri_id = refl;
          status = refl;
          view_num = refl;
          started = refl;
          sent =
              AllSent-broadcast (IsGood n) env.net
                (commit (record { view_num = n.rs.view_num; commit_num = n.rs.commit_num })) n.id
                n.replicas n.sent refl;
        }))

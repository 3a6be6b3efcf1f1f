-- ===== src/ViewChange/Change/Endings.antt =====
-- The ways in which `changeView` of server/viewChangeHandler.cc can end, and what the threads that run
-- while it waits are trusted with.
use meta_dr.Prelude.{
  ℕ, ◌≡◌, refl, ◌∙◌, Bool, true, false, List, ◌==◌, nat_eq, inl, inr, ◌⊎◌, ◌++◌, [], ◌∷◌, length,
  ◌≤◌,
}
use meta_dr.ReplicaState.{incr}
use meta_dr.OpLog.Model.{view}
use meta_dr.Types.{ViewChangeInfo, start_view_change}
use meta_dr.ViewChange.{count_request}
use meta_dr.Prelude.Dict.{get_or_insert, has}
use meta_dr.Prelude.Exec.{Outcome, done, abort}
use meta_dr.Quorum.{quorum_reached}
use meta_dr.Node.{Node, ViewChangeState, Packet}
use meta_dr.Replicator.{CvStatus, no_timeout, timeout}
use meta_dr.Replicator.Core.{broadcast, SameCore, SameCore-trans}
use meta_dr.ViewChange.Update.{update_new_view}
use meta_dr.ViewChange.Choice.{HasOthers}
use meta_dr.ViewChange.Change.{request_count, Surroundings, change_count, start_count}

-- The log, the map and the numbers are the same, and so are the status, the view and the others.
pub record Keeps (n m : Node) : Type 0 where
  pub core : SameCore n m
  pub status : m.rs.status ≡ n.rs.status
  pub view_num : m.rs.view_num ≡ n.rs.view_num
  pub id : m.id ≡ n.id
  pub replicas : m.replicas ≡ n.replicas

pub Keeps-trans : {a b c : Node} → Keeps a b → Keeps b c → Keeps a c
Keeps-trans s t = record {
  core = SameCore-trans s.core t.core;
  status = t.status ∙ s.status;
  view_num = t.view_num ∙ s.view_num;
  id = t.id ∙ s.id;
  replicas = t.replicas ∙ s.replicas;
}

-- What the other threads do meanwhile keeps all that, and the primary that the replica knows.
pub record IsCalm (env : Surroundings) : Type 0 where
  pub calls :
      (n : Node) → Keeps n (env.during_calls n) × ((env.during_calls n).rs.pri_id ≡ n.rs.pri_id)
  pub request_wait :
      (n : Node)
      → Keeps n (env.during_request_wait n) × ((env.during_request_wait n).rs.pri_id ≡ n.rs.pri_id)
  pub change_wait : (n : Node) → Keeps n (env.during_change_wait n)

-- The replica when it has sent its request to the others and counted itself.
abbrev pub asked : Surroundings → ℕ → Node → Node
asked env v n =
    (count_request v (
      env.during_calls (record n {
        sent =
            broadcast env.net (start_view_change (record { view_num = v; replica_id = n.id })) n.id
              n.replicas n.sent;
      }))).1

abbrev pub has_requests : ℕ → Node → Bool
has_requests v k = quorum_reached k.replicas (request_count v k)

-- The first wait is over, with the requests of a majority or woken up.
pub data Started (env : Surroundings) (v : ℕ) (n k : Node) : Type 0 where
  counted : has_requests v (asked env v n) ≡ true → k ≡ asked env v n → Started env v n k
  woken :
      has_requests v (asked env v n) ≡ false
      → env.request_wake ≡ no_timeout
      → k ≡ env.during_request_wait (asked env v n)
      → Started env v n k

abbrev pub infos_of : ℕ → Node → List ViewChangeInfo
infos_of v n = (get_or_insert v [] n.view.view_change_info_map).0

-- The replica `k` has joined the view change, as `next`: it has added its info, with the commit number
-- as the operation number, counted itself, and taken one of the replicas as the new primary.
pub record Joined (old v : ℕ) (k next : Node) : Type 0 where
  pub info :
      infos_of v next
      ≡ infos_of v k
        ++ record {
          view_num = v;
          op_log = view k.log;
          old_view_num = old;
          op_num = k.rs.commit_num;
          commit_num = k.rs.commit_num;
          replica_id = k.id;
        }
          ∷ []
  pub counted : change_count v next ≡ incr (change_count v k)
  pub bound : next.rs.pri_id ≤ length next.replicas

-- What the second wait is for: as the new primary that a majority is counted, and as a backup that the
-- message of the new primary is.
abbrev pub is_ready : ℕ → Bool → Node → Bool
is_ready v true k = quorum_reached k.replicas (change_count v k)
is_ready v false k = start_count v k == 1

-- How the rest ends, on a replica that is the new primary or not.
pub data Finishes (env : Surroundings) (v : ℕ) (p : Bool) (n : Node) (o : Outcome (Unit {0}) × Node)
    : Type 0 where
  updates : is_ready v p n ≡ true → o ≡ update_new_view env.net env.now v p n → Finishes env v p n o
  gives_up :
      is_ready v p n ≡ false
      → env.change_wake ≡ timeout
      → o ≡ (done tt, env.during_change_wait n)
      → Keeps n (env.during_change_wait n)
      → Finishes env v p n o
  updates_late :
      is_ready v p n ≡ false
      → env.change_wake ≡ no_timeout
      → is_ready v p (env.during_change_wait n) ≡ true
      → o ≡ update_new_view env.net env.now v p (env.during_change_wait n)
      → Keeps n (env.during_change_wait n)
      → Finishes env v p n o
  fails :
      is_ready v p n ≡ false
      → env.change_wake ≡ no_timeout
      → is_ready v p (env.during_change_wait n) ≡ false
      → o ≡ (abort, env.during_change_wait n)
      → Keeps n (env.during_change_wait n)
      → Finishes env v p n o

-- How an attempt ends that has come from the view `old` to the view `v`.
pub data Ends (env : Surroundings) (old v : ℕ) (n : Node) (o : Outcome (Unit {0}) × Node)
    : Type 0 where
  has_message :
      has v n.view.view_start_info_map ≡ true
      → o ≡ update_new_view env.net env.now v false n
      → Ends env old v n o
  no_requests :
      has v n.view.view_start_info_map ≡ false
      → has_requests v (asked env v n) ≡ false
      → env.request_wake ≡ timeout
      → o ≡ (done tt, env.during_request_wait (asked env v n))
      → Keeps n (env.during_request_wait (asked env v n))
      → Ends env old v n o
  joins :
      (k next : Node)
      → has v n.view.view_start_info_map ≡ false
      → Started env v n k
      → Joined old v k next
      → Keeps n k
      → Keeps k next
      → Finishes env v (next.rs.pri_id == next.id) next o
      → Ends env old v n o

-- Messages, what the view change counts, and the primary are no part of it.
pub Keeps-aside :
    (n : Node) (s : ViewChangeState) (p : List Packet) (pri : ℕ)
    → Keeps n (record n { view = s; sent = p; rs = record n.rs { pri_id = pri } })
Keeps-aside n s p pri = record {
  core = record {
    log = refl;
    kv = refl;
    op_num = refl;
    commit_num = refl;
    update_cb = refl;
    delete_cb = refl;
  };
  status = refl;
  view_num = refl;
  id = refl;
  replicas = refl;
}

pub Keeps-refl : (n : Node) → Keeps n n
Keeps-refl n = Keeps-aside n n.view n.sent n.rs.pri_id

pub HasOthers-Keeps : {n m : Node} → Keeps n m → HasOthers n → HasOthers m
HasOthers-Keeps s h = record {
  id_bound = rw (s.id, s.replicas) h.id_bound;
  known = λ i. rw (s.id, s.replicas) (h.known i);
  fits = rw s.replicas h.fits;
}

pub wake_cases : (w : CvStatus) → (w ≡ no_timeout) ⊎ (w ≡ timeout)
wake_cases no_timeout = inl refl
wake_cases timeout = inr refl

-- ===== src/Cluster.antt =====
-- The normal operation of one view: a primary and its backups, with the calls that the primary has
-- sent on their way. A call may reach a backup at any time, in any order, more than once, or never.
pub mod Answers
pub mod Acts
pub mod Sends
pub mod Follows
pub mod Backups
pub mod Leads
pub mod Agreement
use meta_dr.Prelude.{
  ℕ, ◌+◌, ◌<◌, ◌≡◌, suc, ◌⊎◌, Bool, true, false, List, [], ◌∷◌, ◌==◌, nat_eq, if◌then◌else◌, Text,
}
use meta_dr.Prelude.Exec.{Outcome, done}
use meta_dr.Types.{PrepInfo, PrepResponse, CommitInfo, Message, prepare, commit, u64_mod}
use meta_dr.Node.{Node, Net, Packet}
use meta_dr.Replicator.{Surroundings, CvStatus}
use meta_dr.Replicator.Handlers.{
  process_prepare, process_prepare_ok, process_commit, process_prep_info,
}
use meta_dr.KvStore
use meta_dr.ViewChange.Change.{Surroundings as ViewSurroundings}
use meta_dr.HeartBeat.{heart_beat}

pub record Cluster : Type 0 where
  pub primary : Node
  pub backups : ℕ → Node

-- The answers that reach the primary while it waits, each with its handler.
abbrev pub take_answers : List PrepResponse → Node → Node
take_answers [] n = n
take_answers (r ∷ rs) n = take_answers rs (process_prepare_ok r n).1

-- What the other threads of the primary do meanwhile is to handle answers.
abbrev pub answered : Net → List PrepResponse → List PrepResponse → CvStatus → Surroundings
answered net during_calls during_wait wake = record {
  net = net;
  during_calls = take_answers during_calls;
  during_wait = take_answers during_wait;
  wake = wake;
}

abbrev pub IsSent : Message → List Packet → Type 0
IsSent m [] = ⊥
IsSent m (p ∷ ps) = (p.message ≡ m) ⊎ IsSent m ps

abbrev pub change : ℕ → Node → (ℕ → Node) → ℕ → Node
change i b bs j = if i == j then b else bs j

-- A handler or a round of a thread runs to its end on one replica. The calls of the clients may end
-- in any way.
pub data Step (c : Cluster) (d : Cluster) : Type 0 where
  set :
      (net : Net) (calls wait : List PrepResponse) (wake : CvStatus) (key val : Text)
      → suc (suc c.primary.rs.op_num) < u64_mod
      → d ≡ record c { primary = (KvStore.set (answered net calls wait wake) key val c.primary).1 }
      → Step c d
  remove :
      (net : Net) (calls wait : List PrepResponse) (wake : CvStatus) (key : Text)
      → suc (suc c.primary.rs.op_num) < u64_mod
      → d ≡ record c { primary = (KvStore.remove (answered net calls wait wake) key c.primary).1 }
      → Step c d
  answer :
      (r : PrepResponse) → d ≡ record c { primary = (process_prepare_ok r c.primary).1 } → Step c d
  beat :
      (env : Surroundings) (view_env : ViewSurroundings) (now nonce : ℕ)
      → d ≡ record c { primary = (heart_beat env view_env now nonce c.primary).1 }
      → Step c d
  receive :
      (i : ℕ) (p : PrepInfo) (b : Node)
      → IsSent (prepare p) c.primary.sent
      → process_prepare p (c.backups i) ≡ (done tt, b)
      → d ≡ record c { backups = change i b c.backups }
      → Step c d
  log :
      (i : ℕ) (net : Net) (b : Node)
      → process_prep_info net (c.backups i) ≡ (done tt, b)
      → d ≡ record c { backups = change i b c.backups }
      → Step c d
  apply :
      (i now : ℕ) (m : CommitInfo) (b : Node)
      → IsSent (commit m) c.primary.sent
      → process_commit now m (c.backups i) ≡ (done tt, b)
      → d ≡ record c { backups = change i b c.backups }
      → Step c d

pub data Reach (c : Cluster) : Cluster → Type 0 where
  here : Reach c c
  next : {d e : Cluster} → Reach c d → Step d e → Reach c e

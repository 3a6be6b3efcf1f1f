-- ===== src/Cluster/Acts.antt =====
-- What a step of the primary keeps, and a statement on all that it sends.
use meta_dr.Prelude.{
  ℕ, ◌≡◌, refl, sym, ◌∙◌, inl, inr, Bool, true, false, List, [], ◌∷◌, ◌++◌, ◌==◌, nat_eq,
  if◌then◌else◌, Bool-cases, All, All-append, text_eq,
}
use mathlib.Core.Path.{subst}
use meta_dr.Prelude.Dict.{Dict}
use meta_dr.Types.{EndPoint, Message}
use meta_dr.Node.{Node, Net, Packet, try_calls}
use meta_dr.Replicator.Core.{broadcast}
use meta_dr.Cluster.Answers.{SameRole}

-- A statement on the message of every sent call.
abbrev pub AllSent : (Message → Type 0) → List Packet → Type 0
AllSent P = All (λ q. P q.message)

pub AllSent-broadcast :
    (P : Message → Type 0) (net : Net) (m : Message) (id : ℕ) (replicas : Dict ℕ EndPoint)
    (sent : List Packet)
    → P m
    → AllSent P sent
    → AllSent P (broadcast net m id replicas sent)
unfolding broadcast
AllSent-broadcast P net m id [] sent h s = s
AllSent-broadcast P net m id ((rid, ep) ∷ rest) sent h s = elim (Bool-cases (rid == id)) [
  | inl own ↦ rw own (AllSent-broadcast P net m id rest sent h s)
  | inr other ↦ elim (Bool-cases (try_calls (net ep m) 0 2)) [
    | inl called ↦
        rw (other, called)
          (AllSent-broadcast P net m id rest (sent ++ record { to = ep; message = m } ∷ []) h
            (All-append (λ (q : Packet). P q.message) sent _ s (h, tt)))
    | inr failed ↦ rw (other, failed) (AllSent-broadcast P net m id rest sent h s)
  ]
]

-- The replica is who it was, and what it has sent since satisfies `P`.
pub record Acts (P : Message → Type 0) (n m : Node) : Type 0 where
  pub id : m.id ≡ n.id
  pub pri_id : m.rs.pri_id ≡ n.rs.pri_id
  pub status : m.rs.status ≡ n.rs.status
  pub view_num : m.rs.view_num ≡ n.rs.view_num
  pub started : m.started ≡ n.started
  pub sent : AllSent P n.sent → AllSent P m.sent

pub Acts-trans : {P : Message → Type 0} {a b c : Node} → Acts P a b → Acts P b c → Acts P a c
Acts-trans s t = record {
  id = t.id ∙ s.id;
  pri_id = t.pri_id ∙ s.pri_id;
  status = t.status ∙ s.status;
  view_num = t.view_num ∙ s.view_num;
  started = t.started ∙ s.started;
  sent = λ h. t.sent (s.sent h);
}

pub Acts-SameRole : {P : Message → Type 0} {n m : Node} → SameRole n m → Acts P n m
Acts-SameRole {P} s = record {
  id = s.id;
  pri_id = s.pri_id;
  status = s.status;
  view_num = s.view_num;
  started = s.started;
  sent = subst (AllSent P) (sym s.sent);
}

pub Acts-refl : {P : Message → Type 0} (n : Node) → Acts P n n
Acts-refl n = record {
  id = refl;
  pri_id = refl;
  status = refl;
  view_num = refl;
  started = refl;
  sent = λ h. h;
}

pub Acts-if :
    {P : Message → Type 0} {n a b : Node} (t : Bool)
    → Acts P n a
    → Acts P n b
    → Acts P n (if t then a else b)
Acts-if true a b = a
Acts-if false a b = b

-- ===== src/Cluster/Agreement.antt =====
-- What holds of a cluster in every reachable state of one view.
use meta_dr.Prelude.{
  ℕ, ◌≡◌, sym, ap, ◌∙◌, inl, inr, List, [], ◌∷◌, ◌==◌, nat_eq, Bool-cases, text_eq,
}
use mathlib.Core.Path.{subst}
use meta_dr.Prelude.Exec.{Outcome}
use meta_dr.Types.{Message, prepare, commit, status_eq}
use meta_dr.Node.{Node, Packet}
use meta_dr.Replicator.Replay.{replay}
use meta_dr.Cluster.{
  Cluster, IsSent, change, Step, set, remove, answer, beat, receive, log, apply, Reach, here, next,
}
use meta_dr.Cluster.Acts.{AllSent}
use meta_dr.Cluster.Follows.{Follows, Follows-Extends}
use meta_dr.Cluster.Backups.{
  process_prepare-Follows, process_commit-Follows, process_prep_info-Follows,
}
use meta_dr.Cluster.Leads.{IsGood, IsPrimary, Goes, set-Goes, remove-Goes, answer-Goes, beat-Goes}

pub record IsOrderly (c : Cluster) : Type 0 where
  pub leads : IsPrimary c.primary
  pub follow : (i : ℕ) → Follows c.primary (c.backups i)

Goes-IsOrderly :
    (c : Cluster) (m : Node) → IsOrderly c → Goes c.primary m → IsOrderly (record c { primary = m })
Goes-IsOrderly c m o g = record {
  leads = g.leads;
  follow = λ i. Follows-Extends c.primary m (c.backups i) g.extends (o.follow i);
}

IsSent-IsGood :
    (n : Node) (m : Message) (sent : List Packet)
    → AllSent (IsGood n) sent
    → IsSent m sent
    → IsGood n m
IsSent-IsGood n m [] h s = absurd s
IsSent-IsGood n m (q ∷ qs) h (inl e) = subst (IsGood n) e h.0
IsSent-IsGood n m (q ∷ qs) h (inr s) = IsSent-IsGood n m qs h.1 s

backup-IsOrderly :
    (c : Cluster) (i : ℕ) (b : Node)
    → IsOrderly c
    → Follows c.primary b
    → IsOrderly (record c { backups = change i b c.backups })
backup-IsOrderly c i b o f = record {
  leads = o.leads;
  follow =
      λ j. elim (Bool-cases (i == j)) [ inl same ↦ rw same f | inr other ↦ rw other (o.follow j) ];
}

-- Every step keeps the order.
pub Step-IsOrderly : {c d : Cluster} → Step c d → IsOrderly c → IsOrderly d
Step-IsOrderly {c} (set net calls wait wake key val fits e) o =
    rw e (Goes-IsOrderly c _ o (set-Goes net calls wait wake c.primary o.leads fits key val))
Step-IsOrderly {c} (remove net calls wait wake key fits e) o =
    rw e (Goes-IsOrderly c _ o (remove-Goes net calls wait wake c.primary o.leads fits key))
Step-IsOrderly {c} (answer r e) o = rw e (Goes-IsOrderly c _ o (answer-Goes r c.primary o.leads))
Step-IsOrderly {c} (beat env view_env now nonce e) o =
    rw e (Goes-IsOrderly c _ o (beat-Goes env view_env now nonce c.primary o.leads))
Step-IsOrderly {c} (receive i p b s run e) o = rw e (
    backup-IsOrderly c i b o (
      subst (Follows c.primary) (ap (λ (r : Outcome (Unit {0}) × Node). r.1) run) (
        process_prepare-Follows c.primary (c.backups i) p (o.follow i)
          (IsSent-IsGood c.primary (prepare p) c.primary.sent o.leads.good s))))
Step-IsOrderly {c} (log i net b run e) o = rw e (
    backup-IsOrderly c i b o (
      process_prep_info-Follows net c.primary (c.backups i) b (o.follow i) o.leads.numbers
        o.leads.fits run))
Step-IsOrderly {c} (apply i now m b s run e) o = rw e (
    backup-IsOrderly c i b o (
      process_commit-Follows now c.primary (c.backups i) b m (o.follow i)
        (IsSent-IsGood c.primary (commit m) c.primary.sent o.leads.good s) o.leads.fits run))

-- From an orderly cluster, in every reachable state of the normal operation of a view, whatever clients
-- call, however the calls to the backups are delayed, reordered, repeated or lost, and whether
-- operations time out or not: the primary leads and every backup follows it.
pub Reach-IsOrderly : {c d : Cluster} → IsOrderly c → Reach c d → IsOrderly d
Reach-IsOrderly o here = o
Reach-IsOrderly o (next r s) = Step-IsOrderly s (Reach-IsOrderly o r)

-- In every state that an orderly cluster reaches, the map of every backup is the replay of the
-- primary's log up to the backup's commit number.
pub backup-replay :
    {c d : Cluster}
    → IsOrderly c
    → Reach c d
    → (i : ℕ) → (d.backups i).kv ≡ replay d.primary.log.op_log (d.backups i).rs.commit_num
backup-replay {d} o r i =
    let f = (Reach-IsOrderly o r).follow i in
    f.consistent.applied ∙ f.same (d.backups i).rs.commit_num f.consistent.behind

-- In every state that an orderly cluster reaches, two backups with the same commit number have the
-- same map.
pub backups_agree :
    {c d : Cluster}
    → IsOrderly c
    → Reach c d
    → (i j : ℕ) → (d.backups i).rs.commit_num ≡ (d.backups j).rs.commit_num
    → (d.backups i).kv ≡ (d.backups j).kv
backups_agree {d} o r i j e =
    backup-replay o r i ∙ ap (replay d.primary.log.op_log) e ∙ sym (backup-replay o r j)

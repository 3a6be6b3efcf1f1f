-- ===== src/Config/Start.antt =====
-- What `bootStrap` makes of a configuration with exactly one endpoint of the server itself.
use meta_dr.Prelude.{
  ℕ, suc, ◌+◌, ◌^◌, ◌≤◌, ◌<◌, ◌≡◌, ◌≢◌, refl, Bool, true, false, not, ◌&&◌, ◌||◌, none, some, List,
  [], ◌∷◌, ◌==◌, nat_eq, text_eq, if◌then◌else◌, ltb, leb, length, Text, arith, Bool-cases, inl,
  inr,
}
use meta_dr.Prelude.Dict.{has-insert, lookup, insert, has, length-insert}
use meta_dr.Prelude.Exec.{done}
use meta_dr.Types.{EndPoint, normal, recovering}
use meta_dr.ReplicaState
use meta_dr.ReplicaState.{set_status}
use meta_dr.Node.{Node}
use meta_dr.Replicator.{start}
use meta_dr.Replicator.Replay.{replay}
use meta_dr.Replicator.Consistent.{IsConsistent}
use meta_dr.ViewChange.Choice.{HasOthers}
use meta_dr.Config.{UserInput}
use meta_dr.Config.Boot.{
  Configurator, Process, Unset, no_id, new_process, is_own, place_end_points, new_replicator,
  register_callbacks, start_replicator, register_replicator, boot,
}

-- Of the endpoints from index `i` on, the one with index `k` is the server's own, and no other.
abbrev pub IsOwnAt : Text → ℕ → ℕ → List EndPoint → Type 0
IsOwnAt port i k [] = Unit
IsOwnAt port i k (ep ∷ eps) = (is_own port ep ≡ (i == k)) × IsOwnAt port (i + 1) k eps

-- What the loop does to the configurator `c`.
record Placed (i k : ℕ) (eps : List EndPoint) (c d : Configurator) : Type 0 where
  known :
      (j : ℕ)
      → has j d.replicas ≡ (has j c.replicas || (leb i j && ltb j (i + length eps) && not (j == k)))
  count :
      length d.replicas + (if leb i k && ltb k (i + length eps) then 1 else 0)
      ≡ length c.replicas + length eps
  id : d.replica_id ≡ (if leb i k && ltb k (i + length eps) then k else c.replica_id)
  client_port : d.client_port ≡ c.client_port
  replication_port : d.replication_port ≡ c.replication_port
  replicator : d.replicator ≡ c.replicator

place-Placed :
    (i k : ℕ) (eps : List EndPoint) (c : Configurator)
    → IsOwnAt c.replication_port i k eps
    → ((j : ℕ) → i ≤ j → has j c.replicas ≡ false)
    → Placed i k eps c (place_end_points i eps c)
unfolding place_end_points
place-Placed i k [] c own free = record {
  known = λ j. ground arith;
  count = ground arith;
  id = ground arith;
  client_port = refl;
  replication_port = refl;
  replicator = refl;
}
place-Placed i k (ep ∷ eps) c own free = elim (Bool-cases (i == k)) [
  | inl here ↦
      let d =
        place-Placed (i + 1) k eps (record c { replica_id = i }) own.1
          (λ j h. free j (omega arith)) in
      rw (own.0, here)
        (record {
          known = λ j. ground (arith, d.known j);
          count = ground (arith, d.count);
          id = ground (arith, d.id);
          client_port = d.client_port;
          replication_port = d.replication_port;
          replicator = d.replicator;
        })
  | inr other ↦
      let c' = record c { replicas = insert i ep c.replicas } in
      let d =
        place-Placed (i + 1) k eps c' own.1
          (λ j h. ground (arith, has-insert i j ep c.replicas, free j)) in
      rw (own.0, other)
        (record {
          known = λ j. ground (arith, d.known j, has-insert i j ep c.replicas);
          count = ground (arith, d.count, length-insert i ep c.replicas, free i);
          id = ground (arith, d.id);
          client_port = d.client_port;
          replication_port = d.replication_port;
          replicator = d.replicator;
        })
]

fresh-applied :
    (now : ℕ) (b : Bool)
    → []
      ≡ replay []
          (if b
            then set_status recovering (ReplicaState.initial now)
            else ReplicaState.initial now).commit_num
unfolding replay
fresh-applied now true = refl
fresh-applied now false = refl

-- The replica of a server that has just been started, with id `k` of `size + 1`.
pub record Started (k size : ℕ) (u : UserInput) (n : Node) : Type 0 where
  pub id : n.id ≡ k
  pub others : length n.replicas ≡ size
  pub has_others : HasOthers n
  pub consistent : IsConsistent n
  pub numbers : (n.rs.op_num ≡ 0) × (n.rs.view_num ≡ 0) × (n.rs.pri_id ≡ 0)
  pub status : n.rs.status ≡ (if u.recovering then recovering else normal)
  pub started : n.started ≡ true

-- In a new process, a configuration with both ports and one own endpoint, at the index `k`, starts
-- the replica with the id `k`: it knows an endpoint for each of the other indices and no more, is
-- consistent with an empty log, has replica 0 as primary, and is in recovery if the configuration
-- says so and in normal status otherwise. No assertion fails.
pub boot-Started :
    (unset : Unset) (now k size : ℕ) (u : UserInput)
    → u.client_port ≢ []
    → u.replication_port ≢ []
    → length u.end_points ≡ suc size
    → k ≤ size
    → suc size < 2 ^ 32
    → IsOwnAt u.replication_port 0 k u.end_points
    → (p : Process) × (n : Node) × (boot unset now u new_process ≡ (done tt, p))
      × (p.config.replicator ≡ some n)
      × Started k size u n
unfolding boot start_replicator register_replicator start has lookup
boot-Started unset now k size u hc hr len bound fits own =
    let c₀ : Configurator = record {
      replica_id = no_id;
      client_port = u.client_port;
      replication_port = u.replication_port;
      replicas = [];
      replicator = none;
    } in
    let d = place-Placed 0 k u.end_points c₀ own (λ j h. refl) in
    let c = place_end_points 0 u.end_points c₀ in
    let id : c.replica_id ≡ k = ground (arith, d.id) in
    let n₀ = register_callbacks (new_replicator unset now c.replica_id c.replicas) in
    let n = record n₀ {
      rs = if u.recovering then set_status recovering n₀.rs else n₀.rs;
      started = true;
    } in
    (
      record { config = record c { replicator = some n }; registered = true },
      n,
      ground (arith, id, d.client_port, d.replication_port, d.replicator),
      refl,
      record {
        id = id;
        others = ground (arith, d.count);
        has_others = record {
          id_bound = ground (arith, d.count, id);
          known = λ i. ground (arith, d.known i, d.count, id);
          fits = ground (arith, d.count);
        };
        consistent = record {
          logged = λ i. ground arith;
          flagged = λ i e h. cc;
          behind = ground arith;
          applied = fresh-applied now u.recovering;
          callbacks = (refl, refl);
        };
        numbers = ground arith;
        status = ground arith;
        started = refl;
      },
    )

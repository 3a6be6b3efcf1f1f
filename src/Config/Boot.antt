-- ===== src/Config/Boot.antt =====
-- server/configurator.cc, `bootStrap` and the getters: the replica of a server is made from its
-- configuration file.
use meta_dr.Prelude.{
  ℕ, ◌+◌, ◌-◌, ◌^◌, Bool, true, false, not, ◌&&◌, ◌||◌, Option, none, some, List, [], ◌∷◌, ◌==◌,
  nat_eq, text_eq, if◌then◌else◌, length, Text, codes,
}
use meta_dr.Prelude.Dict.{Dict, lookup, insert}
use meta_dr.Prelude.Exec.{
  Exec, done, throw, abort, raise, invalid_argument, gets, assert, assert_found, modify, ◌>>=◌,
  ◌>>◌,
}
use meta_dr.Types.{EndPoint}
use meta_dr.ReplicaState
use meta_dr.OpLog
use meta_dr.Node.{Node}
use meta_dr.Replicator.{start}
use meta_dr.Config.{UserInput, parse}

pub record Configurator : Type 0 where
  pub replica_id : ℕ
  pub client_port : Text
  pub replication_port : Text
  pub replicas : Dict ℕ EndPoint
  pub replicator : Option Node

-- The configurator, and whether the store has a replicator.
pub record Process : Type 0 where
  pub config : Configurator
  pub registered : Bool

-- `UINT_MAX`
abbrev pub no_id : ℕ
no_id = 2 ^ 32 - 1

-- A new process.
abbrev pub new_process : Process
new_process = record {
  config = record {
    replica_id = no_id;
    client_port = [];
    replication_port = [];
    replicas = [];
    replicator = none;
  };
  registered = false;
}

-- The variables that the code reads without having set them.
pub record Unset : Type 0 where
  pub recovering : Bool
  pub received_resp_from_pri : Bool

abbrev pub is_own : Text → EndPoint → Bool
is_own replication_port ep =
    (ep.ip == codes "localhost" || ep.ip == codes "127.0.0.1") && ep.port == replication_port

-- The loop of `bootStrap` over the endpoints, from index `i`.
unfoldable pub place_end_points : ℕ → List EndPoint → Configurator → Configurator
place_end_points i [] c = c
place_end_points i (ep ∷ eps) c =
    let own = place_end_points (i + 1) eps (record c { replica_id = i }) in
    let other = place_end_points (i + 1) eps (record c { replicas = insert i ep c.replicas }) in
    if is_own c.replication_port ep then own else other

-- The constructor of `VsReplicator`.
abbrev pub new_replicator : Unset → ℕ → ℕ → Dict ℕ EndPoint → Node
new_replicator unset now id replicas = record {
  id = id;
  replicas = replicas;
  log = OpLog.empty;
  rs = ReplicaState.initial now;
  kv = [];
  update_cb = false;
  delete_cb = false;
  started = false;
  prep_req_q = [];
  wait_map = [];
  view = record {
    view_start_req_map = [];
    do_view_change_map = [];
    view_change_info_map = [];
    start_view_map = [];
    view_start_info_map = [];
  };
  recovery = record {
    recovery_req_q = [];
    wait_map = [];
    recovery_resp_map = [];
    resp_view_cnt = [];
    received_resp_from_pri = unset.received_resp_from_pri;
    serving = true;
  };
  sent = [];
  notified = [];
}

-- `registerUpdateCb` and `registerDeleteCb` of the replicator and its two handlers.
abbrev pub register_callbacks : Node → Node
register_callbacks n = record n { update_cb = true; delete_cb = true }

-- `start` on the new replicator: what it throws or asserts is the outcome of `bootStrap`.
unfoldable pub start_replicator : Bool → Node → Exec Process (Unit {0})
start_replicator recovering n p =
    let (outcome, m) = start recovering n in
    (outcome, record p { config = record p.config { replicator = some m } })

-- `registerReplicator` of the store.
unfoldable pub register_replicator : Exec Process (Unit {0})
register_replicator = do
  registered ← gets (λ p. p.registered)
  assert (not registered)
  modify (λ p. record p { registered = true })

-- The part of `bootStrap` after the file has been read.
unfoldable pub boot : Unset → ℕ → UserInput → Exec Process (Unit {0})
unfolding place_end_points register_replicator start_replicator
boot unset now u = do
  modify (λ p. record p {
    config =
        place_end_points 0 u.end_points
          (record p.config { client_port = u.client_port; replication_port = u.replication_port });
  })
  c ← gets (λ p. p.config)
  assert (not (length c.client_port == 0))
  assert (not (length c.replication_port == 0))
  assert (not (c.replica_id == no_id))
  assert (elim c.replicator [ none ↦ true | some n ↦ false ])
  register_replicator
  start_replicator u.recovering
      (register_callbacks (new_replicator unset now c.replica_id c.replicas))

unfoldable pub bootstrap : Unset → ℕ → Option Text → Exec Process (Unit {0})
unfolding boot
bootstrap unset now file p =
    let blank : UserInput = record {
      client_port = [];
      replication_port = [];
      end_points = [];
      recovering = unset.recovering;
    } in
    let (outcome, u) = parse file blank in
    elim outcome [ done _ ↦ boot unset now u p | throw x ↦ (throw x, p) | abort ↦ (abort, p) ]

unfoldable pub get_replica_end_point : ℕ → Exec Configurator EndPoint
get_replica_end_point id c = elim (lookup id c.replicas) [
  | none ↦ raise invalid_argument c
  | some ep ↦ (done ep, c)
]

unfoldable pub get_replicator : Exec Configurator Node
get_replicator = do replicator ← gets (λ c. c.replicator); assert_found replicator

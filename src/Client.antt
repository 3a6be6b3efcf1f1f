-- ===== src/Client.antt =====
-- libClient/kvsClient.cc, include/kvsClient.h and include/clientBase.h: the calls of a client, on the
-- results that the server sends. The RPC library's stub is the parameter `Stub`.
pub mod Address
pub mod Answers
pub mod Contract
use meta_dr.Prelude.{Bool, true, false, Option, none, some, List, [], ◌∷◌, Text, codes}
use meta_dr.Prelude.Exec.{Outcome, done}
use meta_dr.Types.{
  KvPair, EndPoint, Error, key_already_present, key_not_present, key_has_no_parent,
  key_has_children, key_malformed, replica_not_primary, status_not_normal,
}
use meta_dr.Node.{Node}
use meta_dr.Replicator.{Surroundings}
use meta_dr.Api.{set_insert}
use meta_dr.Api.Server
use meta_dr.Api.Server.{Result, err}

pub data ClientError : Type 0 where
  key_not_found no_parent has_children malformed_key not_primary_replica : ClientError
  failed_to_reach_quorum replica_status_not_normal : ClientError

-- `ClientException::what`
unfoldable pub what : ClientError → Text
what key_not_found = codes "KEY NOT FOUND"
what no_parent = codes "NO PARENT"
what has_children = codes "HAS CHILDREN"
what malformed_key = codes "MALFORMED KEY"
what not_primary_replica = codes "NOT_PRIMARY_REPLICA"
what failed_to_reach_quorum = codes "FAILED_TO_REACH_QUORUM"
what replica_status_not_normal = codes "REPLICA_STATUS_NOT_NORMAL"

-- `none` is a failed `assert`.
unfoldable pub get_client_error : Error → Option ClientError
get_client_error Error.none = none
get_client_error key_already_present = none
get_client_error key_not_present = some key_not_found
get_client_error key_has_no_parent = some no_parent
get_client_error key_has_children = some has_children
get_client_error key_malformed = some malformed_key
get_client_error replica_not_primary = some not_primary_replica
get_client_error Error.quorum_not_reached = some failed_to_reach_quorum
get_client_error status_not_normal = some replica_status_not_normal

-- How a call ends: `exception` is a `ClientException`, `failed` any other exception, and `aborted` a
-- failed `assert`.
pub data Attempt (A : Type 0) : Type 0 where
  returned : A → Attempt A
  exception : ClientError → Attempt A
  failed : Attempt A
  aborted : Attempt A

-- The remote calls; without a result the library throws.
pub record Stub (S : Type 0) : Type 0 where
  pub create : KvPair → S → Option Result × S
  pub remove : Text → S → Option Result × S
  pub set : KvPair → S → Option Result × S
  pub get : Text → S → Option Result × S
  pub list : Text → S → Option Result × S

-- `Result::err`; `none` is the exception for an arm that is not selected.
abbrev pub get_err : Result → Option Error
get_err (err e) = some e
get_err _ = none

-- `throw ClientException(getClientError(r->err()))`
unfoldable pub refuse : {A : Type 0} → Error → Attempt A
unfolding get_client_error
refuse e = elim (get_client_error e) [ none ↦ aborted | some x ↦ exception x ]

abbrev pub with_err : {A : Type 0} → Result → (Error → Attempt A) → Attempt A
with_err r f = elim (get_err r) [ none ↦ failed | some e ↦ f e ]

unfoldable pub create_reply : Result → Attempt Bool
unfolding refuse
create_reply r =
    with_err r λ e. elim e [
      | key_already_present ↦ returned false
      | Error.none ↦ returned true
      | e ↦ refuse e
    ]

unfoldable pub remove_reply : Result → Attempt Bool
unfolding refuse
remove_reply r =
    with_err r
      λ e. elim e [ key_not_present ↦ returned false | Error.none ↦ returned true | e ↦ refuse e ]

unfoldable pub set_reply : Result → Attempt (Unit {0})
unfolding refuse
set_reply r = with_err r λ e. elim e [ Error.none ↦ returned tt | e ↦ refuse e ]

-- The discriminant 1 is the one of a value, and 2 the one of keys.
unfoldable pub get_reply : Result → Attempt Text
unfolding refuse
get_reply r = elim r [ Result.val v ↦ returned v | r ↦ with_err r refuse ]

-- The loop of `list`.
unfoldable pub insert_all : List Text → List Text → List Text
insert_all res [] = res
insert_all res (k ∷ ks) = insert_all (set_insert k res) ks

unfoldable pub list_reply : Result → Attempt (List Text)
unfolding refuse insert_all
list_reply r = elim r [ Result.keys ks ↦ returned (insert_all [] ks) | r ↦ with_err r refuse ]

abbrev pub answer : {S A : Type 0} → (Result → Attempt A) → Option Result × S → Attempt A × S
answer reply o = (elim o.0 [ none ↦ failed | some r ↦ reply r ], o.1)

module _ {S : Type 0} (stub : Stub S) where
  unfoldable pub create : Text → Text → S → Attempt Bool × S
  unfolding create_reply
  create path val s = answer create_reply (stub.create (record { key = path; val = val }) s)

  unfoldable pub remove : Text → S → Attempt Bool × S
  unfolding remove_reply
  remove path s = answer remove_reply (stub.remove path s)

  unfoldable pub get : Text → S → Attempt Text × S
  unfolding get_reply
  get path s = answer get_reply (stub.get path s)

  unfoldable pub set : Text → Text → S → Attempt (Unit {0}) × S
  unfolding set_reply
  set path val s = answer set_reply (stub.set (record { key = path; val = val }) s)

  unfoldable pub list : Text → S → Attempt (List Text) × S
  unfolding list_reply
  list path s = answer list_reply (stub.list path s)

-- A connection to a server: the calls run its handlers, and a handler that does not return sends no
-- result.
abbrev pub sent_back : Outcome Result × Node → Option Result × Node
sent_back o = (elim o.0 [ done r ↦ some r | _ ↦ none ], o.1)

abbrev pub connection : Surroundings → Stub Node
connection env = record {
  create = λ arg n. sent_back (Server.create env arg n);
  remove = λ arg n. sent_back (Server.remove env arg n);
  set = λ arg n. sent_back (Server.set env arg n);
  get = λ arg n. sent_back (Server.get arg n);
  list = λ arg n. sent_back (Server.list arg n);
}

-- `ClientBase`: the stub if there is one. `open`, here `open_client`, exits the process if there is, and throws if the
-- library's `tcp_connect` does.
pub data Opened (C : Type 0) : Type 0 where
  opened : C → Opened C
  not_connected exits : Opened C

module _ {C : Type 0} where
  unfoldable pub is_connected : Option C → Bool
  is_connected stub = elim stub [ none ↦ false | some _ ↦ true ]

  unfoldable pub open_client : (EndPoint → Option C) → EndPoint → Option C → Opened C
  unfolding is_connected
  open_client tcp_connect ep stub = elim (is_connected stub) [
    | true ↦ exits
    | false ↦ elim (tcp_connect ep) [ none ↦ not_connected | some c ↦ opened c ]
  ]

  unfoldable pub close : Option C → Option C
  unfolding is_connected
  close stub = elim (is_connected stub) [ true ↦ none | false ↦ stub ]

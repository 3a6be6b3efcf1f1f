-- ===== src/Connections.antt =====
-- The connections that a replica keeps open: the `get…Client` and `invoke…` functions of
-- server/vsReplicator.cc, server/viewChangeHandler.cc and server/recoveryHandler.cc, which are copies
-- of one another.
pub mod Refines
use meta_dr.Prelude.{
  ℕ, zero, suc, ◌+◌, ◌≡◌, ◌≢◌, refl, Bool, true, false, not, ◌&&◌, ◌||◌, Option, none, some, ◌++◌,
  ◌∷◌, [], arith, Text, text_eq, text_beq, ◌==◌, nat_eq, if◌then◌else◌, ◌↔◌,
}
use meta_dr.Prelude.Dict.{Dict, lookup, insert, get_or_insert, lookup-insert}
use meta_dr.Prelude.Exec.{Outcome, done}
use meta_dr.Types.{
  EndPoint, Message, PrepInfo, PrepResponse, CommitInfo, ViewChangeRequest, ViewChangeInfo,
  ViewStartInfo, RecoveryRequest, RecoveryResponse, prepare, prepare_ok, commit, start_view_change,
  do_view_change, start_view, recovery_request, recovery_response,
}
use meta_dr.Client.Address.{show_end_point}
use meta_dr.Recovery.{cleanup}
use meta_dr.Node.{Node, Net, try_calls, invoke}

-- `_clWrappers`: for an endpoint, written as `ip:port`, a null pointer, or a client that is connected or not.
abbrev pub Cache : Type 0
Cache = Dict Text (Option Bool)

-- What the RPC library does in the given round of an `invoke…` function: whether a connection is
-- made, and whether a call on a connection returns.
pub record Library : Type 0 where
  pub connects : EndPoint → ℕ → Bool
  pub returns : EndPoint → Message → ℕ → Bool

abbrev pub is_open : Option Bool → Bool
is_open none = false
is_open (some b) = b

-- The result says whether there is a connected client; otherwise the function throws.
unfoldable pub get_client : Bool → EndPoint → Cache → Bool × Cache
get_client connects ep cache =
    let (cw, held) = get_or_insert (show_end_point ep) none cache in
    if is_open cw
    then (true, held)
    else if connects
    then (true, insert (show_end_point ep) (some true) held)
    else (false, held)

-- The loop, with the number of rounds left. A call that throws closes the client.
unfoldable pub call_loop : Library → EndPoint → Message → ℕ → ℕ → Cache → Bool × Cache
unfolding get_client
call_loop lib ep message try_cnt zero cache = (false, cache)
call_loop lib ep message try_cnt (suc left) cache =
    let got = get_client (lib.connects ep (try_cnt + 1)) ep cache in
    let again = call_loop lib ep message (try_cnt + 1) left got.1 in
    let closed =
      call_loop lib ep message (try_cnt + 1) left (insert (show_end_point ep) (some false) got.1) in
    if not got.0
    then again
    else if lib.returns ep message (try_cnt + 1)
    then (true, got.1)
    else closed

-- A call, in a process whose cache is `cache`.
unfoldable pub invoke_connected :
    Library → EndPoint → Message → Node → Cache → Outcome Bool × (Node × Cache)
unfolding call_loop
invoke_connected lib ep message n cache =
    let (success, kept) = call_loop lib ep message 0 2 cache in
    (
      done success,
      (
        if success
            then record n { sent = n.sent ++ record { to = ep; message = message } ∷ [] }
            else n,
        kept,
      ),
    )

-- The three caches of a process, one for each class.
pub record Caches : Type 0 where
  pub rep : Cache
  pub view_change : Cache
  pub recovery : Cache

abbrev pub State : Type 0
State = Node × Caches

abbrev pub in_rep : (Cache → Outcome Bool × (Node × Cache)) → State → Outcome Bool × State
in_rep run s = let r = run s.1.rep in (r.0, (r.1.0, record s.1 { rep = r.1.1 }))

abbrev pub in_view_change : (Cache → Outcome Bool × (Node × Cache)) → State → Outcome Bool × State
in_view_change run s =
    let r = run s.1.view_change in (r.0, (r.1.0, record s.1 { view_change = r.1.1 }))

abbrev pub in_recovery : (Cache → Outcome Bool × (Node × Cache)) → State → Outcome Bool × State
in_recovery run s = let r = run s.1.recovery in (r.0, (r.1.0, record s.1 { recovery = r.1.1 }))

unfoldable pub invoke_prepare : Library → EndPoint → PrepInfo → State → Outcome Bool × State
unfolding invoke_connected
invoke_prepare lib ep r s = in_rep (invoke_connected lib ep (prepare r) s.0) s

unfoldable pub invoke_prepare_ok : Library → EndPoint → PrepResponse → State → Outcome Bool × State
unfolding invoke_connected
invoke_prepare_ok lib ep r s = in_rep (invoke_connected lib ep (prepare_ok r) s.0) s

unfoldable pub invoke_commit : Library → EndPoint → CommitInfo → State → Outcome Bool × State
unfolding invoke_connected
invoke_commit lib ep r s = in_rep (invoke_connected lib ep (commit r) s.0) s

unfoldable pub invoke_start_view_change :
    Library → EndPoint → ViewChangeRequest → State → Outcome Bool × State
unfolding invoke_connected
invoke_start_view_change lib ep r s =
    in_view_change (invoke_connected lib ep (start_view_change r) s.0) s

unfoldable pub invoke_do_view_change :
    Library → EndPoint → ViewChangeInfo → State → Outcome Bool × State
unfolding invoke_connected
invoke_do_view_change lib ep r s = in_view_change (invoke_connected lib ep (do_view_change r) s.0) s

unfoldable pub invoke_start_view : Library → EndPoint → ViewStartInfo → State → Outcome Bool × State
unfolding invoke_connected
invoke_start_view lib ep r s = in_view_change (invoke_connected lib ep (start_view r) s.0) s

unfoldable pub invoke_recovery_request :
    Library → EndPoint → RecoveryRequest → State → Outcome Bool × State
unfolding invoke_connected
invoke_recovery_request lib ep r s =
    in_recovery (invoke_connected lib ep (recovery_request r) s.0) s

unfoldable pub invoke_recovery_response :
    Library → EndPoint → RecoveryResponse → State → Outcome Bool × State
unfolding invoke_connected
invoke_recovery_response lib ep r s =
    in_recovery (invoke_connected lib ep (recovery_response r) s.0) s

-- `cleanup` of a recovery, which drops the clients too.
unfoldable pub cleanup_connected : State → Outcome (Unit {0}) × State
unfolding cleanup
cleanup_connected s = let r = cleanup s.0 in (r.0, (r.1, record s.1 { recovery = [] }))

abbrev pub connected : EndPoint → Cache → Bool
connected ep cache = elim (lookup (show_end_point ep) cache) [ none ↦ false | some cw ↦ is_open cw ]

-- Which tries of a call succeed: the first one may use the connection that is there.
abbrev pub net_of : Library → Cache → Net
net_of lib cache ep message try_cnt =
    ((try_cnt == 1 && connected ep cache) || lib.connects ep try_cnt)
    && lib.returns ep message try_cnt

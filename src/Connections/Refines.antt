-- ===== src/Connections/Refines.antt =====
-- Keeping connections open implements the model of a call in Node: the calls of a try fail or succeed.
use meta_dr.Prelude.{
  ℕ, zero, suc, ◌+◌, ◌≡◌, ◌≢◌, refl, Bool, true, false, ◌||◌, none, some, ◌++◌, ◌∷◌, [], arith,
  Text, text_eq, text_beq, nat_eq, if◌then◌else◌,
}
use meta_dr.Prelude.Dict.{lookup, insert, get_or_insert, lookup-insert}
use meta_dr.Prelude.Exec.{done}
use meta_dr.Types.{EndPoint, Message}
use meta_dr.Client.Address.{show_end_point}
use meta_dr.Node.{Node, try_calls, invoke}
use meta_dr.Connections.{Cache, Library, get_client, call_loop, invoke_connected, connected, net_of}

text_refl : (s : Text) → text_beq s s ≡ true
text_refl s = (text_eq.beq_iff s s).1 refl

get_client_lem :
    (c : Bool) (ep : EndPoint) (cache : Cache)
    → ((get_client c ep cache).0 ≡ (connected ep cache || c))
      × (connected ep (get_client c ep cache).1 ≡ (connected ep cache || c))
unfolding get_client get_or_insert
get_client_lem c ep cache =
    let key = show_end_point ep in
    ground (
      arith,
      text_refl key,
      lookup-insert key key none cache,
      lookup-insert key key (some true) cache,
      lookup-insert key key (some true) (insert key none cache),
    )

get_client_others :
    (c : Bool) (ep : EndPoint) (cache : Cache) (s : Text)
    → s ≢ show_end_point ep
    → lookup s (get_client c ep cache).1 ≡ lookup s cache
unfolding get_client get_or_insert
get_client_others c ep cache s other =
    let key = show_end_point ep in
    ground (
      arith,
      text_eq.beq_iff key s,
      lookup-insert key s none cache,
      lookup-insert key s (some true) cache,
      lookup-insert key s (some true) (insert key none cache),
    )

closed_lem :
    (ep : EndPoint) (cache : Cache)
    → connected ep (insert (show_end_point ep) (some false) cache) ≡ false
closed_lem ep cache =
    let key = show_end_point ep in
    ground (arith, text_refl key, lookup-insert key key (some false) cache)

closed_others :
    (ep : EndPoint) (cache : Cache) (s : Text)
    → s ≢ show_end_point ep
    → lookup s (insert (show_end_point ep) (some false) cache) ≡ lookup s cache
closed_others ep cache s other =
    let key = show_end_point ep in
    ground (arith, text_eq.beq_iff key s, lookup-insert key s (some false) cache)

call_loop_others :
    (lib : Library) (ep : EndPoint) (message : Message) (t left : ℕ) (cache : Cache) (s : Text)
    → s ≢ show_end_point ep
    → lookup s (call_loop lib ep message t left cache).1 ≡ lookup s cache
unfolding call_loop
call_loop_others lib ep message t zero cache s other = refl
call_loop_others lib ep message t (suc left) cache s other =
    let got = (get_client (lib.connects ep (t + 1)) ep cache).1 in
    let closed = insert (show_end_point ep) (some false) got in
    ground (
      arith,
      get_client_others (lib.connects ep (t + 1)) ep cache s other,
      closed_others ep got s other,
      call_loop_others lib ep message (t + 1) left got s other,
      call_loop_others lib ep message (t + 1) left closed s other,
    )

-- What the loop gives: whether the call was made, and what has become of the cache.
record Called (lib : Library) (ep : EndPoint) (message : Message) (cache : Cache) (r : Bool × Cache)
    : Type 0 where
  made : r.0 ≡ try_calls (net_of lib cache ep message) 0 2
  open_after : connected ep r.1 ≡ r.0
  others : (s : Text) → s ≢ show_end_point ep → lookup s r.1 ≡ lookup s cache

call_loop-Called :
    (lib : Library) (ep : EndPoint) (message : Message) (cache : Cache)
    → Called lib ep message cache (call_loop lib ep message 0 2 cache)
unfolding call_loop try_calls
call_loop-Called lib ep message cache =
    let key = show_end_point ep in
    let first = (get_client (lib.connects ep 1) ep cache).1 in
    let closed = insert key (some false) first in
    let a = get_client_lem (lib.connects ep 1) ep cache in
    let b = get_client_lem (lib.connects ep 2) ep first in
    let c = get_client_lem (lib.connects ep 2) ep closed in
    let d = closed_lem ep first in
    record {
      made = ground (arith, a, b, c, d);
      open_after = ground (
        arith,
        a,
        b,
        c,
        d,
        closed_lem ep (get_client (lib.connects ep 2) ep first).1,
        closed_lem ep (get_client (lib.connects ep 2) ep closed).1,
      );
      others = call_loop_others lib ep message 0 2 cache;
    }

-- A call over the kept connections does to the replica what the model of a call does with the `Net` in
-- which a try succeeds if there is a connection, which for the first try may be the one that is
-- open, and the call on it returns. Afterwards the connection is open exactly if the call was made,
-- and no other connection has changed.
pub invoke_connected-invoke :
    (lib : Library) (ep : EndPoint) (message : Message) (n : Node) (cache : Cache)
    → (r : Bool) × (m : Node) × (cache' : Cache) × (invoke_connected lib ep message n cache
        ≡ (done r, (m, cache')))
      × (invoke (net_of lib cache) ep message n ≡ (done r, m))
      × (connected ep cache' ≡ r)
      × ((s : Text) → s ≢ show_end_point ep → lookup s cache' ≡ lookup s cache)
unfolding invoke_connected invoke
invoke_connected-invoke lib ep message n cache =
    let (success, kept) = call_loop lib ep message 0 2 cache in
    let d = call_loop-Called lib ep message cache in
    (
      success,
      (if success
          then record n { sent = n.sent ++ record { to = ep; message = message } ∷ [] }
          else n),
      kept,
      refl,
      ground (arith, d.made),
      d.open_after,
      d.others,
    )

-- ===== src/Client/Contract.antt =====
-- What a client sees of its own calls, over server/kvStoreImpl.cc and server/kvMemStore.cc.
use meta_dr.Prelude.{◌≡◌, arith, ap, ◌∙◌, true, Text}
use mathlib.Core.Path.{subst}
use meta_dr.Prelude.Exec.{Outcome, done, throw, abort}
use meta_dr.Types.{Error, key_not_present}
use meta_dr.Node.{Node}
use meta_dr.Replicator.{Surroundings, is_primary}
use meta_dr.Api.Server
use meta_dr.Api.Server.{Result, err}
use meta_dr.Api.Server.Reads.{Reads, create-Reads, set-Reads, remove-Reads}
use meta_dr.Client.{
  Attempt, returned, exception, failed, key_not_found, create_reply, remove_reply, set_reply,
  get_reply, create, remove, set, get, answer, connection, sent_back, refuse, get_client_error,
}

get-reads :
    (env : Surroundings) (path : Text) (r : Result) (m : Node)
    → Server.get path m ≡ (done r, m)
    → get (connection env) path m ≡ (get_reply r, m)
unfolding get
get-reads env path r m h = ap (λ (o : Outcome Result × Node). answer get_reply (sent_back o)) h

-- A call that returned a value got a result.
got_result :
    {A : Type 0} (reply : Result → Attempt A) (o : Outcome Result × Node) (x : A) (m : Node)
    → answer reply (sent_back o) ≡ (returned x, m)
    → (r : Result) × (o ≡ (done r, m)) × (reply r ≡ returned x)
got_result {A} reply (done r, n) x m h =
    (r, ap (λ (p : Attempt A × Node). (done r, p.1)) h, ap (λ (p : Attempt A × Node). p.0) h)
got_result {A} reply (throw e, n) x m h = absurd (not_failed (ap (λ (p : Attempt A × Node). p.0) h))
  where
    not_failed : ◌≡◌ {A = Attempt A} failed (returned x) → ⊥
    not_failed q = cc
got_result {A} reply (abort, n) x m h = absurd (not_failed (ap (λ (p : Attempt A × Node). p.0) h))
  where
    not_failed : ◌≡◌ {A = Attempt A} failed (returned x) → ⊥
    not_failed q = cc

create_reply-true : (r : Result) → create_reply r ≡ returned true → r ≡ err Error.none
unfolding create_reply refuse get_client_error
create_reply-true r h = ground arith

remove_reply-true : (r : Result) → remove_reply r ≡ returned true → r ≡ err Error.none
unfolding remove_reply refuse get_client_error
remove_reply-true r h = ground arith

set_reply-returned : (r : Result) → set_reply r ≡ returned tt → r ≡ err Error.none
unfolding set_reply refuse get_client_error
set_reply-returned r h = ground arith

-- What a `get` on the server reads is what the client's `get` gives.
get_after :
    (env : Surroundings) (path : Text) (r q : Result) (o : Outcome Result × Node) (m : Node)
    → Reads path q o
    → o ≡ (done r, m)
    → r ≡ err Error.none
    → is_primary m ≡ true
    → get (connection env) path m ≡ (get_reply q, m)
get_after env path r q o m h run ok primary =
    get-reads env path q m
      (subst (Reads path q) (run ∙ ap (λ (s : Result). (done s, m)) ok) h primary)

-- A `create` that returns true, whatever happens while it waits, has stored the value: a `get` of the
-- same path right after it returns the value, if the server still is the primary.
pub create-get :
    (env : Surroundings) (path v : Text) (n m : Node)
    → create (connection env) path v n ≡ (returned true, m)
    → is_primary m ≡ true
    → get (connection env) path m ≡ (returned v, m)
unfolding create get_reply
create-get env path v n m run primary =
    let o = Server.create env (record { key = path; val = v }) n in
    let (r, sent, ok) = got_result create_reply o true m run in
    get_after env path r (Result.val v) o m (create-Reads env _ n) sent (create_reply-true r ok)
      primary

-- A `set` that returns, whatever happens while it waits, has stored the value: a `get` of the same path
-- right after it returns the value, if the server still is the primary.
pub set-get :
    (env : Surroundings) (path v : Text) (n m : Node)
    → set (connection env) path v n ≡ (returned tt, m)
    → is_primary m ≡ true
    → get (connection env) path m ≡ (returned v, m)
unfolding set get_reply
set-get env path v n m run primary =
    let o = Server.set env (record { key = path; val = v }) n in
    let (r, sent, ok) = got_result set_reply o tt m run in
    get_after env path r (Result.val v) o m (set-Reads env _ n) sent (set_reply-returned r ok)
      primary

-- After a `remove` that returned true, whatever happens while it waits, a `get` of the same path
-- throws `KEY_NOT_FOUND`, if the server still is the primary.
pub remove-get :
    (env : Surroundings) (path : Text) (n m : Node)
    → remove (connection env) path n ≡ (returned true, m)
    → is_primary m ≡ true
    → get (connection env) path m ≡ (exception key_not_found, m)
unfolding remove get_reply refuse get_client_error
remove-get env path n m run primary =
    let o = Server.remove env path n in
    let (r, sent, ok) = got_result remove_reply o true m run in
    get_after env path r (err key_not_present) o m (remove-Reads env path n) sent
      (remove_reply-true r ok) primary

-- ===== src/Client/Answers.antt =====
-- Every result that the handlers of server/kvStoreImpl.cc send is one that the client expects.
use meta_dr.Prelude.{Option, none, some, Text}
use meta_dr.Prelude.Exec.{Outcome, done, throw, abort}
use meta_dr.Types.{KvPair}
use meta_dr.Node.{Node}
use meta_dr.Replicator.{Surroundings}
use meta_dr.Api.Server.{Result}
use meta_dr.Api.Server.Results.{
  AllSent, create-AllSent, remove-AllSent, set-AllSent, get-AllSent, list-AllSent,
}
use meta_dr.Client.{
  Attempt, returned, exception, failed, create_reply, remove_reply, set_reply, get_reply,
  list_reply, create, remove, set, get, list, answer, connection, sent_back, refuse,
  get_client_error,
}

-- The call returns, or throws a `ClientException`.
abbrev pub IsAnswer : {A : Type 0} → Attempt A → Type 0
IsAnswer (returned a) = Unit
IsAnswer (exception x) = Unit
IsAnswer _ = ⊥

-- A call that gets a result ends with an answer; one that gets none throws the library's exception.
abbrev pub IsProper : {A : Type 0} → Option Result × Node → Attempt A × Node → Type 0
IsProper (some r, n) (a, m) = IsAnswer a
IsProper (none, n) (failed, m) = Unit
IsProper (none, n) _ = ⊥

IsProper-answer :
    (A : Type 0) (reply : Result → Attempt A) (o : Outcome Result × Node)
    → AllSent (λ r. IsAnswer (reply r)) o
    → IsProper (sent_back o) (answer reply (sent_back o))
IsProper-answer A reply (done r, n) h = h
IsProper-answer A reply (throw x, n) h = tt
IsProper-answer A reply (abort, n) h = tt

-- For every path, value and state of the server, a call of the client that gets a result returns or
-- throws `ClientException`: no assertion of `getClientError` fails and no arm of the result is read
-- that is not selected. A call whose handler sends no result throws what the library throws.
pub calls-IsProper :
    (env : Surroundings) (path val : Text) (n : Node)
    → IsProper
        ((connection env).create (record { key = path; val = val }) n)
        (create (connection env) path val n)
      × IsProper ((connection env).remove path n) (remove (connection env) path n)
      × IsProper
          ((connection env).set (record { key = path; val = val }) n)
          (set (connection env) path val n)
      × IsProper ((connection env).get path n) (get (connection env) path n)
      × IsProper ((connection env).list path n) (list (connection env) path n)
unfolding create remove set get list create_reply remove_reply set_reply get_reply list_reply refuse
    get_client_error
calls-IsProper env path val n =
    let arg : KvPair = record { key = path; val = val } in
    (
      IsProper-answer _ create_reply _ (
          create-AllSent (λ r. IsAnswer (create_reply r))
            (record {
              checked = record { not_primary = tt; malformed = tt };
              ok = tt;
              no_quorum = tt;
              not_normal = tt;
            })
            env arg n tt tt),
      IsProper-answer _ remove_reply _ (
          remove-AllSent (λ r. IsAnswer (remove_reply r))
            (record {
              checked = record { not_primary = tt; malformed = tt };
              ok = tt;
              no_quorum = tt;
              not_normal = tt;
            })
            env path n tt tt),
      IsProper-answer _ set_reply _ (
          set-AllSent (λ r. IsAnswer (set_reply r))
            (record {
              checked = record { not_primary = tt; malformed = tt };
              ok = tt;
              no_quorum = tt;
              not_normal = tt;
            })
            env arg n tt),
      IsProper-answer _ get_reply _ (
          get-AllSent (λ r. IsAnswer (get_reply r)) (record { not_primary = tt; malformed = tt })
            path n (λ v. tt) tt),
      IsProper-answer _ list_reply _ (
          list-AllSent (λ r. IsAnswer (list_reply r)) (record { not_primary = tt; malformed = tt })
            path n (λ ks. tt) tt),
    )

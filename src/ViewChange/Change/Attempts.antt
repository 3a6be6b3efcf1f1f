-- ===== src/ViewChange/Change/Attempts.antt =====
-- How an attempt to change the view ends, on every branch of `changeView` of
-- server/viewChangeHandler.cc.
use mathlib.Core.Path.{subst}
use meta_dr.Prelude.{
  ℕ, ◌≤◌, ◌≡◌, refl, sym, ◌∙◌, Bool, true, false, ◌==◌, nat_eq, length, Bool-cases, inl, inr, arith,
  ap, if◌then◌else◌, [], ◌∷◌, ◌++◌,
}
use meta_dr.Prelude.Dict.{get_or_insert, lookup-insert, has}
use meta_dr.Prelude.Exec.{Outcome, done}
use meta_dr.Types.{Message, view_change, ViewChangeInfo, start_view_change}
use meta_dr.ReplicaState.{incr}
use meta_dr.OpLog.Model.{IsWellFormed, view, get_log_lem}
use meta_dr.Quorum.{WaitMap, count_response, quorum_reached, wait_get}
use meta_dr.Node.{Node}
use meta_dr.Replicator.{timeout, no_timeout}
use meta_dr.Replicator.Core.{broadcast, invoke_for_all_lem}
use meta_dr.ViewChange.{count_change, push_info}
use meta_dr.ViewChange.Update.{update_new_view}
use meta_dr.ViewChange.Choice.{HasOthers, choose_primary-returns}
use meta_dr.ViewChange.Change.{
  Surroundings, await_requests, wait_until, await_changes, await_start, join_view_change,
  change_view,
}
use meta_dr.ViewChange.Change.Endings.{
  Keeps, Keeps-trans, IsCalm, asked, has_requests, Started, counted, woken, infos_of, Joined,
  is_ready, Finishes, updates, gives_up, updates_late, fails, Ends, has_message, no_requests, joins,
  Keeps-aside, HasOthers-Keeps, wake_cases,
}

wait_get-count_response :
    (v : ℕ) (m : WaitMap) → (wait_get v (count_response v m).1).0 ≡ (count_response v m).0
unfolding wait_get count_response get_or_insert
wait_get-count_response v m =
    ground (arith, lookup-insert v v (incr (wait_get v m).0) (wait_get v m).1)

count_response-incr : (v : ℕ) (m : WaitMap) → (count_response v m).0 ≡ incr (wait_get v m).0
unfolding count_response
count_response-incr v m = refl

infos_of-push_info :
    (v : ℕ) (info : ViewChangeInfo) (n : Node)
    → infos_of v (push_info v info n).1 ≡ infos_of v n ++ info ∷ []
unfolding get_or_insert
infos_of-push_info v info n = ground (
  arith,
  lookup-insert v v (infos_of v n ++ info ∷ []) (get_or_insert v [] n.view.view_change_info_map).1,
)

Finishes-sym :
    {env : Surroundings} {v : ℕ} {p : Bool} {n : Node} {o o' : Outcome (Unit {0}) × Node}
    → o' ≡ o
    → Finishes env v p n o
    → Finishes env v p n o'
Finishes-sym {env} {v} {p} {n} e d = subst (Finishes env v p n) (sym e) d

module _ (env : Surroundings) (calm : IsCalm env) (v : ℕ) where
  wait_until-Finishes :
      (p : Bool) (n : Node)
      → Finishes env v p n (wait_until env (is_ready v p) (update_new_view env.net env.now v p) n)
  unfolding wait_until
  wait_until-Finishes p n = elim (Bool-cases (is_ready v p n)) [
    | inl q ↦ updates q (rw (q, q) refl)
    | inr q ↦ elim (wake_cases env.change_wake) [
      | inl w ↦ elim (Bool-cases (is_ready v p (env.during_change_wait n))) [
        | inl r ↦ updates_late q w r (rw (q, w, r) refl) (calm.change_wait n)
        | inr r ↦ fails q w r (rw (q, w, r) refl) (calm.change_wait n)
      ]
      | inr w ↦ gives_up q w (rw (q, w) refl) (calm.change_wait n)
    ]
  ]

  asked-Keeps : (n : Node) → Keeps n (asked env v n) × ((asked env v n).rs.pri_id ≡ n.rs.pri_id)
  asked-Keeps n =
      let sent =
        broadcast env.net (start_view_change (record { view_num = v; replica_id = n.id })) n.id
          n.replicas n.sent in
      let (kept, pri) = calm.calls (record n { sent = sent }) in
      let called : Node = env.during_calls (record n { sent = sent }) in
      (
        Keeps-trans (Keeps-trans (Keeps-aside n n.view sent n.rs.pri_id) kept)
            (Keeps-aside called (asked env v n).view called.sent called.rs.pri_id),
        pri,
      )

  await_requests_lem :
      (n : Node)
      → await_requests env v n ≡ (
          if has_requests v (asked env v n) then (done true, asked env v n) else (
            done (elim env.request_wake [ no_timeout ↦ true | timeout ↦ false ]),
            env.during_request_wait (asked env v n),
          ))
  unfolding await_requests
  await_requests_lem n =
      let asking : Message = start_view_change (record { view_num = v; replica_id = n.id }) in
      let sent = broadcast env.net asking n.id n.replicas n.sent in
      let called : Node = env.during_calls (record n { sent = sent }) in
      let same = wait_get-count_response v called.view.view_start_req_map in
      let sends = invoke_for_all_lem env.net asking n.id n.replicas n in
      let test = ap (λ (c : ℕ). quorum_reached called.replicas c) (sym same) in
      elim (Bool-cases (has_requests v (asked env v n))) [
        | inl q ↦ rw (sends, same, test ∙ q) refl
        | inr q ↦ elim (wake_cases env.request_wake) [
          | inl w ↦ rw (sends, same, test ∙ q, w) refl
          | inr w ↦ rw (sends, same, test ∙ q, w) refl
        ]
      ]

  join-Finishes :
      (old : ℕ) (k : Node)
      → HasOthers k
      → k.rs.pri_id ≤ length k.replicas
      → IsWellFormed k.log
      → (next : Node) × Joined old v k next
        × Keeps k next
        × Finishes env v (next.rs.pri_id == next.id) next (join_view_change env old v k)
  unfolding join_view_change await_changes await_start
  join-Finishes old k h b w =
      let info : ViewChangeInfo = record {
        view_num = v;
        op_log = view k.log;
        old_view_num = old;
        op_num = k.rs.commit_num;
        commit_num = k.rs.commit_num;
        replica_id = k.id;
      } in
      let counting = (count_change v (push_info v info k).1).1 in
      let kept = Keeps-aside k counting.view k.sent k.rs.pri_id in
      let (p, sent, run, bound) =
        choose_primary-returns env.net info counting (HasOthers-Keeps kept h) b in
      let next : Node = record counting { sent = sent; rs = record k.rs { pri_id = p } } in
      let count =
        wait_get-count_response v k.view.do_view_change_map
        ∙ count_response-incr v k.view.do_view_change_map in
      let pushed = infos_of-push_info v info k in
      elim (Bool-cases (p == k.id)) [
        | inl q ↦ (
          next,
          record { info = pushed; counted = count; bound = bound },
          Keeps-aside k counting.view sent p,
          rw q (
              Finishes-sym (rw (get_log_lem k.log w, run, q) refl) (wait_until-Finishes true next)),
        )
        | inr q ↦
            let s = record next.view { start_view_map = (wait_get v next.view.start_view_map).1 } in
            (
              record next { view = s },
              record { info = pushed; counted = count; bound = bound },
              Keeps-aside k s sent p,
              rw q (
                  Finishes-sym (rw (get_log_lem k.log w, run, q) refl)
                    (wait_until-Finishes false (record next { view = s }))),
            )
      ]

-- The replica when the attempt has begun, in the next view with the status VIEW_CHANGE.
abbrev pub changing : Node → Node
changing n = record n { rs = record n.rs { status = view_change; view_num = incr n.rs.view_num } }

-- How an attempt to change the view ends, on every branch: on a replica with a well-formed log that
-- knows an endpoint for each of the other ids, with a current primary among the ids, whichever calls
-- fail and however the waits end, if the other threads leave the log, the map, the numbers, the
-- status, the view and the endpoints alone, and the known primary until it has the requests. With the
-- message of the new primary at hand, it runs `updateNewView` at once. Without it, it sends its
-- request, and gives up exactly if the count of requests is no majority and the first wait times out.
-- Otherwise it joins: its info with its log, and its commit number as the operation number, is added
-- to the infos of the view, the count of infos goes up by one, and one of the ids is the new primary.
-- Then, as the new primary if that is its own id and as a backup if not, it runs `updateNewView` if
-- the count that it needs is there, before the second wait or after it was woken up; it fails an
-- assertion if it was woken up without that count, and gives up if that wait times out. Where it
-- gives up or fails, it has the status VIEW_CHANGE in the next view, with the log, the map and the
-- operation and commit numbers that it had.
pub change_view-Ends :
    (env : Surroundings)
    → IsCalm env
    → (n : Node) → HasOthers n
    → n.rs.pri_id ≤ length n.replicas
    → IsWellFormed n.log
    → Ends env n.rs.view_num (incr n.rs.view_num) (changing n) (change_view env n)
unfolding change_view
change_view-Ends env calm n h b w =
    let old = n.rs.view_num in
    let v = incr n.rs.view_num in
    let m : Node = changing n in
    let others : HasOthers m = record { id_bound = h.id_bound; known = h.known; fits = h.fits } in
    let a : Node = asked env v m in
    let (kept, pri) = asked-Keeps env calm v m in
    let asks = await_requests_lem env calm v m in
    elim (Bool-cases (has v n.view.view_start_info_map)) [
      | inl q ↦ has_message q (rw q refl)
      | inr q ↦
          let goes_on : (k : Node)
              → await_requests env v m ≡ (done true, k)
              → Started env v m k
              → Keeps m k
              → k.rs.pri_id ≡ n.rs.pri_id
              → Ends env old v m (change_view env n) =
            λ k run started same at.
              let wf : IsWellFormed k.log = subst IsWellFormed (sym same.core.log) w in
              let (next, joined, moved, rest) =
                join-Finishes env calm v old k (HasOthers-Keeps same others)
                  (rw (at, same.replicas) b) wf in
              joins k next q started joined same moved (Finishes-sym (rw (q, run) refl) rest) in
          elim (Bool-cases (has_requests v a)) [
            | inl r ↦ goes_on a (asks ∙ rw r refl) (counted r refl) kept pri
            | inr r ↦
                let (waited, pri_waited) = calm.request_wait a in
                let same = Keeps-trans kept waited in
                elim (wake_cases env.request_wake) [
                  | inl t ↦
                      goes_on (env.during_request_wait a) (asks ∙ rw (r, t) refl) (woken r t refl)
                        same (pri_waited ∙ pri)
                  | inr t ↦ no_requests q r t (rw (q, asks, r, t) refl) same
                ]
          ]
    ]

-- ===== src/ViewChange.antt =====
-- server/viewChangeHandler.{h,cc}: the messages of a view change. Each handler is one step, with its
-- logging left out; `changeView` and `updateNewView` are in the children.
pub mod Update
pub mod Change
pub mod Candidate
pub mod Choice
pub mod Apply
pub mod Enter
pub mod Agreement
use meta_dr.Prelude.{
  ℕ, ◌<◌, Bool, not, List, [], ◌∷◌, ◌++◌, ◌==◌, nat_eq, if◌then◌else◌, ltb, length,
}
use meta_dr.Prelude.Dict.{Dict, insert, has, get_or_insert}
use meta_dr.Prelude.Exec.{Exec, Outcome, gets, assert, skip, ◌>>=◌, ◌>>◌}
use meta_dr.Types.{
  EndPoint, view_change, recovering, status_eq, ViewChangeRequest, ViewChangeInfo, ViewStartInfo,
}
use meta_dr.ReplicaState.{set_status, incr}
use meta_dr.Quorum.{WaitMap, quorum_reached, wait_get, count_response}
use meta_dr.Node.{
  Node, ViewChangeState, view_start_waiter, do_view_change_waiter, start_view_waiter, change_rs,
  change_view_state, notify_if,
}

-- The counters of the three maps, counted up.
abbrev pub count_request : ℕ → Exec Node ℕ
count_request v n =
    let (cnt, m) = count_response v n.view.view_start_req_map in
    (Outcome.done cnt, record n { view = record n.view { view_start_req_map = m } })

abbrev pub count_change : ℕ → Exec Node ℕ
count_change v n =
    let (cnt, m) = count_response v n.view.do_view_change_map in
    (Outcome.done cnt, record n { view = record n.view { do_view_change_map = m } })

abbrev pub count_start : ℕ → Exec Node ℕ
count_start v n =
    let (cnt, m) = count_response v n.view.start_view_map in
    (Outcome.done cnt, record n { view = record n.view { start_view_map = m } })

-- `_viewChangeInfoMap[viewNum].push_back(…)`
abbrev pub push_info : ℕ → ViewChangeInfo → Exec Node (Unit {0})
push_info v info = change_view_state (λ s.
    let (infos, m) = get_or_insert v [] s.view_change_info_map in
    record s { view_change_info_map = insert v (infos ++ info ∷ []) m })

-- The replicas are numbered from 0 to the size of the map, which leaves out this replica.
unfoldable pub get_next_primary_candidate : Dict ℕ EndPoint → ℕ → ℕ
get_next_primary_candidate replicas curr =
    let new = incr curr in if ltb (length replicas) new then 0 else new

unfoldable pub process_start_view_change : ViewChangeRequest → Exec Node (Unit {0})
process_start_view_change r = do
  n ← gets (λ n. n)
  if ltb r.view_num n.rs.view_num then skip else if n.rs.status == recovering then skip else do
    change_view_state
        (λ s. record s { view_start_req_map = (wait_get r.view_num s.view_start_req_map).1 })
    if quorum_reached n.replicas (wait_get r.view_num n.view.view_start_req_map).0 then skip else do
      cnt ← count_request r.view_num
      notify_if (quorum_reached n.replicas cnt) (view_start_waiter r.view_num)

unfoldable pub process_do_view_change : ViewChangeInfo → Exec Node (Unit {0})
process_do_view_change info = do
  n ← gets (λ n. n)
  if ltb info.view_num n.rs.view_num then skip else if n.rs.status == recovering then skip else do
    push_info info.view_num info
    cnt ← count_change info.view_num
    notify_if (quorum_reached n.replicas cnt) (do_view_change_waiter info.view_num)

unfoldable pub process_start_view : ViewStartInfo → Exec Node (Unit {0})
process_start_view info = do
  n ← gets (λ n. n)
  if ltb info.view_num n.rs.view_num then skip else if n.rs.status == recovering then skip else do
    if not (n.rs.status == view_change) then change_rs (set_status view_change) else skip
    assert (not (has info.view_num n.view.view_start_info_map))
    change_view_state
        (λ s. record s { view_start_info_map = insert info.view_num info s.view_start_info_map })
    cnt ← count_start info.view_num
    assert (cnt == 1)
    notify_if Bool.true (start_view_waiter info.view_num)

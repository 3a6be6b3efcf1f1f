-- ===== src/Quorum.antt =====
-- server/vrCommon.{h,cc}: quorums and the counters that a waiting thread and the listener share.
-- `WaitMap` maps a number to a `Response`; of a `Response` the counter is kept. Its condition
-- variable shows as the notices in `Node.notified` and as the outcome of a wait.
use meta_dr.Prelude.{ℕ, ◌+◌, ◌/◌, Bool, length, leb, nat_eq}
use meta_dr.Prelude.Dict.{Dict, insert, get_or_insert}
use meta_dr.ReplicaState.{incr}
use meta_dr.Types.{EndPoint}

-- `replicas` leaves out the replica itself.
unfoldable pub majority_cnt : Dict ℕ EndPoint → ℕ
majority_cnt replicas = (length replicas + 1) / 2 + 1

unfoldable pub quorum_reached : Dict ℕ EndPoint → ℕ → Bool
unfolding majority_cnt
quorum_reached replicas cnt = leb (majority_cnt replicas) cnt

abbrev pub WaitMap : Type 0
WaitMap = Dict ℕ ℕ

-- `WaitMap::get`: the counter, a fresh one at 0 if there is none.
unfoldable pub wait_get : ℕ → WaitMap → ℕ × WaitMap
unfolding get_or_insert
wait_get t m = get_or_insert t 0 m

-- `++resp->cnt` on the counter that `get` has returned.
unfoldable pub count_response : ℕ → WaitMap → ℕ × WaitMap
unfolding wait_get
count_response t m = let (cnt, m') = wait_get t m in (incr cnt, insert t (incr cnt) m')

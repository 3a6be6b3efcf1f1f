-- ===== src/Examples/Setup.antt =====
-- The theorems on the configuration and the start of a server, at the configuration of replica 1 of
-- three, and the one on the end of the search for a primary, at replica 2.
use meta_dr.Prelude.{
  ℕ, ◌≤◌, ◌≡◌, refl, true, false, some, List, [], ◌∷◌, arith, Text, codes, length, nat_eq, text_eq,
}
use meta_dr.Prelude.Dict.{has, lookup}
use meta_dr.Prelude.Exec.{done}
use meta_dr.Types.{EndPoint, ViewChangeInfo}
use meta_dr.Node.{Node, Packet}
use meta_dr.ViewChange.Change.{choose_primary, Surroundings, change_view}
use meta_dr.ViewChange.Change.Endings.{IsCalm, Keeps-aside, Ends}
use meta_dr.ViewChange.Change.Attempts.{changing, change_view-Ends}
use meta_dr.ViewChange.{count_request}
use meta_dr.Replicator.{no_timeout}
use meta_dr.ViewChange.Choice.{HasOthers, with_sent, choose_primary-returns}
use meta_dr.Config.{UserInput, parse}
use meta_dr.OpLog.Contract.{IsWellFormed-empty}
use meta_dr.ReplicaState.{incr}
use meta_dr.Config.RoundTrip.{print, parse-print}
use meta_dr.Config.Boot.{Unset, Process, new_process, boot}
use meta_dr.Config.Start.{Started, boot-Started}
use meta_dr.Examples.{fresh, net_up, address}

abbrev own_port : Text
own_port = codes "8081"

abbrev three : List EndPoint
three = address (codes "8080") ∷ address own_port ∷ address (codes "8082") ∷ []

abbrev blank : UserInput
blank = record { client_port = []; replication_port = []; end_points = []; recovering = false }

abbrev input : UserInput
input = record {
  client_port = codes "9000";
  replication_port = own_port;
  end_points = three;
  recovering = true;
}

parse-print_example :
    parse
      (some (
        print
          (codes "9000")
          own_port
          (address (codes "8080"))
          (address own_port ∷ address (codes "8082") ∷ [])
          true))
      blank
    ≡ (done tt, input)
parse-print_example =
    parse-print (codes "9000") own_port (address (codes "8080"))
      (address own_port ∷ address (codes "8082") ∷ []) true ((refl, refl), refl)
      ((refl, refl), refl)
      (
        (((refl, refl), refl), ((refl, refl), refl)),
        (
          (((refl, refl), refl), ((refl, refl), refl)),
          ((((refl, refl), refl), ((refl, refl), refl)), tt),
        ),
      )
      blank refl

abbrev unset : Unset
unset = record { recovering = false; received_resp_from_pri = false }

boot-Started_example :
    (p : Process) × (n : Node) × (boot unset 7 input new_process ≡ (done tt, p))
    × (p.config.replicator ≡ some n)
    × Started 1 2 input n
boot-Started_example =
    boot-Started unset 7 1 2 input (λ q. ground arith) (λ q. ground arith) refl (omega arith)
      (omega arith) (refl, (refl, (refl, tt)))

abbrev info : ViewChangeInfo
info = record {
  view_num = 1;
  op_log = [];
  old_view_num = 0;
  op_num = 0;
  commit_num = 0;
  replica_id = 2;
}

others-HasOthers : HasOthers (fresh 2)
unfolding has lookup
others-HasOthers = record { id_bound = omega arith; known = λ i. ground arith; fits = omega arith }

choose_primary-returns_example :
    (p : ℕ) × (sent : List Packet) × (choose_primary net_up info (fresh 2)
      ≡ (done p, with_sent sent (fresh 2)))
    × (p ≤ length (fresh 2).replicas)
choose_primary-returns_example =
    choose_primary-returns net_up info (fresh 2) others-HasOthers (omega arith)

-- The waits are woken up, and in the first another replica's request is counted.
abbrev woken : Surroundings
woken = record {
  net = net_up;
  now = 5;
  during_calls = λ n. n;
  during_request_wait = λ n. (count_request 1 n).1;
  request_wake = no_timeout;
  during_change_wait = λ n. n;
  change_wake = no_timeout;
}

woken-IsCalm : IsCalm woken
woken-IsCalm = record {
  calls = λ n. (Keeps-aside n n.view n.sent n.rs.pri_id, refl);
  request_wait = λ n. (Keeps-aside n (count_request 1 n).1.view n.sent n.rs.pri_id, refl);
  change_wait = λ n. Keeps-aside n n.view n.sent n.rs.pri_id;
}

change_view-Ends_example : Ends woken 0 1 (changing (fresh 2)) (change_view woken (fresh 2))
unfolding incr
change_view-Ends_example =
    change_view-Ends woken woken-IsCalm (fresh 2) others-HasOthers (omega arith) IsWellFormed-empty

-- ===== src/Examples/Links.antt =====
-- The theorem on kept connections, at a connection that has been lost and is made again.
use meta_dr.Prelude.{◌≡◌, ◌≢◌, Bool, true, some, ◌∷◌, [], Text, ◌==◌, nat_eq, text_eq, not}
use meta_dr.Prelude.Dict.{lookup}
use meta_dr.Prelude.Exec.{done}
use meta_dr.Types.{prepare}
use meta_dr.Client.Address.{show_end_point}
use meta_dr.Node.{Node, invoke}
use meta_dr.Connections.{Cache, Library, invoke_connected, net_of, connected}
use meta_dr.Connections.Refines.{invoke_connected-invoke}
use meta_dr.Examples.{fresh, codes_primary, prep}

-- The first call on a connection fails.
abbrev flaky : Library
flaky = record { connects = λ ep t. true; returns = λ ep m t. not (t == 1) }

abbrev stale : Cache
stale = (show_end_point codes_primary, some true) ∷ []

invoke_connected-invoke_example :
    (r : Bool) × (m : Node) × (cache' : Cache) × (invoke_connected flaky codes_primary
        (prepare (prep 1))
        (fresh 1)
        stale
      ≡ (done r, (m, cache')))
    × (invoke (net_of flaky stale) codes_primary (prepare (prep 1)) (fresh 1) ≡ (done r, m))
    × (connected codes_primary cache' ≡ r)
    × ((s : Text) → s ≢ show_end_point codes_primary → lookup s cache' ≡ lookup s stale)
invoke_connected-invoke_example =
    invoke_connected-invoke flaky codes_primary (prepare (prep 1)) (fresh 1) stale

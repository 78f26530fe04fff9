-- ===== src/Topo/Config.antt =====
-- core/topo.py: `TopoConfig`, what every configuration shares. The two methods that a topology
-- overrides are arguments.
use minitopo.Base.{ℕ, ◌+◌, String, List, [], ◌∷◌, if◌then◌else◌}
use minitopo.Base.Int.{pos}
use minitopo.Floats.{Floats}
use minitopo.Text.{concat}
use minitopo.Text.Number.{show}
use minitopo.Network.{Env}
use minitopo.Run.{Run, pure, gets, ◌>>=◌, ◌>>◌, for_each}
use minitopo.Topo.{Topo, get_host, get_interface_names, command_to}
use minitopo.Topo.Bottleneck.{reinit_variables, configure_bottleneck, configure_changing_bottleneck}

unfoldable pub interface_backup_command : String → String
unfolding concat
interface_backup_command interface_name =
    concat ("ip link set dev " ∷ interface_name ∷ " multipath backup " ∷ [])

unfoldable pub interface_up_command : String → String → String → String
unfolding concat
interface_up_command interface_name ip subnet =
    concat ("ifconfig " ∷ interface_name ∷ " " ∷ ip ∷ " netmask " ∷ subnet ∷ [])

unfoldable pub add_table_route_command : String → ℕ → String
unfolding concat
add_table_route_command from_ip id =
    concat ("ip rule add from " ∷ from_ip ∷ " table " ∷ show (pos (id + 1)) ∷ [])

unfoldable pub add_link_scope_route_command : String → String → ℕ → String
unfolding concat
add_link_scope_route_command network interface_name id = concat (
    "ip route add "
    ∷ network
    ∷ " dev "
    ∷ interface_name
    ∷ " scope link table "
    ∷ show (pos (id + 1))
    ∷ [])

unfoldable pub add_table_default_route_command : String → ℕ → String
unfolding concat
add_table_default_route_command via id =
    concat ("ip route add default via " ∷ via ∷ " table " ∷ show (pos (id + 1)) ∷ [])

unfoldable pub add_global_default_route_command : String → String → String
unfolding concat
add_global_default_route_command via interface_name =
    concat ("ip route add default scope global nexthop via " ∷ via ∷ " dev " ∷ interface_name ∷ [])

unfoldable pub arp_command : String → String → String
unfolding concat
arp_command ip mac = concat ("arp -s " ∷ ip ∷ " " ∷ mac ∷ [])

unfoldable pub add_simple_default_route_command : String → String
unfolding concat
add_simple_default_route_command via = concat ("ip route add default via " ∷ via ∷ [])

module _ (fl : Floats) (env : Env) where
  open fl use {F}

  unfoldable pub offload_cmd : String → String
  unfolding concat
  offload_cmd intf = concat (
      "ethtool -K " ∷ intf ∷ " tso off; ethtool -K " ∷ intf ∷ " gso off; ethtool -K " ∷ intf
      ∷ " gro off" ∷ [])

  unfoldable pub get_hosts : List String → Run (Topo F) (List String)
  get_hosts [] = pure []
  get_hosts (n ∷ ns) = do host ← get_host env n; hosts ← get_hosts ns; pure (host ∷ hosts)

  unfoldable pub disable_tso : Run (Topo F) Unit
  disable_tso = do
    names ← gets (λ t. env.node_names t.topo_builder.hosts t.topo_builder.switches)
    nodes ← get_hosts names
    for_each
        (λ node. do
          intfs ← get_interface_names env node
          for_each (λ intf. command_to env node (offload_cmd intf)) intfs)
        nodes

  unfoldable pub configure_interfaces : Run (Topo F) Unit
  configure_interfaces = do
    links ← gets (λ t. t.bottleneck_links)
    for_each (configure_bottleneck fl env) links

  unfoldable pub run_netem_at : Run (Topo F) Unit
  run_netem_at = do
    change ← gets (λ t. t.change_netem)
    if change
        then (do
          links ← gets (λ t. t.bottleneck_links)
          for_each (configure_changing_bottleneck fl env) links)
        else pure tt

  -- What `interfaces` yields is what it sets on the configuration, and `routing` reads it.
  unfoldable pub configure_network :
      {N : Type 0} → Run (Topo F) N → (N → Run (Topo F) Unit) → Run (Topo F) N
  configure_network interfaces routing = do
    reinit_variables fl env
    disable_tso
    nodes ← interfaces
    routing nodes
    pure nodes

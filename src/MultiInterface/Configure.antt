-- ===== src/MultiInterface/Configure.antt =====
-- topos/multi_interface.py: `configure_interfaces` and `configure_routing`.
use minitopo.Base.{ℕ, String, [], ◌∷◌, length, if◌then◌else◌, eqb}
use minitopo.Floats.{Floats}
use minitopo.Text.{concat}
use minitopo.Parameter
use minitopo.Parameter.{Parameter}
use minitopo.TopoParameter.{left_subnet, right_subnet}
use minitopo.Network.{Env}
use minitopo.Run.{Run, pure, lift, gets, ◌>>=◌, ◌>>◌, for_each, count_from}
use minitopo.Topo.{Topo, command_to, get_client, get_server, get_router}
use minitopo.Topo.Config
use minitopo.Topo.Config.{
  interface_up_command, add_table_route_command, add_link_scope_route_command,
  add_table_default_route_command, add_global_default_route_command,
  add_simple_default_route_command, arp_command,
}
use minitopo.MultiInterface.{
  MultiInterface, get_client_ip, get_client_subnet, get_router_ip_to_client_switch,
  get_router_ip_to_server_switch, get_server_ip, get_server_subnet, get_client_interface,
  get_router_interface_to_client_switch, get_router_interface_to_server_switch,
  get_server_interface,
}

-- The attributes that `configure_interfaces` sets.
pub record Ends : Type 0 where
  pub client : String
  pub server : String
  pub router : String

abbrev pub netmask : String
netmask = "255.255.255.0"

abbrev flush_cmd : String → String
flush_cmd ifname = concat ("ip -4 addr flush dev " ∷ ifname ∷ [])

abbrev show_routes : String
show_routes =
    "ip rule; echo; ip route show table main; echo; for i in $(seq 0 4); do ip route show table $i; done"

module _ (fl : Floats) (env : Env) (m : MultiInterface fl.F) where
  open fl use {F}

  unfoldable pub param : Run (Topo F) Parameter
  param = gets (λ t. t.topo_parameter.parameter)

  -- The first loop: the interfaces of the client.
  unfoldable pub configure_client_interface : Ends → ℕ → Run (Topo F) Unit
  configure_client_interface n i = do
    p ← param
    let cli_if = get_client_interface 0 i
    cli_ip ← lift (get_client_ip p i)
    rtr_ip ← lift (get_router_ip_to_client_switch p i)
    command_to env n.client (interface_up_command cli_if cli_ip netmask)
    command_to env n.router (arp_command cli_ip (env.mac n.client cli_if))
    pure tt

  -- The second loop: the interfaces of the router towards the client.
  unfoldable pub configure_router_interface : Ends → ℕ → Run (Topo F) Unit
  configure_router_interface n i = do
    p ← param
    let rtr_if = get_router_interface_to_client_switch i
    rtr_ip ← lift (get_router_ip_to_client_switch p i)
    command_to env n.router (interface_up_command rtr_if rtr_ip netmask)
    command_to env n.client (arp_command rtr_ip (env.mac n.router rtr_if))
    pure tt

  -- The interfaces between router and server, the same for a direct connection and for a link.
  unfoldable pub configure_server_interface : Ends → ℕ → Run (Topo F) Unit
  configure_server_interface n i = do
    p ← param
    let s_if = get_server_interface 0 i
    s_ip ← lift (get_server_ip p i)
    let r_if = get_router_interface_to_server_switch m i
    r_ip ← lift (get_router_ip_to_server_switch p i)
    command_to env n.router (flush_cmd r_if)
    command_to env n.server (flush_cmd s_if)
    command_to env n.router (interface_up_command r_if r_ip netmask)
    command_to env n.server (arp_command r_ip (env.mac n.router r_if))
    command_to env n.server (interface_up_command s_if s_ip netmask)
    command_to env n.router (arp_command s_ip (env.mac n.server s_if))
    pure tt

  -- How often the last block runs: once for a direct connection, or once for each link.
  abbrev server_rounds : ℕ
  server_rounds = if eqb (length m.r2s_links) 0 then 1 else length m.r2s_links

  unfoldable pub show_addresses : Ends → Run (Topo F) Unit
  show_addresses n = do
    command_to env n.client "ip -br -4 addr"
    command_to env n.router "ip -br -4 addr"
    command_to env n.server "ip -br -4 addr"
    pure tt

  -- The rest of `configure_interfaces`, with the three nodes at hand.
  unfoldable pub loops : Ends → Run (Topo F) Ends
  loops n = do
    for_each (configure_client_interface n) (count_from 0 (length m.c2r_links))
    for_each (configure_router_interface n) (count_from 0 (length m.c2r_links))
    for_each (configure_server_interface n) (count_from 0 server_rounds)
    show_addresses n
    pure n

  unfoldable pub configure_interfaces : Run (Topo F) Ends
  configure_interfaces = do
    Config.configure_interfaces fl env
    t ← gets (λ t. t)
    client ← lift (get_client 0 t)
    server ← lift (get_server 0 t)
    router ← lift (get_router 0 t)
    p ← param
    right ← lift (Parameter.get p right_subnet)
    left ← lift (Parameter.get p left_subnet)
    loops (record { client = client; server = server; router = router })

  unfoldable pub route_client : Ends → ℕ → Run (Topo F) Unit
  route_client n i = do
    p ← param
    ip ← lift (get_client_ip p i)
    subnet ← lift (get_client_subnet p i)
    via ← lift (get_router_ip_to_client_switch p i)
    command_to env n.client (add_table_route_command ip i)
    command_to env n.client (add_link_scope_route_command subnet (get_client_interface 0 i) i)
    command_to env n.client (add_table_default_route_command via i)
    pure tt

  unfoldable pub route_server : Ends → ℕ → Run (Topo F) Unit
  route_server n i = do
    p ← param
    ip ← lift (get_server_ip p i)
    subnet ← lift (get_server_subnet p i)
    via ← lift (get_router_ip_to_server_switch p i)
    command_to env n.server (add_table_route_command ip i)
    command_to env n.server (add_link_scope_route_command subnet (get_server_interface 0 i) i)
    command_to env n.server (add_table_default_route_command via i)
    pure tt

  unfoldable pub configure_routing : Ends → Run (Topo F) Unit
  configure_routing n = do
    for_each (route_client n) (count_from 0 (length m.c2r_links))
    for_each (route_server n) (count_from 0 (length m.r2s_links))
    p ← param
    client_via ← lift (get_router_ip_to_client_switch p 0)
    command_to env n.client (add_global_default_route_command client_via (get_client_interface 0 0))
    server_via ← lift (get_router_ip_to_server_switch p 0)
    command_to env n.server (add_simple_default_route_command server_via)
    command_to env n.client show_routes
    command_to env n.server show_routes
    pure tt

  -- `configure_network` of this configuration.
  unfoldable pub configure_network : Run (Topo F) Ends
  configure_network = Config.configure_network fl env configure_interfaces configure_routing

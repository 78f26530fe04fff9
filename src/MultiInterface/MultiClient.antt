-- ===== src/MultiInterface/MultiClient.antt =====
-- topos/multi_interface_multi_client.py: `MultiInterfaceMultiClientTopo` and its configuration.
use minitopo.Base.{ℕ, ◌+◌, String, List, [], ◌∷◌, length, get_elem?}
use minitopo.Errors.{Result, ok, err, or_raise, index_error}
use minitopo.Errors
use minitopo.Floats.{Floats}
use minitopo.Parameter.{Parameter}
use minitopo.TopoParameter.{TopoParameter, left_subnet}
use minitopo.Network.{Env, Builder}
use minitopo.Run.{Run, pure, lift, gets, ◌>>=◌, ◌>>◌, for_each, count_from}
use minitopo.Topo.{Topo, BottleneckLink, add_client, add_server, add_link, command_to}
use minitopo.Topo.Config
use minitopo.Topo.Config.{
  interface_up_command, arp_command, add_global_default_route_command,
  add_simple_default_route_command,
}
use minitopo.MultiInterface
use minitopo.MultiInterface.{
  MultiInterface, address, get_client_interface, get_server_interface, get_server_ip,
  get_router_interface_to_client_switch, get_router_interface_to_server_switch,
  get_router_ip_to_client_switch, get_router_ip_to_server_switch,
}
use minitopo.MultiInterface.Configure
use minitopo.MultiInterface.Configure.{Ends, netmask, param}
use Prim.Native.Nat.{max}

-- `l[1:]`
abbrev pub but_first : List String → List String
but_first [] = []
but_first (s ∷ ss) = ss

module _ {F : Type 0} where
  -- For each link to the client: one more client on its left end, and one more server.
  unfoldable pub add_pairs : List (BottleneckLink F) → Topo F → Topo F
  unfolding add_client add_server add_link
  add_pairs [] t = t
  add_pairs (b ∷ bs) t =
      let (client, t1) = add_client t in
      let (server, t2) = add_server t1 in add_pairs bs (add_link client b.bs0 t2)

  unfoldable pub connect_servers : String → List String → Topo F → Topo F
  unfolding add_link
  connect_servers router [] t = t
  connect_servers router (s ∷ ss) t = connect_servers router ss (add_link router s t)

  unfoldable pub extend : MultiInterface F → MultiInterface F
  unfolding add_pairs connect_servers
  extend m =
      let paired = add_pairs m.c2r_links m.topo in
      record m { topo = connect_servers m.router (but_first paired.servers) paired }

  -- `MultiInterfaceMultiClientTopo(topo_builder, parameterFile)`
  unfoldable pub init_multi_client : Builder → TopoParameter F → Result (MultiInterface F)
  unfolding MultiInterface.init extend
  init_multi_client b tp = Errors.◌>>=◌ (MultiInterface.init b tp) λ m. ok (extend m)

-- The attributes that `configure_interfaces` sets.
pub record AllEnds : Type 0 where
  pub ends : Ends
  pub clients : List String
  pub servers : List String

-- `get_client_ip(i, congestion_client=True)`
unfoldable pub get_congestion_client_ip : Parameter → ℕ → Result String
unfolding address
get_congestion_client_ip = address left_subnet ".10"

-- `server_interface_count` of this configuration.
unfoldable pub all_server_interface_count : AllEnds → ℕ
all_server_interface_count n = max (length n.servers) 1

-- `for i, s in enumerate(l)`
abbrev pub numbered_from {ℓ} : {A : Type ℓ} → ℕ → List A → List (ℕ × A)
numbered_from i [] = []
numbered_from i (a ∷ l) = (i, a) ∷ numbered_from (i + 1) l

module _ (fl : Floats) (env : Env) (m : MultiInterface fl.F) where
  open fl use {F}

  -- `self.clients[index]`
  abbrev nth_client : AllEnds → ℕ → Result String
  nth_client n index = or_raise index_error (get_elem? n.clients index)

  unfoldable pub configure_congestion_client : AllEnds → ℕ → Run (Topo F) Unit
  configure_congestion_client n i = do
    p ← param fl env m
    let interface = get_client_interface (i + 1) 0
    ip ← lift (get_congestion_client_ip p i)
    client ← lift (nth_client n (i + 1))
    command_to env client (interface_up_command interface ip netmask)
    command_to env n.ends.router (arp_command ip (env.mac client interface))
    let router_mac = env.mac n.ends.router (get_router_interface_to_client_switch i)
    router_ip ← lift (get_router_ip_to_client_switch p i)
    command_to env client (arp_command router_ip router_mac)
    pure tt

  unfoldable pub configure_congestion_server : ℕ × String → AllEnds → Run (Topo F) Unit
  configure_congestion_server (i, s) n = do
    p ← param fl env m
    let r_if = get_router_interface_to_server_switch m i
    r_ip ← lift (get_router_ip_to_server_switch p i)
    command_to env n.ends.router (interface_up_command r_if r_ip netmask)
    command_to env s (arp_command r_ip (env.mac n.ends.router r_if))
    let s_if = get_server_interface i 0
    s_ip ← lift (get_server_ip p i)
    command_to env s (interface_up_command s_if s_ip netmask)
    command_to env n.ends.router (arp_command s_ip (env.mac s s_if))
    pure tt

  unfoldable pub configure_all_interfaces : Run (Topo F) AllEnds
  configure_all_interfaces = do
    ends ← Configure.configure_interfaces fl env m
    clients ← gets (λ t. t.clients)
    servers ← gets (λ t. t.servers)
    for_each
        (configure_congestion_client (record { ends = ends; clients = clients; servers = servers }))
        (count_from 0 (length m.c2r_links))
    for_each
        (λ s.
          configure_congestion_server s
            (record { ends = ends; clients = clients; servers = servers }))
        (numbered_from 0 servers)
    pure (record { ends = ends; clients = clients; servers = servers })

  unfoldable pub route_congestion_client : AllEnds → ℕ → Run (Topo F) Unit
  route_congestion_client n i = do
    p ← param fl env m
    via ← lift (get_router_ip_to_client_switch p i)
    client ← lift (nth_client n (i + 1))
    command_to env client (add_global_default_route_command via (get_client_interface (i + 1) 0))
    pure tt

  unfoldable pub route_congestion_server : ℕ × String → Run (Topo F) Unit
  route_congestion_server (i, s) = do
    p ← param fl env m
    via ← lift (get_router_ip_to_server_switch p i)
    command_to env s (add_simple_default_route_command via)
    pure tt

  unfoldable pub configure_all_routing : AllEnds → Run (Topo F) Unit
  configure_all_routing n = do
    Configure.configure_routing fl env m n.ends
    for_each (route_congestion_client n) (count_from 0 (length m.c2r_links))
    servers ← gets (λ t. t.servers)
    for_each route_congestion_server (numbered_from 0 servers)

  -- `configure_network` of this configuration.
  unfoldable pub configure_all_network : Run (Topo F) AllEnds
  configure_all_network =
      Config.configure_network fl env configure_all_interfaces configure_all_routing

-- ===== src/Tests/Interfaces.antt =====
-- Runs of the topology with several interfaces.
use minitopo.Base.{ℕ, String, ◌≡◌, refl, List, [], ◌∷◌, some, false, get_elem?}
use minitopo.Base.Int.{ℤ, pos}
use minitopo.Base.Dict.{lookup}
use minitopo.Errors.{ok}
use minitopo.Text.{lower_equals}
use minitopo.Link.{LinkCharacteristics}
use minitopo.TopoParameter.{TopoParameter}
use minitopo.Network
use minitopo.Run.Keeps.{Keeps}
use minitopo.Topo.Log.{IsLogged}
use minitopo.Parameter.{text}
use minitopo.MultiInterface
use minitopo.MultiInterface.{
  MultiInterface, get_client_interface, get_server_interface, get_router_interface_to_client_switch,
  get_router_interface_to_server_switch,
}
use minitopo.MultiInterface.Configure.{configure_network}
use minitopo.Base.{◌+◌, length}
use minitopo.MultiInterface.Logged.{multi_network-IsLogged}
use minitopo.MultiInterface.MultiClient.{init_multi_client, configure_all_network}
use minitopo.MultiInterface.MultiClientLogged.{all_network-IsLogged}
use minitopo.MultiInterface.Counts.{HasNodes, init_multi_client-HasNodes}
use minitopo.MultiInterface.Ports.{bottleneck}
use minitopo.MultiInterface.Interfaces.{
  IsInterface, client_side-IsInterface, server_side-IsInterface, direct-IsInterface,
}
use minitopo.Tests.Inputs.{whole_numbers, silent, or_else}

abbrev link : String → ℕ → LinkCharacteristics ℤ
link link_type id = record {
  id = pos id;
  link_type = link_type;
  delay = pos 10;
  queue_size = pos 10;
  bandwidth = pos 4;
  loss = pos 0;
  queuing_delay = "28";
  netem_at = [];
  backup = pos 0;
}

abbrev topology_of : List (LinkCharacteristics ℤ) → TopoParameter ℤ
topology_of links = record {
  parameter = record { parameters = ("changeNetem", text "no") ∷ []; default_parameters = [] };
  link_characteristics = links;
}

abbrev pub nothing_made : MultiInterface ℤ
nothing_made = record {
  topo = record {
    topo_builder = Network.empty;
    topo_parameter = topology_of [];
    change_netem = false;
    log_file = [];
    clients = [];
    routers = [];
    servers = [];
    bottleneck_links = [];
  };
  client = "";
  server = "";
  router = "";
  c2r_links = [];
  r2s_links = [];
}

abbrev made_of : List (LinkCharacteristics ℤ) → MultiInterface ℤ
made_of links = or_else nothing_made (MultiInterface.init Network.empty (topology_of links))

abbrev two_and_one : List (LinkCharacteristics ℤ)
two_and_one = link "c2r" 0 ∷ link "c2r" 1 ∷ link "r2s" 0 ∷ []

abbrev one_and_none : List (LinkCharacteristics ℤ)
one_and_none = link "c2r" 0 ∷ []

init-two_and_one :
    MultiInterface.init Network.empty (topology_of two_and_one) ≡ ok (made_of two_and_one)
unfolding MultiInterface.init lookup lower_equals
init-two_and_one = refl

init-one_and_none :
    MultiInterface.init Network.empty (topology_of one_and_none) ≡ ok (made_of one_and_none)
unfolding MultiInterface.init lookup lower_equals
init-one_and_none = refl

one_of_r2s : get_elem? (made_of two_and_one).r2s_links 0 ≡ some (bottleneck (link "r2s" 0))
unfolding MultiInterface.init lookup bottleneck
one_of_r2s = refl

one_of_c2r : get_elem? (made_of two_and_one).c2r_links 1 ≡ some (bottleneck (link "c2r" 1))
unfolding MultiInterface.init lookup bottleneck
one_of_c2r = refl

none_of_r2s : (made_of one_and_none).r2s_links ≡ []
unfolding MultiInterface.init lookup
none_of_r2s = refl

abbrev m : MultiInterface ℤ
m = made_of two_and_one

server_side-IsInterface_example :
    IsInterface m.topo m.router
      (get_router_interface_to_server_switch m 0)
      (m.router, (bottleneck (link "r2s" 0)).bs0)
    × IsInterface m.topo m.server
        (get_server_interface 0 0)
        ((bottleneck (link "r2s" 0)).bs3, m.server)
server_side-IsInterface_example =
    server_side-IsInterface (topology_of two_and_one) m init-two_and_one 0
      (bottleneck (link "r2s" 0)) one_of_r2s

client_side-IsInterface_example :
    IsInterface m.topo m.client
      (get_client_interface 0 1)
      (m.client, (bottleneck (link "c2r" 1)).bs0)
    × IsInterface m.topo m.router
        (get_router_interface_to_client_switch 1)
        ((bottleneck (link "c2r" 1)).bs3, m.router)
client_side-IsInterface_example =
    client_side-IsInterface (topology_of two_and_one) m init-two_and_one 1
      (bottleneck (link "c2r" 1)) one_of_c2r

abbrev direct : MultiInterface ℤ
direct = made_of one_and_none

direct-IsInterface_example :
    IsInterface direct.topo direct.router
      (get_router_interface_to_server_switch direct 0)
      (direct.router, direct.server)
    × IsInterface direct.topo direct.server
        (get_server_interface 0 0)
        (direct.router, direct.server)
direct-IsInterface_example =
    direct-IsInterface (topology_of one_and_none) direct init-one_and_none none_of_r2s

multi_network-IsLogged_example : Keeps IsLogged (configure_network whole_numbers silent m)
multi_network-IsLogged_example = multi_network-IsLogged whole_numbers silent m

abbrev several_clients : MultiInterface ℤ
several_clients = or_else nothing_made (init_multi_client Network.empty (topology_of two_and_one))

init-several_clients :
    init_multi_client Network.empty (topology_of two_and_one) ≡ ok several_clients
unfolding init_multi_client lookup lower_equals
init-several_clients = refl

init_multi_client-HasNodes_example :
    HasNodes
      (1 + length several_clients.c2r_links)
      (1 + length several_clients.c2r_links)
      several_clients.topo
init_multi_client-HasNodes_example =
    init_multi_client-HasNodes (topology_of two_and_one) several_clients init-several_clients

all_network-IsLogged_example :
    Keeps IsLogged (configure_all_network whole_numbers silent several_clients)
all_network-IsLogged_example = all_network-IsLogged whole_numbers silent several_clients

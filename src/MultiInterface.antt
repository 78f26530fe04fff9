-- ===== src/MultiInterface.antt =====
-- topos/multi_interface.py: `MultiInterfaceTopo` and the addresses of `MultiInterfaceConfig`.
pub mod Configure
pub mod Logged
pub mod MultiClient
pub mod Counts
pub mod MultiClientLogged
pub mod Ports
pub mod Wiring
pub mod Interfaces
use Prim.Native.Nat.{max}
use minitopo.Base.{
  ℕ, ◌+◌, ◌*◌, String, ◌==◌, Bool, true, false, List, [], ◌∷◌, ◌++◌, if◌then◌else◌, length, map,
}
use minitopo.Base.Int.{pos}
use minitopo.Errors.{Result, ok, err, ◌>>=◌}
use minitopo.Floats.{Floats}
use minitopo.Text.{concat, join}
use minitopo.Text.Number.{show}
use minitopo.Link.{LinkCharacteristics}
use minitopo.Parameter
use minitopo.Parameter.{Parameter, formatted}
use minitopo.TopoParameter.{TopoParameter, left_subnet, right_subnet}
use minitopo.Network.{Builder}
use minitopo.Topo
use minitopo.Topo.{
  Topo, BottleneckLink, add_client, add_server, add_router, add_link, add_bottleneck_link,
  get_client_name, get_router_name, get_server_name,
}

-- The topology with the attributes that the class adds to `Topo`.
pub record MultiInterface (F : Type 0) : Type 0 where
  pub topo : Topo F
  pub client : String
  pub server : String
  pub router : String
  pub c2r_links : List (BottleneckLink F)
  pub r2s_links : List (BottleneckLink F)

module _ {F : Type 0} where
  unfoldable pub of_type : String → List (LinkCharacteristics F) → List (LinkCharacteristics F)
  of_type t [] = []
  of_type t (l ∷ ls) = let rest = of_type t ls in if l.link_type == t then l ∷ rest else rest

  unfoldable pub get_client_to_router_links : Topo F → List (LinkCharacteristics F)
  unfolding of_type
  get_client_to_router_links t = of_type "c2r" t.topo_parameter.link_characteristics

  unfoldable pub get_router_to_server_links : Topo F → List (LinkCharacteristics F)
  unfolding of_type
  get_router_to_server_links t = of_type "r2s" t.topo_parameter.link_characteristics

  -- A loop of `add_bottleneck_link` between two nodes.
  unfoldable pub add_bottleneck_links :
      String → String → List (LinkCharacteristics F) → Topo F → List (BottleneckLink F) × Topo F
  unfolding add_bottleneck_link
  add_bottleneck_links from_a to_b [] t = ([], t)
  add_bottleneck_links from_a to_b (l ∷ ls) t =
      let (bl, u) = add_bottleneck_link from_a to_b l t in
      let (bls, v) = add_bottleneck_links from_a to_b ls u in (bl ∷ bls, v)

  -- Without links between router and server the two are connected directly.
  connect_server :
      String → String → List (LinkCharacteristics F) → Topo F → List (BottleneckLink F) × Topo F
  unfolding add_bottleneck_links add_link
  connect_server router server [] t = ([], add_link router server t)
  connect_server router server (l ∷ ls) t = add_bottleneck_links router server (l ∷ ls) t

  unfoldable pub build : Topo F → MultiInterface F
  unfolding connect_server get_client_to_router_links get_router_to_server_links add_client
      add_server add_router
  build t =
      let (client, t1) = add_client t in
      let (server, t2) = add_server t1 in
      let (router, t3) = add_router t2 in
      let (c2r, t4) = add_bottleneck_links client router (get_client_to_router_links t3) t3 in
      let (r2s, t5) = connect_server router server (get_router_to_server_links t4) t4 in
      record {
        topo = t5;
        client = client;
        server = server;
        router = router;
        c2r_links = c2r;
        r2s_links = r2s;
      }

  -- `MultiInterfaceTopo(topo_builder, parameterFile)`
  unfoldable pub init : Builder → TopoParameter F → Result (MultiInterface F)
  unfolding build Topo.init
  init b tp = Topo.init b tp >>= λ t. ok (build t)

-- `f"{self.param.get(key)}{index}{suffix}"`
unfoldable pub address : String → String → Parameter → ℕ → Result String
unfolding Parameter.get formatted concat
address key suffix p index =
    Parameter.get p key >>= λ v. ok (concat (formatted v ∷ show (pos index) ∷ suffix ∷ []))

unfoldable pub get_client_ip : Parameter → ℕ → Result String
unfolding address
get_client_ip = address left_subnet ".1"

unfoldable pub get_client_subnet : Parameter → ℕ → Result String
unfolding address
get_client_subnet = address left_subnet ".0/24"

unfoldable pub get_router_ip_to_client_switch : Parameter → ℕ → Result String
unfolding address
get_router_ip_to_client_switch = address left_subnet ".2"

unfoldable pub get_router_ip_to_server_switch : Parameter → ℕ → Result String
unfolding address
get_router_ip_to_server_switch = address right_subnet ".2"

unfoldable pub get_server_ip : Parameter → ℕ → Result String
unfolding address
get_server_ip = address right_subnet ".1"

unfoldable pub get_server_subnet : Parameter → ℕ → Result String
unfolding address
get_server_subnet = address right_subnet ".0/24"

-- `"{}-eth{}".format(name, index)`
unfoldable pub interface : String → ℕ → String
unfolding concat
interface name index = concat (name ∷ "-eth" ∷ show (pos index) ∷ [])

unfoldable pub get_client_interface : ℕ → ℕ → String
unfolding interface get_client_name
get_client_interface client_index = interface (get_client_name client_index)

unfoldable pub get_router_interface_to_client_switch : ℕ → String
unfolding interface get_router_name
get_router_interface_to_client_switch = interface (get_router_name 0)

unfoldable pub get_server_interface : ℕ → ℕ → String
unfolding interface get_server_name
get_server_interface server_index = interface (get_server_name server_index)

module _ {F : Type 0} (m : MultiInterface F) where
  unfoldable pub client_interface_count : ℕ
  client_interface_count = max (length m.c2r_links) 1

  unfoldable pub server_interface_count : ℕ
  server_interface_count = max (length m.r2s_links) 1

  unfoldable pub get_router_interface_to_server_switch : ℕ → String
  unfolding get_router_interface_to_client_switch
  get_router_interface_to_server_switch switch_index =
      get_router_interface_to_client_switch (length m.c2r_links + switch_index)

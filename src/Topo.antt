-- ===== src/Topo.antt =====
-- core/topo.py: `Topo`, the nodes of a topology over the network, and the record of `BottleneckLink`.
pub mod Bottleneck
pub mod Config
pub mod Log
use minitopo.Base.{
  ℕ, zero, suc, ◌+◌, String, ◌==◌, Bool, true, false, List, [], ◌∷◌, ◌++◌, Option, none, some,
}
use minitopo.Base.{if◌then◌else◌, length, map, get_elem?}
use minitopo.Base.Int.{ℤ, pos}
use minitopo.Errors.{Result, ok, err, or_raise, index_error, attribute_error}
use minitopo.Errors
use minitopo.Floats.{Floats}
use minitopo.Text.{concat, lower_equals}
use minitopo.Text.Number.{show}
use minitopo.Link.{LinkCharacteristics}
use minitopo.Parameter
use minitopo.Parameter.{Value, text, several}
use minitopo.TopoParameter.{TopoParameter, change_netem}
use minitopo.Network
use minitopo.Network.{Action, Env, Builder}
use minitopo.Run.{Run, pure, lift, gets, ◌>>=◌, ◌>>◌, for_each}

pub record BottleneckLink (F : Type 0) : Type 0 where
  pub link_characteristics : LinkCharacteristics F
  pub bs0 : String
  pub bs1 : String
  pub bs2 : String
  pub bs3 : String

pub record Topo (F : Type 0) : Type 0 where
  pub topo_builder : Builder
  pub topo_parameter : TopoParameter F
  pub change_netem : Bool
  pub log_file : List String
  pub clients : List String
  pub routers : List String
  pub servers : List String
  pub bottleneck_links : List (BottleneckLink F)

-- `"{}_{}".format(prefix, index)`
abbrev pub numbered : String → ℕ → String
numbered prefix index = concat (prefix ∷ "_" ∷ show (pos index) ∷ [])

unfoldable pub get_client_name : ℕ → String
unfolding concat
get_client_name = numbered "Client"

unfoldable pub get_router_name : ℕ → String
unfolding concat
get_router_name = numbered "Router"

unfoldable pub get_server_name : ℕ → String
unfolding concat
get_server_name = numbered "Server"

-- `value.lower() == "yes"`: a list has no `lower`.
abbrev pub lower_is_yes : Value → Result Bool
lower_is_yes (text s) = ok (lower_equals s "yes")
lower_is_yes (several ss) = err attribute_error

module _ {F : Type 0} where
  -- `Topo(topo_builder, topo_parameter)`
  unfoldable pub init : Builder → TopoParameter F → Result (Topo F)
  unfolding Parameter.get lower_equals
  init b tp = Errors.◌>>=◌ (Parameter.get tp.parameter change_netem) λ value.
      Errors.◌>>=◌ (lower_is_yes value) λ change. ok (record {
        topo_builder = b;
        topo_parameter = tp;
        change_netem = change;
        log_file = [];
        clients = [];
        routers = [];
        servers = [];
        bottleneck_links = [];
      })

  unfoldable client_count : Topo F → ℕ
  client_count t = length t.clients

  unfoldable router_count : Topo F → ℕ
  router_count t = length t.routers

  unfoldable server_count : Topo F → ℕ
  server_count t = length t.servers

  unfoldable bottleneck_link_count : Topo F → ℕ
  bottleneck_link_count t = length t.bottleneck_links

  unfoldable pub add_host : String → Topo F → String × Topo F
  unfolding Network.add_host
  add_host host t =
      let (h, b) = Network.add_host host t.topo_builder in (h, record t { topo_builder = b })

  unfoldable pub add_client : Topo F → String × Topo F
  unfolding add_host client_count
  add_client t =
      let (client, u) = add_host (get_client_name (client_count t)) t in
      (client, record u { clients = u.clients ++ client ∷ [] })

  unfoldable pub add_router : Topo F → String × Topo F
  unfolding add_host router_count
  add_router t =
      let (router, u) = add_host (get_router_name (router_count t)) t in
      (router, record u { routers = u.routers ++ router ∷ [] })

  unfoldable pub add_server : Topo F → String × Topo F
  unfolding add_host server_count
  add_server t =
      let (server, u) = add_host (get_server_name (server_count t)) t in
      (server, record u { servers = u.servers ++ server ∷ [] })

  unfoldable pub add_link : String → String → Topo F → Topo F
  unfolding Network.add_link
  add_link from_a to_b t = record t { topo_builder = Network.add_link from_a to_b t.topo_builder }

  unfoldable pub get_client : ℕ → Topo F → Result String
  get_client index t = or_raise index_error (get_elem? t.clients index)

  unfoldable pub get_router : ℕ → Topo F → Result String
  get_router index t = or_raise index_error (get_elem? t.routers index)

  unfoldable pub get_server : ℕ → Topo F → Result String
  get_server index t = or_raise index_error (get_elem? t.servers index)

  -- `BottleneckLink.get_bs_name`
  unfoldable pub get_bs_name : LinkCharacteristics F → ℕ → String
  unfolding concat
  get_bs_name l index =
      concat ("bs" ∷ "_" ∷ l.link_type ∷ "_" ∷ show l.id ∷ "_" ∷ show (pos index) ∷ [])

  -- `BottleneckLink(...)`: four switches in a row.
  unfoldable pub new_bottleneck : LinkCharacteristics F → Builder → BottleneckLink F × Builder
  unfolding Network.add_switch Network.add_link
  new_bottleneck l b =
      let (s0, b0) = Network.add_switch (get_bs_name l 0) b in
      let (s1, b1) = Network.add_switch (get_bs_name l 1) b0 in
      let (s2, b2) = Network.add_switch (get_bs_name l 2) b1 in
      let (s3, b3) = Network.add_switch (get_bs_name l 3) b2 in
      (
        record { link_characteristics = l; bs0 = s0; bs1 = s1; bs2 = s2; bs3 = s3 },
        Network.add_link s2 s3 (Network.add_link s1 s2 (Network.add_link s0 s1 b3)),
      )

  -- `add_bottleneck_link` without a link to reuse, as every topology calls it.
  unfoldable pub add_bottleneck_link :
      String → String → LinkCharacteristics F → Topo F → BottleneckLink F × Topo F
  unfolding new_bottleneck
  add_bottleneck_link from_a to_b l t =
      let (bl, b) = new_bottleneck l t.topo_builder in
      (
        bl,
        record t {
          topo_builder = Network.add_link bl.bs3 to_b (Network.add_link from_a bl.bs0 b);
          bottleneck_links = t.bottleneck_links ++ bl ∷ [];
        },
      )

  unfoldable pub start_network : Run (Topo F) Unit
  unfolding Network.start_network
  start_network t = (ok tt, record t { topo_builder = Network.start_network t.topo_builder })

  unfoldable pub stop_network : Run (Topo F) Unit
  unfolding Network.stop_network
  stop_network t = (ok tt, record t { topo_builder = Network.stop_network t.topo_builder })

  unfoldable pub get_cli : Run (Topo F) Unit
  unfolding Network.get_cli
  get_cli t = (ok tt, record t { topo_builder = Network.get_cli t.topo_builder })

  module _ (env : Env) where
    unfoldable pub command_to : String → String → Run (Topo F) String
    unfolding Network.command_to concat
    command_to who cmd t =
        let (answer, b) = Network.command_to env who cmd t.topo_builder in
        (
          ok answer,
          record t {
            topo_builder = b;
            log_file = t.log_file ++ concat (who ∷ " : " ∷ cmd ∷ "\n" ∷ []) ∷ [];
          },
        )

    unfoldable pub command_global : String → Run (Topo F) String
    unfolding Network.command_global concat
    command_global cmd t =
        let (answer, b) = Network.command_global env cmd t.topo_builder in
        (
          ok answer,
          record t {
            topo_builder = b;
            log_file = t.log_file ++ concat ("Global : " ∷ cmd ∷ "\n" ∷ []) ∷ [];
          },
        )

    unfoldable pub get_host : String → Run (Topo F) String
    unfolding Network.get_host
    get_host who t = (Network.get_host env who t.topo_builder, t)

    unfoldable pub get_interface_names : String → Run (Topo F) (List String)
    unfolding Network.get_interface_names
    get_interface_names who t = (ok (Network.get_interface_names env who t.topo_builder), t)

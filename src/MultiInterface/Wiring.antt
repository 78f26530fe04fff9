-- ===== src/MultiInterface/Wiring.antt =====
-- topos/multi_interface.py: the interfaces that Mininet gives to the client, the router and the
-- server, against the interface names that the configuration computes.
use minitopo.Base.{String, ◌≡◌, refl, sym, ap, ◌∙◌, Bool, List, [], ◌∷◌, ◌++◌}
use minitopo.Base.{map}
use minitopo.Base.{append-nil}
use minitopo.Text.{◌<>◌, concat}
use minitopo.Text.Number.{show}
use minitopo.Link.{LinkCharacteristics}
use minitopo.Network
use minitopo.TopoParameter.{TopoParameter}
use minitopo.Topo.{
  Topo, BottleneckLink, get_bs_name, get_client_name, get_router_name, get_server_name,
  add_bottleneck_link, new_bottleneck,
}
use minitopo.Errors.{ok}
use minitopo.Parameter
use minitopo.TopoParameter.{change_netem}
use minitopo.TopoParameter.Loops.{>>=-eq-ok, ok-injective}
use minitopo.Topo
use minitopo.Topo.{lower_is_yes}
use minitopo.MultiInterface.{
  MultiInterface, init, add_bottleneck_links, build, connect_server, of_type,
}
use mathlib.Core.Path.{subst}
use minitopo.MultiInterface.Ports.{
  links_at, links_at-append, chains, bottleneck, links-add_bottleneck_links,
  add_bottleneck_links-eq-map, links_at-chains_left, links_at-chains_right, links_at-chains_between,
  host_names,
}

-- The names that `build` gives to the three nodes.
pub names_of_hosts :
    (get_client_name 0 ≡ "Client_0")
    × (get_router_name 0 ≡ "Router_0")
    × (get_server_name 0 ≡ "Server_0")
unfolding get_client_name get_router_name get_server_name concat show ◌<>◌
names_of_hosts = (refl, refl, refl)

module _ {F : Type 0} where
  topo_parameter-add_bottleneck_links :
      (from_a to_b : String) (ls : List (LinkCharacteristics F)) (t : Topo F)
      → (add_bottleneck_links from_a to_b ls t).1.topo_parameter ≡ t.topo_parameter
  unfolding add_bottleneck_links add_bottleneck_link
  topo_parameter-add_bottleneck_links from_a to_b [] t = refl
  topo_parameter-add_bottleneck_links from_a to_b (l ∷ ls) t =
      topo_parameter-add_bottleneck_links from_a to_b ls (add_bottleneck_link from_a to_b l t).1

  -- A topology that is set up over no network yet.
  abbrev pub fresh : TopoParameter F → Bool → Topo F
  fresh tp change = record {
    topo_builder = Network.empty;
    topo_parameter = tp;
    change_netem = change;
    log_file = [];
    clients = [];
    routers = [];
    servers = [];
    bottleneck_links = [];
  }

  -- Between router and server: one chain for each link, or one link.
  abbrev server_side : String → String → List (LinkCharacteristics F) → List (String × String)
  server_side router server [] = (router, server) ∷ []
  server_side router server (l ∷ ls) = chains router server (l ∷ ls)

  connect_server-links :
      (router server : String) (ls : List (LinkCharacteristics F)) (t : Topo F)
      → (connect_server router server ls t).1.topo_builder.links
        ≡ t.topo_builder.links ++ server_side router server ls
  unfolding connect_server
  connect_server-links router server [] t = refl
  connect_server-links router server (l ∷ ls) t =
      links-add_bottleneck_links router server (l ∷ ls) t

  connect_server-eq-map :
      (router server : String) (ls : List (LinkCharacteristics F)) (t : Topo F)
      → (connect_server router server ls t).0 ≡ map bottleneck ls
  unfolding connect_server
  connect_server-eq-map router server [] t = refl
  connect_server-eq-map router server (l ∷ ls) t =
      add_bottleneck_links-eq-map router server (l ∷ ls) t

  -- The router and the server are connected after the chains of the client.
  connect_server-add_bottleneck_links :
      (client router server : String) (c2r : List (LinkCharacteristics F)) (t u : Topo F)
      → (add_bottleneck_links client router c2r t).1 ≡ u
      → ((connect_server router server (of_type "r2s" u.topo_parameter.link_characteristics) u).0
          ≡ map bottleneck (of_type "r2s" t.topo_parameter.link_characteristics))
        × ((connect_server router server
              (of_type "r2s" u.topo_parameter.link_characteristics)
              u).1.topo_builder.links
            ≡ t.topo_builder.links
              ++ chains client router c2r
              ++ server_side router server (of_type "r2s" t.topo_parameter.link_characteristics))
  connect_server-add_bottleneck_links client router server c2r t u e = (
    connect_server-eq-map router server (r2s u) u
        ∙ ap (λ tp. map bottleneck (of_type "r2s" tp.link_characteristics)) kept,
    connect_server-links router server (r2s u) u
        ∙ ap (λ ls. u.topo_builder.links ++ server_side router server ls)
            (ap (λ tp. of_type "r2s" tp.link_characteristics) kept)
        ∙ ap (λ k. k ++ server_side router server (r2s t))
            (ap (λ v. v.topo_builder.links) (sym e)
              ∙ links-add_bottleneck_links client router c2r t),
  )
    where
      r2s : Topo F → List (LinkCharacteristics F)
      r2s v = of_type "r2s" v.topo_parameter.link_characteristics

      kept : u.topo_parameter ≡ t.topo_parameter
      kept =
          ap (λ v. v.topo_parameter) (sym e)
          ∙ topo_parameter-add_bottleneck_links client router c2r t

  -- All that `build` leaves on a fresh topology, as far as the links go.
  pub record Built (tp : TopoParameter F) (m : MultiInterface F) : Type 0 where
    pub client : m.client ≡ "Client_0"
    pub router : m.router ≡ "Router_0"
    pub server : m.server ≡ "Server_0"
    c2r : m.c2r_links ≡ map bottleneck (of_type "c2r" tp.link_characteristics)
    r2s : m.r2s_links ≡ map bottleneck (of_type "r2s" tp.link_characteristics)
    links :
        m.topo.topo_builder.links
        ≡ chains "Client_0" "Router_0" (of_type "c2r" tp.link_characteristics)
          ++ server_side "Router_0" "Server_0" (of_type "r2s" tp.link_characteristics)

  -- The topology with its three nodes and no link.
  abbrev hosts_only : TopoParameter F → Bool → Topo F
  hosts_only tp change = record (fresh tp change) {
    topo_builder = record Network.empty { hosts = "Client_0" ∷ "Server_0" ∷ "Router_0" ∷ [] };
    clients = "Client_0" ∷ [];
    routers = "Router_0" ∷ [];
    servers = "Server_0" ∷ [];
  }

  build-Built : (tp : TopoParameter F) (change : Bool) → Built tp (build (fresh tp change))
  unfolding build get_client_name get_router_name get_server_name concat show ◌<>◌
  build-Built tp change =
      let c2r = of_type "c2r" tp.link_characteristics in
      let t = hosts_only tp change in
      let connected =
        connect_server-add_bottleneck_links "Client_0" "Router_0" "Server_0" c2r t _ refl in
      record {
        client = refl;
        router = refl;
        server = refl;
        c2r = add_bottleneck_links-eq-map _ _ _ _;
        r2s = connected.0;
        links = connected.1;
      }

-- A list, or one element in place of no element.
abbrev pub or_one {ℓ} : {A : Type ℓ} → A → List A → List A
or_one a [] = a ∷ []
or_one a (b ∷ bs) = b ∷ bs

links_at-both :
    (n : String) (left right : List (String × String)) {at_left at_right : List (String × String)}
    → links_at n left ≡ at_left
    → links_at n right ≡ at_right
    → links_at n (left ++ right) ≡ at_left ++ at_right
links_at-both n left right l r = links_at-append n left right ∙ rw (l, r) refl

module _ {F : Type 0} where
  abbrev c2r : TopoParameter F → List (LinkCharacteristics F)
  c2r tp = of_type "c2r" tp.link_characteristics

  abbrev r2s : TopoParameter F → List (LinkCharacteristics F)
  r2s tp = of_type "r2s" tp.link_characteristics

  pub init-fresh :
      (tp : TopoParameter F) (m : MultiInterface F)
      → init Network.empty tp ≡ ok m
      → (change : Bool) × (build (fresh tp change) ≡ m)
  unfolding init Topo.init
  init-fresh tp m e =
      let (t, i, b) = >>=-eq-ok (Topo.init Network.empty tp) (λ t. ok (build t)) e in
      let (value, _, j) = >>=-eq-ok (Parameter.get tp.parameter change_netem) _ i in
      let (change, _, k) = >>=-eq-ok (lower_is_yes value) _ j in
      (change, ap build (ok-injective k) ∙ ok-injective b)

  pub init-Built :
      (tp : TopoParameter F) (m : MultiInterface F) → init Network.empty tp ≡ ok m → Built tp m
  init-Built tp m e =
      let (change, k) = init-fresh tp m e in subst (Built tp) k (build-Built tp change)

  links_at-server_side_router :
      (ls : List (LinkCharacteristics F))
      → links_at "Router_0" (server_side "Router_0" "Server_0" ls)
        ≡ or_one ("Router_0", "Server_0") (map (λ b. ("Router_0", b.bs0)) (map bottleneck ls))
  links_at-server_side_router [] = unfold links_at in refl
  links_at-server_side_router (l ∷ ls) =
      links_at-chains_left "Router_0" "Server_0" (l ∷ ls) host_names.1 refl

  links_at-server_side_client :
      (ls : List (LinkCharacteristics F))
      → links_at "Client_0" (server_side "Router_0" "Server_0" ls) ≡ []
  links_at-server_side_client [] = unfold links_at in refl
  links_at-server_side_client (l ∷ ls) =
      links_at-chains_between "Client_0" "Router_0" "Server_0" (l ∷ ls) host_names.0 refl refl

  links_at-server_side_server :
      (ls : List (LinkCharacteristics F))
      → links_at "Server_0" (server_side "Router_0" "Server_0" ls)
        ≡ or_one ("Router_0", "Server_0") (map (λ b. (b.bs3, "Server_0")) (map bottleneck ls))
  links_at-server_side_server [] = unfold links_at in refl
  links_at-server_side_server (l ∷ ls) =
      links_at-chains_right "Server_0" "Router_0" (l ∷ ls) host_names.2 refl

  -- The router has one interface for each c2r link, in their order, then one for each r2s link,
  -- or one to the server.
  pub links_at_router :
      (tp : TopoParameter F) (m : MultiInterface F)
      → init Network.empty tp ≡ ok m
      → links_at m.router m.topo.topo_builder.links
        ≡ map (λ b. (b.bs3, m.router)) m.c2r_links
          ++ or_one (m.router, m.server) (map (λ b. (m.router, b.bs0)) m.r2s_links)
  links_at_router tp m e =
      let made = init-Built tp m e in
      rw (made.links, made.router, made.server, made.c2r, made.r2s)
        (links_at-both "Router_0" _ _
          (links_at-chains_right "Router_0" "Client_0" (c2r tp) host_names.1 refl)
          (links_at-server_side_router (r2s tp)))

  pub links_at_client :
      (tp : TopoParameter F) (m : MultiInterface F)
      → init Network.empty tp ≡ ok m
      → links_at m.client m.topo.topo_builder.links ≡ map (λ b. (m.client, b.bs0)) m.c2r_links
  links_at_client tp m e =
      let made = init-Built tp m e in
      rw (made.links, made.client, made.c2r)
        (links_at-both "Client_0" _ _
            (links_at-chains_left "Client_0" "Router_0" (c2r tp) host_names.0 refl)
            (links_at-server_side_client (r2s tp))
          ∙ append-nil _)

  pub links_at_server :
      (tp : TopoParameter F) (m : MultiInterface F)
      → init Network.empty tp ≡ ok m
      → links_at m.server m.topo.topo_builder.links
        ≡ or_one (m.router, m.server) (map (λ b. (b.bs3, m.server)) m.r2s_links)
  links_at_server tp m e =
      let made = init-Built tp m e in
      rw (made.links, made.router, made.server, made.r2s)
        (links_at-both "Server_0" _ _
          (links_at-chains_between "Server_0" "Client_0" "Router_0" (c2r tp) host_names.2 refl refl)
          (links_at-server_side_server (r2s tp)))

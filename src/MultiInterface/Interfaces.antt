-- ===== src/MultiInterface/Interfaces.antt =====
-- topos/multi_interface.py: the names of the interfaces, as the configuration computes them.
use minitopo.Base.{ℕ, ◌+◌, String, ◌≡◌, refl, sym, ap, ◌∙◌, List, [], ◌∷◌, ◌++◌}
use minitopo.Base.{some, length, map, get_elem?}
use minitopo.Base.{
  length-map, get_elem?-map, get_elem?-in_bounds, get_elem?-append_left, get_elem?-append_right,
}
use minitopo.Network
use minitopo.TopoParameter.{TopoParameter}
use minitopo.Topo.{Topo, BottleneckLink}
use minitopo.Errors.{ok}
use minitopo.MultiInterface.{
  interface, get_client_interface, get_server_interface, get_router_interface_to_client_switch,
  get_router_interface_to_server_switch, MultiInterface, init,
}
use minitopo.MultiInterface.Ports.{links_at}
use minitopo.MultiInterface.Wiring.{
  names_of_hosts, init-Built, or_one, links_at_router, links_at_client, links_at_server,
}

-- The interface `name` of node `n` is the one that its link `link` got: Mininet numbers the
-- interfaces of a node from 0, in the order in which its links are added.
unfoldable pub IsInterface : {F : Type 0} → Topo F → String → String → String × String → Type 0
unfolding interface
IsInterface t n name link =
    (k : ℕ) × (name ≡ interface n k) × (get_elem? (links_at n t.topo_builder.links) k ≡ some link)

get_elem?-or_one {ℓ} :
    {A : Type ℓ} (a x : A) (xs : List A) (i : ℕ)
    → get_elem? xs i ≡ some x
    → get_elem? (or_one a xs) i ≡ some x
get_elem?-or_one a x [] i h = cc
get_elem?-or_one a x (y ∷ ys) i h = h

get_elem?-after_map {ℓ κ} :
    {A : Type ℓ} {B : Type κ} (f : A → B) (xs : List A) (ys : List B) (i : ℕ)
    → get_elem? (map f xs ++ ys) (length xs + i) ≡ get_elem? ys i
get_elem?-after_map f xs ys i =
    ap (λ k. get_elem? (map f xs ++ ys) (k + i)) (sym (length-map f xs))
    ∙ get_elem?-append_right (map f xs) ys i

module _ {F : Type 0} (tp : TopoParameter F) (m : MultiInterface F)
    (made : init Network.empty tp ≡ ok m) where
  -- Where `m` was made over an empty network, the interface names that the configuration computes
  -- for the i-th link between client and router, at either end, are those of the links of the i-th
  -- bottleneck.
  pub client_side-IsInterface :
      (i : ℕ) (b : BottleneckLink F)
      → get_elem? m.c2r_links i ≡ some b
      → IsInterface m.topo m.client (get_client_interface 0 i) (m.client, b.bs0)
        × IsInterface m.topo m.router (get_router_interface_to_client_switch i) (b.bs3, m.router)
  unfolding IsInterface get_client_interface get_router_interface_to_client_switch
  client_side-IsInterface i b h =
      let names = init-Built tp m made in
      let at_router = get_elem?-map (λ c. (c.bs3, m.router)) m.c2r_links i b h in
      (
        (
          i,
          ap (λ n. interface n i) (names_of_hosts.0 ∙ sym names.client),
          rw (links_at_client tp m made) (get_elem?-map (λ c. (m.client, c.bs0)) m.c2r_links i b h),
        ),
        (
          i,
          ap (λ n. interface n i) (names_of_hosts.1 ∙ sym names.router),
          rw (links_at_router tp m made) (
              get_elem?-append_left (map (λ c. (c.bs3, m.router)) m.c2r_links) _ i
                (get_elem?-in_bounds _ i _ at_router)
              ∙ at_router),
        ),
      )

  -- Where `m` was made over an empty network, the interface names that the configuration computes
  -- for the i-th link between router and server, at either end, are those of the links of the i-th
  -- bottleneck: at the router, they are numbered after all links to the client.
  pub server_side-IsInterface :
      (i : ℕ) (b : BottleneckLink F)
      → get_elem? m.r2s_links i ≡ some b
      → IsInterface m.topo m.router (get_router_interface_to_server_switch m i) (m.router, b.bs0)
        × IsInterface m.topo m.server (get_server_interface 0 i) (b.bs3, m.server)
  unfolding IsInterface get_router_interface_to_server_switch get_router_interface_to_client_switch
      get_server_interface
  server_side-IsInterface i b h =
      let names = init-Built tp m made in
      (
        (
          length m.c2r_links + i,
          ap (λ n. interface n (length m.c2r_links + i)) (names_of_hosts.1 ∙ sym names.router),
          rw (links_at_router tp m made) (
              get_elem?-after_map _ m.c2r_links _ i
              ∙ get_elem?-or_one _ _ _ i
                  (get_elem?-map (λ c. (m.router, c.bs0)) m.r2s_links i b h)),
        ),
        (
          i,
          ap (λ n. interface n i) (names_of_hosts.2 ∙ sym names.server),
          rw (links_at_server tp m made)
              (get_elem?-or_one _ _ _ i (get_elem?-map (λ c. (c.bs3, m.server)) m.r2s_links i b h)),
        ),
      )

  -- Where `m` was made over an empty network and has no link between router and server, the first
  -- names that the configuration computes for such a link are those of the direct link.
  pub direct-IsInterface :
      m.r2s_links ≡ []
      → IsInterface m.topo m.router (get_router_interface_to_server_switch m 0) (m.router, m.server)
        × IsInterface m.topo m.server (get_server_interface 0 0) (m.router, m.server)
  unfolding IsInterface get_router_interface_to_server_switch get_router_interface_to_client_switch
      get_server_interface
  direct-IsInterface h =
      let names = init-Built tp m made in
      (
        (
          length m.c2r_links + 0,
          ap (λ n. interface n (length m.c2r_links + 0)) (names_of_hosts.1 ∙ sym names.router),
          rw (links_at_router tp m made) (get_elem?-after_map _ m.c2r_links _ 0 ∙ rw h refl),
        ),
        (
          0,
          ap (λ n. interface n 0) (names_of_hosts.2 ∙ sym names.server),
          rw (links_at_server tp m made) (rw h refl),
        ),
      )

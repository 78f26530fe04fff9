-- ===== src/MultiInterface/Counts.antt =====
-- topos/multi_interface_multi_client.py: how many clients and servers there are.
use mathlib.Core.Path.{subst}
use minitopo.Base.{
  ℕ, suc, ◌+◌, String, ◌≡◌, refl, Bool, List, [], ◌∷◌, arith, length, length-append,
}
use minitopo.Errors.{ok}
use minitopo.Link.{LinkCharacteristics}
use minitopo.Network
use minitopo.TopoParameter.{TopoParameter}
use minitopo.TopoParameter.Loops.{>>=-eq-ok, ok-injective}
use minitopo.Topo.{
  Topo, BottleneckLink, add_bottleneck_link, add_link, add_client, add_server, add_router,
}
use minitopo.MultiInterface
use minitopo.MultiInterface.{
  MultiInterface, add_bottleneck_links, connect_server, build, of_type, get_client_to_router_links,
  get_router_to_server_links,
}
use minitopo.MultiInterface.Wiring.{fresh, init-fresh}
use minitopo.MultiInterface.MultiClient.{
  but_first, add_pairs, connect_servers, extend, init_multi_client,
}

module _ {F : Type 0} where
  -- The numbers of clients and of servers.
  pub HasNodes : ℕ → ℕ → Topo F → Type 0
  HasNodes c s t = (length t.clients ≡ c) × (length t.servers ≡ s)

  of_lengths : (c s : ℕ) (t : Topo F) → length t.clients ≡ c → length t.servers ≡ s → HasNodes c s t
  unfolding HasNodes
  of_lengths c s t hc hs = (hc, hs)

  add_bottleneck_links-HasNodes :
      (c s : ℕ) (a b : String) (ls : List (LinkCharacteristics F)) (t : Topo F)
      → HasNodes c s t
      → HasNodes c s (add_bottleneck_links a b ls t).1
  unfolding HasNodes add_bottleneck_links add_bottleneck_link
  add_bottleneck_links-HasNodes c s a b [] t h = h
  add_bottleneck_links-HasNodes c s a b (l ∷ ls) t h =
      add_bottleneck_links-HasNodes c s a b ls (add_bottleneck_link a b l t).1 h

  connect_server-HasNodes :
      (c s : ℕ) (a b : String) (ls : List (LinkCharacteristics F)) (t : Topo F)
      → HasNodes c s t
      → HasNodes c s (connect_server a b ls t).1
  unfolding connect_server HasNodes
  connect_server-HasNodes c s a b [] t h = h
  connect_server-HasNodes c s a b (l ∷ ls) t h = add_bottleneck_links-HasNodes c s a b (l ∷ ls) t h

  build-HasNodes :
      (tp : TopoParameter F) (change : Bool) → HasNodes 1 1 (build (fresh tp change)).topo
  unfolding build
  build-HasNodes tp change =
      let (client, t1) = add_client (fresh tp change) in
      let (server, t2) = add_server t1 in
      let (router, t3) = add_router t2 in
      let t4 = (add_bottleneck_links client router (get_client_to_router_links t3) t3).1 in
      connect_server-HasNodes 1 1 router server (get_router_to_server_links t4) t4 (
        add_bottleneck_links-HasNodes 1 1 client router (get_client_to_router_links t3) t3
          (of_lengths 1 1 t3 refl refl))

  add_pairs-HasNodes :
      (c s : ℕ) (bs : List (BottleneckLink F)) (t : Topo F)
      → HasNodes c s t
      → HasNodes (c + length bs) (s + length bs) (add_pairs bs t)
  unfolding HasNodes add_pairs add_client add_server add_link
  add_pairs-HasNodes c s [] t h = (omega arith, omega arith)
  add_pairs-HasNodes c s (b ∷ bs) t h =
      let rest = add_pairs-HasNodes (suc c) (suc s) bs paired (
        omega (arith, h.0, length-append t.clients (client ∷ [])),
        omega (arith, h.1, length-append t.servers (server ∷ [])),
      ) in
      (omega (arith, rest.0), omega (arith, rest.1))
    where
      client : String
      client = (add_client t).0

      server : String
      server = (add_server (add_client t).1).0

      paired : Topo F
      paired = add_link client b.bs0 (add_server (add_client t).1).1

  connect_servers-HasNodes :
      (c s : ℕ) (router : String) (ss : List String) (t : Topo F)
      → HasNodes c s t
      → HasNodes c s (connect_servers router ss t)
  unfolding HasNodes connect_servers add_link
  connect_servers-HasNodes c s router [] t h = h
  connect_servers-HasNodes c s router (r ∷ ss) t h =
      connect_servers-HasNodes c s router ss (add_link router r t) h

  extend-HasNodes :
      (m : MultiInterface F)
      → HasNodes 1 1 m.topo
      → HasNodes (1 + length m.c2r_links) (1 + length m.c2r_links) (extend m).topo
  unfolding extend
  extend-HasNodes m h =
      let paired = add_pairs m.c2r_links m.topo in
      connect_servers-HasNodes _ _ m.router (but_first paired.servers) paired
        (add_pairs-HasNodes 1 1 m.c2r_links m.topo h)

  -- A topology with several clients that is made over an empty network has one client and one
  -- server more than it has links between client and router.
  pub init_multi_client-HasNodes :
      (tp : TopoParameter F) (m : MultiInterface F)
      → init_multi_client Network.empty tp ≡ ok m
      → HasNodes (1 + length m.c2r_links) (1 + length m.c2r_links) m.topo
  unfolding init_multi_client
  init_multi_client-HasNodes tp m made =
      let (base, e, extended) =
        >>=-eq-ok (MultiInterface.init Network.empty tp) (λ b. ok (extend b)) made in
      let (change, built) = init-fresh tp base e in
      subst (λ n. HasNodes (1 + length n.c2r_links) (1 + length n.c2r_links) n.topo)
        (ok-injective extended)
        (extended_base base (subst (λ n. HasNodes 1 1 n.topo) built (build-HasNodes tp change)))
    where
      extended_base :
          (base : MultiInterface F)
          → HasNodes 1 1 base.topo
          → HasNodes
              (1 + length (extend base).c2r_links)
              (1 + length (extend base).c2r_links)
              (extend base).topo
      extended_base base h = unfold extend in extend-HasNodes base h

-- ===== src/Topo/Bottleneck.antt =====
-- core/topo.py: how `BottleneckLink` and `Topo` find their nodes in the running network, and the
-- commands that shape a bottleneck.
use minitopo.Base.{ℕ, zero, suc, String, false, List, [], ◌∷◌, ◌++◌}
use minitopo.Base.{if◌then◌else◌, length}
use minitopo.Base.Int.{pos}
use minitopo.Errors.{Result, ok, err, or_raise, index_error}
use minitopo.Floats.{Floats}
use minitopo.Text.{concat}
use minitopo.Link.{LinkCharacteristics, last}
use minitopo.Link.Commands.{
  build_delete_tc_cmd, build_netem_cmd, build_bandwidth_cmd, build_changing_netem_cmd,
  build_changing_bandwidth_cmd,
}
use minitopo.Network.{Env}
use minitopo.Run.{Run, pure, lift, gets, ◌>>=◌, ◌>>◌, for_each}
use minitopo.Topo.{
  Topo, BottleneckLink, get_bs_name, get_host, get_client_name, get_router_name, get_server_name,
  get_interface_names, command_to,
}

-- `names[0]` and `names[-1]`
abbrev first_name : List String → Result String
first_name [] = err index_error
first_name (n ∷ ns) = ok n

abbrev last_name : List String → Result String
last_name ns = or_raise index_error (last ns)

-- The names `name(0)`, …, `name(n - 1)`.
abbrev names_below : (ℕ → String) → ℕ → List String
names_below name zero = []
names_below name (suc n) = names_below name n ++ name n ∷ []

module _ (fl : Floats) (env : Env) where
  open fl use {F, lt, of_int}

  unfoldable pub get_hosts : List String → Run (Topo F) (List String)
  get_hosts [] = pure []
  get_hosts (n ∷ ns) = do host ← get_host env n; hosts ← get_hosts ns; pure (host ∷ hosts)

  unfoldable pub put_clients : List String → Run (Topo F) Unit
  put_clients clients t = (ok tt, record t { clients = clients })

  unfoldable pub put_routers : List String → Run (Topo F) Unit
  put_routers routers t = (ok tt, record t { routers = routers })

  unfoldable pub put_servers : List String → Run (Topo F) Unit
  put_servers servers t = (ok tt, record t { servers = servers })

  unfoldable pub put_bottlenecks : List (BottleneckLink F) → Run (Topo F) Unit
  put_bottlenecks bs t = (ok tt, record t { bottleneck_links = bs })

  -- `BottleneckLink.reinit_variables` of a bottleneck that stands between others: each node is
  -- assigned before the next is looked up.
  unfoldable pub reinit_bottleneck :
      List (BottleneckLink F)
      → BottleneckLink F
      → List (BottleneckLink F)
      → Run (Topo F) (BottleneckLink F)
  reinit_bottleneck before b after = do
    bs0 ← get_host env (get_bs_name b.link_characteristics 0)
    put (record b { bs0 = bs0 })
    bs1 ← get_host env (get_bs_name b.link_characteristics 1)
    put (record b { bs0 = bs0; bs1 = bs1 })
    bs2 ← get_host env (get_bs_name b.link_characteristics 2)
    put (record b { bs0 = bs0; bs1 = bs1; bs2 = bs2 })
    bs3 ← get_host env (get_bs_name b.link_characteristics 3)
    put (record b { bs0 = bs0; bs1 = bs1; bs2 = bs2; bs3 = bs3 })
    pure (record b { bs0 = bs0; bs1 = bs1; bs2 = bs2; bs3 = bs3 })
    where
      put : BottleneckLink F → Run (Topo F) Unit
      put again = put_bottlenecks (before ++ again ∷ after)

  -- `for b in self.bottleneck_links: b.reinit_variables()`, from the ones that it has done on.
  unfoldable pub reinit_bottlenecks :
      List (BottleneckLink F) → List (BottleneckLink F) → Run (Topo F) Unit
  reinit_bottlenecks before [] = pure tt
  reinit_bottlenecks before (b ∷ bs) = do
    again ← reinit_bottleneck before b bs
    reinit_bottlenecks (before ++ again ∷ []) bs

  -- `Topo.reinit_variables`
  unfoldable pub reinit_variables : Run (Topo F) Unit
  reinit_variables = do
    t ← gets (λ t. t)
    clients ← get_hosts (names_below get_client_name (length t.clients))
    put_clients clients
    routers ← get_hosts (names_below get_router_name (length t.routers))
    put_routers routers
    servers ← get_hosts (names_below get_server_name (length t.servers))
    put_servers servers
    reinit_bottlenecks [] t.bottleneck_links

  -- `"loss {}".format(loss) if float(loss) > 0 else ""`
  unfoldable pub loss_cmd : LinkCharacteristics F → String
  unfolding concat
  loss_cmd l = if lt (of_int (pos 0)) l.loss then concat ("loss " ∷ fl.show l.loss ∷ []) else ""

  unfoldable pub clean_cmds : String → List String → Run (Topo F) Unit
  clean_cmds node = for_each (λ ifname. command_to env node (build_delete_tc_cmd ifname))

  unfoldable pub configure_bottleneck : BottleneckLink F → Run (Topo F) Unit
  configure_bottleneck b = do
    bs1_names ← get_interface_names env b.bs1
    bs2_names ← get_interface_names env b.bs2
    clean_cmds b.bs1 bs1_names
    clean_cmds b.bs2 bs2_names
    bs1_right ← lift (last_name bs1_names)
    command_to env b.bs1 (build_netem_cmd fl l bs1_right (loss_cmd l) false)
    bs2_right ← lift (last_name bs2_names)
    shaping_right ← lift (build_bandwidth_cmd fl l bs2_right false)
    command_to env b.bs2 shaping_right
    bs2_left ← lift (first_name bs2_names)
    command_to env b.bs2 (build_netem_cmd fl l bs2_left (loss_cmd l) false)
    bs1_left ← lift (first_name bs1_names)
    shaping_left ← lift (build_bandwidth_cmd fl l bs1_left false)
    command_to env b.bs1 shaping_left
    pure tt
    where
      l : LinkCharacteristics F
      l = b.link_characteristics

  unfoldable pub configure_changing_bottleneck : BottleneckLink F → Run (Topo F) Unit
  configure_changing_bottleneck b = do
    bs1_names ← get_interface_names env b.bs1
    bs2_names ← get_interface_names env b.bs2
    bs1_right ← lift (last_name bs1_names)
    shaping_right ← lift (build_changing_bandwidth_cmd fl l bs1_right)
    command_to env b.bs1 shaping_right
    bs2_right ← lift (last_name bs2_names)
    command_to env b.bs2 (build_changing_netem_cmd fl l bs2_right)
    bs2_left ← lift (first_name bs2_names)
    shaping_left ← lift (build_changing_bandwidth_cmd fl l bs2_left)
    command_to env b.bs2 shaping_left
    bs1_left ← lift (first_name bs1_names)
    command_to env b.bs1 (build_changing_netem_cmd fl l bs1_left)
    pure tt
    where
      l : LinkCharacteristics F
      l = b.link_characteristics

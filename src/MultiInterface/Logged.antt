-- ===== src/MultiInterface/Logged.antt =====
-- The configuration of a multi-interface topology keeps `command.log` exact.
use minitopo.Base.{ℕ}
use minitopo.Floats.{Floats}
use minitopo.Network.{Env}
use minitopo.Run.Keeps.{Keeps, Keeps-bind}
use minitopo.Topo.Config
use minitopo.Topo.Log.{
  IsLogged, log_rules, configure_interfaces-IsLogged, configure_network-IsLogged,
}
use minitopo.MultiInterface.{MultiInterface}
use minitopo.MultiInterface.Configure
use minitopo.MultiInterface.Configure.{
  Ends, configure_interfaces, configure_routing, configure_network, route_client, route_server,
}

module _ (fl : Floats) (env : Env) (m : MultiInterface fl.F) where
  client_interface-IsLogged :
      (n : Ends) (i : ℕ) → Keeps IsLogged (Configure.configure_client_interface fl env m n i)
  unfolding Configure.configure_client_interface Configure.param
  client_interface-IsLogged n i = search log_rules depth 30

  router_interface-IsLogged :
      (n : Ends) (i : ℕ) → Keeps IsLogged (Configure.configure_router_interface fl env m n i)
  unfolding Configure.configure_router_interface Configure.param
  router_interface-IsLogged n i = search log_rules depth 30

  server_interface-IsLogged :
      (n : Ends) (i : ℕ) → Keeps IsLogged (Configure.configure_server_interface fl env m n i)
  unfolding Configure.configure_server_interface Configure.param
  server_interface-IsLogged n i = search log_rules depth 30

  show_addresses-IsLogged : (n : Ends) → Keeps IsLogged (Configure.show_addresses fl env m n)
  unfolding Configure.show_addresses
  show_addresses-IsLogged n = search log_rules depth 30

  loops-IsLogged : (n : Ends) → Keeps IsLogged (Configure.loops fl env m n)
  unfolding Configure.loops
  loops-IsLogged n =
      search
        (
          log_rules, client_interface-IsLogged, router_interface-IsLogged,
          server_interface-IsLogged, show_addresses-IsLogged,
        )
        depth 30

  pub param-IsLogged : Keeps IsLogged (Configure.param fl env m)
  unfolding Configure.param
  param-IsLogged = search log_rules

  pub multi_interfaces-IsLogged : Keeps IsLogged (configure_interfaces fl env m)
  unfolding configure_interfaces
  multi_interfaces-IsLogged =
      Keeps-bind (Config.configure_interfaces fl env) _ (configure_interfaces-IsLogged fl env)
        (λ _. search (log_rules, loops-IsLogged, param-IsLogged) depth 30)

  route_client-IsLogged : (n : Ends) (i : ℕ) → Keeps IsLogged (route_client fl env m n i)
  unfolding route_client Configure.param
  route_client-IsLogged n i = search log_rules depth 30

  route_server-IsLogged : (n : Ends) (i : ℕ) → Keeps IsLogged (route_server fl env m n i)
  unfolding route_server Configure.param
  route_server-IsLogged n i = search log_rules depth 30

  pub multi_routing-IsLogged : (n : Ends) → Keeps IsLogged (configure_routing fl env m n)
  unfolding configure_routing Configure.param
  multi_routing-IsLogged n =
      search (log_rules, route_client-IsLogged, route_server-IsLogged) depth 30

  -- Configuring the network, whether it ends or raises, keeps `command.log` exact: where the log
  -- held one line for each command that was run, in their order, it does so afterwards.
  pub multi_network-IsLogged : Keeps IsLogged (configure_network fl env m)
  unfolding configure_network
  multi_network-IsLogged =
      configure_network-IsLogged fl env (configure_interfaces fl env m) (configure_routing fl env m)
        multi_interfaces-IsLogged multi_routing-IsLogged

-- ===== src/MultiInterface/MultiClientLogged.antt =====
-- The configuration of a topology with several clients keeps `command.log` exact.
use minitopo.Base.{ℕ, String}
use minitopo.Floats.{Floats}
use minitopo.Network.{Env}
use minitopo.Run.Keeps.{Keeps, Keeps-bind}
use minitopo.Topo.Log.{IsLogged, log_rules, configure_network-IsLogged}
use minitopo.MultiInterface.{MultiInterface}
use minitopo.MultiInterface.Configure
use minitopo.MultiInterface.Logged.{
  multi_interfaces-IsLogged, multi_routing-IsLogged, param-IsLogged,
}
use minitopo.MultiInterface.MultiClient.{
  AllEnds, configure_congestion_client, configure_congestion_server, route_congestion_client,
  route_congestion_server, configure_all_interfaces, configure_all_routing, configure_all_network,
}

module _ (fl : Floats) (env : Env) (m : MultiInterface fl.F) where
  congestion_client-IsLogged :
      (n : AllEnds) (i : ℕ) → Keeps IsLogged (configure_congestion_client fl env m n i)
  unfolding configure_congestion_client
  congestion_client-IsLogged n i = search (log_rules, param-IsLogged) depth 30

  congestion_server-IsLogged :
      (s : ℕ × String) (n : AllEnds) → Keeps IsLogged (configure_congestion_server fl env m s n)
  unfolding configure_congestion_server
  congestion_server-IsLogged s n = search (log_rules, param-IsLogged) depth 30

  all_interfaces-IsLogged : Keeps IsLogged (configure_all_interfaces fl env m)
  unfolding configure_all_interfaces
  all_interfaces-IsLogged =
      Keeps-bind (Configure.configure_interfaces fl env m) _ (multi_interfaces-IsLogged fl env m)
        (λ ends.
          search (log_rules, congestion_client-IsLogged, congestion_server-IsLogged) depth 30)

  route_client-IsLogged :
      (n : AllEnds) (i : ℕ) → Keeps IsLogged (route_congestion_client fl env m n i)
  unfolding route_congestion_client
  route_client-IsLogged n i = search (log_rules, param-IsLogged) depth 30

  route_server-IsLogged : (s : ℕ × String) → Keeps IsLogged (route_congestion_server fl env m s)
  unfolding route_congestion_server
  route_server-IsLogged s = search (log_rules, param-IsLogged) depth 30

  all_routing-IsLogged : (n : AllEnds) → Keeps IsLogged (configure_all_routing fl env m n)
  unfolding configure_all_routing
  all_routing-IsLogged n =
      Keeps-bind (Configure.configure_routing fl env m n.ends) _
        (multi_routing-IsLogged fl env m n.ends)
        (λ _. search (log_rules, route_client-IsLogged, route_server-IsLogged) depth 30)

  -- Configuring the network of a topology with several clients, whether it ends or raises, keeps
  -- `command.log` exact: where the log held one line for each command that was run, in their order,
  -- it does so afterwards.
  pub all_network-IsLogged : Keeps IsLogged (configure_all_network fl env m)
  unfolding configure_all_network
  all_network-IsLogged =
      configure_network-IsLogged fl env (configure_all_interfaces fl env m)
        (configure_all_routing fl env m) all_interfaces-IsLogged all_routing-IsLogged

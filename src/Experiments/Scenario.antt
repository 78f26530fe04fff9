-- ===== src/Experiments/Scenario.antt =====
-- experiments/iperf_scenario.py.
use minitopo.Base.{ℕ, String, List, [], ◌∷◌, Option, Bool, get_elem?, if◌then◌else◌}
use minitopo.Base.Int.{pos}
use minitopo.Errors.{Result, err, index_error, exception, or_raise}
use minitopo.Text.{concat}
use minitopo.Text.Number.{show}
use minitopo.Parameter
use minitopo.Parameter.{Parameter, Value, formatted}
use minitopo.Network.{Env}
use minitopo.Run.{Run, pure, lift, for_each, ◌>>=◌, ◌>>◌}
use minitopo.Topo.{command_global}
use minitopo.Experiment.{Experiment, TopoConfig, load_parameter, on_topo}
use minitopo.Experiment.Phases.{prepare, clean, ping, classic_run}
use minitopo.MultiInterface.MultiClient.{numbered_from}
use minitopo.Experiments.{with_defaults, command_on}

unfoldable pub iperf_scenario_parameter : Option String → Parameter
unfolding load_parameter with_defaults
iperf_scenario_parameter contents =
    with_defaults (("iperfScenarioFMSublows", "1") ∷ []) (load_parameter contents)

unfoldable pub scenario_client_cmd : String → ℕ → ℕ → String
unfolding concat show
scenario_client_cmd server_ip time client_id = concat (
    "iperf -c "
    ∷ server_ip
    ∷ " -t "
    ∷ show (pos time)
    ∷ " -P 1 -i 5 &>iperf.log"
    ∷ show (pos client_id)
    ∷ [])

unfoldable pub scenario_server_cmd : ℕ → String
unfolding concat show
scenario_server_cmd server_id = concat ("iperf -s &> server.log" ∷ show (pos server_id) ∷ " &" ∷ [])

module _ {F : Type 0} (env : Env) (c : TopoConfig F) where
  -- The clients and servers of the configuration, and whether the topology has several clients.
  module _ (is_multi_client : Bool) (clients servers : List String) where
    unfoldable pub scenario_prepare : Parameter → Run (Experiment F) Unit
    scenario_prepare p = do
      prepare env c p
      command_on env c.client "rm iperf.log"
      command_on env c.server "rm server.log"
      if is_multi_client
          then pure tt
          else lift (err (exception "IPerfScenario only runs with MultiInterfaceMultiClientTopo"))

    abbrev client_at : ℕ → Result String
    client_at i = or_raise index_error (get_elem? clients i)

    unfoldable pub scenario_run : Value → Run (Experiment F) Unit
    unfolding concat formatted
    scenario_run fm_subflows = do
      command_on env c.router "tcpdump -i any -w router.pcap &"
      for_each (λ (l, s). command_on env s (scenario_server_cmd l)) (numbered_from 0 servers)
      command_on env c.client (
          concat (
            "echo "
            ∷ formatted fm_subflows
            ∷ " > /sys/module/mptcp_fullmesh/parameters/num_subflows"
            ∷ []))
      command_on env c.client "sleep 2"
      second ← lift (c.get_server_ip 1)
      client_1 ← lift (client_at 1)
      command_on env client_1
          (concat ("sleep 10 && " ∷ scenario_client_cmd second 20 1 ∷ " &" ∷ []))
      third ← lift (c.get_server_ip 2)
      client_2 ← lift (client_at 2)
      command_on env client_2 (concat ("sleep 20 && " ∷ scenario_client_cmd third 20 2 ∷ " &" ∷ []))
      first ← lift (c.get_server_ip 0)
      command_on env c.client (concat (scenario_client_cmd first 50 0 ∷ " &" ∷ []))
      command_on env c.client "sleep 2"
      on_topo (command_global env "sysctl -w net.mptcp.mptcp_enabled=0")
      on_topo (command_global env "sysctl -w net.ipv4.tcp_congestion_control=reno")
      command_on env c.client "sleep 50"
      command_on env c.client "echo 1 > /sys/module/mptcp_fullmesh/parameters/num_subflows"

    -- `IPerfScenario(...)` and its `classic_run`.
    unfoldable pub scenario_experiment : Parameter → Run (Experiment F) Unit
    scenario_experiment p = do
      fm_subflows ← lift (Parameter.get p "iperfScenarioFMSublows")
      ping env c p
      classic_run env c p (scenario_prepare p) (scenario_run fm_subflows) (clean env c p)

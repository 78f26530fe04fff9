-- ===== src/Experiments/Flows.antt =====
-- experiments/none.py, ping.py, iperf.py and netperf.py.
use minitopo.Base.{String, [], ◌∷◌, Option}
use minitopo.Text.{concat}
use minitopo.Parameter
use minitopo.Parameter.{Parameter, Value, formatted}
use minitopo.Network.{Env}
use minitopo.Run.{Run, lift, ◌>>=◌, ◌>>◌}
use minitopo.Topo.{get_cli}
use minitopo.Experiment.{Experiment, TopoConfig, on_topo, load_parameter}
use minitopo.Experiment.Phases.{prepare, clean, ping, classic_run}
use minitopo.Experiments.{with_defaults, command_on, ping_first_server}

unfoldable pub iperf_parameter : Option String → Parameter
unfolding load_parameter with_defaults
iperf_parameter contents =
    with_defaults (("iperfTime", "10") ∷ ("iperfParallel", "1") ∷ []) (load_parameter contents)

unfoldable pub netperf_parameter : Option String → Parameter
unfolding load_parameter with_defaults
netperf_parameter contents =
    with_defaults
      (("netperfTestlen", "10")
        ∷ ("netperfTestname", "TCP_RR")
        ∷ ("netperfReqresSize", "2K,256")
        ∷ [])
      (load_parameter contents)

unfoldable pub iperf_client_cmd : String → Value → Value → String
unfolding concat formatted
iperf_client_cmd server_ip time parallel = concat (
    "iperf -c "
    ∷ server_ip
    ∷ " -t "
    ∷ formatted time
    ∷ " -P "
    ∷ formatted parallel
    ∷ " -i 1 &>iperf.log"
    ∷ [])

unfoldable pub netperf_client_cmd : String → Value → Value → Value → String
unfolding concat formatted
netperf_client_cmd server_ip testlen testname reqres_size = concat (
    "netperf -H "
    ∷ server_ip
    ∷ " -l "
    ∷ formatted testlen
    ∷ " -t "
    ∷ formatted testname
    ∷ " -- -r "
    ∷ formatted reqres_size
    ∷ " &> netperf.log"
    ∷ [])

module _ {F : Type 0} (env : Env) (c : TopoConfig F) (p : Parameter) where
  -- `NoneExperiment`
  unfoldable pub none_experiment : Run (Experiment F) Unit
  none_experiment = classic_run env c p (prepare env c p) (on_topo get_cli) (clean env c p)

  -- `Ping`
  unfoldable pub ping_experiment : Run (Experiment F) Unit
  ping_experiment =
      classic_run env c p (prepare env c p) (ping_first_server env c p) (clean env c p)

  unfoldable pub iperf_prepare : Run (Experiment F) Unit
  iperf_prepare = do
    prepare env c p
    command_on env c.client "rm iperf.log"
    command_on env c.server "rm server.log"

  unfoldable pub iperf_run : Value → Value → Run (Experiment F) Unit
  iperf_run time parallel = do
    command_on env c.server "iperf -s &> server.log &"
    command_on env c.client "sleep 2"
    server_ip ← lift (c.get_server_ip 0)
    command_on env c.client (iperf_client_cmd server_ip time parallel)
    command_on env c.client "sleep 2"

  -- `IPerf(...)` and its `classic_run`.
  unfoldable pub iperf_experiment : Run (Experiment F) Unit
  iperf_experiment = do
    time ← lift (Parameter.get p "iperfTime")
    parallel ← lift (Parameter.get p "iperfParallel")
    ping env c p
    classic_run env c p iperf_prepare (iperf_run time parallel) (clean env c p)

  unfoldable pub netperf_prepare : Run (Experiment F) Unit
  netperf_prepare = do
    prepare env c p
    command_on env c.client "rm netperf.log"
    command_on env c.server "rm netserver.log"

  unfoldable pub netperf_run : Value → Value → Value → Run (Experiment F) Unit
  netperf_run testlen testname reqres_size = do
    command_on env c.server "sudo netserver &> netserver.log &"
    command_on env c.client "sleep 2"
    server_ip ← lift (c.get_server_ip 0)
    command_on env c.client (netperf_client_cmd server_ip testlen testname reqres_size)
    command_on env c.client "sleep 2"

  -- `Netperf(...)` and its `classic_run`.
  unfoldable pub netperf_experiment : Run (Experiment F) Unit
  netperf_experiment = do
    testlen ← lift (Parameter.get p "netperfTestlen")
    testname ← lift (Parameter.get p "netperfTestname")
    reqres_size ← lift (Parameter.get p "netperfReqresSize")
    ping_first_server env c p
    classic_run env c p netperf_prepare (netperf_run testlen testname reqres_size) (clean env c p)

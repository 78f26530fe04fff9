-- ===== src/Tests/Experiments.antt =====
-- Runs of experiments.
use minitopo.Base.{◌==◌, eq_iff, ◌≡◌, ◌≢◌, true, false, [], ◌∷◌, none}
use minitopo.Base.Int.{ℤ}
use minitopo.Errors.{ok}
use minitopo.Experiments.Flows.{
  none_experiment, ping_experiment, iperf_experiment, netperf_experiment,
}
use minitopo.Experiments.Files.{
  http_experiment, https_experiment, ab_experiment, send_file_experiment,
}
use minitopo.Experiments.Streams.{quic_siri_experiment, vlc_experiment, msg_experiment}
use minitopo.Experiments.Logged.{experiments-IsLogged}
use minitopo.Parameter.{Parameter}
use minitopo.Network
use minitopo.Run.{pure}
use minitopo.Run.Keeps.{Keeps, Keeps-pure}
use minitopo.Topo.{Topo}
use minitopo.Topo.Log.{run_netem_at-IsLogged}
use minitopo.Topo.Config
use minitopo.Experiment.{Experiment, TopoConfig}
use minitopo.Experiment.Sysctl.{
  of_host, of_client, of_server, sysctl_dict, save_sysctl, restore_sysctl,
}
use minitopo.Experiment.Kernel.{done}
use minitopo.Experiment.Restoring.{Back, restore_sysctl-save_sysctl}
use minitopo.Experiment.Phases.{classic_run}
use minitopo.Experiment.RandomFile.{Loaded, random_file_parameter, prepare_file, clean_file}
use minitopo.Experiment.Logged.{IsLoggedExperiment, random_file-IsLogged}
use minitopo.Parameter.{text}
use minitopo.Tests.Inputs.{whole_numbers, empty_topology}
use minitopo.Tests.Machine.{machine, machine-Kernel}

abbrev pub config : TopoConfig ℤ
config = record {
  client = "Client_0";
  server = "Server_0";
  router = "Router_0";
  client_interface_count = 2;
  server_interface_count = 1;
  get_client_interface = λ arguments. ok "Client_0-eth0";
  get_router_interface_to_client_switch = λ i. "Router_0-eth0";
  get_client_ip = λ i. ok "10.0.0.1";
  get_server_ip = λ i. ok "10.1.0.1";
  run_netem_at = Config.run_netem_at whole_numbers machine;
}

abbrev pub experiment : Experiment ℤ
experiment = record {
  topo = record {
    topo_builder = record Network.empty { net = true };
    topo_parameter = empty_topology;
    change_netem = false;
    log_file = [];
    clients = "Client_0" ∷ [];
    routers = "Router_0" ∷ [];
    servers = "Server_0" ∷ [];
    bottleneck_links = [];
  };
  sysctl_to_restore = none;
  client_sysctl_to_restore = none;
  server_sysctl_to_restore = none;
}

-- The same topology after a command that changes a sysctl.
abbrev changed : Topo ℤ
changed = record (experiment.topo) {
  topo_builder = record (experiment.topo.topo_builder) {
    done = Network.everywhere "sysctl net.ipv4.tcp_rmem=\"1\"" ∷ [];
  };
}

two_nodes : config.client ≢ config.server
two_nodes h = differ ((eq_iff config.client config.server).1 h)
  where
    differ : (config.client == config.server) ≡ true → ⊥
    differ e = cc e

restore_sysctl-save_sysctl_example :
    let saving = save_sysctl machine config experiment in
    let restoring = restore_sysctl machine config (record (saving.1) { topo = changed }) in
    (saving.0 ≡ ok tt)
    × (restoring.0 ≡ ok tt)
    × Back machine machine-Kernel config (done experiment) of_host (sysctl_dict of_host) restoring.1
    × Back machine machine-Kernel config
        (done experiment)
        of_client
        (sysctl_dict of_client)
        restoring.1
    × Back machine machine-Kernel config
        (done experiment)
        of_server
        (sysctl_dict of_server)
        restoring.1
restore_sysctl-save_sysctl_example =
    restore_sysctl-save_sysctl machine machine-Kernel config experiment changed two_nodes

abbrev parameters : Parameter
parameters = random_file_parameter none

abbrev random : Loaded
random = record { file = text "random"; random_size = text "1024" }

random_file-IsLogged_example : Keeps IsLoggedExperiment (
    classic_run machine config parameters
      (prepare_file machine config parameters random)
      (pure tt)
      (clean_file machine config parameters random))
random_file-IsLogged_example =
    random_file-IsLogged machine config parameters random (pure tt)
      (run_netem_at-IsLogged whole_numbers machine) (Keeps-pure tt)

experiments-IsLogged_example :
    Keeps IsLoggedExperiment (none_experiment machine config parameters)
    × Keeps IsLoggedExperiment (ping_experiment machine config parameters)
    × Keeps IsLoggedExperiment (iperf_experiment machine config parameters)
    × Keeps IsLoggedExperiment (netperf_experiment machine config parameters)
    × Keeps IsLoggedExperiment (http_experiment machine "/minitopo" config parameters)
    × Keeps IsLoggedExperiment (https_experiment machine "/minitopo" config parameters)
    × Keeps IsLoggedExperiment (ab_experiment machine "/minitopo" config parameters)
    × Keeps IsLoggedExperiment (send_file_experiment machine "/minitopo" config parameters)
    × Keeps IsLoggedExperiment (quic_siri_experiment machine config parameters)
    × Keeps IsLoggedExperiment (vlc_experiment machine config parameters)
    × Keeps IsLoggedExperiment (msg_experiment machine config parameters "/minitopo")
experiments-IsLogged_example =
    experiments-IsLogged machine config parameters (run_netem_at-IsLogged whole_numbers machine)
      "/minitopo"

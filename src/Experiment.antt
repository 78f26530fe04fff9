-- ===== src/Experiment.antt =====
-- core/experiment.py: `ExperimentParameter` and the state of an `Experiment`.
pub mod Sysctl
pub mod Phases
pub mod RandomFile
pub mod Logged
pub mod Kernel
pub mod Saving
pub mod Restoring
use minitopo.Base.{ℕ, String, List, [], ◌∷◌, Option, none, some}
use minitopo.Base.Dict.{Dict, update}
use minitopo.Errors.{Result, ok, err, type_error}
use minitopo.Parameter
use minitopo.Parameter.{Parameter}
use minitopo.Run.{Run}
use minitopo.Topo.{Topo}
use minitopo.Floats.{Floats}
use minitopo.Network.{Env}
use minitopo.Topo.Config
use minitopo.MultiInterface
use minitopo.MultiInterface.{MultiInterface}
use minitopo.MultiInterface.Configure.{Ends}

-- `SYSCTL_KEY` and its two companions: the sysctl that a parameter sets.
abbrev pub sysctl_key : Dict String
sysctl_key =
    ("rmem", "net.ipv4.tcp_rmem")
    ∷ ("wmem", "net.ipv4.tcp_wmem")
    ∷ ("mptcpEnabled", "net.mptcp.mptcp_enabled")
    ∷ ("kpm", "net.mptcp.mptcp_path_manager")
    ∷ ("sched", "net.mptcp.mptcp_scheduler")
    ∷ ("congctrl", "net.ipv4.tcp_congestion_control")
    ∷ ("autocork", "net.ipv4.tcp_autocorking")
    ∷ ("earlyRetrans", "net.ipv4.tcp_early_retrans")
    ∷ ("bufferAutotuning", "net.ipv4.tcp_moderate_rcvbuf")
    ∷ []

abbrev pub sysctl_key_client : Dict String
sysctl_key_client = ("kpmc", "net.mptcp.mptcp_path_manager") ∷ []

abbrev pub sysctl_key_server : Dict String
sysctl_key_server = ("kpms", "net.mptcp.mptcp_path_manager") ∷ []

abbrev pub default_parameters : Dict String
default_parameters =
    ("rmem", "10240 87380 16777216")
    ∷ ("wmem", "4096 16384 4194304")
    ∷ ("mptcpEnabled", "1")
    ∷ ("kpm", "fullmesh")
    ∷ ("kpmc", "fullmesh")
    ∷ ("kpms", "fullmesh")
    ∷ ("upmc", "fullmesh")
    ∷ ("upms", "fullmesh")
    ∷ ("upmc_args", "")
    ∷ ("upms_args", "")
    ∷ ("congctrl", "olia")
    ∷ ("sched", "default")
    ∷ ("autocork", "1")
    ∷ ("earlyRetrans", "3")
    ∷ ("bufferAutotuning", "1")
    ∷ ("clientPcap", "no")
    ∷ ("serverPcap", "no")
    ∷ ("snaplen_pcap", "65535")
    ∷ ("xpType", "none")
    ∷ ("pingCount", "5")
    ∷ ("priority_path_0", "0")
    ∷ ("priority_path_1", "0")
    ∷ ("backup_path_0", "0")
    ∷ ("backup_path_1", "0")
    ∷ []

-- `ExperimentParameter(parameter_filename)`, given the text of the file.
unfoldable pub load_parameter : Option String → Parameter
unfolding Parameter.init update
load_parameter contents =
    let base = Parameter.init contents in
    record base { default_parameters = update base.default_parameters default_parameters }

-- What an experiment uses of the configuration of its topology. A Python method takes the list of
-- the arguments of a call.
pub record TopoConfig (F : Type 0) : Type 0 where
  pub client : String
  pub server : String
  pub router : String
  pub client_interface_count : ℕ
  pub server_interface_count : ℕ
  pub get_client_interface : List ℕ → Result String
  pub get_router_interface_to_client_switch : ℕ → String
  pub get_client_ip : ℕ → Result String
  pub get_server_ip : ℕ → Result String
  pub run_netem_at : Run (Topo F) Unit

-- `MultiInterfaceConfig`, once its network is configured.
unfoldable pub multi_interface_config :
    (fl : Floats) → Env → MultiInterface fl.F → Ends → Parameter → TopoConfig fl.F
unfolding MultiInterface.client_interface_count MultiInterface.server_interface_count
multi_interface_config fl env m n p = record {
  client = n.client;
  server = n.server;
  router = n.router;
  client_interface_count = MultiInterface.client_interface_count m;
  server_interface_count = MultiInterface.server_interface_count m;
  get_client_interface = at_two_arguments;
  get_router_interface_to_client_switch = MultiInterface.get_router_interface_to_client_switch;
  get_client_ip = MultiInterface.get_client_ip p;
  get_server_ip = MultiInterface.get_server_ip p;
  run_netem_at = Config.run_netem_at fl env;
}
  where
    at_two_arguments : List ℕ → Result String
    at_two_arguments (client_index ∷ interface_index ∷ []) =
        ok (MultiInterface.get_client_interface client_index interface_index)
    at_two_arguments _ = err type_error

-- An experiment over its topology; the tables of saved sysctls are attributes that `save_sysctl`
-- makes.
pub record Experiment (F : Type 0) : Type 0 where
  pub topo : Topo F
  pub sysctl_to_restore : Option (Dict String)
  pub client_sysctl_to_restore : Option (Dict String)
  pub server_sysctl_to_restore : Option (Dict String)

-- A method of the topology.
unfoldable pub on_topo : {F A : Type 0} → Run (Topo F) A → Run (Experiment F) A
on_topo m e = let (r, t) = m e.topo in (r, record e { topo = t })

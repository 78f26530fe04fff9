-- ===== src/Tests/Phases.antt =====
-- A run of the phases of a runner.
use minitopo.Base.{map, false, String, List, [], ◌∷◌, ◌++◌, Option, some}
use minitopo.Base.Int.{ℤ}
use minitopo.Text.{concat}
use minitopo.Parameter
use minitopo.Parameter.{Value}
use minitopo.Network.{Action, to, stop}
use minitopo.Run.{Run}
use minitopo.Topo.{Topo}
use minitopo.Experiment.{TopoConfig}
use minitopo.Runner.Phases.{Running}
use minitopo.Network.{Env, everywhere}
use minitopo.Run.{pure}
use minitopo.Experiment.{Experiment}
use minitopo.Experiments.Classes.{on_experiment, experiment_of_class, ping_class, launch}
use minitopo.Tests.Inputs.{silent}
use minitopo.Tests.Experiments.{experiment}

abbrev contents : String
contents = "xpType:ping\n"

abbrev running : Running ℤ
running = record { topo = experiment.topo; tmp_files = "topo.para" ∷ []; unlinked = [] }

-- A network and a host that answer every command with the same words.
abbrev answering : Env
answering = record silent {
  node_cmd = λ done who cmd. "key = value\n";
  shell = λ done cmd. ("key = value\n", "");
}

abbrev send : String → String → Run (Experiment ℤ) Unit
send who cmd = pure tt

abbrev wait : String → Run (Experiment ℤ) Unit
wait who = pure tt

abbrev launched : String → Option (String → TopoConfig ℤ → Run (Topo ℤ) Unit)
launched = launch answering "/minitopo" (λ path. path) false [] [] send wait

-- The experiment `Ping`.
abbrev pinging : String → TopoConfig ℤ → Run (Topo ℤ) Unit
pinging file c = on_experiment (
    experiment_of_class answering "/minitopo" (λ path. path) false [] [] send wait ping_class
      (some file) c)

-- The topology of the experiments with other actions and another log.
abbrev topo_at : List Action → List String → Topo ℤ
topo_at done log = record (experiment.topo) {
  topo_builder = record (experiment.topo.topo_builder) { done = done };
  log_file = log;
}

-- One element after the other at the end of a list.
push : {A : Type 0} → List A → List A → List A
push l [] = l
push l (a ∷ m) = push (l ++ a ∷ []) m

abbrev pings : List Action
pings =
    everywhere "sysctl net.ipv4.tcp_rmem"
    ∷ everywhere "sysctl net.ipv4.tcp_wmem"
    ∷ everywhere "sysctl net.mptcp.mptcp_enabled"
    ∷ everywhere "sysctl net.mptcp.mptcp_path_manager"
    ∷ everywhere "sysctl net.mptcp.mptcp_scheduler"
    ∷ everywhere "sysctl net.ipv4.tcp_congestion_control"
    ∷ everywhere "sysctl net.ipv4.tcp_autocorking"
    ∷ everywhere "sysctl net.ipv4.tcp_early_retrans"
    ∷ everywhere "sysctl net.ipv4.tcp_moderate_rcvbuf"
    ∷ to "Client_0" "sysctl net.mptcp.mptcp_path_manager"
    ∷ to "Server_0" "sysctl net.mptcp.mptcp_path_manager"
    ∷ everywhere "sysctl net.ipv4.tcp_rmem=\"10240 87380 16777216\""
    ∷ everywhere "sysctl net.ipv4.tcp_wmem=\"4096 16384 4194304\""
    ∷ everywhere "sysctl net.mptcp.mptcp_enabled=\"1\""
    ∷ everywhere "sysctl net.mptcp.mptcp_path_manager=\"fullmesh\""
    ∷ everywhere "sysctl net.mptcp.mptcp_scheduler=\"default\""
    ∷ everywhere "sysctl net.ipv4.tcp_congestion_control=\"olia\""
    ∷ everywhere "sysctl net.ipv4.tcp_autocorking=\"1\""
    ∷ everywhere "sysctl net.ipv4.tcp_early_retrans=\"3\""
    ∷ everywhere "sysctl net.ipv4.tcp_moderate_rcvbuf=\"1\""
    ∷ to "Client_0" "sysctl net.mptcp.mptcp_path_manager=\"fullmesh\""
    ∷ to "Server_0" "sysctl net.mptcp.mptcp_path_manager=\"fullmesh\""
    ∷ to "Client_0" "rm ping.log"
    ∷ to "Client_0" "ping -c 5 -I 10.0.0.1 10.1.0.1 >> ping.log"
    ∷ to "Client_0" "ping -c 5 -I 10.0.0.1 10.1.0.1 >> ping.log"
    ∷ to "Client_0" "killall tcpdump"
    ∷ to "Server_0" "killall tcpdump"
    ∷ everywhere "sysctl net.ipv4.tcp_rmem=\"value\""
    ∷ everywhere "sysctl net.ipv4.tcp_wmem=\"value\""
    ∷ everywhere "sysctl net.mptcp.mptcp_enabled=\"value\""
    ∷ everywhere "sysctl net.mptcp.mptcp_path_manager=\"value\""
    ∷ everywhere "sysctl net.mptcp.mptcp_scheduler=\"value\""
    ∷ everywhere "sysctl net.ipv4.tcp_congestion_control=\"value\""
    ∷ everywhere "sysctl net.ipv4.tcp_autocorking=\"value\""
    ∷ everywhere "sysctl net.ipv4.tcp_early_retrans=\"value\""
    ∷ everywhere "sysctl net.ipv4.tcp_moderate_rcvbuf=\"value\""
    ∷ to "Client_0" "sysctl net.mptcp.mptcp_path_manager=\"value\""
    ∷ to "Server_0" "sysctl net.mptcp.mptcp_path_manager=\"value\""
    ∷ []

-- The line of the log for an action.
abbrev line_of : Action → String
line_of (to node cmd) = concat (node ∷ " : " ∷ cmd ∷ "\n" ∷ [])
line_of (everywhere cmd) = concat ("Global : " ∷ cmd ∷ "\n" ∷ [])
line_of _ = ""

abbrev lines : List String
lines = map line_of pings

-- What the first run leaves, and the second.
abbrev first : Topo ℤ
first = topo_at pings lines

abbrev second : Topo ℤ
second = topo_at (pings ++ stop ∷ [] ++ pings) (lines ++ lines)

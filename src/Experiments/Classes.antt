-- ===== src/Experiments/Classes.antt =====
-- experiments/__init__.py: the classes of experiments, the table of their names, and what the runner
-- does with a class. The directory of the program, the expansion of `~` in a path, `sendCmd` and
-- `waitOutput` of a Mininet node, and what only some classes ask of a topology are arguments.
use minitopo.Base.{String, Bool, List, [], ◌∷◌, Option, none, some}
use minitopo.Base.Dict.{Dict, lookup, insert}
use mathlib.Core.Option
use minitopo.Network.{Env}
use minitopo.Run.{Run}
use minitopo.Topo.{Topo}
use minitopo.Registry.{Class, named, unnamed, Classes, nothing, first, register}
use minitopo.Experiment.{Experiment, TopoConfig, load_parameter}
use minitopo.Experiment.RandomFile.{random_file_parameter}
use minitopo.Experiments.Flows.{
  none_experiment, ping_experiment, iperf_parameter, iperf_experiment, netperf_parameter,
  netperf_experiment,
}
use minitopo.Experiments.Files.{
  http_experiment, https_experiment, ab_parameter, ab_experiment, send_file_experiment,
}
use minitopo.Experiments.Streams.{
  quic_siri_parameter, quic_siri_experiment, vlc_experiment, msg_parameter, msg_experiment,
}
use minitopo.Experiments.Siri.{siri_parameter, siri_experiment}
use minitopo.Experiments.SiriCombined.{
  siri_msg_parameter, siri_msg_experiment, siri_http_experiment,
}
use minitopo.Experiments.Traffic.{ditg_parameter, ditg_experiment, epload_experiment}
use minitopo.Experiments.Scenario.{iperf_scenario_parameter, scenario_experiment}
use minitopo.Experiments.Quic.{
  pquic_parameter, pquic_experiment, quiche_parameter, quiche_experiment,
}
use minitopo.Experiments.QuicGo.{quic_parameter, quic_experiment}
use minitopo.Experiments.Multipath.{mpath_experiment}
use minitopo.Experiments.Netcat.{nc_parameter, nc_experiment, ncpv_parameter, ncpv_experiment}

pub data ExperimentClass : Type 0 where
  ab_class : ExperimentClass
  ditg_class : ExperimentClass
  epload_class : ExperimentClass
  http_class : ExperimentClass
  https_class : ExperimentClass
  iperf_class : ExperimentClass
  iperf_scenario_class : ExperimentClass
  msg_class : ExperimentClass
  nc_class : ExperimentClass
  ncpv_class : ExperimentClass
  netperf_class : ExperimentClass
  none_class : ExperimentClass
  ping_class : ExperimentClass
  pquic_class : ExperimentClass
  quic_class : ExperimentClass
  quiche_class : ExperimentClass
  quic_mpath_class : ExperimentClass
  quic_siri_class : ExperimentClass
  send_file_class : ExperimentClass
  siri_class : ExperimentClass
  siri_http_class : ExperimentClass
  siri_msg_class : ExperimentClass
  vlc_class : ExperimentClass

-- A class without subclasses.
abbrev leaf : String → ExperimentClass → Class ExperimentClass
leaf name a = named name a nothing

abbrev siblings : List (Class ExperimentClass) → Classes ExperimentClass
siblings [] = nothing
siblings (c ∷ cs) = first c (siblings cs)

-- The subclasses of `Experiment`, when the modules of experiments/ have been imported in the order
-- of their names.
abbrev pub experiment_classes : Classes ExperimentClass
experiment_classes = siblings (
    unnamed (
      siblings (
        leaf "ab" ab_class
        ∷ leaf "http" http_class
        ∷ leaf "https" https_class
        ∷ leaf "quic" quic_class
        ∷ leaf "quic1" quiche_class
        ∷ leaf "sendfile" send_file_class
        ∷ leaf "sirihttp" siri_http_class
        ∷ []))
    ∷ leaf "ditg" ditg_class
    ∷ leaf "epload" epload_class
    ∷ leaf "iperf" iperf_class
    ∷ leaf "iperfScenario" iperf_scenario_class
    ∷ named "msg" msg_class (siblings (leaf "sirimsg" siri_msg_class ∷ []))
    ∷ named "nc" nc_class (siblings (leaf "ncpv" ncpv_class ∷ []))
    ∷ leaf "netperf" netperf_class
    ∷ leaf "none" none_class
    ∷ leaf "ping" ping_class
    ∷ leaf "pquic" pquic_class
    ∷ leaf "quic_mpath" quic_mpath_class
    ∷ leaf "quicsiri" quic_siri_class
    ∷ named "siri" siri_class
        (siblings (leaf "sirihttp" siri_http_class ∷ leaf "sirimsg" siri_msg_class ∷ []))
    ∷ leaf "vlc" vlc_class
    ∷ [])

-- `EXPERIMENTS`
unfoldable pub experiments : Dict ExperimentClass
unfolding register insert
experiments = insert "quic" quiche_class (register [] experiment_classes)

-- `cls(experiment_parameter_file, topo, topo_config)` and its `classic_run`.
unfoldable pub on_experiment : {F : Type 0} → Run (Experiment F) Unit → Run (Topo F) Unit
on_experiment m t =
    let (r, e) = m (record {
      topo = t;
      sysctl_to_restore = none;
      client_sysctl_to_restore = none;
      server_sysctl_to_restore = none;
    }) in
    (r, e.topo)

module _ {F : Type 0} (env : Env) (dir : String) (expanduser : String → String)
    (is_multi_client : Bool) (clients servers : List String)
    (send_cmd : String → String → Run (Experiment F) Unit)
    (wait_output : String → Run (Experiment F) Unit) where
  -- The experiment of a class, with its `PARAMETER_CLASS`.
  unfoldable pub experiment_of_class :
      ExperimentClass → Option String → TopoConfig F → Run (Experiment F) Unit
  experiment_of_class ab_class s c = ab_experiment env dir c (ab_parameter s)
  experiment_of_class ditg_class s c = ditg_experiment env c (ditg_parameter s)
  experiment_of_class epload_class s c = epload_experiment env c s
  experiment_of_class http_class s c = http_experiment env dir c (random_file_parameter s)
  experiment_of_class https_class s c = https_experiment env dir c (random_file_parameter s)
  experiment_of_class iperf_class s c = iperf_experiment env c (iperf_parameter s)
  experiment_of_class iperf_scenario_class s c =
      scenario_experiment env c is_multi_client clients servers (iperf_scenario_parameter s)
  experiment_of_class msg_class s c = msg_experiment env c (msg_parameter s) dir
  experiment_of_class nc_class s c = nc_experiment env c (nc_parameter s) send_cmd wait_output
  experiment_of_class ncpv_class s c = ncpv_experiment env c (ncpv_parameter s)
  experiment_of_class netperf_class s c = netperf_experiment env c (netperf_parameter s)
  experiment_of_class none_class s c = none_experiment env c (load_parameter s)
  experiment_of_class ping_class s c = ping_experiment env c (load_parameter s)
  experiment_of_class pquic_class s c = pquic_experiment env c (pquic_parameter s)
  experiment_of_class quic_class s c =
      quic_experiment env c (quic_parameter s) expanduser is_multi_client
  experiment_of_class quiche_class s c = quiche_experiment env c (quiche_parameter s)
  experiment_of_class quic_mpath_class s c = mpath_experiment env c (load_parameter s)
  experiment_of_class quic_siri_class s c = quic_siri_experiment env c (quic_siri_parameter s)
  experiment_of_class send_file_class s c = send_file_experiment env dir c (random_file_parameter s)
  experiment_of_class siri_class s c = siri_experiment env dir c (siri_parameter s)
  experiment_of_class siri_http_class s c = siri_http_experiment env dir c (siri_parameter s)
  experiment_of_class siri_msg_class s c = siri_msg_experiment env dir c (siri_msg_parameter s)
  experiment_of_class vlc_class s c = vlc_experiment env c (load_parameter s)

  -- What the runner finds under a name and runs.
  unfoldable pub launch : String → Option (String → TopoConfig F → Run (Topo F) Unit)
  unfolding lookup experiments on_experiment experiment_of_class
  launch name =
      Option.map (λ a contents c. on_experiment (experiment_of_class a (some contents) c))
        (lookup name experiments)

-- ===== src/Experiments/Launching.antt =====
-- Whatever class of experiments the runner picks keeps `command.log` exact.
use minitopo.Base.{String, ◌≡◌, Bool, List, Option, none, some}
use minitopo.Base.Dict.{lookup}
use mathlib.Core.Option
use mathlib.Core.Path.{subst}
use mathlib.Core.Option.{some-injective}
use minitopo.Network.{Env}
use minitopo.Run.{Run}
use minitopo.Run.Keeps.{Keeps}
use minitopo.Topo.{Topo}
use minitopo.Topo.Log.{IsLogged}
use minitopo.Experiment.{Experiment, TopoConfig}
use minitopo.Experiment.Logged.{IsLoggedExperiment}
use minitopo.Experiments.Logged.{
  none-IsLogged, ping_experiment-IsLogged, iperf-IsLogged, netperf-IsLogged, quic_siri-IsLogged,
  vlc-IsLogged, msg-IsLogged,
}
use minitopo.Experiments.LoggedFiles.{
  http-IsLogged, https-IsLogged, ab-IsLogged, send_file-IsLogged,
}
use minitopo.Experiments.LoggedTraffic.{
  siri-IsLogged, siri_msg-IsLogged, siri_http-IsLogged, ditg-IsLogged, epload-IsLogged,
  scenario-IsLogged,
}
use minitopo.Experiments.LoggedQuic.{pquic-IsLogged, quiche-IsLogged, mpath-IsLogged, quic-IsLogged}
use minitopo.Experiments.Raising.{Keeps-Raises, load_nc-Raises}
use minitopo.Experiments.Netcat.{nc_experiment, ncpv_experiment, load_nc}
use minitopo.Experiments.Classes
use minitopo.Experiments.Classes.{
  ExperimentClass, ab_class, ditg_class, epload_class, http_class, https_class, iperf_class,
  iperf_scenario_class, msg_class, nc_class, ncpv_class, netperf_class, none_class, ping_class,
  pquic_class, quic_class, quiche_class, quic_mpath_class, quic_siri_class, send_file_class,
  siri_class, siri_http_class, siri_msg_class, vlc_class, on_experiment, experiment_of_class,
  launch,
}
use minitopo.Run.Keeps.{keeps_rules}
use minitopo.Parameter.{Parameter}

on_experiment-IsLogged :
    {F : Type 0} (m : Run (Experiment F) Unit)
    → Keeps IsLoggedExperiment m
    → Keeps IsLogged (on_experiment m)
unfolding on_experiment
on_experiment-IsLogged m km = record { at = λ t h. (km.at _ (record { topo = h })).topo }

module _ {F : Type 0} (env : Env) (c : TopoConfig F) (p : Parameter) where
  load_nc-IsLogged : Keeps IsLoggedExperiment (load_nc env c p)
  unfolding load_nc
  load_nc-IsLogged = search keeps_rules depth 20

  nc-IsLogged :
      (send_cmd : String → String → Run (Experiment F) Unit)
      (wait_output : String → Run (Experiment F) Unit)
      → Keeps IsLoggedExperiment (nc_experiment env c p send_cmd wait_output)
  unfolding nc_experiment
  nc-IsLogged send_cmd wait_output =
      Keeps-Raises (load_nc env c p) _ load_nc-IsLogged (load_nc-Raises env c p)

  ncpv-IsLogged : Keeps IsLoggedExperiment (ncpv_experiment env c p)
  unfolding ncpv_experiment
  ncpv-IsLogged = Keeps-Raises (load_nc env c p) _ load_nc-IsLogged (load_nc-Raises env c p)

module _ {F : Type 0} (env : Env) (dir : String) (expanduser : String → String)
    (is_multi_client : Bool) (clients servers : List String)
    (send_cmd : String → String → Run (Experiment F) Unit)
    (wait_output : String → Run (Experiment F) Unit) (s : Option String) (c : TopoConfig F)
    (kn : Keeps IsLogged c.run_netem_at) where
  experiment_of_class-IsLogged :
      (a : ExperimentClass)
      → Keeps IsLoggedExperiment (
          experiment_of_class env dir expanduser is_multi_client clients servers send_cmd
            wait_output a s c)
  unfolding experiment_of_class
  experiment_of_class-IsLogged ab_class = ab-IsLogged env c _ kn dir
  experiment_of_class-IsLogged ditg_class = ditg-IsLogged env c kn _
  experiment_of_class-IsLogged epload_class = epload-IsLogged env c kn s
  experiment_of_class-IsLogged http_class = http-IsLogged env c _ kn dir
  experiment_of_class-IsLogged https_class = https-IsLogged env c _ kn dir
  experiment_of_class-IsLogged iperf_class = iperf-IsLogged env c _ kn
  experiment_of_class-IsLogged iperf_scenario_class =
      scenario-IsLogged env c kn is_multi_client clients servers _
  experiment_of_class-IsLogged msg_class = msg-IsLogged env c _ kn dir
  experiment_of_class-IsLogged nc_class = nc-IsLogged env c _ send_cmd wait_output
  experiment_of_class-IsLogged ncpv_class = ncpv-IsLogged env c _
  experiment_of_class-IsLogged netperf_class = netperf-IsLogged env c _ kn
  experiment_of_class-IsLogged none_class = none-IsLogged env c _ kn
  experiment_of_class-IsLogged ping_class = ping_experiment-IsLogged env c _ kn
  experiment_of_class-IsLogged pquic_class = pquic-IsLogged env c _ kn
  experiment_of_class-IsLogged quic_class = quic-IsLogged env c _ expanduser is_multi_client kn
  experiment_of_class-IsLogged quiche_class = quiche-IsLogged env c _ kn
  experiment_of_class-IsLogged quic_mpath_class = mpath-IsLogged env c _ kn
  experiment_of_class-IsLogged quic_siri_class = quic_siri-IsLogged env c _ kn
  experiment_of_class-IsLogged send_file_class = send_file-IsLogged env c _ kn dir
  experiment_of_class-IsLogged siri_class = siri-IsLogged env dir c _ kn
  experiment_of_class-IsLogged siri_http_class = siri_http-IsLogged env dir c _ kn
  experiment_of_class-IsLogged siri_msg_class = siri_msg-IsLogged env dir c _ kn
  experiment_of_class-IsLogged vlc_class = vlc-IsLogged env c _ kn

module _ {F : Type 0} (env : Env) (dir : String) (expanduser : String → String)
    (is_multi_client : Bool) (clients servers : List String)
    (send_cmd : String → String → Run (Experiment F) Unit)
    (wait_output : String → Run (Experiment F) Unit) where
  -- Whatever the runner finds under a name keeps `command.log` exact when it is run.
  pub launch-IsLogged :
      (name contents : String) (c : TopoConfig F) (run : String → TopoConfig F → Run (Topo F) Unit)
      → Keeps IsLogged c.run_netem_at
      → launch env dir expanduser is_multi_client clients servers send_cmd wait_output name
        ≡ some run
      → Keeps IsLogged (run contents c)
  unfolding launch
  launch-IsLogged name contents c run kn found = found_class (lookup name Classes.experiments) found
    where
      launched : ExperimentClass → String → TopoConfig F → Run (Topo F) Unit
      launched a s c = on_experiment (
          experiment_of_class env dir expanduser is_multi_client clients servers send_cmd
            wait_output a (some s) c)

      found_class :
          (o : Option ExperimentClass)
          → Option.map launched o ≡ some run
          → Keeps IsLogged (run contents c)
      found_class none h = cc
      found_class (some a) h =
          subst (λ r. Keeps IsLogged (r contents c)) (some-injective _ _ h)
            (on_experiment-IsLogged _ (
              experiment_of_class-IsLogged env dir expanduser is_multi_client clients servers
                send_cmd wait_output (some contents) c kn a))

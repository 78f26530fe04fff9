-- ===== src/Experiments/LoggedFiles.antt =====
-- The experiments with files keep `command.log` exact.
use minitopo.Base.{String}
use minitopo.Parameter.{Parameter, Value}
use minitopo.Network.{Env}
use minitopo.Run.Keeps.{Keeps, keeps_rules, Keeps-bind}
use minitopo.Topo.Log.{IsLogged}
use minitopo.Experiment.{TopoConfig}
use minitopo.Experiment.RandomFile
use minitopo.Experiment.RandomFile.{Loaded}
use minitopo.Experiment.Logged.{
  IsLoggedExperiment, ping-IsLogged, prepare_file-IsLogged, clean_file-IsLogged,
}
use minitopo.Experiments.Logging.{
  flow_rules, ping_first_server-IsLogged, classic_run-IsLogged, load_parameters-IsLogged,
  init-IsLogged,
}
use minitopo.Experiments.Files

module _ {F : Type 0} (env : Env) (c : TopoConfig F) (p : Parameter)
    (kn : Keeps IsLogged c.run_netem_at) (dir : String) where
  prepare_logs-IsLogged :
      (a b : String) (x : Loaded) → Keeps IsLoggedExperiment (Files.prepare_logs env dir c p a b x)
  unfolding Files.prepare_logs
  prepare_logs-IsLogged a b x =
      Keeps-bind (RandomFile.prepare_file env c p x) _ (prepare_file-IsLogged env c p x kn)
        (λ _. search flow_rules depth 20)

  http_run-IsLogged : (x : Loaded) → Keeps IsLoggedExperiment (Files.http_run env dir c p x)
  unfolding Files.http_run
  http_run-IsLogged x = search flow_rules depth 40

  pub http-IsLogged : Keeps IsLoggedExperiment (Files.http_experiment env dir c p)
  unfolding Files.http_experiment
  http-IsLogged =
      search
        (
          keeps_rules, init-IsLogged, classic_run-IsLogged, prepare_logs-IsLogged,
          http_run-IsLogged, clean_file-IsLogged,
        )
        depth 40

  https_run-IsLogged : (x : Loaded) → Keeps IsLoggedExperiment (Files.https_run env dir c p x)
  unfolding Files.https_run
  https_run-IsLogged x = search flow_rules depth 40

  pub https-IsLogged : Keeps IsLoggedExperiment (Files.https_experiment env dir c p)
  unfolding Files.https_experiment
  https-IsLogged =
      search
        (
          keeps_rules, init-IsLogged, classic_run-IsLogged, prepare_logs-IsLogged,
          https_run-IsLogged, clean_file-IsLogged,
        )
        depth 40

  ab_run-IsLogged :
      (n l : Value) (x : Loaded) → Keeps IsLoggedExperiment (Files.ab_run env dir c p n l x)
  unfolding Files.ab_run
  ab_run-IsLogged n l x = search flow_rules depth 40

  pub ab-IsLogged : Keeps IsLoggedExperiment (Files.ab_experiment env dir c p)
  unfolding Files.ab_experiment
  ab-IsLogged =
      search
        (
          keeps_rules, load_parameters-IsLogged, ping-IsLogged, classic_run-IsLogged,
          prepare_logs-IsLogged, ab_run-IsLogged, clean_file-IsLogged,
        )
        depth 40

  send_file_run-IsLogged : Keeps IsLoggedExperiment (Files.send_file_run env dir c p)
  unfolding Files.send_file_run
  send_file_run-IsLogged = search flow_rules depth 40

  pub send_file-IsLogged : Keeps IsLoggedExperiment (Files.send_file_experiment env dir c p)
  unfolding Files.send_file_experiment
  send_file-IsLogged =
      search
        (
          keeps_rules, load_parameters-IsLogged, ping_first_server-IsLogged, classic_run-IsLogged,
          prepare_logs-IsLogged, send_file_run-IsLogged, clean_file-IsLogged,
        )
        depth 40

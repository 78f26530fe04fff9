-- ===== src/Experiments/Logging.antt =====
-- What the experiments share keeps `command.log` exact.
use minitopo.Base.{String}
use minitopo.Parameter.{Parameter}
use minitopo.Network.{Env}
use minitopo.Run.{Run, ◌>>◌}
use minitopo.Run.Keeps.{Keeps, keeps_rules, Keeps-bind}
use minitopo.Topo.Log.{IsLogged, command_to-IsLogged}
use minitopo.Experiment.{Experiment, TopoConfig}
use minitopo.Experiment.Phases
use minitopo.Experiment.RandomFile
use minitopo.Experiment.RandomFile.{Loaded}
use minitopo.Experiment.Logged.{
  IsLoggedExperiment, on_topo-IsLogged, ping-IsLogged, ping_one-IsLogged, prepare-IsLogged,
}
use minitopo.Experiments.{command_on, ping_first_server}

module _ {F : Type 0} (env : Env) where
  pub command_on-IsLogged :
      (node cmd : String) → Keeps (IsLoggedExperiment {F = F}) (command_on env node cmd)
  unfolding command_on
  command_on-IsLogged node cmd =
      search (keeps_rules, on_topo-IsLogged, command_to-IsLogged) depth 20

pub ruleset flow_rules = (keeps_rules, command_on-IsLogged)

module _ {F : Type 0} (env : Env) (c : TopoConfig F) (p : Parameter) where
  pub ping_first_server-IsLogged : Keeps IsLoggedExperiment (ping_first_server env c p)
  unfolding ping_first_server
  ping_first_server-IsLogged = search (flow_rules, ping_one-IsLogged) depth 30

  -- Three phases that keep the log exact do so one after the other.
  pub classic_run-IsLogged :
      (before run after : Run (Experiment F) Unit)
      → Keeps IsLoggedExperiment before
      → Keeps IsLoggedExperiment run
      → Keeps IsLoggedExperiment after
      → Keeps IsLoggedExperiment (Phases.classic_run env c p before run after)
  unfolding Phases.classic_run
  classic_run-IsLogged before run after kb kr ka =
      Keeps-bind before _ kb (λ _. Keeps-bind run _ kr (λ _. ka))

  pub load_parameters-IsLogged : Keeps IsLoggedExperiment (RandomFile.load_parameters env c p)
  unfolding RandomFile.load_parameters
  load_parameters-IsLogged = search keeps_rules depth 20

  pub init-IsLogged : Keeps IsLoggedExperiment (RandomFile.init env c p)
  unfolding RandomFile.init
  init-IsLogged = search (keeps_rules, load_parameters-IsLogged, ping-IsLogged) depth 20

  -- Commands on the nodes after the preparation of every experiment.
  pub prepare_and-IsLogged :
      (rest : Run (Experiment F) Unit)
      → Keeps IsLogged c.run_netem_at
      → Keeps IsLoggedExperiment rest
      → Keeps IsLoggedExperiment (Phases.prepare env c p >> rest)
  prepare_and-IsLogged rest kn kr =
      Keeps-bind (Phases.prepare env c p) _ (prepare-IsLogged env c p kn) (λ _. kr)

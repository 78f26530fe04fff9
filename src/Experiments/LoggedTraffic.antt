-- ===== src/Experiments/LoggedTraffic.antt =====
-- The experiments with Siri, D-ITG, epload and several clients keep `command.log` exact.
use minitopo.Base.{String, List, Bool, Option}
use minitopo.Parameter.{Parameter, Value}
use minitopo.Network.{Env}
use minitopo.Run.{Run}
use minitopo.Run.Keeps.{Keeps, keeps_rules, Keeps-bind}
use minitopo.Topo.Log.{IsLogged, command_global-IsLogged}
use minitopo.Experiment.{Experiment, TopoConfig}
use minitopo.Experiment.Logged.{
  IsLoggedExperiment, on_topo-IsLogged, ping-IsLogged, prepare-IsLogged, clean-IsLogged,
}
use minitopo.Experiments.Scenario
use minitopo.Experiments.SiriCombined
use minitopo.Experiments.Streams
use minitopo.Experiments.Siri
use minitopo.Experiments.Siri.{SiriLoaded}
use minitopo.Experiments.SiriCombined.{MsgLoaded}
use minitopo.Experiments.Traffic
use minitopo.Experiments.Traffic.{DitgLoaded}
use minitopo.Experiments.Logging.{
  flow_rules, ping_first_server-IsLogged, classic_run-IsLogged, prepare_and-IsLogged,
}

module _ {F : Type 0} (env : Env) (dir : String) (c : TopoConfig F) (p : Parameter) where
  load_siri-IsLogged : Keeps IsLoggedExperiment (Siri.load_siri env dir c p)
  unfolding Siri.load_siri
  load_siri-IsLogged = search keeps_rules depth 50

  load_msg-IsLogged : Keeps IsLoggedExperiment (SiriCombined.load_msg env dir c p)
  unfolding SiriCombined.load_msg
  load_msg-IsLogged = search keeps_rules depth 30

  siri_run-IsLogged : (x : SiriLoaded) → Keeps IsLoggedExperiment (Siri.siri_run env dir c p x)
  unfolding Siri.siri_run
  siri_run-IsLogged x = search flow_rules depth 50

  siri_msg_run-IsLogged :
      (x : SiriLoaded) (y : MsgLoaded)
      → Keeps IsLoggedExperiment (SiriCombined.siri_msg_run env dir c p x y)
  unfolding SiriCombined.siri_msg_run
  siri_msg_run-IsLogged x y = search flow_rules depth 60

  siri_http_run-IsLogged :
      (x : SiriLoaded) → Keeps IsLoggedExperiment (SiriCombined.siri_http_run env dir c p x)
  unfolding SiriCombined.siri_http_run
  siri_http_run-IsLogged x = search flow_rules depth 50

  siri_prepare-IsLogged :
      (next : Run (Experiment F) Unit)
      → Keeps IsLoggedExperiment next
      → Keeps IsLoggedExperiment (Siri.siri_prepare env dir c p next)
  unfolding Siri.siri_prepare
  siri_prepare-IsLogged next kn = Keeps-bind next _ kn (λ _. search flow_rules depth 20)

  module _ (kn : Keeps IsLogged c.run_netem_at) where
    pub siri-IsLogged : Keeps IsLoggedExperiment (Siri.siri_experiment env dir c p)
    unfolding Siri.siri_experiment
    siri-IsLogged =
        search
          (
            keeps_rules, load_siri-IsLogged, ping_first_server-IsLogged, classic_run-IsLogged,
            siri_prepare-IsLogged, prepare-IsLogged, siri_run-IsLogged, clean-IsLogged,
          )
          depth 40

    msg_prepare-IsLogged : Keeps IsLoggedExperiment (Streams.msg_prepare env c p)
    unfolding Streams.msg_prepare
    msg_prepare-IsLogged = prepare_and-IsLogged env c p _ kn (search flow_rules depth 20)

    siri_msg_prepare-IsLogged : Keeps IsLoggedExperiment (SiriCombined.siri_msg_prepare env dir c p)
    unfolding SiriCombined.siri_msg_prepare
    siri_msg_prepare-IsLogged =
        search (keeps_rules, siri_prepare-IsLogged, msg_prepare-IsLogged) depth 20

    siri_msg_clean-IsLogged : Keeps IsLoggedExperiment (SiriCombined.siri_msg_clean env dir c p)
    unfolding SiriCombined.siri_msg_clean
    siri_msg_clean-IsLogged = search (keeps_rules, clean-IsLogged) depth 20

    pub siri_msg-IsLogged : Keeps IsLoggedExperiment (SiriCombined.siri_msg_experiment env dir c p)
    unfolding SiriCombined.siri_msg_experiment
    siri_msg-IsLogged =
        search
          (
            keeps_rules, load_siri-IsLogged, load_msg-IsLogged, ping_first_server-IsLogged,
            classic_run-IsLogged, siri_msg_prepare-IsLogged, siri_msg_run-IsLogged,
            siri_msg_clean-IsLogged,
          )
          depth 50

    siri_http_prepare-IsLogged :
        Keeps IsLoggedExperiment (SiriCombined.siri_http_prepare env dir c p)
    unfolding SiriCombined.siri_http_prepare
    siri_http_prepare-IsLogged =
        search (flow_rules, siri_prepare-IsLogged, prepare-IsLogged) depth 40

    pub siri_http-IsLogged :
        Keeps IsLoggedExperiment (SiriCombined.siri_http_experiment env dir c p)
    unfolding SiriCombined.siri_http_experiment
    siri_http-IsLogged =
        search
          (
            keeps_rules, load_siri-IsLogged, ping_first_server-IsLogged, classic_run-IsLogged,
            siri_http_prepare-IsLogged, siri_http_run-IsLogged, clean-IsLogged,
          )
          depth 50

module _ {F : Type 0} (env : Env) (c : TopoConfig F) where
  load_ditg-IsLogged : (p : Parameter) → Keeps IsLoggedExperiment (Traffic.load_ditg env c p)
  unfolding Traffic.load_ditg
  load_ditg-IsLogged p = search keeps_rules depth 40

  ditg_run-IsLogged : (x : DitgLoaded) → Keeps IsLoggedExperiment (Traffic.ditg_run env c x)
  unfolding Traffic.ditg_run
  ditg_run-IsLogged x = search flow_rules depth 40

  epload_run-IsLogged : (x : Value) → Keeps IsLoggedExperiment (Traffic.epload_run env c x)
  unfolding Traffic.epload_run
  epload_run-IsLogged x = search flow_rules depth 40

  module _ (kn : Keeps IsLogged c.run_netem_at) where
    ditg_prepare-IsLogged :
        (p : Parameter) → Keeps IsLoggedExperiment (Traffic.ditg_prepare env c p)
    unfolding Traffic.ditg_prepare
    ditg_prepare-IsLogged p = prepare_and-IsLogged env c p _ kn (search flow_rules depth 20)

    pub ditg-IsLogged : (p : Parameter) → Keeps IsLoggedExperiment (Traffic.ditg_experiment env c p)
    unfolding Traffic.ditg_experiment
    ditg-IsLogged p =
        search
          (
            keeps_rules, load_ditg-IsLogged, ping-IsLogged, classic_run-IsLogged,
            ditg_prepare-IsLogged, ditg_run-IsLogged, clean-IsLogged,
          )
          depth 40

    epload_prepare-IsLogged :
        (p : Parameter) → Keeps IsLoggedExperiment (Traffic.epload_prepare env c p)
    unfolding Traffic.epload_prepare
    epload_prepare-IsLogged p = prepare_and-IsLogged env c p _ kn (search flow_rules depth 20)

    pub epload-IsLogged :
        (contents : Option String)
        → Keeps IsLoggedExperiment (Traffic.epload_experiment env c contents)
    unfolding Traffic.epload_experiment
    epload-IsLogged contents =
        search
          (
            keeps_rules, ping-IsLogged, classic_run-IsLogged, epload_prepare-IsLogged,
            epload_run-IsLogged, clean-IsLogged,
          )
          depth 40

    module _ (is_multi_client : Bool) (clients servers : List String) where
      scenario_prepare-IsLogged :
          (p : Parameter)
          → Keeps IsLoggedExperiment
              (Scenario.scenario_prepare env c is_multi_client clients servers p)
      unfolding Scenario.scenario_prepare
      scenario_prepare-IsLogged p = prepare_and-IsLogged env c p _ kn (search flow_rules depth 20)

      scenario_run-IsLogged :
          (x : Value)
          → Keeps IsLoggedExperiment (Scenario.scenario_run env c is_multi_client clients servers x)
      unfolding Scenario.scenario_run
      scenario_run-IsLogged x =
          search (flow_rules, on_topo-IsLogged, command_global-IsLogged) depth 80

      pub scenario-IsLogged :
          (p : Parameter)
          → Keeps IsLoggedExperiment
              (Scenario.scenario_experiment env c is_multi_client clients servers p)
      unfolding Scenario.scenario_experiment
      scenario-IsLogged p =
          search
            (
              keeps_rules, ping-IsLogged, classic_run-IsLogged, scenario_prepare-IsLogged,
              scenario_run-IsLogged, clean-IsLogged,
            )
            depth 40

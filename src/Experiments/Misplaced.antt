-- ===== src/Experiments/Misplaced.antt =====
-- experiments/iperf_scenario.py and quic.py: the topologies on which these experiments cannot return.
use minitopo.Base.{String, List, true, false}
use minitopo.Parameter.{Parameter}
use minitopo.Network.{Env}
use minitopo.Run.{Run, lift}
use minitopo.Experiment.{Experiment, TopoConfig}
use minitopo.Experiment.Phases.{classic_run}
use minitopo.Experiments.Scenario.{scenario_prepare, scenario_experiment}
use minitopo.Experiments.QuicGo.{QuicLoaded, over_congestion, quic_run, quic_experiment}
use minitopo.Experiments.Raising.{Raises, Raises-rest, Raises-first}

module _ {F : Type 0} (env : Env) (c : TopoConfig F) (p : Parameter) where
  before-Raises :
      (before run after : Run (Experiment F) Unit)
      → Raises before
      → Raises (classic_run env c p before run after)
  unfolding classic_run
  before-Raises before run after raises = Raises-first _ _ raises

  run-Raises :
      (before run after : Run (Experiment F) Unit)
      → Raises run
      → Raises (classic_run env c p before run after)
  unfolding classic_run
  run-Raises before run after raises = Raises-rest _ _ (λ _. Raises-first _ _ raises)

  scenario_prepare-Raises :
      (clients servers : List String) → Raises (scenario_prepare env c false clients servers p)
  unfolding scenario_prepare lift
  scenario_prepare-Raises clients servers =
      Raises-rest _ _ (λ _. Raises-rest _ _ (λ _. Raises-rest _ _ (λ _ s a h. cc h)))

  scenario-Raises :
      (clients servers : List String) → Raises (scenario_experiment env c false clients servers p)
  unfolding scenario_experiment
  scenario-Raises clients servers =
      Raises-rest _ _
        (λ _. Raises-rest _ _ (λ _. before-Raises _ _ _ (scenario_prepare-Raises clients servers)))

  module _ (expanduser : String → String) where
    over_congestion-Raises : Raises (over_congestion env c p expanduser true)
    unfolding over_congestion lift
    over_congestion-Raises s a h = cc h

    quic_run-Raises : (x : QuicLoaded) → Raises (quic_run env c p expanduser true x)
    unfolding quic_run
    quic_run-Raises x = Raises-rest _ _ (λ _. Raises-rest _ _ (λ _. Raises-rest _ _ (λ _.
        Raises-rest _ _ (λ _. Raises-rest _ _ (λ _.
          Raises-rest _ _ (λ _. Raises-rest _ _ (λ _. Raises-first _ _ over_congestion-Raises)))))))

    quic-Raises : Raises (quic_experiment env c p expanduser true)
    unfolding quic_experiment
    quic-Raises =
        Raises-rest _ _
          (λ _. Raises-rest _ _ (λ x. Raises-rest _ _ (λ _. run-Raises _ _ _ (quic_run-Raises x))))

    -- On a topology without several clients, the experiment iperfScenario returns from no state, and
    -- on one with several clients QUIC returns from none: each ends in an exception.
    pub scenario-quic-Raises :
        (clients servers : List String)
        → Raises (scenario_experiment env c false clients servers p)
          × Raises (quic_experiment env c p expanduser true)
    scenario-quic-Raises clients servers = (scenario-Raises clients servers, quic-Raises)

-- ===== src/Experiments/LoggedQuic.antt =====
-- The experiments with QUIC and netcat keep `command.log` exact.
use minitopo.Base.{String, Bool}
use minitopo.Parameter.{Parameter}
use minitopo.Network.{Env}
use minitopo.Run.{Run}
use minitopo.Run.Keeps.{Keeps, keeps_rules, Keeps-bind}
use minitopo.Topo.Log.{IsLogged}
use minitopo.Experiment.{TopoConfig}
use minitopo.Experiment.RandomFile
use minitopo.Experiment.RandomFile.{Loaded}
use minitopo.Experiment.Logged.{
  IsLoggedExperiment, ping-IsLogged, prepare-IsLogged, clean-IsLogged, prepare_file-IsLogged,
  clean_file-IsLogged,
}
use minitopo.Experiments.Quic
use minitopo.Experiments.Quic.{PquicLoaded, QuicheLoaded}
use minitopo.Experiments.QuicGo
use minitopo.Experiments.QuicGo.{QuicLoaded}
use minitopo.Experiments.Multipath
use minitopo.Experiments.Logging.{
  flow_rules, ping_first_server-IsLogged, classic_run-IsLogged, load_parameters-IsLogged,
  prepare_and-IsLogged,
}

-- A handler of every exception leaves the state as it is.
caught-Keeps :
    {S : Type 0} {P : S → Type 0} (m : Run S Unit) → Keeps P m → Keeps P (Multipath.caught m)
unfolding Multipath.caught
caught-Keeps m km = record { at = km.at }

module _ {F : Type 0} (env : Env) (c : TopoConfig F) (p : Parameter) where
  load_pquic-IsLogged : Keeps IsLoggedExperiment (Quic.load_pquic env c p)
  unfolding Quic.load_pquic
  load_pquic-IsLogged = search keeps_rules depth 40

  pquic_run-IsLogged : (x : PquicLoaded) → Keeps IsLoggedExperiment (Quic.pquic_run env c p x)
  unfolding Quic.pquic_run
  pquic_run-IsLogged x = search flow_rules depth 40

  load_quiche-IsLogged : Keeps IsLoggedExperiment (Quic.load_quiche env c p)
  unfolding Quic.load_quiche
  load_quiche-IsLogged = search keeps_rules depth 40

  quiche_run-IsLogged : (x : QuicheLoaded) → Keeps IsLoggedExperiment (Quic.quiche_run env c p x)
  unfolding Quic.quiche_run
  quiche_run-IsLogged x = search flow_rules depth 60

  mpath_capture-IsLogged :
      (a b d e : String) → Keeps IsLoggedExperiment (Multipath.mpath_capture env c p a b d e)
  unfolding Multipath.mpath_capture
  mpath_capture-IsLogged a b d e = search flow_rules depth 20

  mpath_client-IsLogged :
      (a b d e f : String) → Keeps IsLoggedExperiment (Multipath.mpath_client env c p a b d e f)
  unfolding Multipath.mpath_client
  mpath_client-IsLogged a b d e f = search flow_rules depth 20

  mpath_body-IsLogged : Keeps IsLoggedExperiment (Multipath.mpath_body env c p)
  unfolding Multipath.mpath_body
  mpath_body-IsLogged =
      search (flow_rules, mpath_capture-IsLogged, mpath_client-IsLogged) depth 120 fits 4000

  module _ (kn : Keeps IsLogged c.run_netem_at) where
    pquic_prepare-IsLogged : Keeps IsLoggedExperiment (Quic.pquic_prepare env c p)
    unfolding Quic.pquic_prepare
    pquic_prepare-IsLogged = prepare_and-IsLogged env c p _ kn (search flow_rules depth 20)

    pub pquic-IsLogged : Keeps IsLoggedExperiment (Quic.pquic_experiment env c p)
    unfolding Quic.pquic_experiment
    pquic-IsLogged =
        search
          (
            keeps_rules, load_pquic-IsLogged, ping-IsLogged, classic_run-IsLogged,
            pquic_prepare-IsLogged, pquic_run-IsLogged, clean-IsLogged,
          )
          depth 40

    quiche_prepare-IsLogged :
        (l : Loaded) (x : QuicheLoaded) → Keeps IsLoggedExperiment (Quic.quiche_prepare env c p l x)
    unfolding Quic.quiche_prepare
    quiche_prepare-IsLogged l x =
        Keeps-bind (RandomFile.prepare_file env c p l) _ (prepare_file-IsLogged env c p l kn)
          (λ _. search flow_rules depth 40)

    pub quiche-IsLogged : Keeps IsLoggedExperiment (Quic.quiche_experiment env c p)
    unfolding Quic.quiche_experiment
    quiche-IsLogged =
        search
          (
            keeps_rules, load_parameters-IsLogged, load_quiche-IsLogged, ping-IsLogged,
            classic_run-IsLogged, quiche_prepare-IsLogged, quiche_run-IsLogged, clean_file-IsLogged,
          )
          depth 40

    pub mpath-IsLogged : Keeps IsLoggedExperiment (Multipath.mpath_experiment env c p)
    unfolding Multipath.mpath_experiment
    mpath-IsLogged =
        search
          (
            classic_run-IsLogged, prepare-IsLogged, caught-Keeps, mpath_body-IsLogged,
            clean-IsLogged,
          )
          depth 20

  module _ (expanduser : String → String) (is_multi_client : Bool) where
    load_quic-IsLogged :
        Keeps IsLoggedExperiment (QuicGo.load_quic env c p expanduser is_multi_client)
    unfolding QuicGo.load_quic
    load_quic-IsLogged = search keeps_rules depth 40

    quic_run-IsLogged :
        (x : QuicLoaded)
        → Keeps IsLoggedExperiment (QuicGo.quic_run env c p expanduser is_multi_client x)
    unfolding QuicGo.quic_run QuicGo.over_congestion
    quic_run-IsLogged x = search flow_rules depth 90

    module _ (kn : Keeps IsLogged c.run_netem_at) where
      quic_prepare-IsLogged :
          (l : Loaded)
          → Keeps IsLoggedExperiment (QuicGo.quic_prepare env c p expanduser is_multi_client l)
      unfolding QuicGo.quic_prepare
      quic_prepare-IsLogged l =
          Keeps-bind (RandomFile.prepare_file env c p l) _ (prepare_file-IsLogged env c p l kn)
            (λ _. search flow_rules depth 40)

      pub quic-IsLogged :
          Keeps IsLoggedExperiment (QuicGo.quic_experiment env c p expanduser is_multi_client)
      unfolding QuicGo.quic_experiment
      quic-IsLogged =
          search
            (
              keeps_rules, load_parameters-IsLogged, load_quic-IsLogged, ping_first_server-IsLogged,
              classic_run-IsLogged, quic_prepare-IsLogged, quic_run-IsLogged, clean_file-IsLogged,
            )
            depth 50

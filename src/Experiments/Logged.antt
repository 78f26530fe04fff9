-- ===== src/Experiments/Logged.antt =====
-- The experiments keep `command.log` exact.
use minitopo.Base.{String}
use minitopo.Parameter.{Parameter, Value}
use minitopo.Network.{Env}
use minitopo.Run.Keeps.{Keeps, Keeps-bind}
use minitopo.Topo.Log.{IsLogged, get_cli-IsLogged}
use minitopo.Experiment.{TopoConfig}
use minitopo.Experiment.Phases
use minitopo.Experiment.Logged.{
  IsLoggedExperiment, on_topo-IsLogged, ping-IsLogged, prepare-IsLogged, clean-IsLogged,
}
use minitopo.Experiments.Logging.{flow_rules, ping_first_server-IsLogged, classic_run-IsLogged}
use minitopo.Experiments.Flows
use minitopo.Experiments.Files
use minitopo.Experiments.Streams
use minitopo.Experiments.LoggedFiles.{
  http-IsLogged, https-IsLogged, ab-IsLogged, send_file-IsLogged,
}

module _ {F : Type 0} (env : Env) (c : TopoConfig F) (p : Parameter) where
  module _ (kn : Keeps IsLogged c.run_netem_at) where
    pub none-IsLogged : Keeps IsLoggedExperiment (Flows.none_experiment env c p)
    unfolding Flows.none_experiment
    none-IsLogged =
        classic_run-IsLogged env c p _ _ _ (prepare-IsLogged env c p kn)
          (on_topo-IsLogged _ get_cli-IsLogged) (clean-IsLogged env c p)

    pub ping_experiment-IsLogged : Keeps IsLoggedExperiment (Flows.ping_experiment env c p)
    unfolding Flows.ping_experiment
    ping_experiment-IsLogged =
        classic_run-IsLogged env c p _ _ _ (prepare-IsLogged env c p kn)
          (ping_first_server-IsLogged env c p) (clean-IsLogged env c p)

    iperf_prepare-IsLogged : Keeps IsLoggedExperiment (Flows.iperf_prepare env c p)
    unfolding Flows.iperf_prepare
    iperf_prepare-IsLogged =
        Keeps-bind (Phases.prepare env c p) _ (prepare-IsLogged env c p kn)
          (λ _. search flow_rules depth 20)

    iperf_run-IsLogged : (t n : Value) → Keeps IsLoggedExperiment (Flows.iperf_run env c p t n)
    unfolding Flows.iperf_run
    iperf_run-IsLogged t n = search flow_rules depth 30

    pub iperf-IsLogged : Keeps IsLoggedExperiment (Flows.iperf_experiment env c p)
    unfolding Flows.iperf_experiment
    iperf-IsLogged =
        search
          (
            flow_rules, ping-IsLogged, classic_run-IsLogged, iperf_prepare-IsLogged,
            iperf_run-IsLogged, clean-IsLogged,
          )
          depth 40

    netperf_prepare-IsLogged : Keeps IsLoggedExperiment (Flows.netperf_prepare env c p)
    unfolding Flows.netperf_prepare
    netperf_prepare-IsLogged =
        Keeps-bind (Phases.prepare env c p) _ (prepare-IsLogged env c p kn)
          (λ _. search flow_rules depth 20)

    netperf_run-IsLogged :
        (l n r : Value) → Keeps IsLoggedExperiment (Flows.netperf_run env c p l n r)
    unfolding Flows.netperf_run
    netperf_run-IsLogged l n r = search flow_rules depth 30

    pub netperf-IsLogged : Keeps IsLoggedExperiment (Flows.netperf_experiment env c p)
    unfolding Flows.netperf_experiment
    netperf-IsLogged =
        search
          (
            flow_rules, ping_first_server-IsLogged, classic_run-IsLogged, netperf_prepare-IsLogged,
            netperf_run-IsLogged, clean-IsLogged,
          )
          depth 40

    quic_siri_prepare-IsLogged : Keeps IsLoggedExperiment (Streams.quic_siri_prepare env c p)
    unfolding Streams.quic_siri_prepare
    quic_siri_prepare-IsLogged =
        Keeps-bind (Phases.prepare env c p) _ (prepare-IsLogged env c p kn)
          (λ _. search flow_rules depth 20)

    quic_siri_run-IsLogged :
        (t m : Value) → Keeps IsLoggedExperiment (Streams.quic_siri_run env c p t m)
    unfolding Streams.quic_siri_run
    quic_siri_run-IsLogged t m = search flow_rules depth 50

    pub quic_siri-IsLogged : Keeps IsLoggedExperiment (Streams.quic_siri_experiment env c p)
    unfolding Streams.quic_siri_experiment
    quic_siri-IsLogged =
        search
          (
            flow_rules, ping_first_server-IsLogged, classic_run-IsLogged,
            quic_siri_prepare-IsLogged, quic_siri_run-IsLogged, clean-IsLogged,
          )
          depth 40

    vlc_prepare-IsLogged : Keeps IsLoggedExperiment (Streams.vlc_prepare env c p)
    unfolding Streams.vlc_prepare
    vlc_prepare-IsLogged =
        Keeps-bind (Phases.prepare env c p) _ (prepare-IsLogged env c p kn)
          (λ _. search flow_rules depth 20)

    vlc_run-IsLogged : (f t : Value) → Keeps IsLoggedExperiment (Streams.vlc_run env c p f t)
    unfolding Streams.vlc_run
    vlc_run-IsLogged f t = search flow_rules depth 50

    vlc_clean-IsLogged : Keeps IsLoggedExperiment (Streams.vlc_clean env c p)
    unfolding Streams.vlc_clean
    vlc_clean-IsLogged = search flow_rules depth 20

    pub vlc-IsLogged : Keeps IsLoggedExperiment (Streams.vlc_experiment env c p)
    unfolding Streams.vlc_experiment
    vlc-IsLogged =
        search
          (
            flow_rules, ping_first_server-IsLogged, classic_run-IsLogged, vlc_prepare-IsLogged,
            vlc_run-IsLogged, vlc_clean-IsLogged,
          )
          depth 40

    msg_prepare-IsLogged : Keeps IsLoggedExperiment (Streams.msg_prepare env c p)
    unfolding Streams.msg_prepare
    msg_prepare-IsLogged =
        Keeps-bind (Phases.prepare env c p) _ (prepare-IsLogged env c p kn)
          (λ _. search flow_rules depth 20)

    msg_run-IsLogged :
        (dir : String) (k s n b : Value)
        → Keeps IsLoggedExperiment (Streams.msg_run env c p dir k s n b)
    unfolding Streams.msg_run
    msg_run-IsLogged dir k s n b = search flow_rules depth 50

    pub msg-IsLogged :
        (dir : String) → Keeps IsLoggedExperiment (Streams.msg_experiment env c p dir)
    unfolding Streams.msg_experiment
    msg-IsLogged dir =
        search
          (
            flow_rules, ping-IsLogged, classic_run-IsLogged, msg_prepare-IsLogged, msg_run-IsLogged,
            clean-IsLogged,
          )
          depth 40

    module _ (dir : String) where
      -- Over a configuration whose changes of netem keep `command.log` exact, each of these
      -- experiments keeps it exact from its constructor to its last phase, whether it ends or
      -- raises: none, ping, iperf, netperf, http, https, ab, sendfile, quicsiri, vlc
      -- and msg.
      pub experiments-IsLogged :
          Keeps IsLoggedExperiment (Flows.none_experiment env c p)
          × Keeps IsLoggedExperiment (Flows.ping_experiment env c p)
          × Keeps IsLoggedExperiment (Flows.iperf_experiment env c p)
          × Keeps IsLoggedExperiment (Flows.netperf_experiment env c p)
          × Keeps IsLoggedExperiment (Files.http_experiment env dir c p)
          × Keeps IsLoggedExperiment (Files.https_experiment env dir c p)
          × Keeps IsLoggedExperiment (Files.ab_experiment env dir c p)
          × Keeps IsLoggedExperiment (Files.send_file_experiment env dir c p)
          × Keeps IsLoggedExperiment (Streams.quic_siri_experiment env c p)
          × Keeps IsLoggedExperiment (Streams.vlc_experiment env c p)
          × Keeps IsLoggedExperiment (Streams.msg_experiment env c p dir)
      experiments-IsLogged = (
        none-IsLogged,
        ping_experiment-IsLogged,
        iperf-IsLogged,
        netperf-IsLogged,
        http-IsLogged env c p kn dir,
        https-IsLogged env c p kn dir,
        ab-IsLogged env c p kn dir,
        send_file-IsLogged env c p kn dir,
        quic_siri-IsLogged,
        vlc-IsLogged,
        msg-IsLogged dir,
      )

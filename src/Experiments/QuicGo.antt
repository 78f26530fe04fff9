-- ===== src/Experiments/QuicGo.antt =====
-- experiments/quic.py. The expansion of `~` in a path is an argument.
use minitopo.Base.{String, [], ◌∷◌, Option, Bool, if◌then◌else◌}
use minitopo.Base.Int.{positive}
use minitopo.Errors
use minitopo.Errors.{Result, ok, err, attribute_error}
use minitopo.Text.{concat}
use minitopo.Parameter
use minitopo.Parameter.{Parameter, Value, formatted}
use minitopo.TopoParameter.{is_text}
use minitopo.Network.{Env}
use minitopo.Run.{Run, pure, lift, ◌>>=◌, ◌>>◌}
use minitopo.Experiment.{Experiment, TopoConfig}
use minitopo.Experiment.Phases.{classic_run, int_of}
use minitopo.Experiment.RandomFile.{
  Loaded, random_file_parameter, load_parameters, prepare_file, clean_file,
}
use minitopo.Experiments.{with_defaults, added, command_on, ping_first_server}
use minitopo.Experiments.Quic.{path_join}

unfoldable pub quic_parameter : Option String → Parameter
unfolding random_file_parameter with_defaults
quic_parameter contents =
    with_defaults
      (("quicMultipath", "0")
        ∷ ("quicImpl", "quic-go")
        ∷ ("quicPort", "6121")
        ∷ ("quicCertPath", "/home/achraf/quiche/certs")
        ∷ ("quicNoVerify", "1")
        ∷ [])
      (random_file_parameter contents)

-- What `QUIC.load_parameters` adds to that of `RandomFileExperiment`.
pub record QuicLoaded : Type 0 where
  pub multipath : Value
  pub impl : Value
  pub port : Value
  pub cert_path : Value
  pub no_verify : Value

abbrev go_run : String → String
go_run file =
    concat ("/usr/local/go/bin/go run /home/achraf/go/src/github.com/lucas-clemente/" ∷ file ∷ [])

abbrev quic_server_file : String
quic_server_file = "/home/achraf/go/src/github.com/lucas-clemente/quic-go/example/main.go"

unfoldable pub get_quic_server_cmd : (String → String) → QuicLoaded → Result String
unfolding concat path_join
get_quic_server_cmd expanduser x =
    if is_text x.impl "quiche"
    then Errors.◌>>=◌ (added x.cert_path) (λ cert_path. Errors.◌>>=◌ (added x.port) λ port. ok (
        concat (
          expanduser "/home/achraf/quiche/target/release/quiche-server"
          ∷ " --listen 0.0.0.0:"
          ∷ port
          ∷ " --root /tmp --cert "
          ∷ path_join (expanduser cert_path) "cert.pem"
          ∷ " --key "
          ∷ path_join (expanduser cert_path) "key.pem"
          ∷ " &> /tmp/quic_server.log &"
          ∷ [])))
    else Errors.◌>>=◌ (added x.cert_path) (λ cert_path. Errors.◌>>=◌ (added x.port) λ port. ok (
        concat (
          go_run "quic-go/example/main.go"
          ∷ " -www . -certpath "
          ∷ cert_path
          ∷ " -bind 0.0.0.0:"
          ∷ port
          ∷ " &> /tmp/quic_server.log &"
          ∷ [])))

unfoldable pub get_quic_client_cmd : (String → String) → String → QuicLoaded → Result String
unfolding concat
get_quic_client_cmd expanduser server_ip x =
    if is_text x.impl "quiche"
    then Errors.◌>>=◌ (added x.port) (λ port. ok (
        concat (
          expanduser "/home/achraf/quiche/target/release/quiche-client"
          ∷ " https://"
          ∷ server_ip
          ∷ ":"
          ∷ port
          ∷ "/test.txt"
          ∷ (if is_text x.no_verify "1" then " --no-verify" else "")
          ∷ " &> /tmp/quic_client.log"
          ∷ [])))
    else Errors.◌>>=◌ (int_of x.multipath) (λ multipath. Errors.◌>>=◌ (added x.port) λ port. ok (
        concat (
          go_run "quic-go/example/client_benchmarker_cached/main.go"
          ∷ (if positive multipath then " -m" else "")
          ∷ " https://"
          ∷ server_ip
          ∷ ":"
          ∷ port
          ∷ "/random &>/tmp/quic_client.log"
          ∷ [])))

module _ {F : Type 0} (env : Env) (c : TopoConfig F) (p : Parameter) where
  module _ (expanduser : String → String) (is_multi_client : Bool) where
    unfoldable pub load_quic : Run (Experiment F) QuicLoaded
    load_quic = do
      multipath ← lift (Parameter.get p "quicMultipath")
      impl ← lift (Parameter.get p "quicImpl")
      port ← lift (Parameter.get p "quicPort")
      cert_path ← lift (Parameter.get p "quicCertPath")
      no_verify ← lift (Parameter.get p "quicNoVerify")
      pure (record {
        multipath = multipath;
        impl = impl;
        port = port;
        cert_path = cert_path;
        no_verify = no_verify;
      })

    unfoldable pub quic_prepare : Loaded → Run (Experiment F) Unit
    quic_prepare file = do
      prepare_file env c p file
      command_on env c.client "rm /tmp/quic_client.log"
      command_on env c.server "rm /tmp/quic_server.log"
      command_on env c.server "echo hello quiche > /tmp/test.txt"

    -- `self.topo_config.cong_servers`, and so on: no configuration has these attributes, so that the
    -- loops over them raise where the configuration is one of several clients.
    unfoldable pub over_congestion : Run (Experiment F) Unit
    over_congestion = if is_multi_client then lift (err attribute_error) else pure tt

    unfoldable pub quic_run : QuicLoaded → Run (Experiment F) Unit
    unfolding concat
    quic_run x = do
      server_cmd ← lift (get_quic_server_cmd expanduser x)
      command_on env c.server "netstat -sn > netstat_server_before"
      command_on env c.server server_cmd
      command_on env c.server "ps -ef | grep -i quiche-server | grep -v grep | cat"
      port ← lift (added x.port)
      command_on env c.server (concat ("ss -lunp | grep :" ∷ port ∷ " | cat" ∷ []))
      command_on env c.server "sleep 1; echo 'exit:' $?; head -n 60 quic_server.log | cat"
      over_congestion
      command_on env c.client "sleep 2"
      command_on env c.client "netstat -sn > netstat_client_before"
      over_congestion
      server_ip ← lift (c.get_server_ip 0)
      client_cmd ← lift (get_quic_client_cmd expanduser server_ip x)
      command_on env c.client client_cmd
      command_on env c.server "netstat -sn > netstat_server_after"
      command_on env c.client "netstat -sn > netstat_client_after"
      over_congestion
      command_on env c.server (concat ("pkill -f " ∷ quic_server_file ∷ []))
      command_on env c.server "pkill -f quiche-server || true"
      over_congestion
      command_on env c.client "sleep 2"
      command_on env c.client "rm -r /tmp/go-build*"
      command_on env c.client "rm cache_*"

    -- `QUIC(...)`, which overrides `ping`, and its `classic_run`.
    unfoldable pub quic_experiment : Run (Experiment F) Unit
    quic_experiment = do
      file ← load_parameters env c p
      x ← load_quic
      ping_first_server env c p
      classic_run env c p (quic_prepare file) (quic_run x) (clean_file env c p file)

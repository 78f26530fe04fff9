-- ===== src/Experiments/SiriCombined.antt =====
-- experiments/siri_msg.py and siri_http.py, which combine Siri with another experiment.
use minitopo.Base.{String, [], ◌∷◌, Option}
use minitopo.Errors.{err, attribute_error}
use minitopo.Text.{concat}
use minitopo.Parameter
use minitopo.Parameter.{Parameter, Value, formatted}
use minitopo.Network.{Env}
use minitopo.Run.{Run, pure, lift, ◌>>=◌, ◌>>◌}
use minitopo.Experiment.{Experiment, TopoConfig}
use minitopo.Experiment.Phases.{prepare, clean, classic_run}
use minitopo.Experiments.{command_on, ping_first_server}
use minitopo.Experiments.Streams.{
  msg_parameter, get_msg_server_cmd, get_msg_client_cmd, msg_prepare,
}
use minitopo.Experiments.Siri.{
  siri_defaults, SiriLoaded, get_siri_server_cmd, get_siri_client_cmd, load_siri, siri_prepare,
}

-- `SiriMsgParameter`: the defaults of `MsgParameter`, then those of `SiriParameter`.
unfoldable pub siri_msg_parameter : Option String → Parameter
unfolding siri_defaults msg_parameter
siri_msg_parameter contents = siri_defaults (msg_parameter contents)

-- Those of `Msg.load_parameters`.
pub record MsgLoaded : Type 0 where
  pub client_sleep : Value
  pub server_sleep : Value
  pub nb_requests : Value
  pub bytes : Value

module _ {F : Type 0} (env : Env) (dir : String) (c : TopoConfig F) (p : Parameter) where
  unfoldable pub load_msg : Run (Experiment F) MsgLoaded
  load_msg = do
    client_sleep ← lift (Parameter.get p "msgClientSleep")
    server_sleep ← lift (Parameter.get p "msgServerSleep")
    nb_requests ← lift (Parameter.get p "msgNbRequests")
    bytes ← lift (Parameter.get p "msgBytes")
    pure (record {
      client_sleep = client_sleep;
      server_sleep = server_sleep;
      nb_requests = nb_requests;
      bytes = bytes;
    })

  -- `SiriMsg.prepare` calls `Siri.prepare`, which goes on to `Msg.prepare`, and then `Msg.prepare`.
  unfoldable pub siri_msg_prepare : Run (Experiment F) Unit
  siri_msg_prepare = do siri_prepare env dir c p (msg_prepare env c p); msg_prepare env c p

  -- So does `SiriMsg.clean`, where neither of the two adds anything.
  unfoldable pub siri_msg_clean : Run (Experiment F) Unit
  siri_msg_clean = do clean env c p; clean env c p

  unfoldable pub siri_msg_run : SiriLoaded → MsgLoaded → Run (Experiment F) Unit
  unfolding concat
  siri_msg_run x y = do
    command_on env c.server "netstat -sn > netstat_server_before"
    command_on env c.server (get_siri_server_cmd dir)
    command_on env c.server (get_msg_server_cmd dir y.server_sleep y.bytes)
    command_on env c.client "sleep 2"
    command_on env c.client "netstat -sn > netstat_client_before"
    command_on env c.client
        (concat (get_msg_client_cmd dir y.client_sleep y.nb_requests y.bytes ∷ "&" ∷ []))
    server_ip ← lift (c.get_server_ip 0)
    command_on env c.client (get_siri_client_cmd dir server_ip x)
    command_on env c.server "netstat -sn > netstat_server_after"
    command_on env c.client "netstat -sn > netstat_client_after"
    command_on env c.server "pkill -f siri_server.py"
    command_on env c.server "pkill -f msg_server.py"
    command_on env c.server "pkill -f msg_client.py"
    command_on env c.client "sleep 2"

  -- The constructor of `Msg` loads and pings, and that of `Siri`, which has called it, does so again.
  unfoldable pub siri_msg_experiment : Run (Experiment F) Unit
  siri_msg_experiment = do
    load_siri env dir c p
    load_msg
    ping_first_server env c p
    x ← load_siri env dir c p
    y ← load_msg
    ping_first_server env c p
    classic_run env c p siri_msg_prepare (siri_msg_run x y) siri_msg_clean

  -- `RandomFileExperiment.prepare` asks for `self.file`, which nothing has set: `SiriHTTP` loads the
  -- parameters of `Siri` only.
  unfoldable pub siri_http_prepare : Run (Experiment F) Unit
  siri_http_prepare = do
    siri_prepare env dir c p
        (prepare env c p >> lift {S = Experiment F} {A = Unit} (err attribute_error))
    command_on env c.client "rm siri_client.log"
    command_on env c.server "rm siri_server.log"
    command_on env c.client "rm http_client.log"
    command_on env c.server "rm http_server.log"

  -- `get_http_client_cmd` asks for `self.file` too, and what is behind it is not reached.
  unfoldable pub siri_http_run : SiriLoaded → Run (Experiment F) Unit
  siri_http_run x = do
    command_on env c.server "netstat -sn > netstat_server_before"
    command_on env c.server (get_siri_server_cmd dir)
    command_on env c.server "/etc/init.d/apache2 restart &>siri_server.log&"
    command_on env c.client "sleep 2"
    command_on env c.client "netstat -sn > netstat_client_before"
    server_ip ← lift (c.get_server_ip 0)
    lift {S = Experiment F} {A = Unit} (err attribute_error)

  -- The constructor of `RandomFileExperiment` loads and pings, and that of `Siri` does so again.
  unfoldable pub siri_http_experiment : Run (Experiment F) Unit
  siri_http_experiment = do
    load_siri env dir c p
    ping_first_server env c p
    x ← load_siri env dir c p
    ping_first_server env c p
    classic_run env c p siri_http_prepare (siri_http_run x)
        (clean env c p >> lift {S = Experiment F} {A = Unit} (err attribute_error))

-- ===== src/Experiments/Siri.antt =====
-- experiments/siri.py. The directory of the program is an argument.
use minitopo.Base.{String, [], ◌∷◌, Option}
use minitopo.Text.{concat}
use minitopo.Parameter
use minitopo.Parameter.{Parameter, Value, formatted}
use minitopo.Network.{Env}
use minitopo.Run.{Run, pure, lift, ◌>>=◌, ◌>>◌}
use minitopo.Experiment.{Experiment, TopoConfig, load_parameter}
use minitopo.Experiment.Phases.{prepare, clean, classic_run}
use minitopo.Experiments.{with_defaults, command_on, ping_first_server}

-- `siriRunTime` has no default.
unfoldable pub siri_defaults : Parameter → Parameter
unfolding with_defaults
siri_defaults = with_defaults (
    ("siriQuerySize", "2500")
    ∷ ("siriResponseSize", "750")
    ∷ ("siriDelayQueryResponse", "0")
    ∷ ("siriMinPayloadSize", "85")
    ∷ ("siriMaxPayloadSize", "500")
    ∷ ("siriIntervalTimeMs", "333")
    ∷ ("siriBufferSize", "9")
    ∷ ("siriBurstSize", "0")
    ∷ ("siriIntervalBurstTimeMs", "0")
    ∷ [])

unfoldable pub siri_parameter : Option String → Parameter
unfolding siri_defaults load_parameter
siri_parameter contents = siri_defaults (load_parameter contents)

-- The attributes that `Siri.load_parameters` sets.
pub record SiriLoaded : Type 0 where
  pub run_time : Value
  pub query_size : Value
  pub response_size : Value
  pub delay_query_response : Value
  pub min_payload_size : Value
  pub max_payload_size : Value
  pub interval_time_ms : Value
  pub buffer_size : Value
  pub burst_size : Value
  pub interval_burst_time_ms : Value

unfoldable pub get_siri_server_cmd : String → String
unfolding concat
get_siri_server_cmd dir =
    concat ("python3 " ∷ dir ∷ "/../utils/siri_server.py &> siri_server.log&" ∷ [])

unfoldable pub get_siri_client_cmd : String → String → SiriLoaded → String
unfolding concat formatted
get_siri_client_cmd dir server_ip x = concat (
    "java -jar "
    ∷ dir
    ∷ "/../utils/siriClient.jar "
    ∷ server_ip
    ∷ " 8080 "
    ∷ formatted x.run_time
    ∷ " "
    ∷ formatted x.query_size
    ∷ " "
    ∷ formatted x.response_size
    ∷ " "
    ∷ formatted x.delay_query_response
    ∷ " "
    ∷ formatted x.min_payload_size
    ∷ " "
    ∷ formatted x.max_payload_size
    ∷ " "
    ∷ formatted x.interval_time_ms
    ∷ " "
    ∷ formatted x.buffer_size
    ∷ " "
    ∷ formatted x.burst_size
    ∷ " "
    ∷ formatted x.interval_burst_time_ms
    ∷ " > siri_client.log 2> siri_client.err"
    ∷ [])

module _ {F : Type 0} (env : Env) (dir : String) (c : TopoConfig F) (p : Parameter) where
  unfoldable pub load_siri : Run (Experiment F) SiriLoaded
  load_siri = do
    run_time ← lift (Parameter.get p "siriRunTime")
    query_size ← lift (Parameter.get p "siriQuerySize")
    response_size ← lift (Parameter.get p "siriResponseSize")
    delay_query_response ← lift (Parameter.get p "siriDelayQueryResponse")
    min_payload_size ← lift (Parameter.get p "siriMinPayloadSize")
    max_payload_size ← lift (Parameter.get p "siriMaxPayloadSize")
    interval_time_ms ← lift (Parameter.get p "siriIntervalTimeMs")
    buffer_size ← lift (Parameter.get p "siriBufferSize")
    burst_size ← lift (Parameter.get p "siriBurstSize")
    interval_burst_time_ms ← lift (Parameter.get p "siriIntervalBurstTimeMs")
    pure (record {
      run_time = run_time;
      query_size = query_size;
      response_size = response_size;
      delay_query_response = delay_query_response;
      min_payload_size = min_payload_size;
      max_payload_size = max_payload_size;
      interval_time_ms = interval_time_ms;
      buffer_size = buffer_size;
      burst_size = burst_size;
      interval_burst_time_ms = interval_burst_time_ms;
    })

  -- `Siri.prepare`, over the `prepare` of the next class.
  unfoldable pub siri_prepare : Run (Experiment F) Unit → Run (Experiment F) Unit
  siri_prepare next = do
    next
    command_on env c.client "rm siri_client.log"
    command_on env c.server "rm siri_server.log"

  unfoldable pub siri_run : SiriLoaded → Run (Experiment F) Unit
  siri_run x = do
    command_on env c.server "netstat -sn > netstat_server_before"
    command_on env c.server (get_siri_server_cmd dir)
    command_on env c.client "sleep 2"
    server_ip ← lift (c.get_server_ip 0)
    command_on env c.client "netstat -sn > netstat_client_before"
    command_on env c.client (get_siri_client_cmd dir server_ip x)
    command_on env c.server "netstat -sn > netstat_server_after"
    command_on env c.client "netstat -sn > netstat_client_after"
    command_on env c.server "pkill -f siri_server.py"
    command_on env c.client "sleep 2"

  -- `Siri(...)` and its `classic_run`.
  unfoldable pub siri_experiment : Run (Experiment F) Unit
  siri_experiment = do
    x ← load_siri
    ping_first_server env c p
    classic_run env c p (siri_prepare (prepare env c p)) (siri_run x) (clean env c p)

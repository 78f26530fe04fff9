-- ===== src/Experiments/Files.antt =====
-- experiments/http.py, https.py, ab.py and send_file.py: the experiments on a random file. The
-- directory of the program is an argument.
use minitopo.Base.{String, [], ◌∷◌, Option}
use minitopo.Text.{concat}
use minitopo.Parameter
use minitopo.Parameter.{Parameter, Value, formatted}
use minitopo.Network.{Env}
use minitopo.Run.{Run, lift, ◌>>=◌, ◌>>◌}
use minitopo.Experiment.{Experiment, TopoConfig}
use minitopo.Experiment.Phases
use minitopo.Experiment.Phases.{classic_run}
use minitopo.Experiment.RandomFile
use minitopo.Experiment.RandomFile.{
  Loaded, random_file_parameter, load_parameters, prepare_file, clean_file,
}
use minitopo.Experiments.{with_defaults, added, command_on, ping_first_server}

unfoldable pub ab_parameter : Option String → Parameter
unfolding random_file_parameter with_defaults
ab_parameter contents =
    with_defaults (("abConccurentRequests", "50") ∷ ("abTimelimit", "20") ∷ [])
      (random_file_parameter contents)

unfoldable pub http_client_cmd : String → Value → String
unfolding concat formatted
http_client_cmd server_ip file = concat (
    "(time wget http://"
    ∷ server_ip
    ∷ "/"
    ∷ formatted file
    ∷ " --no-check-certificate) &> http_client.log"
    ∷ [])

unfoldable pub https_server_cmd : String → String
unfolding concat
https_server_cmd dir = concat (
    "python " ∷ dir ∷ "/../utils/https_server.py " ∷ dir
    ∷ "/../utils/server.pem &> https_server.log&" ∷ [])

unfoldable pub https_client_cmd : String → String → String
unfolding concat
https_client_cmd server_ip file = concat (
    "(time wget https://" ∷ server_ip ∷ "/" ∷ file ∷ " --no-check-certificate) &>https_client.log"
    ∷ [])

unfoldable pub ab_server_cmd : String → String
unfolding concat
ab_server_cmd dir =
    concat ("python " ∷ dir ∷ "/../utils/http_server.py &> ab_server.log 2>&1 &" ∷ [])

unfoldable pub ab_client_cmd : Value → Value → String → Value → String
unfolding concat formatted
ab_client_cmd concurrent_requests time_limit server_ip file = concat (
    "ab -c "
    ∷ formatted concurrent_requests
    ∷ " -t "
    ∷ formatted time_limit
    ∷ " http://"
    ∷ server_ip
    ∷ "/"
    ∷ formatted file
    ∷ " &> ab_client.log"
    ∷ [])

unfoldable pub send_file_client_cmd : String → String
unfolding concat
send_file_client_cmd server_ip = concat ("./client " ∷ server_ip ∷ " &>sendfile_client.log" ∷ [])

module _ {F : Type 0} (env : Env) (dir : String) (c : TopoConfig F) (p : Parameter) where
  -- `prepare` of an experiment with these two logs.
  unfoldable pub prepare_logs : String → String → Loaded → Run (Experiment F) Unit
  prepare_logs client_log server_log x = do
    prepare_file env c p x
    command_on env c.client (concat ("rm " ∷ client_log ∷ []))
    command_on env c.server (concat ("rm " ∷ server_log ∷ []))

  unfoldable pub http_run : Loaded → Run (Experiment F) Unit
  http_run x = do
    command_on env c.server "netstat -sn > netstat_server_before"
    command_on env c.server "python3 -m http.server 80 &> http_server.log&"
    command_on env c.client "sleep 2"
    server_ip ← lift (c.get_server_ip 0)
    command_on env c.client "netstat -sn > netstat_client_before"
    command_on env c.client (http_client_cmd server_ip x.file)
    command_on env c.server "netstat -sn > netstat_server_after"
    command_on env c.client "netstat -sn > netstat_client_after"
    command_on env c.client "sleep 2"

  -- `HTTP(...)` and its `classic_run`.
  unfoldable pub http_experiment : Run (Experiment F) Unit
  http_experiment = do
    x ← RandomFile.init env c p
    classic_run env c p (prepare_logs "http_client.log" "http_server.log" x) (http_run x)
        (clean_file env c p x)

  unfoldable pub https_run : Loaded → Run (Experiment F) Unit
  https_run x = do
    command_on env c.server "netstat -sn > netstat_server_before"
    command_on env c.server (https_server_cmd dir)
    command_on env c.client "sleep 2"
    server_ip ← lift (c.get_server_ip 0)
    file ← lift (added x.file)
    command_on env c.client "netstat -sn > netstat_client_before"
    command_on env c.client (https_client_cmd server_ip file)
    command_on env c.server "netstat -sn > netstat_server_after"
    command_on env c.client "netstat -sn > netstat_client_after"
    command_on env c.server "pkill -f https_server.py"
    command_on env c.client "sleep 2"

  -- `HTTPS(...)` and its `classic_run`.
  unfoldable pub https_experiment : Run (Experiment F) Unit
  https_experiment = do
    x ← RandomFile.init env c p
    classic_run env c p (prepare_logs "https_client.log" "https_server.log" x) (https_run x)
        (clean_file env c p x)

  unfoldable pub ab_run : Value → Value → Loaded → Run (Experiment F) Unit
  ab_run concurrent_requests time_limit x = do
    command_on env c.server (ab_server_cmd dir)
    command_on env c.client "sleep 15"
    server_ip ← lift (c.get_server_ip 0)
    command_on env c.client (ab_client_cmd concurrent_requests time_limit server_ip x.file)
    command_on env c.client "sleep 2"

  -- `AB(...)` and its `classic_run`; the parameters are loaded before the ping.
  unfoldable pub ab_experiment : Run (Experiment F) Unit
  ab_experiment = do
    x ← load_parameters env c p
    concurrent_requests ← lift (Parameter.get p "abConccurentRequests")
    time_limit ← lift (Parameter.get p "abTimelimit")
    Phases.ping env c p
    classic_run env c p (prepare_logs "ab_client.log" "ab_server.log" x)
        (ab_run concurrent_requests time_limit x) (clean_file env c p x)

  unfoldable pub send_file_run : Run (Experiment F) Unit
  send_file_run = do
    command_on env c.server "./server &>sendfile_server.log&"
    command_on env c.client "sleep 0.1"
    server_ip ← lift (c.get_server_ip 0)
    command_on env c.client (send_file_client_cmd server_ip)
    command_on env c.client "sleep 2"

  -- `SendFile(...)`, which overrides `ping`, and its `classic_run`.
  unfoldable pub send_file_experiment : Run (Experiment F) Unit
  send_file_experiment = do
    x ← load_parameters env c p
    ping_first_server env c p
    classic_run env c p (prepare_logs "sendfile_client.log" "sendfile_server.log" x) send_file_run
        (clean_file env c p x)

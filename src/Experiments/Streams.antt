-- ===== src/Experiments/Streams.antt =====
-- experiments/quic_siri.py, vlc.py and msg.py. The directory of the program is an argument.
use minitopo.Base.{String, [], ◌∷◌, Option, ltb, if◌then◌else◌}
use minitopo.Base.Int.{ℤ, pos, negsuc}
use minitopo.Errors.{err, type_error}
use minitopo.Text.{concat}
use minitopo.Parameter
use minitopo.Parameter.{Parameter, Value, formatted}
use minitopo.Network.{Env}
use minitopo.Run.{Run, pure, lift, ◌>>=◌, ◌>>◌}
use minitopo.TopoParameter.{is_text}
use minitopo.Experiment.{Experiment, TopoConfig, load_parameter}
use minitopo.Experiment.Phases.{prepare, clean, ping, classic_run, int_of}
use minitopo.Experiments.{with_defaults, added, command_on, ping_first_server}

-- `quicSiriRunTime` has no default.
unfoldable pub quic_siri_parameter : Option String → Parameter
unfolding load_parameter with_defaults
quic_siri_parameter contents = with_defaults (("quicMultipath", "0") ∷ []) (load_parameter contents)

abbrev siri_server_file : String
siri_server_file = "~/go/src/github.com/lucas-clemente/quic-go/example/siri/siri.go"

abbrev siri_client_file : String
siri_client_file = "~/go/src/github.com/lucas-clemente/quic-go/example/siri/client/siri.go"

unfoldable pub get_quic_siri_server_cmd : String
unfolding concat
get_quic_siri_server_cmd = concat (
    "/usr/local/go/bin/go run " ∷ siri_server_file ∷ " -addr 0.0.0.0:8080 &> quic_server.log &"
    ∷ [])

-- `"-m" if … > 0 else ""`
multipath_flag : ℤ → String
multipath_flag (pos n) = if ltb 0 n then "-m" else ""
multipath_flag (negsuc n) = ""

unfoldable pub get_quic_siri_client_cmd : String → Value → ℤ → String
unfolding concat formatted multipath_flag
get_quic_siri_client_cmd server_ip run_time multipath = concat (
    "/usr/local/go/bin/go run "
    ∷ siri_client_file
    ∷ " -addr "
    ∷ server_ip
    ∷ ":8080 -runTime "
    ∷ formatted run_time
    ∷ "s "
    ∷ multipath_flag multipath
    ∷ " &> quic_client.log"
    ∷ [])

-- The ampersand follows the test of the time.
unfoldable pub get_vlc_client_cmd : String → Value → Value → String
unfolding concat formatted
get_vlc_client_cmd server_ip file time = concat (
    "export LD_LIBRARY_PATH=$LD_LIBRARY_PATH:/home/mininet/usr/lib/ && sudo ldconfig && "
    ∷ "            /home/mininet/vlc/vlc -I dummy --x11-display :66 --adaptive-logic 3 "
    ∷ "--no-loop --play-and-exit                 http://"
    ∷ server_ip
    ∷ "/"
    ∷ formatted file
    ∷ " 2>&1 | grep -E '(Neb|halp|bandwidth|late|Buffering|buffering)' > vlc_client.log "
    ∷ (if is_text time "0" then "" else "&")
    ∷ [])

unfoldable pub msg_parameter : Option String → Parameter
unfolding load_parameter with_defaults
msg_parameter contents =
    with_defaults
      (("msgClientSleep", "5.0")
        ∷ ("msgServerSleep", "5.0")
        ∷ ("msgNbRequests", "5")
        ∷ ("msgBytes", "1200")
        ∷ [])
      (load_parameter contents)

unfoldable pub get_msg_server_cmd : String → Value → Value → String
unfolding concat formatted
get_msg_server_cmd dir server_sleep bytes = concat (
    "python "
    ∷ dir
    ∷ "/../utils/msg_server.py --sleep "
    ∷ formatted server_sleep
    ∷ " --bytes "
    ∷ formatted bytes
    ∷ " &> msg_server.log&"
    ∷ [])

-- Without `daemon`.
unfoldable pub get_msg_client_cmd : String → Value → Value → Value → String
unfolding concat formatted
get_msg_client_cmd dir client_sleep nb_requests bytes = concat (
    "python "
    ∷ dir
    ∷ "/../utils/msg_client.py --sleep "
    ∷ formatted client_sleep
    ∷ " --nb "
    ∷ formatted nb_requests
    ∷ " --bytes "
    ∷ formatted bytes
    ∷ " > msg_client.log 2> msg_client.err "
    ∷ [])

module _ {F : Type 0} (env : Env) (c : TopoConfig F) (p : Parameter) where
  unfoldable pub quic_siri_prepare : Run (Experiment F) Unit
  quic_siri_prepare = do
    prepare env c p
    command_on env c.client "rm quic_client.log"
    command_on env c.server "rm quic_server.log"

  unfoldable pub quic_siri_run : Value → Value → Run (Experiment F) Unit
  quic_siri_run run_time multipath = do
    command_on env c.server "netstat -sn > netstat_server_before"
    command_on env c.server get_quic_siri_server_cmd
    command_on env c.client "sleep 2"
    server_ip ← lift (c.get_server_ip 0)
    level ← lift (int_of multipath)
    command_on env c.client "netstat -sn > netstat_client_before"
    command_on env c.client (get_quic_siri_client_cmd server_ip run_time level)
    command_on env c.server "netstat -sn > netstat_server_after"
    command_on env c.client "netstat -sn > netstat_client_after"
    command_on env c.server (concat ("pkill -f " ∷ siri_server_file ∷ []))
    command_on env c.client "sleep 2"
    command_on env c.client "rm -r /tmp/go-build*"

  -- `QUICSiri(...)` and its `classic_run`.
  unfoldable pub quic_siri_experiment : Run (Experiment F) Unit
  quic_siri_experiment = do
    run_time ← lift (Parameter.get p "quicSiriRunTime")
    multipath ← lift (Parameter.get p "quicMultipath")
    ping_first_server env c p
    classic_run env c p quic_siri_prepare (quic_siri_run run_time multipath) (clean env c p)

  unfoldable pub vlc_prepare : Run (Experiment F) Unit
  vlc_prepare = do
    prepare env c p
    command_on env c.client "rm vlc_client.log"
    command_on env c.client "Xvfb :66 &"
    command_on env c.server "rm vlc_server.log"

  unfoldable pub vlc_run : Value → Value → Run (Experiment F) Unit
  vlc_run file time = do
    command_on env c.server "/etc/init.d/apache2 restart &> vlc_server.log"
    command_on env c.client "sleep 1"
    server_ip ← lift (c.get_server_ip 0)
    command_on env c.client (get_vlc_client_cmd server_ip file time)
    if is_text time "0" then pure tt else (do
      seconds ← lift (added time)
      command_on env c.client (concat ("sleep " ∷ seconds ∷ []))
      command_on env c.client "pkill -9 -f vlc")
    command_on env c.client "sleep 2"

  -- `super().clean(self)` passes one argument too many, which raises before anything is done.
  unfoldable pub vlc_clean : Run (Experiment F) Unit
  vlc_clean = do
    lift {S = Experiment F} {A = Unit} (err type_error)
    command_on env c.client "pkill Xvfb"

  -- `VLC(...)` and its `classic_run`; its parameters are the plain `ExperimentParameter`.
  unfoldable pub vlc_experiment : Run (Experiment F) Unit
  vlc_experiment = do
    file ← lift (Parameter.get p "vlcFile")
    time ← lift (Parameter.get p "vlcTime")
    ping_first_server env c p
    classic_run env c p vlc_prepare (vlc_run file time) vlc_clean

  unfoldable pub msg_prepare : Run (Experiment F) Unit
  msg_prepare = do
    prepare env c p
    command_on env c.client "rm msg_client.log"
    command_on env c.server "rm msg_server.log"

  unfoldable pub msg_run : String → Value → Value → Value → Value → Run (Experiment F) Unit
  msg_run dir client_sleep server_sleep nb_requests bytes = do
    command_on env c.server "netstat -sn > netstat_server_before"
    command_on env c.server (get_msg_server_cmd dir server_sleep bytes)
    command_on env c.client "sleep 2"
    command_on env c.client "netstat -sn > netstat_client_before"
    command_on env c.client (get_msg_client_cmd dir client_sleep nb_requests bytes)
    command_on env c.server "netstat -sn > netstat_server_after"
    command_on env c.client "netstat -sn > netstat_client_after"
    command_on env c.server "pkill -f msg_server.py"
    command_on env c.client "sleep 2"

  -- `Msg(...)` and its `classic_run`.
  unfoldable pub msg_experiment : String → Run (Experiment F) Unit
  msg_experiment dir = do
    client_sleep ← lift (Parameter.get p "msgClientSleep")
    server_sleep ← lift (Parameter.get p "msgServerSleep")
    nb_requests ← lift (Parameter.get p "msgNbRequests")
    bytes ← lift (Parameter.get p "msgBytes")
    ping env c p
    classic_run env c p msg_prepare (msg_run dir client_sleep server_sleep nb_requests bytes)
        (clean env c p)

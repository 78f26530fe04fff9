-- ===== src/Experiments/Traffic.antt =====
-- experiments/ditg.py and epload.py.
use minitopo.Base.{String, [], ◌∷◌, Option, not, ◌&&◌, if◌then◌else◌}
use minitopo.Errors
use minitopo.Errors.{Result, ok, err, name_error, index_error, exception, or_raise}
use minitopo.Text.{concat, ◌<>◌}
use minitopo.Parameter
use minitopo.Parameter.{Parameter, Value, formatted}
use minitopo.TopoParameter.{is_text}
use minitopo.Network.{Env}
use minitopo.Run.{Run, pure, lift, ◌>>=◌, ◌>>◌}
use minitopo.Experiment.{Experiment, TopoConfig, load_parameter}
use minitopo.Experiment.Phases.{prepare, clean, ping, classic_run}
use minitopo.Experiments.{with_defaults, added, command_on}

unfoldable pub ditg_parameter : Option String → Parameter
unfolding load_parameter with_defaults
ditg_parameter contents =
    with_defaults
      (("ditgKBytes", "10000")
        ∷ ("ditgConstantPacketSize", "1428")
        ∷ ("ditgMeanPoissonPacketsSec", "0")
        ∷ ("ditgConstantPacketsSec", "0")
        ∷ ("ditgBurstsOnPacketsSec", "0")
        ∷ ("ditgBurstsOffPacketsSec", "0")
        ∷ [])
      (load_parameter contents)

-- The attributes that `DITG.load_parameters` sets.
pub record DitgLoaded : Type 0 where
  pub kbytes : Value
  pub constant_packet_size : Value
  pub mean_poisson_packets_sec : Value
  pub constant_packets_sec : Value
  pub bursts_on_packets_sec : Value
  pub bursts_off_packets_sec : Value

-- `" -c " + value`
abbrev option : String → Value → Result String
option prefix value = Errors.◌>>=◌ (added value) λ v. ok (prefix <> v)

-- The first of the four ways to send that is asked for.
unfoldable ditg_options : DitgLoaded → Result String
unfolding ◌<>◌
ditg_options x =
    if not (is_text x.constant_packet_size "0")
    then option " -c " x.constant_packet_size
    else if not (is_text x.mean_poisson_packets_sec "0")
    then option " -O " x.mean_poisson_packets_sec
    else if not (is_text x.constant_packets_sec "0")
    then option " -C " x.constant_packets_sec
    else if not (is_text x.bursts_on_packets_sec "0") && not (is_text x.bursts_off_packets_sec "0")
    then Errors.◌>>=◌ (option " -B C " x.bursts_on_packets_sec)
        (λ on. Errors.◌>>=◌ (option " C " x.bursts_off_packets_sec) λ off. ok (on <> off))
    else ok ""

unfoldable pub ditg_client_cmd : Result String → DitgLoaded → Result String
unfolding concat ditg_options
ditg_client_cmd server_ip x = Errors.◌>>=◌ server_ip λ ip. Errors.◌>>=◌ (added x.kbytes) λ kbytes.
    Errors.◌>>=◌ (ditg_options x) λ options. ok (
      concat (
        "/home/mininet/D-ITG-2.8.1-r1023/bin/ITGSend -a " ∷ ip ∷ " -T TCP -k " ∷ kbytes
        ∷ " -l snd_log_file" ∷ options
        ∷ " && /home/mininet/D-ITG-2.8.1-r1023/bin/ITGDec snd_log_file &> ditg.log" ∷ []))

-- The dictionary of defaults names a variable that does not exist.
unfoldable pub epload_parameter : Option String → Result Parameter
epload_parameter contents = err name_error

-- `for f in …: sed …` from one text to another.
unfoldable pub sub_host_cmd : Value → Result String → Result String → Result String
unfolding concat
sub_host_cmd test_dir from to = Errors.◌>>=◌ (added test_dir) λ dir. Errors.◌>>=◌ from λ old.
    Errors.◌>>=◌ to λ new. ok (
      concat ("for f in `ls " ∷ dir ∷ "/*`; do  sed -i 's/" ∷ old ∷ "/" ∷ new ∷ "/' $f; done" ∷ []))

unfoldable pub epload_client_cmd : Value → Result String
unfolding concat
epload_client_cmd test_dir = Errors.◌>>=◌ (added test_dir) λ dir. ok (
    concat (
      "/usr/local/nodejs/bin/node /home/mininet/epload/epload/emulator/run.js http " ∷ dir
      ∷ " &>epload.log" ∷ []))

module _ {F : Type 0} (env : Env) (c : TopoConfig F) where
  unfoldable pub load_ditg : Parameter → Run (Experiment F) DitgLoaded
  load_ditg p = do
    kbytes ← lift (Parameter.get p "ditgKBytes")
    constant_packet_size ← lift (Parameter.get p "ditgConstantPacketSize")
    mean_poisson_packets_sec ← lift (Parameter.get p "ditgMeanPoissonPacketsSec")
    constant_packets_sec ← lift (Parameter.get p "ditgConstantPacketsSec")
    bursts_on_packets_sec ← lift (Parameter.get p "ditgBurstsOnPacketsSec")
    bursts_off_packets_sec ← lift (Parameter.get p "ditgBurstsOffPacketsSec")
    pure (record {
      kbytes = kbytes;
      constant_packet_size = constant_packet_size;
      mean_poisson_packets_sec = mean_poisson_packets_sec;
      constant_packets_sec = constant_packets_sec;
      bursts_on_packets_sec = bursts_on_packets_sec;
      bursts_off_packets_sec = bursts_off_packets_sec;
    })

  unfoldable pub ditg_prepare : Parameter → Run (Experiment F) Unit
  ditg_prepare p = do
    prepare env c p
    command_on env c.client "rm ditg.log"
    command_on env c.server "rm ditg_server.log"
    command_on env c.client "rm snd_log_file"

  unfoldable pub ditg_run : DitgLoaded → Run (Experiment F) Unit
  ditg_run x = do
    command_on env c.server "/home/mininet/D-ITG-2.8.1-r1023/bin/ITGRecv -l recv_log_file &"
    command_on env c.client "sleep 2"
    cmd ← lift (ditg_client_cmd (c.get_server_ip 0) x)
    command_on env c.client cmd
    command_on env c.server "pkill -9 -f ITGRecv"
    command_on env c.server
        "/home/mininet/D-ITG-2.8.1-r1023/bin/ITGDec recv_log_file &> ditg_server.log"
    command_on env c.client "sleep 2"

  -- `DITG(...)` and its `classic_run`.
  unfoldable pub ditg_experiment : Parameter → Run (Experiment F) Unit
  ditg_experiment p = do
    x ← load_ditg p
    ping env c p
    classic_run env c p (ditg_prepare p) (ditg_run x) (clean env c p)

  unfoldable pub epload_prepare : Parameter → Run (Experiment F) Unit
  epload_prepare p = do
    prepare env c p
    command_on env c.client "rm epload.log"
    command_on env c.server "rm http_server.log"

  unfoldable pub epload_run : Value → Run (Experiment F) Unit
  epload_run test_dir = do
    command_on env c.server "/etc/init.d/apache2 restart &>http_server.log &"
    command_on env c.client "sleep 2"
    to_host ← lift (sub_host_cmd test_dir (ok "@host@") (c.get_server_ip 0))
    command_on env c.client to_host
    client_cmd ← lift (epload_client_cmd test_dir)
    command_on env c.client client_cmd
    to_mark ← lift (sub_host_cmd test_dir (c.get_server_ip 0) (ok "@host@"))
    command_on env c.client to_mark
    command_on env c.client "sleep 2"
    command_on env c.server
        "ps aux | grep SimpleHTTP | head -1 | tr -s ' ' | cut -d ' ' -f 2 | xargs kill"

  -- `Epload(...)`, given the text of the file, and its `classic_run`.
  unfoldable pub epload_experiment : Option String → Run (Experiment F) Unit
  epload_experiment contents = do
    p ← lift (epload_parameter contents)
    test_dir ← lift (Parameter.get p "test_dir")
    ping env c p
    classic_run env c p (epload_prepare p) (epload_run test_dir) (clean env c p)

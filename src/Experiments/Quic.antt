-- ===== src/Experiments/Quic.antt =====
-- experiments/pquic.py and quic1.py.
use minitopo.Base.{
  ℕ, String, ◌==◌, List, [], ◌∷◌, Option, Bool, true, false, map, ◌||◌, if◌then◌else◌,
}
use minitopo.Base.Int.{ℤ}
use minitopo.Errors
use minitopo.Errors.{Result, ok, err, attribute_error}
use minitopo.Text.{concat, join, ◌<>◌}
use minitopo.Text.Number.{show}
use minitopo.Text.Split.{split}
use minitopo.Parameter
use minitopo.Parameter.{Parameter, Value, text, several, formatted}
use minitopo.TopoParameter.{is_text}
use minitopo.Network.{Env}
use minitopo.Run.{Run, pure, lift, ◌>>=◌, ◌>>◌}
use minitopo.Experiment.{Experiment, TopoConfig, load_parameter}
use minitopo.Experiment.Phases.{prepare, clean, ping, classic_run, int_of}
use minitopo.Experiment.RandomFile.{
  Loaded, random_file_parameter, load_parameters, prepare_file, clean_file,
}
use minitopo.Experiments.{with_defaults, added, command_on}

-- The default of `pquicSize` is a number, whose text stands for it here: only `int` is taken of it.
unfoldable pub pquic_parameter : Option String → Parameter
unfolding load_parameter with_defaults
pquic_parameter contents =
    with_defaults
      (("pquicPlugins", "")
        ∷ ("pquicClientPlugins", "")
        ∷ ("pquicServerPlugins", "")
        ∷ ("pquicSize", "10240000")
        ∷ [])
      (load_parameter contents)

-- The attributes that `PQUIC.load_parameters` sets.
pub record PquicLoaded : Type 0 where
  pub plugins : Value
  pub client_plugins : Value
  pub server_plugins : Value
  pub size : ℤ

plugin_options : Value → Result String
unfolding join split concat
plugin_options (several ss) = err attribute_error
plugin_options (text s) = ok (join " " (map (λ p. concat (" -P " ∷ p ∷ " " ∷ [])) (split b',' s)))

unfoldable get_plugin_cmd : PquicLoaded → Bool → Result String
unfolding plugin_options
get_plugin_cmd x client =
    let own = if client then x.client_plugins else x.server_plugins in
    let device_plugins = if is_text own "" then x.plugins else own in
    if is_text device_plugins "" then ok "" else plugin_options device_plugins

unfoldable pub get_pquic_server_cmd : PquicLoaded → Result String
unfolding get_plugin_cmd concat
get_pquic_server_cmd x = Errors.◌>>=◌ (get_plugin_cmd x false) λ plugins. ok (
    concat (
      "/home/achraf/pquic/picoquicdemo " ∷ plugins
      ∷ " -c /home/achraf/pquic/certs/cert.pem -k /home/achraf/pquic/certs/key.pem"
      ∷ " &> pquic_server.log &" ∷ []))

unfoldable pub get_pquic_client_cmd : Result String → PquicLoaded → Result String
unfolding get_plugin_cmd concat show
get_pquic_client_cmd server_ip x = Errors.◌>>=◌ (get_plugin_cmd x true) λ plugins.
    Errors.◌>>=◌ server_ip λ ip. ok (
      concat (
        "/home/achraf/pquic/picoquicdemo "
        ∷ plugins
        ∷ " -4 -G "
        ∷ show x.size
        ∷ " "
        ∷ ip
        ∷ " 4443 &> pquic_client.log"
        ∷ []))

unfoldable pub quiche_parameter : Option String → Parameter
unfolding random_file_parameter with_defaults
quiche_parameter contents =
    with_defaults
      (("quicPort", "6121")
        ∷ ("quicCertPath", "/home/achraf/quiche/certs")
        ∷ ("quicNoVerify", "1")
        ∷ [])
      (random_file_parameter contents)

-- Does the text end in this character?
unfoldable ends_with : ℕ → String → Bool
ends_with n String.[] = false
ends_with n (String.◌∷◌ c String.[]) = minitopo.Base.eqb (minitopo.Base.code c) n
ends_with n (String.◌∷◌ c s) = ends_with n s

-- `os.path.join(path, name)`, for a name that does not start with `/`.
unfoldable pub path_join : String → String → String
unfolding ends_with ◌<>◌
path_join path name =
    if path == "" || ends_with b'/' path then path <> name else path <> "/" <> name

-- What is appended to `super().load_parameters()`.
pub record QuicheLoaded : Type 0 where
  pub port : Value
  pub cert_path : Value
  pub no_verify : Value

abbrev quiche_server : String → String
quiche_server port = concat (
    "/home/achraf/quiche/target/release/quiche-server --listen 0.0.0.0:" ∷ port
    ∷ " --root /tmp --cert /tmp/certs/cert.pem --key /tmp/certs/key.pem" ∷ [])

-- `_server_cmd`
unfoldable pub quiche_server_cmd : Value → Result String
unfolding concat
quiche_server_cmd port =
    Errors.◌>>=◌ (added port)
      λ port. ok (concat (quiche_server port ∷ " &> /tmp/quic_server.log &" ∷ []))

-- `_client_cmd`
unfoldable pub quiche_client_cmd : String → QuicheLoaded → Result String
unfolding concat
quiche_client_cmd server_ip x = Errors.◌>>=◌ (added x.port) λ port. ok (
    concat (
      "/home/achraf/quiche/target/release/quiche-client https://"
      ∷ server_ip
      ∷ ":"
      ∷ port
      ∷ "/test.txt"
      ∷ (if is_text x.no_verify "1" then " --no-verify" else "")
      ∷ " &> /tmp/quic_client.log"
      ∷ []))

module _ {F : Type 0} (env : Env) (c : TopoConfig F) (p : Parameter) where
  unfoldable pub load_pquic : Run (Experiment F) PquicLoaded
  load_pquic = do
    plugins ← lift (Parameter.get p "pquicPlugins")
    client_plugins ← lift (Parameter.get p "pquicClientPlugins")
    server_plugins ← lift (Parameter.get p "pquicServerPlugins")
    text_of_size ← lift (Parameter.get p "pquicSize")
    size ← lift (int_of text_of_size)
    pure (record {
      plugins = plugins;
      client_plugins = client_plugins;
      server_plugins = server_plugins;
      size = size;
    })

  unfoldable pub pquic_prepare : Run (Experiment F) Unit
  pquic_prepare = do
    prepare env c p
    command_on env c.client "rm pquic_client.log"
    command_on env c.server "rm pquic_server.log"

  unfoldable pub pquic_run : PquicLoaded → Run (Experiment F) Unit
  pquic_run x = do
    server_cmd ← lift (get_pquic_server_cmd x)
    command_on env c.server server_cmd
    command_on env c.client "sleep 2"
    client_cmd ← lift (get_pquic_client_cmd (c.get_server_ip 0) x)
    command_on env c.client client_cmd
    command_on env c.client "sleep 2"

  -- `PQUIC(...)` and its `classic_run`.
  unfoldable pub pquic_experiment : Run (Experiment F) Unit
  pquic_experiment = do
    x ← load_pquic
    ping env c p
    classic_run env c p pquic_prepare (pquic_run x) (clean env c p)

  unfoldable pub load_quiche : Run (Experiment F) QuicheLoaded
  load_quiche = do
    port ← lift (Parameter.get p "quicPort")
    cert_path ← lift (Parameter.get p "quicCertPath")
    no_verify ← lift (Parameter.get p "quicNoVerify")
    pure (record { port = port; cert_path = cert_path; no_verify = no_verify })

  unfoldable pub quiche_prepare : Loaded → QuicheLoaded → Run (Experiment F) Unit
  unfolding concat path_join
  quiche_prepare file x = do
    prepare_file env c p file
    command_on env c.server "rm -f /tmp/quic_server.log"
    command_on env c.client "rm -f /tmp/quic_client.log"
    command_on env c.server "echo hello quiche > /tmp/test.txt"
    cert_path ← lift (added x.cert_path)
    command_on env c.server (
        concat
          ("mkdir -p /tmp/certs && cp -f " ∷ path_join cert_path "*" ∷ " /tmp/certs/ || true" ∷ []))

  unfoldable pub quiche_run : QuicheLoaded → Run (Experiment F) Unit
  unfolding concat
  quiche_run x = do
    server_cmd ← lift (quiche_server_cmd x.port)
    command_on env c.server server_cmd
    port ← lift (added x.port)
    command_on env c.server
        (concat ("timeout 3s " ∷ quiche_server port ∷ " 2>&1 | head -n 80 | cat || true" ∷ []))
    command_on env c.server "ps -ef | grep -i quiche-server | grep -v grep | cat"
    command_on env c.server (concat ("ss -lunp | grep :" ∷ port ∷ " | cat" ∷ []))
    command_on env c.server "head -n 80 /tmp/quic_server.log | cat"
    command_on env c.client "sleep 1"
    server_ip ← lift (c.get_server_ip 0)
    client_cmd ← lift (quiche_client_cmd server_ip x)
    command_on env c.client client_cmd
    command_on env c.client "head -n 80 /tmp/quic_client.log | cat"
    command_on env c.server (
        concat (
          "test -f /tmp/quic_server.log && cat /tmp/quic_server.log | "
          ∷ "tee -a logs/quic_server.ns.log >/dev/null || true" ∷ []))
    command_on env c.client (
        concat (
          "test -f /tmp/quic_client.log && cat /tmp/quic_client.log | "
          ∷ "tee -a logs/quic_client.ns.log >/dev/null || true" ∷ []))
    command_on env c.server "pkill -f quiche-server || true"

  -- `QuicheHTTP3(...)` and its `classic_run`.
  unfoldable pub quiche_experiment : Run (Experiment F) Unit
  quiche_experiment = do
    file ← load_parameters env c p
    x ← load_quiche
    ping env c p
    classic_run env c p (quiche_prepare file x) (quiche_run x) (clean_file env c p file)

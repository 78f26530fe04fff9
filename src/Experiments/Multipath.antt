-- ===== src/Experiments/Multipath.antt =====
-- experiments/quic_mpath.py.
use minitopo.Base.{String, [], ◌∷◌, ◌||◌, if◌then◌else◌}
use minitopo.Base.Int.{ℤ, pos}
use minitopo.Errors.{Result, ok}
use minitopo.Text.{concat}
use minitopo.Text.Number.{show}
use minitopo.Parameter
use minitopo.Parameter.{Parameter, Value, formatted}
use minitopo.TopoParameter.{is_text}
use minitopo.Network.{Env}
use minitopo.Run.{Run, pure, lift, ◌>>=◌, ◌>>◌}
use minitopo.Experiment.{Experiment, TopoConfig}
use minitopo.Experiment.Phases.{prepare, clean, classic_run, int_of}
use minitopo.Experiments.{command_on}

-- `try: … except Exception: …`, where the handler only prints.
unfoldable pub caught : {S : Type 0} → Run S Unit → Run S Unit
caught m s = let (r, t) = m s in (ok tt, t)

-- `int(cap_raw) if cap_raw not in (None, "", "None") else 200`
unfoldable pub count_of : Value → Result ℤ
count_of value = if is_text value "" || is_text value "None" then ok (pos 200) else int_of value

module _ {F : Type 0} (env : Env) (c : TopoConfig F) (p : Parameter) where
  -- The text of a parameter in an f-string.
  abbrev text_of : String → Run (Experiment F) String
  text_of key = do value ← lift (Parameter.get p key); pure (formatted value)

  unfoldable pub mpath_capture : String → String → String → String → Run (Experiment F) Unit
  unfolding concat
  mpath_capture interface port cap_count path = command_on env c.router (
      concat (
        "tcpdump -ni " ∷ interface ∷ " udp port " ∷ port ∷ " -c " ∷ cap_count
        ∷ " -U -vvv -w /tmp/path" ∷ path ∷ ".pcap 2> /tmp/tcpdump" ∷ path ∷ ".err &" ∷ []))

  unfoldable pub mpath_client : String → String → String → String → String → Run (Experiment F) Unit
  unfolding concat
  mpath_client client_ip client_bin server_ip port path = command_on env c.client (
      concat (
        "LOCAL_BIND=" ∷ client_ip ∷ " " ∷ client_bin ∷ " https://" ∷ server_ip ∷ ":" ∷ port
        ∷ "/ --no-verify > /tmp/client" ∷ path ∷ ".log 2>&1 &" ∷ []))

  -- The body of the `try` of `QuicMpath.run`.
  unfoldable pub mpath_body : Run (Experiment F) Unit
  unfolding concat show formatted
  mpath_body = do
    server_ip ← text_of "serverIP"
    client_ip_a ← text_of "clientIPA"
    client_ip_b ← text_of "clientIPB"
    port_value ← lift (Parameter.get p "port")
    port_number ← lift (int_of port_value)
    let port = show port_number
    server_bin ← text_of "serverBin"
    client_bin ← text_of "clientBin"
    cert ← text_of "cert"
    key ← text_of "key"
    root ← text_of "root"
    cap_if1 ← text_of "capIf1"
    cap_if2 ← text_of "capIf2"
    cap_raw ← lift (Parameter.get p "capCount")
    cap_number ← lift (count_of cap_raw)
    let cap_count = show cap_number
    command_on env c.server (
        concat (
          "test -x " ∷ server_bin ∷ " && echo '[h2] serverBin OK' || echo '[h2] serverBin MISSING: "
          ∷ server_bin ∷ "'" ∷ []))
    command_on env c.client (
        concat (
          "test -x " ∷ client_bin ∷ " && echo '[h1] clientBin OK' || echo '[h1] clientBin MISSING: "
          ∷ client_bin ∷ "'" ∷ []))
    command_on env c.server (
        concat (
          "test -r " ∷ cert ∷ " && test -r " ∷ key
          ∷ " && echo '[h2] cert/key OK' || echo '[h2] cert/key MISSING'" ∷ []))
    command_on env c.router (
        concat (
          "echo '[r1] ifaces:'; ip -o link | awk -F': ' '{print $2}' | xargs -n1 echo ' -' "
          ∷ "> /tmp/r1_ifaces.txt; cat /tmp/r1_ifaces.txt" ∷ []))
    command_on env c.router (
        concat (
          "echo '[r1] tcpdump -D:'; tcpdump -D > /tmp/r1_tcpdumpD.txt 2>&1; "
          ∷ "tail -n +1 /tmp/r1_tcpdumpD.txt" ∷ []))
    command_on env c.server (
        concat (
          "nohup " ∷ server_bin ∷ " --cert " ∷ cert ∷ " --key " ∷ key ∷ " --listen 0.0.0.0:" ∷ port
          ∷ " --root " ∷ root ∷ " > /tmp/qserver.log 2>&1 &" ∷ []))
    mpath_capture cap_if1 port cap_count "A"
    mpath_capture cap_if2 port cap_count "B"
    mpath_client client_ip_a client_bin server_ip port "A"
    mpath_client client_ip_b client_bin server_ip port "B"
    command_on env c.router "sleep 12; pkill -f 'tcpdump -ni' || true"
    command_on env c.router (
        concat (
          "echo '[r1] pcaps:'; ls -lh /tmp/pathA.pcap /tmp/pathB.pcap || true; "
          ∷ "echo '[r1] tcpdump errs:'; tail -n +1 /tmp/tcpdumpA.err /tmp/tcpdumpB.err || true"
          ∷ []))
    command_on env c.client
        "echo '[h1] client logs:'; tail -n +1 /tmp/clientA.log /tmp/clientB.log || true"
    command_on env c.server "echo '[h2] qserver.log:'; tail -n 30 /tmp/qserver.log || true"

  -- `QuicMpath(...)`, which neither loads nor pings, and its `classic_run`.
  unfoldable pub mpath_experiment : Run (Experiment F) Unit
  mpath_experiment = classic_run env c p (prepare env c p) (caught mpath_body) (clean env c p)

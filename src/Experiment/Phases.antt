-- ===== src/Experiment/Phases.antt =====
-- core/experiment.py: the phases of an `Experiment`, and `RandomFileExperiment`.
use minitopo.Base.{ℕ, String, ◌==◌, Bool, true, false, ◌||◌, ◌&&◌, List, [], ◌∷◌, if◌then◌else◌}
use minitopo.Base.Int.{ℤ, positive}
use minitopo.Errors.{Result, err, or_raise, type_error, value_error}
use minitopo.Text.{concat}
use minitopo.Text.Number.{read_int}
use minitopo.Parameter
use minitopo.Parameter.{Parameter, Value, text, several, formatted}
use minitopo.TopoParameter.{is_text}
use minitopo.Network.{Env}
use minitopo.Run.{Run, pure, lift, ◌>>=◌, ◌>>◌, for_each, count_from}
use minitopo.Topo.{command_to}
use minitopo.Topo.Config.{interface_backup_command}
use minitopo.Experiment.{Experiment, TopoConfig, on_topo}
use minitopo.Experiment.Sysctl.{setup_sysctl, restore_sysctl}

-- `int(value)`
unfoldable pub int_of : Value → Result ℤ
unfolding read_int
int_of (text s) = or_raise value_error (read_int s)
int_of (several ss) = err type_error

-- `==` on values.
unfoldable equal_texts : List String → List String → Bool
equal_texts [] [] = true
equal_texts (s ∷ ss) (t ∷ ts) = s == t && equal_texts ss ts
equal_texts _ _ = false

unfoldable pub equal_values : Value → Value → Bool
unfolding equal_texts
equal_values (text s) (text t) = s == t
equal_values (several ss) (several ts) = equal_texts ss ts
equal_values _ _ = false

unfoldable pub priority_cmd : String → Value → String
unfolding concat formatted
priority_cmd interface priority =
    concat ("ip link set dev " ∷ interface ∷ " priority " ∷ formatted priority ∷ [])

unfoldable pub path_manager_cmd : Value → Value → String → String
unfolding concat formatted
path_manager_cmd upm upma log =
    concat (formatted upm ∷ " " ∷ formatted upma ∷ " &>" ∷ log ∷ " &" ∷ [])

unfoldable pub kill_cmd : Value → String
unfolding concat formatted
kill_cmd upm = concat ("killall " ∷ formatted upm ∷ [])

unfoldable pub tcpdump_cmd : Value → String → String
unfolding concat formatted
tcpdump_cmd snaplen file =
    concat ("tcpdump -i any -s " ∷ formatted snaplen ∷ " -w " ∷ file ∷ " &" ∷ [])

unfoldable pub ping_command : String → String → Value → String
unfolding concat formatted
ping_command from_ip to_ip n =
    concat ("ping -c " ∷ formatted n ∷ " -I " ∷ from_ip ∷ " " ∷ to_ip ∷ " >> ping.log" ∷ [])

module _ {F : Type 0} (env : Env) (c : TopoConfig F) where
  abbrev command : String → String → Run (Experiment F) String
  command node cmd = on_topo (command_to env node cmd)

  module _ (p : Parameter) where
    abbrev get : String → Run (Experiment F) Value
    get key = lift (Parameter.get p key)

    -- The backup commands of one path, where its parameter is positive.
    unfoldable pub put_backup : String → ℕ → Run (Experiment F) Unit
    put_backup key index = do
      value ← get key
      number ← lift (int_of value)
      if positive number
          then (do
            interface ← lift (c.get_client_interface (index ∷ []))
            command c.client (interface_backup_command interface)
            command c.router
                (interface_backup_command (c.get_router_interface_to_client_switch index))
            pure tt)
          else pure tt

    unfoldable pub put_priority : ℕ → Value → Run (Experiment F) Unit
    put_priority index priority = do
      interface ← lift (c.get_client_interface (index ∷ []))
      command c.client (priority_cmd interface priority)
      command c.router (priority_cmd (c.get_router_interface_to_client_switch index) priority)
      pure tt

    unfoldable pub put_priority_on_paths : Run (Experiment F) Unit
    put_priority_on_paths = do
      priority_path_0 ← get "priority_path_0"
      priority_path_1 ← get "priority_path_1"
      if equal_values priority_path_0 priority_path_1
          then pure tt
          else (do put_priority 0 priority_path_0; put_priority 1 priority_path_1)
      put_backup "backup_path_0" 0
      put_backup "backup_path_1" 1

    unfoldable pub run_userspace_path_manager : Run (Experiment F) Unit
    run_userspace_path_manager = do
      kpmc ← get "kpmc"
      if is_text kpmc "netlink"
          then (do
            upmc ← get "upmc"
            upmca ← get "upmc_args"
            command c.client (path_manager_cmd upmc upmca "upmc.log")
            pure tt)
          else pure tt
      kpms ← get "kpms"
      if is_text kpms "netlink"
          then (do
            upms ← get "upms"
            upmsa ← get "upms_args"
            command c.server (path_manager_cmd upms upmsa "upms.log")
            pure tt)
          else pure tt

    -- The path manager of the server is killed on the client, as the source has it.
    unfoldable pub clean_userspace_path_manager : Run (Experiment F) Unit
    clean_userspace_path_manager = do
      kpmc ← get "kpmc"
      if is_text kpmc "netlink"
          then (do upmc ← get "upmc"; command c.client (kill_cmd upmc); pure tt)
          else pure tt
      kpms ← get "kpms"
      if is_text kpms "netlink"
          then (do upms ← get "upms"; command c.client (kill_cmd upms); pure tt)
          else pure tt

    unfoldable pub run_tcpdump : Run (Experiment F) Unit
    run_tcpdump = do
      client_pcap ← get "clientPcap"
      server_pcap ← get "serverPcap"
      snaplen_pcap ← get "snaplen_pcap"
      if is_text client_pcap "yes"
          then (do command c.client (tcpdump_cmd snaplen_pcap "client.pcap"); pure tt)
          else pure tt
      if is_text server_pcap "yes"
          then (do command c.server (tcpdump_cmd snaplen_pcap "server.pcap"); pure tt)
          else pure tt
      if is_text server_pcap "yes" || is_text client_pcap "yes"
          then (do command c.client "sleep 5"; pure tt)
          else pure tt

    unfoldable pub ping_one : Value → ℕ → ℕ → Run (Experiment F) Unit
    ping_one count j i = do
      from_ip ← lift (c.get_client_ip i)
      to_ip ← lift (c.get_server_ip j)
      command c.client (ping_command from_ip to_ip count)
      pure tt

    unfoldable pub ping : Run (Experiment F) Unit
    ping = do
      command c.client "rm ping.log"
      count ← get "pingCount"
      for_each (λ j. for_each (ping_one count j) (count_from 0 c.client_interface_count))
          (count_from 0 c.server_interface_count)

    unfoldable pub prepare : Run (Experiment F) Unit
    prepare = do
      setup_sysctl env c p
      run_userspace_path_manager
      put_priority_on_paths
      run_tcpdump
      on_topo c.run_netem_at

    unfoldable pub clean : Run (Experiment F) Unit
    clean = do
      command c.client "killall tcpdump"
      command c.server "killall tcpdump"
      restore_sysctl env c
      clean_userspace_path_manager

    -- `classic_run`, with the `run` of a subclass and the three phases that it may extend.
    unfoldable pub classic_run :
        Run (Experiment F) Unit
        → Run (Experiment F) Unit
        → Run (Experiment F) Unit
        → Run (Experiment F) Unit
    classic_run prepare_phase run clean_phase = do prepare_phase; run; clean_phase

-- ===== src/Experiment/Logged.antt =====
-- The phases of an experiment keep `command.log` exact.
use minitopo.Base.{ℕ, String, Option, none, some}
use minitopo.Parameter.{Parameter, Value}
use minitopo.Network.{Env}
use minitopo.Run.{Run}
use minitopo.Run.Keeps.{Keeps, keeps_rules, Keeps-bind}
use minitopo.Topo.{Topo}
use minitopo.Topo.Log.{IsLogged, command_to-IsLogged, command_global-IsLogged}
use minitopo.Experiment.{Experiment, TopoConfig, on_topo}
use minitopo.Experiment.Sysctl
use minitopo.Experiment.Sysctl.{Scope, of_host, of_client, of_server}
use minitopo.Experiment.Phases
use minitopo.Experiment.RandomFile
use minitopo.Experiment.RandomFile.{Loaded}

-- The log of the topology of an experiment.
pub record IsLoggedExperiment {F : Type 0} (e : Experiment F) : Type 0 where
  pub topo : IsLogged e.topo

module _ {F : Type 0} where
  pub on_topo-IsLogged :
      {A : Type 0} (m : Run (Topo F) A) → Keeps IsLogged m → Keeps IsLoggedExperiment (on_topo m)
  unfolding on_topo
  on_topo-IsLogged m km = record { at = λ e h. record { topo = km.at e.topo h.topo } }

  forget-IsLogged : (scope : Scope) → Keeps (IsLoggedExperiment {F = F}) (Sysctl.forget scope)
  unfolding Sysctl.forget
  forget-IsLogged of_host = record { at = λ e h. record { topo = h.topo } }
  forget-IsLogged of_client = record { at = λ e h. record { topo = h.topo } }
  forget-IsLogged of_server = record { at = λ e h. record { topo = h.topo } }

  remember-IsLogged :
      (scope : Scope) (k v : String)
      → Keeps (IsLoggedExperiment {F = F}) (Sysctl.remember scope k v)
  unfolding Sysctl.remember
  remember-IsLogged of_host k v = record { at = λ e h. record { topo = h.topo } }
  remember-IsLogged of_client k v = record { at = λ e h. record { topo = h.topo } }
  remember-IsLogged of_server k v = record { at = λ e h. record { topo = h.topo } }

  entries-IsLogged : (scope : Scope) → Keeps (IsLoggedExperiment {F = F}) (Sysctl.entries scope)
  unfolding Sysctl.entries
  entries-IsLogged scope = record { at = λ e h. h }

  run_sysctl-IsLogged :
      (env : Env) (who : Option String) (cmd : String)
      → Keeps (IsLoggedExperiment {F = F}) (Sysctl.run_sysctl env who cmd)
  unfolding Sysctl.run_sysctl
  run_sysctl-IsLogged env none cmd = on_topo-IsLogged _ (command_global-IsLogged env cmd)
  run_sysctl-IsLogged env (some node) cmd = on_topo-IsLogged _ (command_to-IsLogged env node cmd)

ruleset experiment_rules = (
  keeps_rules, on_topo-IsLogged, command_to-IsLogged, forget-IsLogged, remember-IsLogged,
  entries-IsLogged, run_sysctl-IsLogged,
)

module _ {F : Type 0} (env : Env) (c : TopoConfig F) where
  save_one-IsLogged :
      (scope : Scope) (r : String × String)
      → Keeps IsLoggedExperiment (Sysctl.save_one env c scope r)
  unfolding Sysctl.save_one
  save_one-IsLogged scope r = search experiment_rules depth 20

  write_one-IsLogged :
      (p : Parameter) (scope : Scope) (r : String × String)
      → Keeps IsLoggedExperiment (Sysctl.write_one env c p scope r)
  unfolding Sysctl.write_one
  write_one-IsLogged p scope r = search experiment_rules depth 20

  restore_one-IsLogged :
      (scope : Scope) (r : String × String)
      → Keeps IsLoggedExperiment (Sysctl.restore_one env c scope r)
  unfolding Sysctl.restore_one
  restore_one-IsLogged scope r = search experiment_rules depth 20

  setup_sysctl-IsLogged : (p : Parameter) → Keeps IsLoggedExperiment (Sysctl.setup_sysctl env c p)
  unfolding Sysctl.setup_sysctl Sysctl.save_sysctl Sysctl.write_sysctl Sysctl.save_scope
      Sysctl.write_scope
  setup_sysctl-IsLogged p =
      search (experiment_rules, save_one-IsLogged, write_one-IsLogged) depth 40

  restore_sysctl-IsLogged : Keeps IsLoggedExperiment (Sysctl.restore_sysctl env c)
  unfolding Sysctl.restore_sysctl Sysctl.restore_scope
  restore_sysctl-IsLogged = search (experiment_rules, restore_one-IsLogged) depth 40

module _ {F : Type 0} (env : Env) (c : TopoConfig F) (p : Parameter) where
  put_backup-IsLogged :
      (key : String) (index : ℕ) → Keeps IsLoggedExperiment (Phases.put_backup env c p key index)
  unfolding Phases.put_backup
  put_backup-IsLogged key index = search experiment_rules depth 30

  put_priority-IsLogged :
      (index : ℕ) (v : Value) → Keeps IsLoggedExperiment (Phases.put_priority env c p index v)
  unfolding Phases.put_priority
  put_priority-IsLogged index v = search experiment_rules depth 30

  priorities-IsLogged : Keeps IsLoggedExperiment (Phases.put_priority_on_paths env c p)
  unfolding Phases.put_priority_on_paths
  priorities-IsLogged =
      search (experiment_rules, put_backup-IsLogged, put_priority-IsLogged) depth 40

  run_path_manager-IsLogged : Keeps IsLoggedExperiment (Phases.run_userspace_path_manager env c p)
  unfolding Phases.run_userspace_path_manager
  run_path_manager-IsLogged = search experiment_rules depth 40

  clean_path_manager-IsLogged :
      Keeps IsLoggedExperiment (Phases.clean_userspace_path_manager env c p)
  unfolding Phases.clean_userspace_path_manager
  clean_path_manager-IsLogged = search experiment_rules depth 40

  run_tcpdump-IsLogged : Keeps IsLoggedExperiment (Phases.run_tcpdump env c p)
  unfolding Phases.run_tcpdump
  run_tcpdump-IsLogged = search experiment_rules depth 40

  pub ping_one-IsLogged :
      (count : Value) (j i : ℕ) → Keeps IsLoggedExperiment (Phases.ping_one env c p count j i)
  unfolding Phases.ping_one
  ping_one-IsLogged count j i = search experiment_rules depth 30

  pub ping-IsLogged : Keeps IsLoggedExperiment (Phases.ping env c p)
  unfolding Phases.ping
  ping-IsLogged = search (experiment_rules, ping_one-IsLogged) depth 30

  pub prepare-IsLogged :
      Keeps IsLogged c.run_netem_at → Keeps IsLoggedExperiment (Phases.prepare env c p)
  unfolding Phases.prepare
  prepare-IsLogged kn =
      Keeps-bind (Sysctl.setup_sysctl env c p) _ (setup_sysctl-IsLogged env c p) (λ _.
        Keeps-bind (Phases.run_userspace_path_manager env c p) _ run_path_manager-IsLogged (λ _.
          Keeps-bind (Phases.put_priority_on_paths env c p) _ priorities-IsLogged (λ _.
            Keeps-bind (Phases.run_tcpdump env c p) _ run_tcpdump-IsLogged
              (λ _. on_topo-IsLogged c.run_netem_at kn))))

  pub clean-IsLogged : Keeps IsLoggedExperiment (Phases.clean env c p)
  unfolding Phases.clean
  clean-IsLogged =
      search (experiment_rules, restore_sysctl-IsLogged, clean_path_manager-IsLogged) depth 40

  pub prepare_file-IsLogged :
      (x : Loaded)
      → Keeps IsLogged c.run_netem_at
      → Keeps IsLoggedExperiment (RandomFile.prepare_file env c p x)
  unfolding RandomFile.prepare_file
  prepare_file-IsLogged x kn =
      Keeps-bind (Phases.prepare env c p) _ (prepare-IsLogged kn)
        (λ _. search experiment_rules depth 20)

  pub clean_file-IsLogged :
      (x : Loaded) → Keeps IsLoggedExperiment (RandomFile.clean_file env c p x)
  unfolding RandomFile.clean_file
  clean_file-IsLogged x = search (experiment_rules, clean-IsLogged) depth 30

  -- An experiment on a random file, whose changes of netem and whose own part keep `command.log`
  -- exact, keeps it exact through all its phases, whether they end or raise.
  pub random_file-IsLogged :
      (x : Loaded) (run : Run (Experiment F) Unit)
      → Keeps IsLogged c.run_netem_at
      → Keeps IsLoggedExperiment run
      → Keeps IsLoggedExperiment (
          Phases.classic_run env c p
            (RandomFile.prepare_file env c p x)
            run
            (RandomFile.clean_file env c p x))
  unfolding Phases.classic_run
  random_file-IsLogged x run kn kr =
      search (experiment_rules, prepare_file-IsLogged x kn, kr, clean_file-IsLogged x) depth 30

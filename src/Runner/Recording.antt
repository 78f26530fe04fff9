-- ===== src/Runner/Recording.antt =====
-- runner.py: `command.log` over a whole run of the runner.
use minitopo.Base.{List, String, ◌≡◌, Bool, Option, none, some}
use minitopo.Errors.{ok, or_raise, exception}
use minitopo.Text.{◌<>◌}
use minitopo.Base.Dict.{lookup}
use minitopo.Runner.Topologies.{TopoClass, multi_interface_class, multi_client_class, topos}
use minitopo.Floats.{Floats}
use minitopo.Parameter
use minitopo.Parameter.{Value, text, several}
use minitopo.TopoParameter
use minitopo.TopoParameter.{TopoParameter}
use minitopo.TopoParameter.Loops.{>>=-eq-ok, ok-injective}
use minitopo.Network.{Env}
use minitopo.Run.{Run, lift}
use minitopo.Run.Keeps.{
  Keeps, keeps_rules, Keeps-bind-ok, Keeps-lift, Returns, Returns-rest, Returns-pure,
}
use mathlib.Core.Path.{subst}
use minitopo.Topo.{Topo}
use minitopo.Topo.Log.{
  IsLogged, start_network-IsLogged, stop_network-IsLogged, get_cli-IsLogged, run_netem_at-IsLogged,
}
use minitopo.MultiInterface.{MultiInterface}
use minitopo.MultiInterface.Logged.{multi_network-IsLogged}
use minitopo.MultiInterface.MultiClientLogged.{all_network-IsLogged}
use minitopo.Experiments.Classes.{launch}
use minitopo.Experiments.Launching.{launch-IsLogged}
use minitopo.Experiment.{Experiment, TopoConfig, multi_interface_config}
use minitopo.Runner.Phases.{
  Running, set_builder, apply_topo, on_runner, cleanup_tmp_files, multi_network,
  multi_client_network, config_of, config_of_class, apply_topo_config, set_up, start_topo, open_cli,
  stop_topo, experiment_of, run_experiment, phases, run_all,
}

-- The log of the topology of a runner.
pub record IsLoggedRunner {F : Type 0} (r : Running F) : Type 0 where
  pub topo : IsLogged r.topo

module _ {F : Type 0} where
  on_runner-IsLogged :
      {A : Type 0} (m : Run (Topo F) A) → Keeps IsLogged m → Keeps IsLoggedRunner (on_runner m)
  unfolding on_runner
  on_runner-IsLogged m km = record { at = λ r h. record { topo = km.at r.topo h.topo } }

  cleanup-IsLogged : Keeps IsLoggedRunner (cleanup_tmp_files {F = F})
  unfolding cleanup_tmp_files
  cleanup-IsLogged = record { at = λ r h. record { topo = h.topo } }

module _ (fl : Floats) (env : Env) where
  open fl use {F}

  stop_topo-IsLogged : Keeps IsLoggedRunner (stop_topo fl env)
  unfolding stop_topo
  stop_topo-IsLogged =
      search (keeps_rules, on_runner-IsLogged, stop_network-IsLogged, cleanup-IsLogged) depth 20

  open_cli-IsLogged : Keeps IsLoggedRunner (open_cli fl env)
  unfolding open_cli
  open_cli-IsLogged = search (keeps_rules, on_runner-IsLogged, get_cli-IsLogged) depth 20

  -- The configuration of a network keeps the log exact, and so do the changes of netem that the
  -- configuration it returns starts.
  Records : Run (Topo F) (TopoConfig F) → Type 0
  Records configure =
      Keeps IsLogged configure × Returns (λ c. Keeps IsLogged c.run_netem_at) configure

  module _ (m : MultiInterface F) where
    multi_network-Records : Records (multi_network fl env m)
    unfolding Records multi_network multi_interface_config
    multi_network-Records = (
      search (keeps_rules, multi_network-IsLogged) depth 20,
      Returns-rest _ _ (λ n. Returns-rest _ _ (λ p.
          Returns-pure (λ c. Keeps IsLogged c.run_netem_at) _ (run_netem_at-IsLogged fl env))),
    )

    multi_client_network-Records : Records (multi_client_network fl env m)
    unfolding Records multi_client_network multi_interface_config
    multi_client_network-Records = (
      search (keeps_rules, all_network-IsLogged) depth 20,
      Returns-rest _ _ (λ n. Returns-rest _ _ (λ p.
          Returns-pure (λ c. Keeps IsLogged c.run_netem_at) _ (run_netem_at-IsLogged fl env))),
    )

  config_of_class-Records :
      (a : TopoClass) (m : MultiInterface F) → Records (config_of_class fl env a m)
  unfolding config_of_class
  config_of_class-Records multi_interface_class m = multi_network-Records m
  config_of_class-Records multi_client_class m = multi_client_network-Records m

  config_of-Records :
      (v : Value) (configure : MultiInterface F → Run (Topo F) (TopoConfig F))
      → config_of fl env v ≡ ok configure
      → (m : MultiInterface F) → Records (configure m)
  unfolding config_of
  config_of-Records (several ss) configure h m = cc
  config_of-Records (text t) configure h m =
      let (a, found, made) =
        >>=-eq-ok (or_raise (exception ("Unknown topo config: " <> t)) (lookup t topos))
          (λ a. ok (config_of_class fl env a)) h in
      subst (λ f. Records (f m)) (ok-injective made) (config_of_class-Records a m)

  module _ (experiments : String → Option (String → TopoConfig F → Run (Topo F) Unit))
      (recorded : (name contents : String) (c : TopoConfig F)
          (run : String → TopoConfig F → Run (Topo F) Unit)
        → Keeps IsLogged c.run_netem_at
        → experiments name ≡ some run
        → Keeps IsLogged (run contents c)) where
    run-IsLogged :
        (xp : Value) (contents : String) (c : TopoConfig F)
        (run : String → TopoConfig F → Run (Topo F) Unit)
        → Keeps IsLogged c.run_netem_at
        → experiment_of fl env experiments xp ≡ ok run
        → Keeps IsLogged (run contents c)
    unfolding experiment_of
    run-IsLogged (several ss) contents c run kn h = cc
    run-IsLogged (text xp) contents c run kn h =
        recorded xp contents c run kn (found (experiments xp) h)
      where
        found :
            (o : Option (String → TopoConfig F → Run (Topo F) Unit))
            → or_raise (exception ("Unknown experiment " <> xp)) o ≡ ok run
            → o ≡ some run
        found none e = cc
        found (some f) e = cc

    run_experiment-IsLogged :
        (contents : String) (c : TopoConfig F)
        → Keeps IsLogged c.run_netem_at
        → Keeps IsLoggedRunner (run_experiment fl env experiments contents c)
    unfolding run_experiment lift
    run_experiment-IsLogged contents c kn = Keeps-bind-ok _ _ (Keeps-lift _) (λ s xp _.
        Keeps-bind-ok _ _ (Keeps-lift _)
          (λ s run known. on_runner-IsLogged _ (run-IsLogged xp contents c run kn known)))

    phases-IsLogged :
        (contents : Option String) (c : TopoConfig F)
        → Keeps IsLogged c.run_netem_at
        → Keeps IsLoggedRunner (phases fl env experiments contents c)
    unfolding phases
    phases-IsLogged none c kn = search (keeps_rules, open_cli-IsLogged, stop_topo-IsLogged) depth 20
    phases-IsLogged (some contents) c kn =
        search (keeps_rules, run_experiment-IsLogged, stop_topo-IsLogged) depth 20

    start_topo-IsLogged :
        (configure : Run (Topo F) (TopoConfig F))
        → Keeps IsLogged configure
        → Keeps IsLoggedRunner (start_topo fl env configure)
    unfolding start_topo
    start_topo-IsLogged configure kc =
        search (keeps_rules, on_runner-IsLogged, start_network-IsLogged) depth 20

    start_topo-Returns :
        (configure : Run (Topo F) (TopoConfig F))
        → Records configure
        → Returns (λ c. Keeps IsLogged c.run_netem_at) (start_topo fl env configure)
    unfolding start_topo on_runner Records
    start_topo-Returns configure records =
        Returns-rest _ _ (λ _ r c returned. records.1 r.topo c returned)

    run_all-IsLogged :
        (configure : Run (Topo F) (TopoConfig F)) (contents : Option String)
        → Records configure
        → Keeps IsLoggedRunner (run_all fl env experiments configure contents)
    unfolding run_all Records
    run_all-IsLogged configure contents records =
        Keeps-bind-ok (start_topo fl env configure) _ (start_topo-IsLogged configure records.0)
          (λ r c returned.
            phases-IsLogged contents c (start_topo-Returns configure records r c returned))

  set_up-Records :
      (builder_type : String) (topology : Option String) (m : MultiInterface F)
      (configure : MultiInterface F → Run (Topo F) (TopoConfig F))
      → set_up fl env builder_type topology ≡ ok (m, configure)
      → Records (configure m)
  unfolding set_up apply_topo_config
  set_up-Records builder_type topology m configure h =
      let (tp, _, h1) = >>=-eq-ok (TopoParameter.init fl topology) _ h in
      let (b, _, h2) = >>=-eq-ok (set_builder builder_type) _ h1 in
      let (m', _, h3) = >>=-eq-ok (apply_topo fl env b tp) _ h2 in
      let (configure', e, h4) = >>=-eq-ok (apply_topo_config fl env tp) _ h3 in
      let (v, _, chosen) = >>=-eq-ok (Parameter.get tp.parameter "topoType") _ e in
      subst (λ mc. Records (mc.1 mc.0)) (ok-injective h4) (config_of-Records v configure' chosen m')

  -- Once the runner has set up a topology from its file, the rest of its constructor keeps
  -- `command.log` exact, whatever the file of the experiment, when there is one: where the log held
  -- one line for each command that was run, in their order, it does so in the end, whether the
  -- runner ends or raises.
  pub runner-IsLogged :
      (dir : String) (expanduser : String → String) (is_multi_client : Bool)
      (clients servers : List String) (send_cmd : String → String → Run (Experiment F) Unit)
      (wait_output : String → Run (Experiment F) Unit) (builder_type : String)
      (topology contents : Option String) (m : MultiInterface F)
      (configure : MultiInterface F → Run (Topo F) (TopoConfig F))
      → set_up fl env builder_type topology ≡ ok (m, configure)
      → Keeps IsLoggedRunner (
          run_all fl env
            (launch env dir expanduser is_multi_client clients servers send_cmd wait_output)
            (configure m)
            contents)
  runner-IsLogged dir expanduser is_multi_client clients servers send_cmd wait_output builder_type
        topology contents m configure made =
      run_all-IsLogged _
        (launch-IsLogged env dir expanduser is_multi_client clients servers send_cmd wait_output)
        (configure m) contents (set_up-Records builder_type topology m configure made)

-- ===== src/Runner/Files.antt =====
-- runner.py: the temporary files of a runner, up to its `__del__`.
use minitopo.Base.{String, ◌≡◌, refl, ◌∙◌, List, [], ◌++◌, Option, none, some, append-nil}
use minitopo.Floats.{Floats}
use minitopo.Network.{Env}
use minitopo.Run.{Run}
use minitopo.Run.Keeps.{Keeps, keeps_rules}
use minitopo.Topo.{Topo}
use minitopo.Experiment.{TopoConfig}
use minitopo.Runner.Phases.{
  Running, on_runner, cleanup_tmp_files, delete_runner, start_topo, open_cli, stop_topo,
  run_experiment, phases, run_all,
}

-- The files that have been unlinked, and those that are still to be, are these.
record HasFiles {F : Type 0} (files : List String) (r : Running F) : Type 0 where
  all : r.unlinked ++ r.tmp_files ≡ files

module _ {F : Type 0} (files : List String) where
  on_runner-HasFiles : {A : Type 0} (m : Run (Topo F) A) → Keeps (HasFiles files) (on_runner m)
  unfolding on_runner
  on_runner-HasFiles m = record { at = λ r h. record { all = h.all } }

  cleanup-HasFiles : Keeps (HasFiles files) (cleanup_tmp_files {F = F})
  unfolding cleanup_tmp_files
  cleanup-HasFiles = record { at = λ r h. record { all = append-nil _ ∙ h.all } }

ruleset files_rules = (keeps_rules, on_runner-HasFiles, cleanup-HasFiles)

module _ (fl : Floats) (env : Env)
    (experiments : String → Option (String → TopoConfig fl.F → Run (Topo fl.F) Unit)) where
  open fl use {F}

  module _ (files : List String) where
    run_experiment-HasFiles :
        (contents : String) (c : TopoConfig F)
        → Keeps (HasFiles files) (run_experiment fl env experiments contents c)
    unfolding run_experiment
    run_experiment-HasFiles contents c = search files_rules depth 20

    stop_topo-HasFiles : Keeps (HasFiles files) (stop_topo fl env)
    unfolding stop_topo
    stop_topo-HasFiles = search files_rules depth 20

    open_cli-HasFiles : Keeps (HasFiles files) (open_cli fl env)
    unfolding open_cli
    open_cli-HasFiles = search files_rules depth 20

    phases-HasFiles :
        (contents : Option String) (c : TopoConfig F)
        → Keeps (HasFiles files) (phases fl env experiments contents c)
    unfolding phases
    phases-HasFiles none c = search (keeps_rules, open_cli-HasFiles, stop_topo-HasFiles) depth 20
    phases-HasFiles (some contents) c =
        search (keeps_rules, run_experiment-HasFiles, stop_topo-HasFiles) depth 20

    run_all-HasFiles :
        (configure : Run (Topo F) (TopoConfig F)) (contents : Option String)
        → Keeps (HasFiles files) (run_all fl env experiments configure contents)
    unfolding run_all start_topo
    run_all-HasFiles configure contents = search (files_rules, phases-HasFiles) depth 30

  -- However the constructor of a runner goes on from the start of the network, to its end or to an
  -- exception anywhere, once the runner is deleted each of its temporary files has been unlinked
  -- once, in their order, and none is left.
  pub delete_runner-run_all :
      (configure : Run (Topo F) (TopoConfig F)) (contents : Option String) (r : Running F)
      → let deleted = (delete_runner (run_all fl env experiments configure contents r).1).1 in
        (deleted.tmp_files ≡ []) × (deleted.unlinked ≡ r.unlinked ++ r.tmp_files)
  unfolding delete_runner cleanup_tmp_files
  delete_runner-run_all configure contents r = (
    refl,
    ((run_all-HasFiles (r.unlinked ++ r.tmp_files) configure contents).at r
        (record { all = refl })).all,
  )

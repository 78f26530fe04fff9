-- ===== src/Tests/Runs.antt =====
-- Runs of the registered experiments.
use minitopo.Base.{◌∷◌, String, ◌≡◌, ◌≢◌, ◌↔◌, refl, true, false, [], Option, none, some}
use minitopo.Base.Int.{ℤ, pos}
use minitopo.Base.Dict.{lookup, insert, elem, keys, update}
use minitopo.Errors.{ok, err, exception}
use minitopo.Parameter.{append_value}
use minitopo.Run.{Run, pure}
use minitopo.Run.Keeps.{Keeps}
use minitopo.Topo.{Topo}
use minitopo.Link
use minitopo.Link.{schedule, extract_queuing_delay}
use minitopo.Experiment.{Experiment, TopoConfig, load_parameter}
use minitopo.Registry.{register, walk, last_named, lookup-register}
use minitopo.Experiments.Classes.{
  vlc_class, quic_class, experiment_classes, experiments, launch, experiment_of_class, siri_class,
}
use minitopo.Experiments.Missing.{experiment_of_class-missing}
use minitopo.Experiments.Raising.{Raises}
use minitopo.Experiments.Scenario.{scenario_experiment}
use minitopo.Experiments.QuicGo.{quic_experiment}
use minitopo.Experiments.Misplaced.{scenario-quic-Raises}
use minitopo.Experiments.Reaching.{reached_iff}
use minitopo.Experiments.Failing.{launch-Raises}
use minitopo.Experiments.Netcat.{new_pv_at, add_pv_at}
use minitopo.Text.{◌<>◌, is_space, starts_with, strip}
use minitopo.Text.Split.{split}
use minitopo.Text.Number.{read_int}
use minitopo.Experiments.PvSchedule.{to_netem, to_netems, to_netems-add_pv_at}
use minitopo.Runner.Files.{delete_runner-run_all}
use minitopo.Runner.Phases.{Running, delete_runner, set_up, run_all, multi_network}
use minitopo.Runner.Recording.{IsLoggedRunner, runner-IsLogged}
use minitopo.MultiInterface.{MultiInterface}
use minitopo.Tests.Inputs.{whole_numbers, silent, or_else}
use minitopo.Tests.Interfaces.{nothing_made}
use minitopo.Tests.Machine.{machine}
use minitopo.Tests.Experiments.{config, experiment}

lookup-register_example :
    lookup "sirihttp" (register [] experiment_classes)
    ≡ last_named "sirihttp" (walk experiment_classes) none
unfolding lookup
lookup-register_example = lookup-register "sirihttp" experiment_classes []

reached_iff_example :
    ((name : String) × (lookup name experiments ≡ some vlc_class)) ↔ (vlc_class ≢ quic_class)
reached_iff_example = reached_iff vlc_class

-- `sendCmd` and `waitOutput` of a node that does nothing.
abbrev send : String → String → Run (Experiment ℤ) Unit
send who cmd = pure tt

abbrev wait : String → Run (Experiment ℤ) Unit
wait who = pure tt

abbrev launched : String → Option (String → TopoConfig ℤ → Run (Topo ℤ) Unit)
launched = launch machine "/minitopo" (λ path. path) false [] [] send wait

abbrev no_run : String → TopoConfig ℤ → Run (Topo ℤ) Unit
no_run contents c = pure tt

abbrev run_of :
    Option (String → TopoConfig ℤ → Run (Topo ℤ) Unit) → String → TopoConfig ℤ → Run (Topo ℤ) Unit
run_of none = no_run
run_of (some run) = run

launch-Raises_example : (run_of (launched "vlc") "xpType:vlc\n" config experiment.topo).0 ≢ ok tt
unfolding launch lookup experiments register insert elem
launch-Raises_example =
    launch-Raises machine "/minitopo" (λ path. path) false [] [] send wait "vlc" "xpType:vlc\n"
      config (run_of (launched "vlc")) refl refl experiment.topo tt

to_netems-add_pv_at_example :
    to_netems whole_numbers (add_pv_at whole_numbers [] (new_pv_at whole_numbers (pos 3) "400k"))
    ≡ schedule whole_numbers
        (to_netems whole_numbers [])
        (to_netem whole_numbers (new_pv_at whole_numbers (pos 3) "400k"))
to_netems-add_pv_at_example =
    to_netems-add_pv_at whole_numbers [] (new_pv_at whole_numbers (pos 3) "400k")

abbrev two_links : String
two_links = "topoType:MultiIf\npath_c2r_0:10,10,4\npath_r2s_0:5,10,4\n"

abbrev chosen : MultiInterface ℤ × (MultiInterface ℤ → Run (Topo ℤ) (TopoConfig ℤ))
chosen =
    or_else (nothing_made, multi_network whole_numbers silent)
      (set_up whole_numbers silent "mininet" (some two_links))

made : set_up whole_numbers silent "mininet" (some two_links) ≡ ok chosen
unfolding set_up keys starts_with split strip is_space read_int lookup append_value Link.init
    extract_queuing_delay
made = refl

runner-IsLogged_example : Keeps IsLoggedRunner (
    run_all whole_numbers silent
      (launch silent "/minitopo" (λ path. path) false [] [] send wait)
      (chosen.1 chosen.0)
      (some "xpType:ping\n"))
runner-IsLogged_example =
    runner-IsLogged whole_numbers silent "/minitopo" (λ path. path) false [] [] send wait "mininet"
      (some two_links) (some "xpType:ping\n") chosen.0 chosen.1 made

abbrev started : Running ℤ
started = record {
  topo = experiment.topo;
  tmp_files = "topo.para" ∷ "xp.para" ∷ [];
  unlinked = "old.para" ∷ [];
}

delete_runner-run_all_example :
    let deleted =
      (delete_runner
        (run_all whole_numbers silent
          (launch silent "/minitopo" (λ path. path) false [] [] send wait)
          (chosen.1 chosen.0)
          (some "xpType:vlc\n")
          started).1).1 in
    (deleted.tmp_files ≡ []) × (deleted.unlinked ≡ "old.para" ∷ "topo.para" ∷ "xp.para" ∷ [])
delete_runner-run_all_example =
    delete_runner-run_all whole_numbers silent
      (launch silent "/minitopo" (λ path. path) false [] [] send wait) (chosen.1 chosen.0)
      (some "xpType:vlc\n") started

experiment_of_class-missing_example :
    experiment_of_class machine "/minitopo"
      (λ path. path)
      false
      []
      []
      send
      wait
      siri_class
      (some "xpType:siri\nsiriBufferSize:9\n")
      config
      experiment
    ≡ (err (exception ("Parameter not found " <> "siriRunTime")), experiment)
unfolding load_parameter lookup insert update split strip starts_with is_space append_value
experiment_of_class-missing_example =
    experiment_of_class-missing machine "/minitopo" (λ path. path) false [] [] send wait siri_class
      "siriRunTime" (some "xpType:siri\nsiriBufferSize:9\n") config experiment refl refl

scenario-quic-Raises_example :
    Raises (scenario_experiment machine config false [] [] (load_parameter none))
    × Raises (quic_experiment machine config (load_parameter none) (λ path. path) true)
scenario-quic-Raises_example =
    scenario-quic-Raises machine config (load_parameter none) (λ path. path) [] []

-- ===== src/Experiments/Failing.antt =====
-- The names of experiments/ under which the runner finds an experiment that cannot return.
use minitopo.Base.{
  String, ◌==◌, ◌≡◌, ◌≢◌, refl, Bool, true, false, Bool-cases, inl, inr, List, [], ◌∷◌, Option,
  none, some, eq_iff,
}
use mathlib.Core.Option
use mathlib.Core.Option.{some-injective}
use mathlib.Core.Path.{subst}
use minitopo.Base.Dict.{lookup, insert, elem}
use minitopo.Errors.{ok}
use minitopo.Network.{Env}
use minitopo.Run.{Run}
use minitopo.Topo.{Topo}
use minitopo.Registry.{register}
use minitopo.Experiment.{Experiment, TopoConfig}
use minitopo.Experiments.Classes
use minitopo.Experiments.Classes.{
  ExperimentClass, ab_class, ditg_class, epload_class, http_class, https_class, iperf_class,
  iperf_scenario_class, msg_class, nc_class, ncpv_class, netperf_class, none_class, ping_class,
  pquic_class, quic_class, quiche_class, quic_mpath_class, quic_siri_class, send_file_class,
  siri_class, siri_http_class, siri_msg_class, vlc_class, on_experiment, experiment_of_class,
  launch,
}
use minitopo.Experiments.Raising.{
  Raises, nc_experiment-Raises, ncpv_experiment-Raises, epload_experiment-Raises,
  siri_http_experiment-Raises, vlc_experiment-ne-ok,
}

is_failing : ExperimentClass → Bool
is_failing epload_class = true
is_failing nc_class = true
is_failing ncpv_class = true
is_failing siri_http_class = true
is_failing vlc_class = true
is_failing _ = false

finds_failing : Option ExperimentClass → Bool
unfolding is_failing
finds_failing none = false
finds_failing (some a) = is_failing a

abbrev AllFail : List String → Type 0
AllFail [] = Unit
AllFail (n ∷ ns) = (finds_failing (lookup n Classes.experiments) ≡ true) × AllFail ns

elem-AllFail :
    (name : String) (ns : List String)
    → AllFail ns
    → elem name ns ≡ true
    → finds_failing (lookup name Classes.experiments) ≡ true
unfolding elem
elem-AllFail name [] all h = cc
elem-AllFail name (n ∷ ns) all h = elim (Bool-cases (n == name)) [
  | inl same ↦
      subst (λ k. finds_failing (lookup k Classes.experiments) ≡ true) ((eq_iff n name).0 same)
        all.0
  | inr other ↦ elem-AllFail name ns all.1 (rw other at h)
]

abbrev failing_names : List String
failing_names = "epload" ∷ "nc" ∷ "ncpv" ∷ "sirihttp" ∷ "vlc" ∷ []

failing_names-AllFail : AllFail failing_names
unfolding Classes.experiments register insert lookup finds_failing
failing_names-AllFail = (refl, (refl, (refl, (refl, (refl, tt)))))

module _ {F : Type 0} (env : Env) (dir : String) (expanduser : String → String)
    (is_multi_client : Bool) (clients servers : List String)
    (send_cmd : String → String → Run (Experiment F) Unit)
    (wait_output : String → Run (Experiment F) Unit) where
  experiment_of_class-Raises :
      (a : ExperimentClass) (s : Option String) (c : TopoConfig F)
      → is_failing a ≡ true
      → Raises (
          experiment_of_class env dir expanduser is_multi_client clients servers send_cmd
            wait_output a s c)
  unfolding experiment_of_class is_failing
  experiment_of_class-Raises epload_class s c h = epload_experiment-Raises env c s
  experiment_of_class-Raises nc_class s c h = nc_experiment-Raises env c _ send_cmd wait_output
  experiment_of_class-Raises ncpv_class s c h = ncpv_experiment-Raises env c _
  experiment_of_class-Raises siri_http_class s c h = siri_http_experiment-Raises env c _ dir
  experiment_of_class-Raises vlc_class s c h = vlc_experiment-ne-ok env c _
  experiment_of_class-Raises _ s c h = cc h

  -- Under the names epload, nc, ncpv, sirihttp and vlc the runner finds an experiment that ends in
  -- an exception, whatever its file, the configuration, the topology and the answers of the
  -- environment: it returns from no state.
  pub launch-Raises :
      (name contents : String) (c : TopoConfig F) (run : String → TopoConfig F → Run (Topo F) Unit)
      → elem name failing_names ≡ true
      → launch env dir expanduser is_multi_client clients servers send_cmd wait_output name
        ≡ some run
      → (t : Topo F) (a : Unit) → (run contents c t).0 ≢ ok a
  unfolding launch on_experiment finds_failing
  launch-Raises name contents c run listed found =
      found_class (lookup name Classes.experiments) found
        (elem-AllFail name failing_names failing_names-AllFail listed)
    where
      launched : ExperimentClass → String → TopoConfig F → Run (Topo F) Unit
      launched a s c = on_experiment (
          experiment_of_class env dir expanduser is_multi_client clients servers send_cmd
            wait_output a (some s) c)

      launched-Raises : (a : ExperimentClass) → is_failing a ≡ true → Raises (launched a contents c)
      launched-Raises a fails t u = experiment_of_class-Raises a (some contents) c fails _ u

      found_class :
          (o : Option ExperimentClass)
          → Option.map launched o ≡ some run
          → finds_failing o ≡ true
          → Raises (run contents c)
      found_class none h fails = cc
      found_class (some a) h fails =
          subst (λ r. Raises (r contents c)) (some-injective _ _ h) (launched-Raises a fails)

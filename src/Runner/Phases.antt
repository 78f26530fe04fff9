-- ===== src/Runner/Phases.antt =====
-- runner.py: the class `Runner`. The experiments are an interface: what an experiment does with the
-- text of its file, the configuration and the topology.
use minitopo.Base.{String, ◌==◌, Bool, ◌||◌, List, [], ◌∷◌, ◌++◌, Option, none, some, if◌then◌else◌}
use minitopo.Errors.{Result, ok, err, or_raise, exception, type_error, attribute_error}
use minitopo.Errors
use minitopo.Base.Dict.{lookup}
use minitopo.Runner.Topologies.{TopoClass, multi_interface_class, multi_client_class, topos}
use minitopo.Floats.{Floats}
use minitopo.Text.{◌<>◌, lower_equals}
use minitopo.Text.Split.{split}
use minitopo.Parameter
use minitopo.Parameter.{Value, text, several}
use minitopo.TopoParameter
use minitopo.TopoParameter.{TopoParameter}
use minitopo.Network
use minitopo.Network.{Env, Builder}
use minitopo.Run.{Run, pure, lift, gets, ◌>>=◌, ◌>>◌}
use minitopo.Topo.{Topo, start_network, stop_network, get_cli}
use minitopo.MultiInterface
use minitopo.MultiInterface.{MultiInterface}
use minitopo.MultiInterface.Configure.{configure_network}
use minitopo.MultiInterface.MultiClient.{
  init_multi_client, configure_all_network, all_server_interface_count,
}
use minitopo.Experiment.{TopoConfig, load_parameter, multi_interface_config}

-- The last component of a path, without empty ones and ".".
abbrev name_of : String → List String → String
name_of name [] = name
name_of name (c ∷ cs) =
    let rest = name_of name cs in if c == "" || c == "." then rest else name_of c cs

abbrev last_word : String → List String → String
last_word w [] = w
last_word w (v ∷ vs) = last_word v vs

-- The word behind the last dot of a name, unless that dot begins it.
abbrev suffix_word : List String → String
suffix_word [] = ""
suffix_word (w ∷ []) = ""
suffix_word (w ∷ v ∷ []) = if w == "" then "" else v
suffix_word (w ∷ v ∷ u ∷ ws) = last_word u ws

-- `_is_yaml`
unfoldable is_yaml : String → Bool
unfolding split lower_equals
is_yaml path =
    let suffix = suffix_word (split b'.' (name_of "" (split b'/' path))) in
    lower_equals suffix "yaml" || lower_equals suffix "yml"

-- What a runner holds once its topology is made.
pub record Running (F : Type 0) : Type 0 where
  pub topo : Topo F
  pub tmp_files : List String
  pub unlinked : List String

unfoldable pub on_runner : {F A : Type 0} → Run (Topo F) A → Run (Running F) A
on_runner m r = let (a, t) = m r.topo in (a, record r { topo = t })

-- `_cleanup_tmp_files`: a file that cannot be removed is passed over.
unfoldable pub cleanup_tmp_files : {F : Type 0} → Run (Running F) Unit
cleanup_tmp_files r = (ok tt, record r { tmp_files = []; unlinked = r.unlinked ++ r.tmp_files })

-- `__del__`
unfoldable pub delete_runner : {F : Type 0} → Run (Running F) Unit
unfolding cleanup_tmp_files
delete_runner = cleanup_tmp_files

-- `set_builder`
unfoldable pub set_builder : String → Result Builder
unfolding ◌<>◌
set_builder builder_type =
    if builder_type == "mininet"
    then ok Network.empty
    else err (exception ("I can not find the builder " <> builder_type))

module _ (fl : Floats) (env : Env) where
  open fl use {F}

  -- The constructor of a class of topologies.
  unfoldable topo_of_class : TopoClass → Builder → TopoParameter F → Result (MultiInterface F)
  unfolding MultiInterface.init init_multi_client
  topo_of_class multi_interface_class b tp = MultiInterface.init b tp
  topo_of_class multi_client_class b tp = init_multi_client b tp

  -- `TOPOS[t](...)`
  unfoldable topo_of : Value → Builder → TopoParameter F → Result (MultiInterface F)
  unfolding topo_of_class lookup topos ◌<>◌
  topo_of (several ss) b tp = err type_error
  topo_of (text t) b tp =
      Errors.◌>>=◌ (or_raise (exception ("Unknown topo: " <> t)) (lookup t topos))
        λ a. topo_of_class a b tp

  unfoldable pub apply_topo : Builder → TopoParameter F → Result (MultiInterface F)
  unfolding Parameter.get topo_of
  apply_topo b tp = Errors.◌>>=◌ (Parameter.get tp.parameter "topoType") λ t. topo_of t b tp

  unfoldable pub multi_client_network : MultiInterface F → Run (Topo F) (TopoConfig F)
  multi_client_network m = do
    n ← configure_all_network fl env m
    p ← gets (λ t. t.topo_parameter.parameter)
    pure (record (multi_interface_config fl env m n.ends p) {
      server_interface_count = all_server_interface_count n;
    })

  unfoldable pub multi_network : MultiInterface F → Run (Topo F) (TopoConfig F)
  multi_network m = do
    n ← configure_network fl env m
    p ← gets (λ t. t.topo_parameter.parameter)
    pure (multi_interface_config fl env m n p)

  -- The constructor of a class of configurations, by its `configure_network`.
  unfoldable pub config_of_class : TopoClass → MultiInterface F → Run (Topo F) (TopoConfig F)
  config_of_class multi_interface_class = multi_network
  config_of_class multi_client_class = multi_client_network

  -- `TOPO_CONFIGS[t](...)`
  unfoldable pub config_of : Value → Result (MultiInterface F → Run (Topo F) (TopoConfig F))
  unfolding config_of_class lookup topos ◌<>◌
  config_of (several ss) = err type_error
  config_of (text t) =
      Errors.◌>>=◌ (or_raise (exception ("Unknown topo config: " <> t)) (lookup t topos))
        λ a. ok (config_of_class a)

  unfoldable pub apply_topo_config :
      TopoParameter F → Result (MultiInterface F → Run (Topo F) (TopoConfig F))
  unfolding Parameter.get config_of
  apply_topo_config tp = Errors.◌>>=◌ (Parameter.get tp.parameter "topoType") config_of

  -- The constructor up to the start of the network, given the text of the parameter file.
  unfoldable pub set_up :
      String
      → Option String
      → Result (MultiInterface F × (MultiInterface F → Run (Topo F) (TopoConfig F)))
  unfolding TopoParameter.init set_builder apply_topo apply_topo_config
  set_up builder_type contents = Errors.◌>>=◌ (TopoParameter.init fl contents) λ tp.
      Errors.◌>>=◌ (set_builder builder_type) λ b.
        Errors.◌>>=◌ (apply_topo b tp)
          λ m. Errors.◌>>=◌ (apply_topo_config tp) λ configure. ok (m, configure)

  unfoldable pub start_topo : Run (Topo F) (TopoConfig F) → Run (Running F) (TopoConfig F)
  start_topo configure = do on_runner start_network; on_runner configure

  unfoldable pub open_cli : Run (Running F) Unit
  open_cli = do
    net ← gets (λ r. r.topo.topo_builder.net)
    if net then on_runner get_cli else lift (err attribute_error)

  unfoldable pub stop_topo : Run (Running F) Unit
  stop_topo = do on_runner stop_network; cleanup_tmp_files

  module _ (experiments : String → Option (String → TopoConfig F → Run (Topo F) Unit)) where
    unfoldable pub experiment_of : Value → Result (String → TopoConfig F → Run (Topo F) Unit)
    unfolding ◌<>◌
    experiment_of (several ss) = err type_error
    experiment_of (text xp) = or_raise (exception ("Unknown experiment " <> xp)) (experiments xp)

    unfoldable pub run_experiment : String → TopoConfig F → Run (Running F) Unit
    run_experiment contents c = do
      xp ← lift (Parameter.get (load_parameter (some contents)) "xpType")
      run ← lift (experiment_of xp)
      on_runner (run contents c)

    -- What the constructor does once the network is configured: as the source has it, an experiment
    -- is run and the network stopped, and then both happen again.
    unfoldable pub phases : Option String → TopoConfig F → Run (Running F) Unit
    phases none c = do open_cli; stop_topo
    phases (some contents) c = do
      run_experiment contents c
      stop_topo
      run_experiment contents c
      stop_topo

    -- The constructor from the start of the network on.
    unfoldable pub run_all : Run (Topo F) (TopoConfig F) → Option String → Run (Running F) Unit
    run_all configure contents = do c ← start_topo configure; phases contents c

-- ===== src/Experiment/RandomFile.antt =====
-- core/experiment.py: `RandomFileParameter` and `RandomFileExperiment`.
use minitopo.Base.{String, [], ◌∷◌, Option, if◌then◌else◌}
use minitopo.Base.Dict.{update}
use minitopo.Text.{concat}
use minitopo.Parameter
use minitopo.Parameter.{Parameter, Value, text, several, formatted}
use minitopo.TopoParameter.{is_text}
use minitopo.Network.{Env}
use minitopo.Run.{Run, pure, lift, ◌>>=◌, ◌>>◌}
use minitopo.Topo.{command_to}
use minitopo.Experiment.{Experiment, TopoConfig, on_topo, load_parameter}
use minitopo.Experiment.Phases.{prepare, clean, ping}

-- The attributes that `load_parameters` sets.
pub record Loaded : Type 0 where
  pub file : Value
  pub random_size : Value

unfoldable pub random_file_parameter : Option String → Parameter
unfolding load_parameter update
random_file_parameter contents =
    let base = load_parameter contents in
    record base {
      default_parameters =
          update base.default_parameters (("file", "random") ∷ ("file_size", "1024") ∷ []);
    }

unfoldable pub random_cmd : Value → String
unfolding concat formatted
random_cmd size = concat ("dd if=/dev/urandom of=random bs=1K count=" ∷ formatted size ∷ [])

module _ {F : Type 0} (env : Env) (c : TopoConfig F) (p : Parameter) where
  unfoldable pub load_parameters : Run (Experiment F) Loaded
  load_parameters = do
    file ← lift (Parameter.get p "file")
    random_size ← lift (Parameter.get p "file_size")
    pure (record { file = file; random_size = random_size })

  -- `RandomFileExperiment(...)` pings when it is made.
  unfoldable pub init : Run (Experiment F) Loaded
  init = do loaded ← load_parameters; ping env c p; pure loaded

  unfoldable pub prepare_file : Loaded → Run (Experiment F) Unit
  prepare_file x = do
    prepare env c p
    if is_text x.file "random"
        then (do on_topo (command_to env c.client (random_cmd x.random_size)); pure tt)
        else pure tt

  unfoldable pub clean_file : Loaded → Run (Experiment F) Unit
  clean_file x = do
    clean env c p
    if is_text x.file "random"
        then (do on_topo (command_to env c.client "rm random*"); pure tt)
        else pure tt

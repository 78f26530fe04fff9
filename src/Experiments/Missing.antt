-- ===== src/Experiments/Missing.antt =====
-- experiments/: the keys without a default that an experiment asks for first.
use minitopo.Base.{String, ◌≡◌, refl, ap, arith, Bool, List, Option, none, some}
use minitopo.Base.Dict.{lookup, insert, update}
use minitopo.Errors.{Result, err, exception}
use mathlib.Core.Option.{some-injective}
use mathlib.Core.Path.{subst}
use minitopo.Text.{◌<>◌}
use minitopo.Parameter
use minitopo.Parameter.{Parameter, Value}
use minitopo.Network.{Env}
use minitopo.Run.{Run, lift, ◌>>=◌, >>=-err}
use minitopo.Experiment.{Experiment, TopoConfig, load_parameter}
use minitopo.Experiments.SiriCombined
use minitopo.Experiments.{with_defaults}
use minitopo.Experiments.Streams
use minitopo.Experiments.Siri
use minitopo.Experiments.Classes.{
  ExperimentClass, quic_siri_class, siri_class, siri_http_class, siri_msg_class, vlc_class,
  experiment_of_class,
}

-- A key that the file does not give and that has no default.
get-missing :
    (p : Parameter) (key : String)
    → lookup key p.parameters ≡ none
    → lookup key p.default_parameters ≡ none
    → Parameter.get p key ≡ err (exception ("Parameter not found " <> key))
unfolding Parameter.get
get-missing p key missing no_default = ground arith

abbrev needed : ExperimentClass → Option String
needed siri_class = some "siriRunTime"
needed siri_msg_class = some "siriRunTime"
needed siri_http_class = some "siriRunTime"
needed quic_siri_class = some "quicSiriRunTime"
needed vlc_class = some "vlcFile"
needed _ = none

-- A file gives no default, so the defaults are those of the class.
siri_missing :
    (s : Option String)
    → lookup "siriRunTime" (load_parameter s).parameters ≡ none
    → Parameter.get (Siri.siri_parameter s) "siriRunTime"
      ≡ err (exception ("Parameter not found " <> "siriRunTime"))
unfolding Siri.siri_parameter Siri.siri_defaults with_defaults load_parameter update insert lookup
    Parameter.init
siri_missing none missing = get-missing (Siri.siri_parameter none) "siriRunTime" missing refl
siri_missing (some t) missing =
    get-missing (Siri.siri_parameter (some t)) "siriRunTime" missing refl

siri_msg_missing :
    (s : Option String)
    → lookup "siriRunTime" (load_parameter s).parameters ≡ none
    → Parameter.get (SiriCombined.siri_msg_parameter s) "siriRunTime"
      ≡ err (exception ("Parameter not found " <> "siriRunTime"))
unfolding SiriCombined.siri_msg_parameter Streams.msg_parameter Siri.siri_defaults with_defaults
    load_parameter update insert lookup Parameter.init
siri_msg_missing none missing =
    get-missing (SiriCombined.siri_msg_parameter none) "siriRunTime" missing refl
siri_msg_missing (some t) missing =
    get-missing (SiriCombined.siri_msg_parameter (some t)) "siriRunTime" missing refl

quic_siri_missing :
    (s : Option String)
    → lookup "quicSiriRunTime" (load_parameter s).parameters ≡ none
    → Parameter.get (Streams.quic_siri_parameter s) "quicSiriRunTime"
      ≡ err (exception ("Parameter not found " <> "quicSiriRunTime"))
unfolding Streams.quic_siri_parameter with_defaults load_parameter update insert lookup
    Parameter.init
quic_siri_missing none missing =
    get-missing (Streams.quic_siri_parameter none) "quicSiriRunTime" missing refl
quic_siri_missing (some t) missing =
    get-missing (Streams.quic_siri_parameter (some t)) "quicSiriRunTime" missing refl

vlc_missing :
    (s : Option String)
    → lookup "vlcFile" (load_parameter s).parameters ≡ none
    → Parameter.get (load_parameter s) "vlcFile"
      ≡ err (exception ("Parameter not found " <> "vlcFile"))
unfolding load_parameter update insert lookup Parameter.init
vlc_missing none missing = get-missing (load_parameter none) "vlcFile" missing refl
vlc_missing (some t) missing = get-missing (load_parameter (some t)) "vlcFile" missing refl

-- What begins with the reading of such a key.
lift-missing :
    {S A B : Type 0} (r : Result A) (f : A → Run S B) (s : S) (e : String)
    → r ≡ err (exception e)
    → (lift r >>= f) s ≡ (err (exception e), s)
unfolding lift
lift-missing r f s e raised = >>=-err (lift r) f (ap (λ r. (r, s)) raised)

module _ {F : Type 0} (env : Env) (dir : String) (expanduser : String → String)
    (is_multi_client : Bool) (clients servers : List String)
    (send_cmd : String → String → Run (Experiment F) Unit)
    (wait_output : String → Run (Experiment F) Unit) where
  -- An experiment raises at once, at a key that a file does not give.
  abbrev RaisesAt : ExperimentClass → Option String → TopoConfig F → Experiment F → String → Type 0
  RaisesAt a s c e key =
      lookup key (load_parameter s).parameters ≡ none
      → experiment_of_class env dir expanduser is_multi_client clients servers send_cmd wait_output
          a s c e
        ≡ (err (exception ("Parameter not found " <> key)), e)

  needed-RaisesAt :
      (a : ExperimentClass) (key : String) (s : Option String) (c : TopoConfig F) (e : Experiment F)
      → needed a ≡ some key
      → RaisesAt a s c e key
  unfolding experiment_of_class Siri.siri_experiment SiriCombined.siri_msg_experiment
      SiriCombined.siri_http_experiment Siri.load_siri Streams.quic_siri_experiment
      Streams.vlc_experiment
  needed-RaisesAt siri_class key s c e h =
      subst (RaisesAt siri_class s c e) (some-injective _ _ h) (λ missing.
        >>=-err (Siri.load_siri env dir c (Siri.siri_parameter s)) _
          (lift-missing _ _ e _ (siri_missing s missing)))
  needed-RaisesAt siri_http_class key s c e h =
      subst (RaisesAt siri_http_class s c e) (some-injective _ _ h) (λ missing.
        >>=-err (Siri.load_siri env dir c (Siri.siri_parameter s)) _
          (lift-missing _ _ e _ (siri_missing s missing)))
  needed-RaisesAt siri_msg_class key s c e h =
      subst (RaisesAt siri_msg_class s c e) (some-injective _ _ h) (λ missing.
        >>=-err (Siri.load_siri env dir c (SiriCombined.siri_msg_parameter s)) _
          (lift-missing _ _ e _ (siri_msg_missing s missing)))
  needed-RaisesAt quic_siri_class key s c e h =
      subst (RaisesAt quic_siri_class s c e) (some-injective _ _ h)
        (λ missing. lift-missing _ _ e _ (quic_siri_missing s missing))
  needed-RaisesAt vlc_class key s c e h =
      subst (RaisesAt vlc_class s c e) (some-injective _ _ h)
        (λ missing. lift-missing _ _ e _ (vlc_missing s missing))
  needed-RaisesAt _ key s c e h = cc h

  -- The experiments siri, sirimsg, sirihttp, quicsiri and vlc ask for a key that has no default: with
  -- a file that does not give it, or with no file, they raise "Parameter not found" before anything
  -- is run.
  pub experiment_of_class-missing :
      (a : ExperimentClass) (key : String) (s : Option String) (c : TopoConfig F) (e : Experiment F)
      → needed a ≡ some key
      → lookup key (load_parameter s).parameters ≡ none
      → experiment_of_class env dir expanduser is_multi_client clients servers send_cmd wait_output
          a s c e
        ≡ (err (exception ("Parameter not found " <> key)), e)
  experiment_of_class-missing a key s c e h missing = needed-RaisesAt a key s c e h missing

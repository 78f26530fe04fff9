-- ===== src/Experiments/Raising.antt =====
-- experiments/vlc.py, epload.py, nc.py, ncpv.py and siri_http.py: experiments that cannot end without
-- an exception.
use minitopo.Base.{String, Option, ◌≡◌, ◌≢◌, refl, sym}
use mathlib.Core.Path.{subst}
use minitopo.Errors.{Result, ok, err, attribute_error}
use minitopo.Parameter.{Parameter}
use minitopo.Network.{Env}
use minitopo.Run.{Run, continue, lift, ◌>>=◌}
use minitopo.Run.Keeps.{Keeps}
use minitopo.Experiment.{Experiment, TopoConfig}
use minitopo.Experiment.Phases.{classic_run}
use minitopo.Experiments.Streams.{vlc_clean, vlc_experiment}
use minitopo.Experiments.SiriCombined.{siri_http_experiment}
use minitopo.Experiments.Traffic.{epload_parameter, epload_experiment}
use minitopo.Experiments.Netcat.{load_nc, nc_experiment, ncpv_experiment}

-- A method that returns from no state.
abbrev pub Raises {ℓ} : {S A : Type ℓ} → Run S A → Type ℓ
Raises {S = S} {A = A} m = (s : S) (a : A) → (m s).0 ≢ ok a

continue-Raises {ℓ} :
    {S A B : Type ℓ} (f : A → Run S B)
    → ((a : A) → Raises (f a))
    → (r : Result A) (s : S) (b : B) → (continue r f s).0 ≢ ok b
continue-Raises f raises (ok a) s b = raises a s b
continue-Raises f raises (err e) s b = λ h. cc h

-- What follows a method raises, so the two raise, whichever of them does.
pub Raises-rest {ℓ} :
    {S A B : Type ℓ} (m : Run S A) (f : A → Run S B) → ((a : A) → Raises (f a)) → Raises (m >>= f)
unfolding ◌>>=◌
Raises-rest m f raises s = continue-Raises f raises (m s).0 (m s).1

-- So does a method that begins with one that raises, and it does no more than that.
raised {ℓ} :
    {S A B : Type ℓ} (f : A → Run S B) (r : Result A) (s : S)
    → ((a : A) → r ≢ ok a)
    → ((b : B) → (continue r f s).0 ≢ ok b) × ((continue r f s).1 ≡ s)
raised f (ok a) s raises = absurd (raises a refl)
raised f (err e) s raises = ((λ b h. cc h), refl)

pub Raises-first {ℓ} :
    {S A B : Type ℓ} (m : Run S A) (f : A → Run S B) → Raises m → Raises (m >>= f)
unfolding ◌>>=◌
Raises-first m f raises s = (raised f (m s).0 (m s).1 (raises s)).0

-- What holds before and after a method that raises holds whatever follows it.
pub Keeps-Raises {ℓ} :
    {S A B : Type ℓ} {P : S → Type ℓ} (m : Run S A) (f : A → Run S B)
    → Keeps P m
    → Raises m
    → Keeps P (m >>= f)
unfolding ◌>>=◌
Keeps-Raises {P = P} m f km raises = record {
  at = λ s h. subst P (sym (raised f (m s).0 (m s).1 (raises s)).1) (km.at s h);
}

module _ {F : Type 0} (env : Env) (c : TopoConfig F) (p : Parameter) where
  vlc_clean-Raises : Raises (vlc_clean env c p)
  unfolding vlc_clean ◌>>=◌ lift
  vlc_clean-Raises s a h = cc h

  classic_run-Raises :
      (before run after : Run (Experiment F) Unit)
      → Raises after
      → Raises (classic_run env c p before run after)
  unfolding classic_run
  classic_run-Raises before run after raises =
      Raises-rest before _ (λ _. Raises-rest run _ (λ _. raises))

  -- Whatever the file, the configuration and the answers of the environment, the experiment with
  -- VLC ends in an exception: it returns from no state.
  pub vlc_experiment-ne-ok : (s : Experiment F) (a : Unit) → (vlc_experiment env c p s).0 ≢ ok a
  unfolding vlc_experiment
  vlc_experiment-ne-ok = Raises-rest _ _ (λ file.
      Raises-rest _ _ (λ time. Raises-rest _ _ (λ _. classic_run-Raises _ _ _ vlc_clean-Raises)))

  attribute_error-Raises : Raises (lift {S = Experiment F} {A = Unit} (err attribute_error))
  unfolding lift
  attribute_error-Raises s a h = cc h

  pub load_nc-Raises : Raises (load_nc env c p)
  unfolding load_nc lift
  load_nc-Raises =
      Raises-rest _ _
        (λ _. Raises-rest _ _ (λ _. Raises-rest _ _ (λ _. Raises-rest _ _ (λ _ s a h. cc h))))

  pub nc_experiment-Raises :
      (send_cmd : String → String → Run (Experiment F) Unit)
      (wait_output : String → Run (Experiment F) Unit)
      → Raises (nc_experiment env c p send_cmd wait_output)
  unfolding nc_experiment
  nc_experiment-Raises send_cmd wait_output = Raises-first _ _ load_nc-Raises

  pub ncpv_experiment-Raises : Raises (ncpv_experiment env c p)
  unfolding ncpv_experiment
  ncpv_experiment-Raises = Raises-first _ _ load_nc-Raises

  pub siri_http_experiment-Raises : (dir : String) → Raises (siri_http_experiment env dir c p)
  unfolding siri_http_experiment
  siri_http_experiment-Raises dir = Raises-rest _ _ (λ _. Raises-rest _ _ (λ _.
      Raises-rest _ _ (λ x.
        Raises-rest _ _
          (λ _. classic_run-Raises _ _ _ (Raises-rest _ _ (λ _. attribute_error-Raises))))))

module _ {F : Type 0} (env : Env) (c : TopoConfig F) where
  pub epload_experiment-Raises :
      (contents : Option String) → Raises (epload_experiment env c contents)
  unfolding epload_experiment epload_parameter lift
  epload_experiment-Raises contents = Raises-first _ _ (λ s a h. cc h)

-- ===== src/Experiment/Saving.antt =====
-- core/experiment.py: the tables that `save_sysctl` makes.
use mathlib.Core.Path.{subst}
use minitopo.Base.{
  String, ◌==◌, eq_iff, ◌≡◌, ◌≢◌, refl, sym, ap, ◌∙◌, false, List, [], ◌∷◌, ◌++◌, map, All,
}
use minitopo.Base.{Option, some, arith, append_assoc, append-nil}
use minitopo.Base.Dict.{Dict, insert, keys, elem}
use minitopo.Errors.{Result, ok}
use minitopo.Text.{has}
use minitopo.Network.{Action, Env}
use minitopo.Run.{pure, >>=-ok, for_each}
use minitopo.Experiment.{Experiment, TopoConfig}
use minitopo.Experiment.Sysctl.{
  Scope, of_host, of_client, of_server, sysctl_dict, read_sysctl_cmd, saved, with_saved, inserted,
  remember, who, save_one, save_scope, save_sysctl, forget,
}
use minitopo.Experiment.Kernel.{Kernel, IsKey, done, ran, done-ran, saved-ran, save_one-ok}

abbrev pub Distinct : List String → Type 0
Distinct [] = Unit {0}
Distinct (k ∷ ks) = (elem k ks ≡ false) × Distinct ks

keys-append {ℓ} : {V : Type ℓ} (d e : Dict V) → keys (d ++ e) ≡ keys d ++ keys e
unfolding keys
keys-append [] e = refl
keys-append ((k, v) ∷ d) e = ap (λ ks. k ∷ ks) (keys-append d e)

elem-middle :
    (j k : String) (ks js : List String) → elem j (ks ++ k ∷ js) ≡ false → (k == j) ≡ false
unfolding elem
elem-middle j k [] js h = ground arith
elem-middle j k (i ∷ ks) js h = ground (arith, elem-middle j k ks js)

Distinct-middle : (k : String) (ks js : List String) → Distinct (ks ++ k ∷ js) → elem k ks ≡ false
unfolding elem
Distinct-middle k [] js h = refl
Distinct-middle k (i ∷ ks) js h =
    ground (arith, elem-middle i k ks js h.0, Distinct-middle k ks js h.1, eq_iff i k, eq_iff k i)

-- A new key goes to the end.
insert-fresh {ℓ} :
    {V : Type ℓ} (k : String) (v : V) (d : Dict V)
    → elem k (keys d) ≡ false
    → insert k v d ≡ d ++ (k, v) ∷ []
unfolding insert keys elem
insert-fresh k v [] h = refl
insert-fresh k v ((j, w) ∷ d) h = ground (arith, insert-fresh k v d)

module _ {F : Type 0} where
  done-with_saved :
      (scope : Scope) (d : Option (Dict String)) (e : Experiment F)
      → done (with_saved scope d e) ≡ done e
  done-with_saved of_host d e = refl
  done-with_saved of_client d e = refl
  done-with_saved of_server d e = refl

  saved-with_saved :
      (scope : Scope) (d : Option (Dict String)) (e : Experiment F)
      → saved scope (with_saved scope d e) ≡ d
  saved-with_saved of_host d e = refl
  saved-with_saved of_client d e = refl
  saved-with_saved of_server d e = refl

  saved-with_saved_other :
      (scope other : Scope) (d : Option (Dict String)) (e : Experiment F)
      → scope ≢ other
      → saved other (with_saved scope d e) ≡ saved other e
  saved-with_saved_other of_host of_host d e h = absurd (h refl)
  saved-with_saved_other of_client of_client d e h = absurd (h refl)
  saved-with_saved_other of_server of_server d e h = absurd (h refl)
  saved-with_saved_other of_host of_client d e h = refl
  saved-with_saved_other of_host of_server d e h = refl
  saved-with_saved_other of_client of_host d e h = refl
  saved-with_saved_other of_client of_server d e h = refl
  saved-with_saved_other of_server of_host d e h = refl
  saved-with_saved_other of_server of_client d e h = refl

abbrev pub Keyed : Dict String → Type 0
Keyed = All (λ row. IsKey row.1)

pub tables-Keyed : (scope : Scope) → Keyed (sysctl_dict scope)
unfolding has
tables-Keyed of_host = search
tables-Keyed of_client = ((refl, refl), tt)
tables-Keyed of_server = ((refl, refl), tt)

tables-Distinct : (scope : Scope) → Distinct (keys (sysctl_dict scope))
unfolding keys elem
tables-Distinct of_host = search
tables-Distinct of_client = (refl, tt)
tables-Distinct of_server = (refl, tt)

module _ {F : Type 0} (env : Env) (kernel : Kernel env) (c : TopoConfig F)
    (earlier : List Action) where
  open kernel use {setting}

  -- The settings are what they were at an earlier time.
  abbrev Unchanged : Experiment F → Type 0
  Unchanged e =
      (place : Option String) (key : String)
      → setting (done e) place key ≡ setting earlier place key

  -- The table of the values that the settings had at that time.
  abbrev pub values : Scope → Dict String → Dict String
  values scope = map (λ row. (row.0, setting earlier (who c scope) row.1))

  record Saved (scope : Scope) (d : Dict String) (e : Experiment F)
      (r : Result (Unit {0}) × Experiment F) : Type 0 where
    pub returned : r.0 ≡ ok tt
    pub table : saved scope r.1 ≡ some d
    pub others : (other : Scope) → scope ≢ other → saved other r.1 ≡ saved other e
    pub unchanged : Unchanged r.1

  -- The state after one round of the loop.
  abbrev saving : Scope → String → String → Experiment F → Experiment F
  saving scope k key e =
      let read = ran env (who c scope) (read_sysctl_cmd key) e in
      with_saved scope (inserted k (setting (done e) (who c scope) key) (saved scope read)) read

  save_one-saving :
      (scope : Scope) (k key : String) (e : Experiment F)
      → IsKey key
      → save_one env c scope (k, key) e ≡ (ok tt, saving scope k key e)
  unfolding remember
  save_one-saving scope k key e h = save_one-ok env kernel c scope k key e h

  saving-Unchanged :
      (scope : Scope) (k key : String) (e : Experiment F)
      → IsKey key
      → Unchanged e
      → Unchanged (saving scope k key e)
  saving-Unchanged scope k key e h same place' key' =
      ap (λ a. setting a place' key')
        (done-with_saved scope _ _ ∙ done-ran env (who c scope) (read_sysctl_cmd key) e)
      ∙ kernel.reading_keeps (done e) (who c scope) place' key key' h
      ∙ same place' key'

  save_loop :
      (scope : Scope) (rows d : Dict String) (e : Experiment F)
      → Keyed rows
      → Distinct (keys d ++ keys rows)
      → saved scope e ≡ some d
      → Unchanged e
      → Saved scope (d ++ values scope rows) e (for_each (save_one env c scope) rows e)
  unfolding for_each pure keys
  save_loop scope [] d e keyed distinct table same = record {
    returned = refl;
    table = table ∙ ap some (sym (append-nil d));
    others = λ other ne. refl;
    unchanged = same;
  }
  save_loop scope ((k, key) ∷ rows) d e keyed distinct table same =
      let rest =
        save_loop scope rows (d ++ (k, setting earlier place key) ∷ []) (saving scope k key e)
          keyed.1 (subst Distinct one_key_on distinct) one_row_on
          (saving-Unchanged scope k key e keyed.0 same) in
      subst (Saved scope (d ++ values scope ((k, key) ∷ rows)) e)
        (sym (>>=-ok (save_one env c scope (k, key)) _ (save_one-saving scope k key e keyed.0)))
        (record {
          returned = rest.returned;
          table = rest.table ∙ ap some (append_assoc d _ _);
          others = λ other ne.
              rest.others other ne
              ∙ saved-with_saved_other scope other _ _ ne
              ∙ saved-ran env place (read_sysctl_cmd key) e other;
          unchanged = rest.unchanged;
        })
    where
      place : Option String
      place = who c scope

      fresh : elem k (keys d) ≡ false
      fresh = Distinct-middle k (keys d) (keys rows) distinct

      one_row_on :
          saved scope (saving scope k key e) ≡ some (d ++ (k, setting earlier place key) ∷ [])
      one_row_on =
          saved-with_saved scope _ _
          ∙ ap (inserted k (setting (done e) place key))
              (saved-ran env place (read_sysctl_cmd key) e scope ∙ table)
          ∙ ap some (insert-fresh k (setting (done e) place key) d fresh)
          ∙ ap (λ v. some (d ++ (k, v) ∷ [])) (same place key)

      one_key_on :
          keys d ++ k ∷ keys rows ≡ keys (d ++ (k, setting earlier place key) ∷ []) ++ keys rows
      one_key_on = sym (
          ap (λ ks. ks ++ keys rows) (keys-append d ((k, setting earlier place key) ∷ []))
          ∙ append_assoc (keys d) (k ∷ []) (keys rows))

  -- All that `_save_sysctl` does on one scope.
  save_scope-Saved :
      (scope : Scope) (e : Experiment F)
      → Keyed (sysctl_dict scope)
      → Distinct (keys (sysctl_dict scope))
      → Unchanged e
      → Saved scope (values scope (sysctl_dict scope)) e (save_scope env c scope e)
  unfolding save_scope forget keys
  save_scope-Saved scope e keyed distinct same =
      let rest =
        save_loop scope (sysctl_dict scope) [] (with_saved scope (some []) e) keyed distinct
          (saved-with_saved scope (some []) e)
          (λ place key.
            ap (λ a. setting a place key) (done-with_saved scope (some []) e) ∙ same place key) in
      subst (Saved scope (values scope (sysctl_dict scope)) e) (sym (>>=-ok (forget scope) _ refl))
        (record {
          returned = rest.returned;
          table = rest.table;
          others =
              λ other ne. rest.others other ne ∙ saved-with_saved_other scope other (some []) e ne;
          unchanged = rest.unchanged;
        })

  -- All that `save_sysctl` leaves.
  pub record AllSaved (r : Result (Unit {0}) × Experiment F) : Type 0 where
    pub returned : r.0 ≡ ok tt
    pub tables : (scope : Scope) → saved scope r.1 ≡ some (values scope (sysctl_dict scope))
    pub unchanged : Unchanged r.1

  pub save_sysctl-AllSaved : (e : Experiment F) → Unchanged e → AllSaved (save_sysctl env c e)
  unfolding save_sysctl
  save_sysctl-AllSaved e same =
      subst AllSaved
        (sym (
          >>=-ok (save_scope env c of_host) _ (ap (λ r. (r, after_host)) host.returned)
          ∙ >>=-ok (save_scope env c of_client) _ (ap (λ r. (r, after_client)) client.returned)))
        (record { returned = server.returned; tables = tables; unchanged = server.unchanged })
    where
      after_host : Experiment F
      after_host = (save_scope env c of_host e).1

      host : Saved of_host (values of_host (sysctl_dict of_host)) e (save_scope env c of_host e)
      host = save_scope-Saved of_host e (tables-Keyed of_host) (tables-Distinct of_host) same

      after_client : Experiment F
      after_client = (save_scope env c of_client after_host).1

      client :
          Saved of_client
            (values of_client (sysctl_dict of_client))
            after_host
            (save_scope env c of_client after_host)
      client =
          save_scope-Saved of_client after_host (tables-Keyed of_client) (tables-Distinct of_client)
            host.unchanged

      server :
          Saved of_server
            (values of_server (sysctl_dict of_server))
            after_client
            (save_scope env c of_server after_client)
      server =
          save_scope-Saved of_server after_client (tables-Keyed of_server)
            (tables-Distinct of_server) client.unchanged

      tables :
          (scope : Scope)
          → saved scope (save_scope env c of_server after_client).1
            ≡ some (values scope (sysctl_dict scope))
      tables of_host =
          server.others of_host (λ h. cc h) ∙ client.others of_host (λ h. cc h) ∙ host.table
      tables of_client = server.others of_client (λ h. cc h) ∙ client.table
      tables of_server = server.table

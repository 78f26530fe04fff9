-- ===== src/Experiment/Kernel.antt =====
-- core/experiment.py: what the saving and the restoring of sysctls rely on, and the steps of their
-- loops.
use minitopo.Base.{
  Char, String, ◌==◌, eq_iff, ◌≡◌, ◌≢◌, refl, sym, ap, ◌∙◌, true, false, List, [], ◌∷◌, ◌++◌,
}
use minitopo.Base.{Option, none, some, if◌then◌else◌, not, inl, inr, Bool-cases}
use minitopo.Base.Dict.{lookup}
use minitopo.Errors.{ok, or_raise, key_error}
use minitopo.Text.{◌<>◌, concat, has}
use minitopo.Text.Split.{split_at_most, split_at_most-append, split_at_most-zero, has-append}
use minitopo.Network.{Action, Env, to, everywhere}
use minitopo.Run.{pure, lift, ◌>>=◌, >>=-ok}
use minitopo.Topo.{command_to, command_global}
use minitopo.Experiment.{Experiment, TopoConfig, on_topo}
use minitopo.Experiment.Sysctl.{
  Scope, of_host, of_client, of_server, sysctl_dict, read_sysctl_cmd, cmd_write_sysctl, but_last,
  value_of_answer, third_word, saved, remember, who, run_sysctl, save_one, restore_one,
}

-- The name of a sysctl has no space and no `=`.
abbrev pub IsKey : String → Type 0
IsKey key = (has b' ' key ≡ false) × (has b'=' key ≡ false)

-- A command of the host, or of a node.
abbrev pub action : Option String → String → Action
action none cmd = everywhere cmd
action (some node) cmd = to node cmd

-- "key = value\n"
abbrev pub answer : String → String → String
answer key value = concat (key ∷ " = " ∷ value ∷ "\n" ∷ [])

-- The documented behaviour of `sysctl` on Linux: each network namespace has a value for each name,
-- reading prints it and changes nothing, and writing back a value that the name has had sets the
-- name and no other, in this namespace and in no other.
pub record Kernel (env : Env) : Type 0 where
  pub setting : List Action → Option String → String → String
  pub reads_host :
      (done : List Action) (key : String)
      → IsKey key
      → env.shell done (read_sysctl_cmd key) ≡ (answer key (setting done none key), "")
  pub reads_node :
      (done : List Action) (node key : String)
      → IsKey key
      → env.node_cmd done node (read_sysctl_cmd key) ≡ answer key (setting done (some node) key)
  pub reading_keeps :
      (done : List Action) (place place' : Option String) (key key' : String)
      → IsKey key
      → setting (done ++ action place (read_sysctl_cmd key) ∷ []) place' key'
        ≡ setting done place' key'
  pub writes :
      (done earlier : List Action) (place : Option String) (key : String)
      → IsKey key
      → setting
          (done ++ action place (cmd_write_sysctl key (setting earlier place key)) ∷ [])
          place
          key
        ≡ setting earlier place key
  pub other_key :
      (done : List Action) (place place' : Option String) (key key' value : String)
      → IsKey key
      → key ≢ key'
      → setting (done ++ action place (cmd_write_sysctl key value) ∷ []) place' key'
        ≡ setting done place' key'
  pub other_place :
      (done : List Action) (place place' : Option String) (key key' value : String)
      → IsKey key
      → place ≢ place'
      → setting (done ++ action place (cmd_write_sysctl key value) ∷ []) place' key'
        ≡ setting done place' key'

-- The character that the answer is split at.
abbrev space : Char
space = Prim.Native.Char.char 32 tt

pub but_last-append : (v : String) (c : Char) → but_last (v <> String.◌∷◌ c "") ≡ v
unfolding but_last ◌<>◌
but_last-append String.[] c = refl
but_last-append (String.◌∷◌ d String.[]) c = refl
but_last-append (String.◌∷◌ d (String.◌∷◌ b v)) c =
    ap (λ s. String.◌∷◌ d s) (but_last-append (String.◌∷◌ b v) c)

words_of_answer :
    (key v : String)
    → IsKey key
    → split_at_most b' ' 2 (answer key v) ≡ key ∷ "=" ∷ (v <> "\n") ∷ []
unfolding concat ◌<>◌
words_of_answer key v h =
    split_at_most-append b' ' 1 key space ("= " <> v <> "\n") refl h.0
    ∙ ap (λ ws. key ∷ ws)
        (split_at_most-append b' ' 0 "=" space (v <> "\n") refl (unfold has in refl)
          ∙ ap (λ ws. "=" ∷ ws) (split_at_most-zero b' ' (v <> "\n")))

-- What is saved is the value that was printed.
value_of_answer-answer : (key v : String) → IsKey key → value_of_answer (answer key v) ≡ ok v
unfolding value_of_answer third_word
value_of_answer-answer key v h =
    ap third_word (words_of_answer key v h)
    ∙ ap ok (but_last-append v (Prim.Native.Char.char 10 tt))

answer-ne : (key v : String) → (answer key v == "Error") ≡ false
unfolding concat ◌<>◌
answer-ne key v = elim (Bool-cases (answer key v == "Error")) [
  | inl e ↦ absurd (
      differ (
        sym (has-append b' ' key (" = " <> v <> "\n" <> "") (unfold has in refl))
        ∙ ap (has b' ') ((eq_iff _ _).0 e)))
  | inr e ↦ e
]
  where
    differ : true ≡ has b' ' "Error" → ⊥
    differ h = unfold has in cc h

module _ {F : Type 0} where
  abbrev pub done : Experiment F → List Action
  done e = e.topo.topo_builder.done

  module _ (env : Env) where
    -- The state after a command.
    abbrev pub ran : Option String → String → Experiment F → Experiment F
    ran place cmd e = (run_sysctl env place cmd e).1

    pub done-ran :
        (place : Option String) (cmd : String) (e : Experiment F)
        → done (ran place cmd e) ≡ done e ++ action place cmd ∷ []
    unfolding run_sysctl on_topo command_to command_global
    done-ran none cmd e = refl
    done-ran (some node) cmd e = refl

    pub saved-ran :
        (place : Option String) (cmd : String) (e : Experiment F) (scope : Scope)
        → saved scope (ran place cmd e) ≡ saved scope e
    unfolding run_sysctl on_topo
    saved-ran none cmd e of_host = refl
    saved-ran none cmd e of_client = refl
    saved-ran none cmd e of_server = refl
    saved-ran (some node) cmd e of_host = refl
    saved-ran (some node) cmd e of_client = refl
    saved-ran (some node) cmd e of_server = refl

    ran-ok :
        (place : Option String) (cmd : String) (e : Experiment F)
        → (answered : String) × (run_sysctl env place cmd e ≡ (ok answered, ran place cmd e))
    unfolding run_sysctl on_topo command_to command_global
    ran-ok none cmd e = (_, refl)
    ran-ok (some node) cmd e = (_, refl)

    pub restore_one-ok :
        (c : TopoConfig F) (scope : Scope) (k key v : String) (e : Experiment F)
        → lookup k (sysctl_dict scope) ≡ some key
        → restore_one env c scope (k, v) e ≡ (ok tt, ran (who c scope) (cmd_write_sysctl key v) e)
    unfolding restore_one lift pure
    restore_one-ok c scope k key v e h =
        let (answered, r) = ran-ok (who c scope) (cmd_write_sysctl key v) e in
        >>=-ok (lift (or_raise key_error (lookup k (sysctl_dict scope)))) _
          (ap (λ o. (or_raise key_error o, e)) h)
        ∙ >>=-ok (run_sysctl env (who c scope) (cmd_write_sysctl key v)) _ r

    module _ (kernel : Kernel env) where
      open kernel use {setting}

      read_sysctl-answer :
          (place : Option String) (key : String) (e : Experiment F)
          → IsKey key
          → run_sysctl env place (read_sysctl_cmd key) e
            ≡ (ok (answer key (setting (done e) place key)), ran place (read_sysctl_cmd key) e)
      unfolding run_sysctl on_topo command_to command_global
      read_sysctl-answer none key e h =
          ap
            (λ r. (ok (if not (r.1 == "") then "Error" else r.0), ran none (read_sysctl_cmd key) e))
            (kernel.reads_host (done e) key h)
      read_sysctl-answer (some node) key e h =
          ap (λ a. (ok a, ran (some node) (read_sysctl_cmd key) e))
            (kernel.reads_node (done e) node key h)

      pub save_one-ok :
          (c : TopoConfig F) (scope : Scope) (k key : String) (e : Experiment F)
          → IsKey key
          → save_one env c scope (k, key) e
            ≡ remember scope k
                (setting (done e) (who c scope) key)
                (ran (who c scope) (read_sysctl_cmd key) e)
      unfolding save_one lift
      save_one-ok c scope k key e h =
          >>=-ok (run_sysctl env (who c scope) (read_sysctl_cmd key)) _
            (read_sysctl-answer (who c scope) key e h)
          ∙ ap
              (λ b.
                (if b then pure tt else (lift (value_of_answer printed) >>= remember scope k))
                  after)
              (answer-ne key (setting (done e) (who c scope) key))
          ∙ >>=-ok (lift (value_of_answer printed)) (remember scope k) (
              ap (λ r. (r, after))
                (value_of_answer-answer key (setting (done e) (who c scope) key) h))
        where
          printed : String
          printed = answer key (setting (done e) (who c scope) key)

          after : Experiment F
          after = ran (who c scope) (read_sysctl_cmd key) e

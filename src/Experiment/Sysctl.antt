-- ===== src/Experiment/Sysctl.antt =====
-- core/experiment.py: the sysctls that an experiment saves, writes and restores.
use minitopo.Base.{String, ◌==◌, List, [], ◌∷◌, Option, none, some, if◌then◌else◌, get_elem?}
use minitopo.Base.Dict.{Dict, lookup, insert}
use minitopo.Errors.{Result, ok, err, or_raise, index_error, key_error, attribute_error}
use minitopo.Text.{concat}
use minitopo.Text.Split.{split_at_most}
use minitopo.Parameter
use minitopo.Parameter.{Parameter, formatted}
use minitopo.Network.{Env}
use minitopo.Run.{Run, pure, lift, ◌>>=◌, ◌>>◌, for_each}
use minitopo.Topo.{command_to, command_global}
use minitopo.Experiment.{
  Experiment, TopoConfig, on_topo, sysctl_key, sysctl_key_client, sysctl_key_server,
}

-- The three tables of sysctls: of the host, of the client and of the server.
pub data Scope : Type 0 where
  of_host of_client of_server : Scope

abbrev pub sysctl_dict : Scope → Dict String
sysctl_dict of_host = sysctl_key
sysctl_dict of_client = sysctl_key_client
sysctl_dict of_server = sysctl_key_server

unfoldable pub read_sysctl_cmd : String → String
unfolding concat
read_sysctl_cmd key = concat ("sysctl " ∷ key ∷ [])

unfoldable pub cmd_write_sysctl : String → String → String
unfolding concat read_sysctl_cmd
cmd_write_sysctl key value = concat (read_sysctl_cmd key ∷ "=\"" ∷ value ∷ "\"" ∷ [])

-- `s[:-1]`
unfoldable pub but_last : String → String
but_last String.[] = ""
but_last (String.◌∷◌ c String.[]) = ""
but_last (String.◌∷◌ c (String.◌∷◌ d s)) = String.◌∷◌ c (but_last (String.◌∷◌ d s))

unfoldable pub third_word : List String → Result String
unfolding but_last
third_word words = elim (get_elem? words 2) [
  | some rest ↦ ok (but_last rest)
  | none ↦ err index_error
]

-- `val.split(" ", 2)[2][:-1]`
unfoldable pub value_of_answer : String → Result String
unfolding split_at_most third_word
value_of_answer val = third_word (split_at_most b' ' 2 val)

abbrev pub inserted : String → String → Option (Dict String) → Option (Dict String)
inserted k v none = none
inserted k v (some d) = some (insert k v d)

module _ {F : Type 0} where
  abbrev pub saved : Scope → Experiment F → Option (Dict String)
  saved of_host e = e.sysctl_to_restore
  saved of_client e = e.client_sysctl_to_restore
  saved of_server e = e.server_sysctl_to_restore

  abbrev pub with_saved : Scope → Option (Dict String) → Experiment F → Experiment F
  with_saved of_host d e = record e { sysctl_to_restore = d }
  with_saved of_client d e = record e { client_sysctl_to_restore = d }
  with_saved of_server d e = record e { server_sysctl_to_restore = d }

  -- `self.sysctl_to_restore = {}`
  unfoldable pub forget : Scope → Run (Experiment F) Unit
  forget scope e = (ok tt, with_saved scope (some []) e)

  -- `sysctl_to_restore[k] = v`
  unfoldable pub remember : Scope → String → String → Run (Experiment F) Unit
  remember scope k v e = (ok tt, with_saved scope (inserted k v (saved scope e)) e)

  -- The entries of a table that was made before.
  unfoldable pub entries : Scope → Run (Experiment F) (Dict String)
  entries scope e = (or_raise attribute_error (saved scope e), e)

  -- `who`, where a table is of a node.
  abbrev pub who : TopoConfig F → Scope → Option String
  who c of_host = none
  who c of_client = some c.client
  who c of_server = some c.server

  module _ (env : Env) where
    unfoldable pub run_sysctl : Option String → String → Run (Experiment F) String
    run_sysctl none cmd = on_topo (command_global env cmd)
    run_sysctl (some node) cmd = on_topo (command_to env node cmd)

    module _ (c : TopoConfig F) where
      -- One round of the loop of `_save_sysctl`.
      unfoldable pub save_one : Scope → String × String → Run (Experiment F) Unit
      save_one scope (k, key) = do
        val ← run_sysctl (who c scope) (read_sysctl_cmd key)
        if val == "Error" then pure tt else (do v ← lift (value_of_answer val); remember scope k v)

      unfoldable pub save_scope : Scope → Run (Experiment F) Unit
      save_scope scope = do forget scope; for_each (save_one scope) (sysctl_dict scope)

      unfoldable pub save_sysctl : Run (Experiment F) Unit
      save_sysctl = do save_scope of_host; save_scope of_client; save_scope of_server

      unfoldable pub write_one : Parameter → Scope → String × String → Run (Experiment F) Unit
      write_one p scope (k, v) = do
        key ← lift (or_raise key_error (lookup k (sysctl_dict scope)))
        value ← lift (Parameter.get p k)
        run_sysctl (who c scope) (cmd_write_sysctl key (formatted value))
        pure tt

      unfoldable pub write_scope : Parameter → Scope → Run (Experiment F) Unit
      write_scope p scope = do d ← entries scope; for_each (write_one p scope) d

      unfoldable pub write_sysctl : Parameter → Run (Experiment F) Unit
      write_sysctl p = do write_scope p of_host; write_scope p of_client; write_scope p of_server

      unfoldable pub setup_sysctl : Parameter → Run (Experiment F) Unit
      setup_sysctl p = do save_sysctl; write_sysctl p

      unfoldable pub restore_one : Scope → String × String → Run (Experiment F) Unit
      restore_one scope (k, v) = do
        key ← lift (or_raise key_error (lookup k (sysctl_dict scope)))
        run_sysctl (who c scope) (cmd_write_sysctl key v)
        pure tt

      unfoldable pub restore_scope : Scope → Run (Experiment F) Unit
      restore_scope scope = do d ← entries scope; for_each (restore_one scope) d

      unfoldable pub restore_sysctl : Run (Experiment F) Unit
      restore_sysctl = do restore_scope of_host; restore_scope of_client; restore_scope of_server

-- ===== src/Experiment/Restoring.antt =====
-- core/experiment.py: what `restore_sysctl` gives back.
use mathlib.Core.Path.{subst}
use minitopo.Base.{String, eq_iff, ◌≡◌, ◌≢◌, refl, sym, ap, ◌∙◌, false, List, [], ◌∷◌, map, All}
use minitopo.Base.{Option, none, some, arith}
use minitopo.Base.Dict.{Dict, lookup, elem}
use minitopo.Errors.{Result, ok, or_raise, attribute_error}
use minitopo.Network.{Action, Env}
use minitopo.Run.{pure, >>=-ok, for_each}
use minitopo.Topo.{Topo}
use minitopo.Experiment.{Experiment, TopoConfig}
use minitopo.Experiment.Sysctl.{
  Scope, of_host, of_client, of_server, sysctl_dict, cmd_write_sysctl, saved, who, entries,
  restore_one, restore_scope, restore_sysctl, save_sysctl,
}
use minitopo.Experiment.Kernel.{Kernel, done, ran, done-ran, saved-ran, restore_one-ok}
use minitopo.Experiment.Saving.{Distinct, Keyed, tables-Keyed, values, save_sysctl-AllSaved}

-- The sysctls of a table.
abbrev names : Dict String → List String
names = map (λ row. row.1)

abbrev Found : Scope → Dict String → Type 0
Found scope = All (λ row. lookup row.0 (sysctl_dict scope) ≡ some row.1)

tables-Found : (scope : Scope) → Found scope (sysctl_dict scope)
unfolding lookup
tables-Found of_host = search
tables-Found of_client = search
tables-Found of_server = search

names-Distinct : (scope : Scope) → Distinct (names (sysctl_dict scope))
unfolding elem
names-Distinct of_host = search
names-Distinct of_client = search
names-Distinct of_server = search

not_head : (j k : String) (ks : List String) → elem j (k ∷ ks) ≡ false → k ≢ j
unfolding elem
not_head j k ks h same = ground (arith, eq_iff k j)

not_tail : (j k : String) (ks : List String) → elem j (k ∷ ks) ≡ false → elem j ks ≡ false
unfolding elem
not_tail j k ks h = ground arith

module _ {F : Type 0} (env : Env) (kernel : Kernel env) (c : TopoConfig F)
    (earlier : List Action) where
  open kernel use {setting}

  abbrev table : Scope → Dict String → Dict String
  table = values env kernel c earlier

  -- The settings of some rows are back at what they were.
  abbrev pub Back : Scope → Dict String → Experiment F → Type 0
  Back scope rows e =
      All (λ row. setting (done e) (who c scope) row.1 ≡ setting earlier (who c scope) row.1) rows

  Back-kept :
      (scope : Scope) (rows : Dict String) (before after : Experiment F)
      → ((key : String)
          → setting (done after) (who c scope) key ≡ setting (done before) (who c scope) key)
      → Back scope rows before
      → Back scope rows after
  Back-kept scope [] before after kept back = tt
  Back-kept scope (row ∷ rows) before after kept back =
      (kept row.1 ∙ back.0, Back-kept scope rows before after kept back.1)

  record Restored (scope : Scope) (rows : Dict String) (e : Experiment F)
      (r : Result (Unit {0}) × Experiment F) : Type 0 where
    returned : r.0 ≡ ok tt
    tables : (other : Scope) → saved other r.1 ≡ saved other e
    back : Back scope rows r.1
    elsewhere :
        (place : Option String) (key : String)
        → who c scope ≢ place
        → setting (done r.1) place key ≡ setting (done e) place key
    others :
        (place : Option String) (key : String)
        → elem key (names rows) ≡ false
        → setting (done r.1) place key ≡ setting (done e) place key

  restore_loop :
      (scope : Scope) (rows : Dict String) (e : Experiment F)
      → Keyed rows
      → Distinct (names rows)
      → Found scope rows
      → Restored scope rows e (for_each (restore_one env c scope) (table scope rows) e)
  unfolding for_each pure
  restore_loop scope [] e keyed distinct found = record {
    returned = refl;
    tables = λ other. refl;
    back = tt;
    elsewhere = λ place key ne. refl;
    others = λ place key ne. refl;
  }
  restore_loop scope ((k, key) ∷ rows) e keyed distinct found =
      let rest = restore_loop scope rows after keyed.1 distinct.1 found.1 in
      subst (Restored scope ((k, key) ∷ rows) e)
        (sym (
          >>=-ok (restore_one env c scope (k, value)) _
            (restore_one-ok env c scope k key value e found.0)))
        (record {
          returned = rest.returned;
          tables = λ other. rest.tables other ∙ saved-ran env place cmd e other;
          back = (
            rest.others place key distinct.0
                ∙ ap (λ a. setting a place key) (done-ran env place cmd e)
                ∙ kernel.writes (done e) earlier place key keyed.0,
            rest.back,
          );
          elsewhere = λ place' key' ne.
              rest.elsewhere place' key' ne
              ∙ ap (λ a. setting a place' key') (done-ran env place cmd e)
              ∙ kernel.other_place (done e) place place' key key' value keyed.0 ne;
          others = λ place' key' ne.
              rest.others place' key' (not_tail key' key (names rows) ne)
              ∙ ap (λ a. setting a place' key') (done-ran env place cmd e)
              ∙ kernel.other_key (done e) place place' key key' value keyed.0
                  (not_head key' key (names rows) ne);
        })
    where
      place : Option String
      place = who c scope

      value : String
      value = setting earlier place key

      cmd : String
      cmd = cmd_write_sysctl key value

      after : Experiment F
      after = ran env place cmd e

  restore_scope-Restored :
      (scope : Scope) (e : Experiment F)
      → saved scope e ≡ some (table scope (sysctl_dict scope))
      → Restored scope (sysctl_dict scope) e (restore_scope env c scope e)
  unfolding restore_scope entries
  restore_scope-Restored scope e h =
      subst (Restored scope (sysctl_dict scope) e)
        (sym (>>=-ok (entries scope) _ (ap (λ o. (or_raise attribute_error o, e)) h)))
        (restore_loop scope (sysctl_dict scope) e (tables-Keyed scope) (names-Distinct scope)
          (tables-Found scope))

  -- All that `restore_sysctl` leaves.
  record AllBack (r : Result (Unit {0}) × Experiment F) : Type 0 where
    returned : r.0 ≡ ok tt
    host : Back of_host (sysctl_dict of_host) r.1
    client : Back of_client (sysctl_dict of_client) r.1
    server : Back of_server (sysctl_dict of_server) r.1

  restore_sysctl-AllBack :
      (e : Experiment F)
      → ((scope : Scope) → saved scope e ≡ some (table scope (sysctl_dict scope)))
      → c.client ≢ c.server
      → AllBack (restore_sysctl env c e)
  unfolding restore_sysctl
  restore_sysctl-AllBack e h apart =
      subst AllBack
        (sym (
          >>=-ok (restore_scope env c of_host) _ (ap (λ r. (r, after_host)) host.returned)
          ∙ >>=-ok (restore_scope env c of_client) _ (ap (λ r. (r, after_client)) client.returned)))
        (record {
          returned = server.returned;
          host =
              Back-kept of_host (sysctl_dict of_host) after_host
                (restore_scope env c of_server after_client).1
                (λ key.
                  server.elsewhere none key (λ s. cc s) ∙ client.elsewhere none key (λ s. cc s))
                host.back;
          client =
              Back-kept of_client (sysctl_dict of_client) after_client
                (restore_scope env c of_server after_client).1
                (λ key. server.elsewhere (some c.client) key (λ s. apart (cc s))) client.back;
          server = server.back;
        })
    where
      after_host : Experiment F
      after_host = (restore_scope env c of_host e).1

      host : Restored of_host (sysctl_dict of_host) e (restore_scope env c of_host e)
      host = restore_scope-Restored of_host e (h of_host)

      after_client : Experiment F
      after_client = (restore_scope env c of_client after_host).1

      client :
          Restored of_client
            (sysctl_dict of_client)
            after_host
            (restore_scope env c of_client after_host)
      client = restore_scope-Restored of_client after_host (host.tables of_client ∙ h of_client)

      server :
          Restored of_server
            (sysctl_dict of_server)
            after_client
            (restore_scope env c of_server after_client)
      server =
          restore_scope-Restored of_server after_client
            (client.tables of_server ∙ host.tables of_server ∙ h of_server)

module _ {F : Type 0} (env : Env) (kernel : Kernel env) (c : TopoConfig F) where
  -- Over a kernel, and with two different nodes for client and server, `save_sysctl` returns, and
  -- whatever the topology has run since, `restore_sysctl` returns too and leaves each sysctl that an
  -- experiment may set, on the host, the client and the server, at the value that it had before.
  pub restore_sysctl-save_sysctl :
      (e : Experiment F) (later : Topo F)
      → c.client ≢ c.server
      → let saving = save_sysctl env c e in
        let restoring = restore_sysctl env c (record (saving.1) { topo = later }) in
        (saving.0 ≡ ok tt)
        × (restoring.0 ≡ ok tt)
        × Back env kernel c (done e) of_host (sysctl_dict of_host) restoring.1
        × Back env kernel c (done e) of_client (sysctl_dict of_client) restoring.1
        × Back env kernel c (done e) of_server (sysctl_dict of_server) restoring.1
  restore_sysctl-save_sysctl e later apart =
      let all = save_sysctl-AllSaved env kernel c (done e) e (λ place key. refl) in
      let back =
        restore_sysctl-AllBack env kernel c (done e)
          (record ((save_sysctl env c e).1) { topo = later }) (tables_of all.tables) apart in
      (all.returned, back.returned, back.host, back.client, back.server)
    where
      tables_of :
          ((scope : Scope)
            → saved scope (save_sysctl env c e).1
              ≡ some (values env kernel c (done e) scope (sysctl_dict scope)))
          → (scope : Scope)
          → saved scope (record ((save_sysctl env c e).1) { topo = later })
            ≡ some (values env kernel c (done e) scope (sysctl_dict scope))
      tables_of h of_host = h of_host
      tables_of h of_client = h of_client
      tables_of h of_server = h of_server

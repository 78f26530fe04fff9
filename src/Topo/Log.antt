-- ===== src/Topo/Log.antt =====
-- `command.log` against the commands that were run.
use minitopo.Base.{String, ◌≡◌, refl, sym, ap, ◌∙◌, List, [], ◌∷◌, ◌++◌, arith, append-nil}
use minitopo.Floats.{Floats}
use minitopo.Text.{concat}
use minitopo.Network.{Action, to, everywhere, start, stop, cli, Env}
use minitopo.Run.{Run}
use minitopo.Run.Keeps.{Keeps, keeps_rules, Keeps-bind, Keeps-pure}
use minitopo.Topo.{
  Topo, command_to, command_global, get_host, get_interface_names, get_cli, start_network,
  stop_network,
}
use minitopo.Topo.Bottleneck
use minitopo.Topo.Bottleneck.{reinit_variables, configure_bottleneck, configure_changing_bottleneck}
use minitopo.Topo.Config

-- The lines of the log that some actions leave. What the user does in the command line of Mininet,
-- the start and the stop leave none.
pub logged : List Action → List String
logged [] = []
logged (to who cmd ∷ l) = concat (who ∷ " : " ∷ cmd ∷ "\n" ∷ []) ∷ logged l
logged (everywhere cmd ∷ l) = concat ("Global : " ∷ cmd ∷ "\n" ∷ []) ∷ logged l
logged (start ∷ l) = logged l
logged (stop ∷ l) = logged l
logged (cli ∷ l) = logged l

logged-append : (l m : List Action) → logged (l ++ m) ≡ logged l ++ logged m
unfolding logged
logged-append [] m = refl
logged-append (to who cmd ∷ l) m = rw (logged-append l m) refl
logged-append (everywhere cmd ∷ l) m = rw (logged-append l m) refl
logged-append (start ∷ l) m = logged-append l m
logged-append (stop ∷ l) m = logged-append l m
logged-append (cli ∷ l) m = logged-append l m

one_more :
    (lines : List String) (done : List Action) (a : Action) (line : List String)
    → lines ≡ logged done
    → logged (a ∷ []) ≡ line
    → lines ++ line ≡ logged (done ++ a ∷ [])
one_more lines done a line h e = cc (h, e, logged-append done (a ∷ []))

nothing_more :
    (lines : List String) (done : List Action) (a : Action)
    → lines ≡ logged done
    → logged (a ∷ []) ≡ []
    → lines ≡ logged (done ++ a ∷ [])
nothing_more lines done a h e =
    h ∙ sym (logged-append done (a ∷ []) ∙ ap (λ l. logged done ++ l) e ∙ append-nil _)

module _ {F : Type 0} where
  -- The log holds one line for each command that was run, in the order of the commands.
  pub record IsLogged (t : Topo F) : Type 0 where
    pub exact : t.log_file ≡ logged t.topo_builder.done

  module _ (env : Env) where
    pub command_to-IsLogged : (who cmd : String) → Keeps IsLogged (command_to {F = F} env who cmd)
    unfolding command_to logged
    command_to-IsLogged who cmd = record {
      at = λ t h. record {
        exact = one_more t.log_file t.topo_builder.done (to who cmd) _ h.exact refl;
      };
    }

    pub command_global-IsLogged : (cmd : String) → Keeps IsLogged (command_global {F = F} env cmd)
    unfolding command_global logged
    command_global-IsLogged cmd = record {
      at = λ t h. record {
        exact = one_more t.log_file t.topo_builder.done (everywhere cmd) _ h.exact refl;
      };
    }

    pub get_host-IsLogged : (who : String) → Keeps IsLogged (get_host {F = F} env who)
    unfolding get_host
    get_host-IsLogged who = record { at = λ t h. h }

    pub get_interface_names-IsLogged :
        (who : String) → Keeps IsLogged (get_interface_names {F = F} env who)
    unfolding get_interface_names
    get_interface_names-IsLogged who = record { at = λ t h. h }

  pub start_network-IsLogged : Keeps IsLogged (start_network {F = F})
  unfolding start_network logged
  start_network-IsLogged = record {
    at = λ t h. record { exact = nothing_more t.log_file t.topo_builder.done start h.exact refl };
  }

  pub stop_network-IsLogged : Keeps IsLogged (stop_network {F = F})
  unfolding stop_network logged
  stop_network-IsLogged = record {
    at = λ t h. record {
      exact =
          ground (arith, h.exact, nothing_more t.log_file t.topo_builder.done stop h.exact refl);
    };
  }

  pub get_cli-IsLogged : Keeps IsLogged (get_cli {F = F})
  unfolding get_cli logged
  get_cli-IsLogged = record {
    at = λ t h. record {
      exact = ground (arith, h.exact, nothing_more t.log_file t.topo_builder.done cli h.exact refl);
    };
  }

pub ruleset log_rules = (
  keeps_rules, command_to-IsLogged, command_global-IsLogged, get_host-IsLogged,
  get_interface_names-IsLogged, start_network-IsLogged, stop_network-IsLogged, get_cli-IsLogged,
)

module _ (fl : Floats) (env : Env) where
  open fl use {F}

  pub configure_bottleneck-IsLogged :
      (b : minitopo.Topo.BottleneckLink F) → Keeps IsLogged (configure_bottleneck fl env b)
  unfolding configure_bottleneck Bottleneck.clean_cmds
  configure_bottleneck-IsLogged b = search log_rules depth 40

  pub configure_changing_bottleneck-IsLogged :
      (b : minitopo.Topo.BottleneckLink F) → Keeps IsLogged (configure_changing_bottleneck fl env b)
  unfolding configure_changing_bottleneck
  configure_changing_bottleneck-IsLogged b = search log_rules depth 40

  get_hosts-IsLogged : (ns : List String) → Keeps IsLogged (Bottleneck.get_hosts fl env ns)
  unfolding Bottleneck.get_hosts
  get_hosts-IsLogged [] = search log_rules
  get_hosts-IsLogged (n ∷ ns) = Keeps-bind (get_host env n) _ (get_host-IsLogged env n) (λ host.
      Keeps-bind (Bottleneck.get_hosts fl env ns) _ (get_hosts-IsLogged ns) (λ hosts. Keeps-pure _))

  put_clients-IsLogged : (ns : List String) → Keeps IsLogged (Bottleneck.put_clients fl env ns)
  unfolding Bottleneck.put_clients
  put_clients-IsLogged ns = record { at = λ t h. record { exact = h.exact } }

  put_routers-IsLogged : (ns : List String) → Keeps IsLogged (Bottleneck.put_routers fl env ns)
  unfolding Bottleneck.put_routers
  put_routers-IsLogged ns = record { at = λ t h. record { exact = h.exact } }

  put_servers-IsLogged : (ns : List String) → Keeps IsLogged (Bottleneck.put_servers fl env ns)
  unfolding Bottleneck.put_servers
  put_servers-IsLogged ns = record { at = λ t h. record { exact = h.exact } }

  put_bottlenecks-IsLogged :
      (bs : List (minitopo.Topo.BottleneckLink F))
      → Keeps IsLogged (Bottleneck.put_bottlenecks fl env bs)
  unfolding Bottleneck.put_bottlenecks
  put_bottlenecks-IsLogged bs = record { at = λ t h. record { exact = h.exact } }

  reinit_bottleneck-IsLogged :
      (before : List (minitopo.Topo.BottleneckLink F)) (b : minitopo.Topo.BottleneckLink F)
      (after : List (minitopo.Topo.BottleneckLink F))
      → Keeps IsLogged (Bottleneck.reinit_bottleneck fl env before b after)
  unfolding Bottleneck.reinit_bottleneck
  reinit_bottleneck-IsLogged before b after = search (log_rules, put_bottlenecks-IsLogged) depth 40

  reinit_bottlenecks-IsLogged :
      (before bs : List (minitopo.Topo.BottleneckLink F))
      → Keeps IsLogged (Bottleneck.reinit_bottlenecks fl env before bs)
  unfolding Bottleneck.reinit_bottlenecks
  reinit_bottlenecks-IsLogged before [] = search log_rules
  reinit_bottlenecks-IsLogged before (b ∷ bs) =
      Keeps-bind (Bottleneck.reinit_bottleneck fl env before b bs) _
        (reinit_bottleneck-IsLogged before b bs)
        (λ again. reinit_bottlenecks-IsLogged (before ++ again ∷ []) bs)

  pub reinit_variables-IsLogged : Keeps IsLogged (reinit_variables fl env)
  unfolding reinit_variables
  reinit_variables-IsLogged =
      search
        (
          log_rules, get_hosts-IsLogged, put_clients-IsLogged, put_routers-IsLogged,
          put_servers-IsLogged, reinit_bottlenecks-IsLogged,
        )
        depth 40

  config_hosts-IsLogged : (ns : List String) → Keeps IsLogged (Config.get_hosts fl env ns)
  unfolding Config.get_hosts
  config_hosts-IsLogged [] = search log_rules
  config_hosts-IsLogged (n ∷ ns) = Keeps-bind (get_host env n) _ (get_host-IsLogged env n) (λ host.
      Keeps-bind (Config.get_hosts fl env ns) _ (config_hosts-IsLogged ns) (λ hosts. Keeps-pure _))

  pub disable_tso-IsLogged : Keeps IsLogged (Config.disable_tso fl env)
  unfolding Config.disable_tso
  disable_tso-IsLogged = search (log_rules, config_hosts-IsLogged) depth 20

  pub configure_interfaces-IsLogged : Keeps IsLogged (Config.configure_interfaces fl env)
  unfolding Config.configure_interfaces
  configure_interfaces-IsLogged = search (log_rules, configure_bottleneck-IsLogged) depth 20

  pub run_netem_at-IsLogged : Keeps IsLogged (Config.run_netem_at fl env)
  unfolding Config.run_netem_at
  run_netem_at-IsLogged = search (log_rules, configure_changing_bottleneck-IsLogged) depth 20

  -- A configuration keeps the log exact if the two methods that a topology overrides do.
  pub configure_network-IsLogged :
      {N : Type 0} (interfaces : Run (Topo F) N) (routing : N → Run (Topo F) Unit)
      → Keeps IsLogged interfaces
      → ((n : N) → Keeps IsLogged (routing n))
      → Keeps IsLogged (Config.configure_network fl env interfaces routing)
  unfolding Config.configure_network
  configure_network-IsLogged interfaces routing hi hr =
      Keeps-bind (reinit_variables fl env) _ reinit_variables-IsLogged (λ _.
        Keeps-bind (Config.disable_tso fl env) _ disable_tso-IsLogged (λ _.
          Keeps-bind interfaces _ hi (λ n. Keeps-bind (routing n) _ (hr n) (λ _. Keeps-pure n))))

-- ===== src/Network.antt =====
-- mininet_builder.py: `MininetBuilder`, the network that it describes to Mininet and the commands
-- that it runs there.
use minitopo.Base.{String, ◌==◌, Bool, true, false, not, List, [], ◌∷◌, ◌++◌, if◌then◌else◌}
use minitopo.Errors.{Result, err, exception}

-- What happens outside the program: a command in a node, a command of the host, and the start, the
-- stop and the command line of Mininet.
pub data Action : Type 0 where
  to : (who cmd : String) → Action
  everywhere : (cmd : String) → Action
  start stop cli : Action

pub record Builder : Type 0 where
  pub hosts : List String
  pub switches : List String
  pub links : List (String × String)
  pub net : Bool
  pub done : List Action

-- Mininet, the shell and the kernel. What a command answers depends on all that was run before.
-- Nodes are known by their names, which is what `str(node)` gives.
pub record Env : Type 0 where
  -- `who.cmd(cmd)`
  pub node_cmd : List Action → String → String → String
  -- The standard output and the standard error of a command outside the nodes.
  pub shell : List Action → String → String × String
  -- `net.getNodeByName(who)`, given the names that were added
  pub node_named : List String → String → Result String
  -- Iteration over `net`, given the hosts and the switches
  pub node_names : List String → List String → List String
  -- `who.intfNames()`, given the links
  pub interface_names : List (String × String) → String → List String
  -- `who.intf(name).MAC()`
  pub mac : String → String → String

abbrev pub empty : Builder
empty = record { hosts = []; switches = []; links = []; net = false; done = [] }

unfoldable pub add_host : String → Builder → String × Builder
add_host host b = (host, record b { hosts = b.hosts ++ host ∷ [] })

unfoldable pub add_switch : String → Builder → String × Builder
add_switch switch b = (switch, record b { switches = b.switches ++ switch ∷ [] })

unfoldable pub add_link : String → String → Builder → Builder
add_link from_a to_b b = record b { links = b.links ++ (from_a, to_b) ∷ [] }

unfoldable pub start_network : Builder → Builder
start_network b = record b { net = true; done = b.done ++ start ∷ [] }

-- `net.stop()`, if there is a net; the attribute `net` keeps its value.
unfoldable pub stop_network : Builder → Builder
stop_network b = if b.net then record b { done = b.done ++ stop ∷ [] } else b

-- Without a net an error is logged and nothing happens.
unfoldable pub get_cli : Builder → Builder
get_cli b = if b.net then record b { done = b.done ++ cli ∷ [] } else b

abbrev drop_lo : List String → List String
drop_lo [] = []
drop_lo (i ∷ is) = let rest = drop_lo is in if i == "lo" then rest else i ∷ rest

module _ (env : Env) where
  unfoldable pub command_to : String → String → Builder → String × Builder
  command_to who cmd b =
      (env.node_cmd b.done who cmd, record b { done = b.done ++ to who cmd ∷ [] })

  unfoldable pub command_global : String → Builder → String × Builder
  command_global cmd b =
      let (stdout, stderr) = env.shell b.done cmd in
      (
        if not (stderr == "") then "Error" else stdout,
        record b { done = b.done ++ everywhere cmd ∷ [] },
      )

  unfoldable pub get_host : String → Builder → Result String
  get_host who b =
      if b.net
      then env.node_named (b.hosts ++ b.switches) who
      else err (exception "Network not ready")

  unfoldable pub get_interface_names : String → Builder → List String
  get_interface_names who b = drop_lo (env.interface_names b.links who)

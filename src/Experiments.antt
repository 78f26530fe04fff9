-- ===== src/Experiments.antt =====
-- experiments/: what the experiments share. An experiment is its constructor, which may ping, and
-- its three phases.
pub mod Flows
pub mod Files
pub mod Streams
pub mod Siri
pub mod SiriCombined
pub mod Traffic
pub mod Scenario
pub mod Quic
pub mod QuicGo
pub mod Multipath
pub mod Netcat
pub mod Raising
pub mod Classes
pub mod Launching
pub mod PvSchedule
pub mod Failing
pub mod Reaching
pub mod Misplaced
pub mod Missing
pub mod Logging
pub mod Logged
pub mod LoggedFiles
pub mod LoggedTraffic
pub mod LoggedQuic
use minitopo.Base.{ℕ, String, List, [], ◌∷◌, Option, none, some}
use minitopo.Base.Dict.{Dict, update}
use minitopo.Errors.{Result, ok, err, type_error}
use minitopo.Text.{concat}
use minitopo.Parameter
use minitopo.Parameter.{Parameter, Value, text, several, formatted}
use minitopo.Network.{Env}
use minitopo.Run.{Run, pure, lift, gets, ◌>>=◌, ◌>>◌, for_each, count_from}
use minitopo.Topo.{command_to}
use minitopo.Experiment.{Experiment, TopoConfig, on_topo}
use minitopo.Experiment.Phases.{ping_one}

-- The defaults of a subclass of a parameter class.
unfoldable pub with_defaults : Dict String → Parameter → Parameter
unfolding update
with_defaults more p = record p { default_parameters = update p.default_parameters more }

-- `"…" + value`: only a text can be added to a text.
abbrev pub added : Value → Result String
added (text s) = ok s
added (several ss) = err type_error

module _ {F : Type 0} (env : Env) where
  unfoldable pub command_on : String → String → Run (Experiment F) Unit
  command_on node cmd = do on_topo (command_to env node cmd); pure tt

  module _ (c : TopoConfig F) (p : Parameter) where
    -- `ping` as the experiments override it: from each interface of the client to the first of the
    -- server.
    unfoldable pub ping_first_server : Run (Experiment F) Unit
    ping_first_server = do
      command_on c.client "rm ping.log"
      count ← lift (Parameter.get p "pingCount")
      for_each (ping_one env c p count 0) (count_from 0 c.client_interface_count)

-- ===== src/Lib.antt =====
-- Minitopo runs network experiments: it reads the parameters of a topology from a file, builds a
-- network of a client, a router and a server in Mininet, shapes the links between them and runs an
-- experiment. This library models its core and proves what makes it correct.
--
-- The parts, and the files that model them:
-- * core/parameter.py -- Parameter: `Parameter` with `load_parameter_file` and `get`, from the
--   text of the file to a table of texts and lists. Parameter/Loading describes the table by the
--   lines.
-- * core/topo.py, the links -- Link: `NetemAt`, `LinkCharacteristics`, the bandwidth-delay
--   product; Link/Commands: the `tc` commands. Link/Schedule is about the schedule of netem
--   changes.
-- * core/topo.py, the parameters of a topology -- TopoParameter: `TopoParameter` with its loops
--   over the sorted keys. TopoParameter/Keys, Links, Finding, Schedules and Repeats are about what
--   the loops yield, with the lemmas of TopoParameter/Loops.
-- * mininet_builder.py -- Network: `MininetBuilder`, the description of a network and the actions
--   that are run in it.
-- * core/topo.py, the topology -- Topo: `Topo` and the construction of `BottleneckLink`;
--   Topo/Bottleneck: the commands that shape a link; Topo/Config: `TopoConfig`. Topo/Log is about
--   `command.log`.
-- * topos/multi_interface.py -- MultiInterface: `MultiInterfaceTopo` and the names and addresses
--   of `MultiInterfaceConfig`; MultiInterface/Configure: its interfaces and routes.
--   MultiInterface/Ports, Wiring and Interfaces compare the names with the order of the links;
--   MultiInterface/Logged is about the log.
-- * topos/multi_interface_multi_client.py -- MultiInterface/MultiClient: the topology with several
--   clients and its configuration; Counts and MultiClientLogged beside it are about it.
-- * runner.py -- Runner: the conversion of a YAML topology to the lines of a parameter file;
--   Runner/Legacy compares the lines with what is loaded from them, Runner/Loaded with the
--   characteristics that are read. Runner/Phases: the class `Runner` up to its `__del__`, over an
--   interface for the experiments; Runner/Stopping is about the order of its phases, Runner/Files
--   about its temporary files.
-- * core/experiment.py -- Experiment: `ExperimentParameter` and the state of `Experiment`, over
--   the interface `TopoConfig` of what it uses of a configuration; Experiment/Sysctl: saving,
--   writing and restoring sysctls; Experiment/Phases: the phases; Experiment/RandomFile:
--   `RandomFileExperiment`. Experiment/Kernel, Saving and Restoring are about the sysctls,
--   Experiment/Logged about the log.
-- * experiments/ -- Experiments/Flows: none.py, ping.py, iperf.py and netperf.py;
--   Experiments/Files: http.py, https.py, ab.py and send_file.py; Experiments/Streams:
--   quic_siri.py, vlc.py and msg.py; Experiments/Siri: siri.py; Experiments/SiriCombined:
--   siri_msg.py and siri_http.py; Experiments/Traffic: ditg.py and epload.py;
--   Experiments/Scenario: iperf_scenario.py; Experiments/Quic: pquic.py and quic1.py;
--   Experiments/QuicGo: quic.py; Experiments/Multipath: quic_mpath.py; Experiments/Netcat: nc.py
--   and ncpv.py. Experiments/Logged is about the log, Experiments/Raising about the experiments
--   that cannot return.
-- * experiments/__init__.py -- Registry: the walk over subclasses that fills a table, which
--   topos/__init__.py has too; Experiments/Classes: the classes of experiments, the table
--   EXPERIMENTS and what the runner launches. Experiments/Reaching, Failing, Missing and Misplaced
--   are about the classes it finds, Experiments/Logging, LoggedFiles, LoggedTraffic, LoggedQuic
--   and Launching about their log, Runner/Recording about that of a whole run. Runner/Topologies
--   has the tables of topos/__init__.py. Experiments/PvSchedule is about the changes of rates in
--   ncpv.py.
-- * utils/msg_server.py, utils/msg_client.py -- Messages: one connection of the server, and the
--   client; Messages/Balance, Parts, Rounds and Exchange are about them. Threads: the main thread
--   of the server and those of its connections, as steps; Threads/Safety and Progress are about
--   all orders of them.
-- * utils/siri_server.py -- SiriServer: one connection. SiriServer/Requests, Headers, Replies,
--   Sessions and Starving compare requests with what is answered.
-- * Base, Text, Errors and Run hold what these share: numbers, lists and dictionaries, the methods
--   of `str` and `int`, exceptions, and methods that change an object and may raise. Run/Keeps has
--   one rule for each way to build such a method.
--
-- A method that changes its object is a function from the state to a result and a new state, and
-- what was done before an exception stays done. A name of a Mininet node stands for the node. A
-- file is given by its text.
--
-- What the program calls and does not contain is a parameter: `Floats` stands for Python's
-- floating-point numbers (any type with these operations), and `Env` for Mininet, the shell and
-- the kernel, whose answers may depend on all that was run before. `Kernel` has the documented
-- behaviour of the command `sysctl`, as named laws, and Tests/Machine is a machine that has it.
-- The expansion of `~` in a path, `sendCmd` and `waitOutput` of a Mininet node are arguments of
-- the experiments that use them. `IsInterface` is defined by the rule of Mininet that the
-- interfaces of a node are numbered from 0, in the order in which its links are added.
--
-- No loop needs fuel but the printing of a number, which is given its value and one more; reading
-- the number back shows that this is enough. Every other loop is recursion over a list or a text.
--
-- Not modelled: messages of logging and on the terminal, `__str__` methods; digits and capital
-- letters outside ASCII in `int` and `lower`. Nor are the Mininet cleaning behind a run, the
-- set-up of sockets and the arguments of the tools under utils.
pub mod Base
pub mod Text
pub mod Errors
pub mod Parameter
pub mod Floats
pub mod Link
pub mod TopoParameter
pub mod Run
pub mod Network
pub mod Topo
pub mod MultiInterface
pub mod Experiment
pub mod Experiments
pub mod Runner
pub mod Messages
pub mod Threads
pub mod SiriServer
pub mod Tests
pub mod Registry

-- ===== src/Runner/Stopping.antt =====
-- runner.py: the order of the phases of an experiment.
use minitopo.Base.{String, ◌≡◌, true, List, [], ◌++◌, Option, some}
use minitopo.Errors.{ok}
use minitopo.Floats.{Floats}
use minitopo.Parameter
use minitopo.Parameter.{Value, text}
use minitopo.Network.{Env, Action}
use minitopo.Run.{Run}
use minitopo.Topo.{Topo, stop_network}
use minitopo.Experiment.{TopoConfig, load_parameter}
use minitopo.Runner.Phases.{Running}

module _ (fl : Floats) (env : Env)
    (experiments : String → Option (String → TopoConfig fl.F → Run (Topo fl.F) Unit))
    (contents xp : String) (c : TopoConfig fl.F)
    (run : String → TopoConfig fl.F → Run (Topo fl.F) Unit)
    (asked : Parameter.get (load_parameter (some contents)) "xpType" ≡ ok (text xp))
    (known : experiments xp ≡ some run) where
  open fl use {F}

  -- The runner with another topology, and then stopped.
  abbrev with_topo : Running F → Topo F → Running F
  with_topo r t = record r { topo = t }

  abbrev stopped : Running F → Running F
  stopped r = record r {
    topo = (stop_network r.topo).1;
    tmp_files = [];
    unlinked = r.unlinked ++ r.tmp_files;
  }

  -- What the experiment does on a topology: it returns with another, and leaves these actions.
  pub record Leaves (t after : Topo F) (acts : List Action) : Type 0 where
    pub returned : run contents c t ≡ (ok tt, after)
    pub done : after.topo_builder.done ≡ t.topo_builder.done ++ acts
    pub net : after.topo_builder.net ≡ true

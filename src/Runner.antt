-- ===== src/Runner.antt =====
-- runner.py: the conversion of a YAML topology to the lines of a parameter file. The YAML reader is
-- not the program's, so a document is given as what it yields, each scalar by its `str`.
pub mod Legacy
pub mod Phases
pub mod Stopping
pub mod Files
pub mod Recording
pub mod Topologies
pub mod Loaded
use minitopo.Base.{
  ℕ, suc, ◌+◌, String, ◌==◌, Bool, true, false, List, [], ◌∷◌, ◌++◌, Option, none, some, map,
}
use minitopo.Base.Int.{pos}
use minitopo.Base.Dict.{Dict, lookup}
use minitopo.Errors.{Result, ok, err, or_raise, key_error, ◌>>=◌}
use minitopo.Text.{◌<>◌, concat, join}
use minitopo.Text.Number.{show}

-- The part of a document under `topology`.
pub record YamlTopology : Type 0 where
  pub subnets : Dict String
  pub topo_type : Option String
  pub paths : List (Dict String)

-- `d[key]`
abbrev item : Dict String → String → Result String
item d key = or_raise key_error (lookup key d)

abbrev pub or_else : String → Option String → String
or_else default none = default
or_else default (some v) = v

-- The key of a path: from its type and identifier, or from its name.
abbrev path_key_of : ℕ → Option String → Option String → Option String → String
path_key_of idx (some link_type) (some id) name = concat ("path_" ∷ link_type ∷ "_" ∷ id ∷ [])
path_key_of idx _ _ name =
    concat ("path_" ∷ or_else (concat ("c2r_" ∷ show (pos idx) ∷ [])) name ∷ [])

unfoldable pub path_key : ℕ → Dict String → String
unfolding lookup concat show
path_key idx p = path_key_of idx (lookup "link_type" p) (lookup "id" p) (lookup "name" p)

-- The key and the value of the line of one path.
unfoldable pub path_entry : ℕ → Dict String → Result (String × String)
unfolding lookup concat path_key
path_entry idx p = do
  delay ← item p "delay_ms"
  let queue = or_else "100" (lookup "queue_pkts" p)
  bw ← item p "bw_mbit"
  ok (path_key idx p, concat (delay ∷ "," ∷ queue ∷ "," ∷ bw ∷ []))

unfoldable path_entries : ℕ → List (Dict String) → Result (Dict String)
unfolding path_entry
path_entries idx [] = ok []
path_entries idx (p ∷ ps) = do
  entry ← path_entry idx p
  rest ← path_entries (idx + 1) ps
  ok (entry ∷ rest)

-- The keys and values of all lines.
unfoldable pub legacy_entries : YamlTopology → Result (Dict String)
unfolding lookup path_entries
legacy_entries t = do
  left ← item t.subnets "left"
  right ← item t.subnets "right"
  topo_type ← or_raise key_error t.topo_type
  paths ← path_entries 0 t.paths
  ok ((("leftSubnet", left) ∷ ("rightSubnet", right) ∷ []) ++ paths ++ ("topoType", topo_type) ∷ [])

-- `f"{key}:{value}"`
unfoldable pub line : String × String → String
unfolding ◌<>◌
line (key, value) = key <> ":" <> value

-- The text of the file that is written.
unfoldable pub legacy_file : Dict String → String
unfolding join line ◌<>◌
legacy_file entries = join "\n" (map line entries) <> "\n"

-- `_yaml_topo_to_legacy_tmpfile`, as far as the text of the file.
unfoldable pub yaml_topo_to_legacy : YamlTopology → Result String
unfolding legacy_entries legacy_file
yaml_topo_to_legacy t = do entries ← legacy_entries t; ok (legacy_file entries)

-- ===== src/Tests/Yaml.antt =====
-- A run of the conversion of YAML files.
use minitopo.Base.{String, ◌≡◌, refl, [], ◌∷◌, some, All}
use minitopo.Base.Dict.{Dict, lookup}
use minitopo.Errors.{ok}
use minitopo.Text.{every, is_space, has, starts_with}
use minitopo.Base.Int.{pos}
use minitopo.Text.Number.{read_int, show}
use minitopo.TopoParameter.{parse_link_characteristics}
use minitopo.Runner.Loaded.{parse-path_entry}
use minitopo.TopoParameter.{parse_link_id_and_type}
use minitopo.Tests.Inputs.{whole_numbers}
use minitopo.Parameter.{load_parameter_file}
use minitopo.Parameter.Loading.{entry}
use minitopo.Runner.{path_entry, YamlTopology, legacy_entries, legacy_file, yaml_topo_to_legacy}
use minitopo.Runner.Legacy.{IsPlain, given, lookup-yaml_topo_to_legacy}

abbrev one_path : YamlTopology
one_path = record {
  subnets = ("left", "10.0.") ∷ ("right", "10.1.") ∷ [];
  topo_type = some "MultiIf";
  paths = (("link_type", "c2r") ∷ ("id", "0") ∷ ("delay_ms", "10") ∷ ("bw_mbit", "4") ∷ []) ∷ [];
}

abbrev entries : Dict String
entries =
    ("leftSubnet", "10.0.")
    ∷ ("rightSubnet", "10.1.")
    ∷ ("path_c2r_0", "10,100,4")
    ∷ ("topoType", "MultiIf")
    ∷ []

entries-made : legacy_entries one_path ≡ ok entries
unfolding legacy_entries
entries-made = refl

entries-IsPlain : All IsPlain entries
unfolding every is_space has starts_with
entries-IsPlain = (
  record {
    key_solid = refl;
    value_solid = refl;
    key_free = refl;
    value_free = refl;
    no_comment = refl;
    not_empty = refl;
  },
  (
    record {
      key_solid = refl;
      value_solid = refl;
      key_free = refl;
      value_free = refl;
      no_comment = refl;
      not_empty = refl;
    },
    (
      record {
        key_solid = refl;
        value_solid = refl;
        key_free = refl;
        value_free = refl;
        no_comment = refl;
        not_empty = refl;
      },
      (
        record {
          key_solid = refl;
          value_solid = refl;
          key_free = refl;
          value_free = refl;
          no_comment = refl;
          not_empty = refl;
        },
        tt,
      ),
    ),
  ),
)

lookup-yaml_topo_to_legacy_example :
    (yaml_topo_to_legacy one_path ≡ ok (legacy_file entries))
    × (lookup "path_c2r_0" (load_parameter_file (legacy_file entries) [])
        ≡ entry (given "path_c2r_0" entries))
lookup-yaml_topo_to_legacy_example =
    lookup-yaml_topo_to_legacy one_path entries "path_c2r_0" entries-made entries-IsPlain

-- The path of that topology.
abbrev path : Dict String
path = ("link_type", "c2r") ∷ ("id", "0") ∷ ("delay_ms", "10") ∷ ("bw_mbit", "4") ∷ []

parse-path_entry_example :
    (e : String × String) × (path_entry 0 path ≡ ok e)
    × (parse_link_id_and_type e.0 ≡ ok ("c2r", pos 0))
    × (parse_link_characteristics whole_numbers e.1
        ≡ ok (record {
          delay = pos 10;
          bandwidth = pos 4;
          queue_size = pos 100;
          loss_perc = pos 0;
          is_backup = pos 0;
        }))
parse-path_entry_example =
    parse-path_entry whole_numbers 0 path "c2r" "10" "4" (pos 0) (pos 10) (pos 4) (pos 100)
      (unfold lookup in refl) (unfold has in refl) (unfold lookup in unfold show in refl)
      (unfold lookup in refl) (unfold has in refl) (unfold read_int in unfold is_space in refl)
      (unfold lookup in refl) (unfold has in refl) (unfold read_int in unfold is_space in refl)
      (unfold lookup in unfold has in refl)
      (unfold lookup in unfold read_int in unfold is_space in refl)

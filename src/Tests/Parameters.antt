-- ===== src/Tests/Parameters.antt =====
-- Runs of the loading of parameters and topologies.
use minitopo.Base.{◌≡◌, ◌≢◌, refl, List, [], ◌∷◌, none, some, All, true}
use minitopo.Base.Int.{ℤ, pos}
use minitopo.Base.Dict.{keys, lookup, insert}
use minitopo.Errors.{ok, err, attribute_error}
use minitopo.Text.{starts_with, is_space, has, strip}
use minitopo.Text.Split.{split}
use minitopo.Text.Lines.{read_lines}
use minitopo.Text.Number.{read_int, show}
use minitopo.Parameter
use minitopo.Parameter.{Parameter, Value, text, several, append_value, load_parameter_file}
use minitopo.Parameter.Loading.{entry, assignments, lookup-load_parameter_file}
use minitopo.Link
use minitopo.Link.{
  LinkCharacteristics, NetemAt, extract_queuing_delay, get_bandwidth_delay_product_divided_by_mtu,
  add_netem_at,
}
use minitopo.TopoParameter
use minitopo.TopoParameter.{
  TopoParameter, Fields, parse_link_id_and_type, parse_netem_at, parse_link_characteristics,
  load_link_characteristics, find_link_characteristic, load_netem_at_value,
}
use minitopo.TopoParameter.Keys.{link_key, parse-link_key}
use minitopo.TopoParameter.Links.{Source, load_link_characteristics-Source}
use minitopo.TopoParameter.Finding.{find-load_link_characteristics}
use minitopo.Base.{map}
use minitopo.Link.{schedule}
use minitopo.Link.Schedule.{Exact, run_times}
use minitopo.TopoParameter.Schedules.{Scheduled, init-Scheduled, init-run_times}
use minitopo.TopoParameter.Repeats.{
  init-repeated_path, init-repeated_netem_at, load_netem_at_value_missing,
}
use minitopo.Tests.Inputs.{
  whole_numbers, or_else, two_paths, two_netems, two_changes, repeated_path, empty_topology,
}

abbrev loaded : TopoParameter ℤ
loaded = or_else empty_topology (TopoParameter.init whole_numbers (some two_paths))

init-loaded : TopoParameter.init whole_numbers (some two_paths) ≡ ok loaded
unfolding TopoParameter.init read_int show keys starts_with split is_space lookup append_value
    Link.init extract_queuing_delay get_bandwidth_delay_product_divided_by_mtu
init-loaded = refl

init-Scheduled_example : All (Scheduled whole_numbers) loaded.link_characteristics
init-Scheduled_example = init-Scheduled whole_numbers (some two_paths) loaded init-loaded

lookup-load_parameter_file_example :
    lookup "path_c2r_0" (load_parameter_file two_paths [])
    ≡ entry (assignments "path_c2r_0" (read_lines two_paths))
lookup-load_parameter_file_example = lookup-load_parameter_file "path_c2r_0" two_paths

parse-link_key_example :
    (parse_link_id_and_type (link_key "path" "c2r" (pos 12)) ≡ ok ("c2r", pos 12))
    × (parse_netem_at (link_key "netemAt" "c2r" (pos 12)) ≡ ok ("c2r", pos 12))
parse-link_key_example = parse-link_key "c2r" (pos 12) (unfold has in refl)

-- The parameters of the file, and the links that they give.
abbrev parameters : Parameter
parameters = Parameter.init (some two_paths)

abbrev links : List (LinkCharacteristics ℤ)
links = or_else [] (load_link_characteristics whole_numbers parameters)

load-links : load_link_characteristics whole_numbers parameters ≡ ok links
unfolding load_link_characteristics Parameter.init read_int show keys starts_with split is_space
    lookup append_value Link.init extract_queuing_delay get_bandwidth_delay_product_divided_by_mtu
    insert
load-links = refl

load_link_characteristics-Source_example : All (Source whole_numbers parameters.parameters) links
load_link_characteristics-Source_example =
    load_link_characteristics-Source whole_numbers parameters links load-links

abbrev first_fields : Fields ℤ
first_fields = record {
  delay = pos 10;
  bandwidth = pos 4;
  queue_size = pos 10;
  loss_perc = pos 0;
  is_backup = pos 0;
}

is_path : starts_with "path_c2r_0" "path" ≡ true
unfolding starts_with
is_path = refl

names_link : parse_link_id_and_type "path_c2r_0" ≡ ok ("c2r", pos 0)
unfolding parse_link_id_and_type split read_int is_space
names_link = refl

in_file : lookup "path_c2r_0" parameters.parameters ≡ some (text "10,10,4")
unfolding lookup Parameter.init starts_with split is_space append_value insert load_parameter_file
    strip
in_file = refl

has_fields : parse_link_characteristics whole_numbers "10,10,4" ≡ ok first_fields
unfolding parse_link_characteristics split read_int is_space
has_fields = refl

find-load_link_characteristics_example :
    find_link_characteristic whole_numbers links "c2r" (pos 0) ≢ none
find-load_link_characteristics_example =
    find-load_link_characteristics whole_numbers parameters "path_c2r_0" "10,10,4" "c2r" (pos 0)
      first_fields links is_path names_link in_file has_fields load-links

-- A file that sets netem twice for one link, or the path of a link twice.
two_netems_of_link :
    assignments "netemAt_c2r_0" (read_lines two_netems) ≡ "7,loss 5" ∷ "9,loss 0" ∷ []
unfolding assignments read_lines starts_with split is_space strip
two_netems_of_link = refl

netem_turned_on : assignments "changeNetem" (read_lines two_netems) ≡ "yes" ∷ []
unfolding assignments read_lines starts_with split is_space strip
netem_turned_on = refl

is_netem : starts_with "netemAt_c2r_0" "netemAt_" ≡ true
unfolding starts_with
is_netem = refl

names_netem : parse_netem_at "netemAt_c2r_0" ≡ ok ("c2r", pos 0)
unfolding parse_netem_at split read_int is_space
names_netem = refl

init-repeated_netem_at_example : TopoParameter.init whole_numbers (some two_netems) ≢ ok loaded
init-repeated_netem_at_example =
    init-repeated_netem_at whole_numbers two_netems "netemAt_c2r_0" "c2r" (pos 0) "7,loss 5"
      "9,loss 0" [] two_netems_of_link loaded netem_turned_on is_netem names_netem

same_path_twice : assignments "path_c2r_0" (read_lines repeated_path) ≡ "10,4" ∷ "20,4" ∷ []
unfolding assignments read_lines starts_with split is_space strip
same_path_twice = refl

init-repeated_path_example : TopoParameter.init whole_numbers (some repeated_path) ≢ ok loaded
init-repeated_path_example =
    init-repeated_path whole_numbers repeated_path "path_c2r_0" "c2r" (pos 0) "10,4" "20,4" []
      same_path_twice loaded is_path names_link

words_of_netem : split b',' "7,loss 5" ≡ "7" ∷ "loss 5" ∷ []
unfolding split
words_of_netem = refl

number_of_netem : whole_numbers.read "7" ≡ ok (pos 7)
unfolding read_int is_space
number_of_netem = refl

no_such_link : find_link_characteristic whole_numbers [] "c2r" (pos 3) ≡ none
unfolding find_link_characteristic
no_such_link = refl

load_netem_at_value_missing_example :
    load_netem_at_value whole_numbers [] "c2r" (pos 3) (text "7,loss 5") ≡ err attribute_error
load_netem_at_value_missing_example =
    load_netem_at_value_missing whole_numbers [] "c2r" (pos 3) "7,loss 5" "7" "loss 5" (pos 7)
      words_of_netem number_of_netem no_such_link

abbrev changing : TopoParameter ℤ
changing = or_else empty_topology (TopoParameter.init whole_numbers (some two_changes))

init-changing : TopoParameter.init whole_numbers (some two_changes) ≡ ok changing
unfolding TopoParameter.init read_int show keys starts_with split is_space lookup append_value
    Link.init extract_queuing_delay get_bandwidth_delay_product_divided_by_mtu schedule
init-changing = refl

changing-times :
    map (λ l. map (λ n. n.delta) l.netem_at) changing.link_characteristics
    ≡ (pos 7 ∷ pos 2 ∷ []) ∷ []
unfolding TopoParameter.init read_int show keys starts_with split is_space lookup append_value
    Link.init extract_queuing_delay get_bandwidth_delay_product_divided_by_mtu schedule
changing-times = refl

changing-Exact : All (λ l. Exact whole_numbers l.netem_at) changing.link_characteristics
unfolding TopoParameter.init read_int show keys starts_with split is_space lookup append_value
    Link.init extract_queuing_delay get_bandwidth_delay_product_divided_by_mtu schedule
changing-Exact = ((refl, tt), tt)

init-run_times_example :
    All
      (λ l. run_times whole_numbers l.netem_at ≡ map (λ n. n.at) l.netem_at)
      changing.link_characteristics
init-run_times_example =
    init-run_times whole_numbers (some two_changes) changing init-changing changing-Exact

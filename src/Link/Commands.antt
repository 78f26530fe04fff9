-- ===== src/Link/Commands.antt =====
-- core/topo.py: the `tc` commands of a link.
use minitopo.Base.{String, Bool, true, List, [], ◌∷◌, ◌++◌, if◌then◌else◌}
use minitopo.Errors.{Result, ok, ◌>>=◌}
use minitopo.Floats.{Floats}
use minitopo.Link.{NetemAt, LinkCharacteristics, buffer_size}
use minitopo.Text.{concat, join}

-- `"&& ".join([...] + ["true &"])`
abbrev chain : List String → String
chain commands = join "&& " (commands ++ "true &" ∷ [])

unfoldable pub build_delete_tc_cmd : String → String
unfolding concat
build_delete_tc_cmd ifname =
    concat ("tc qdisc del dev " ∷ ifname ∷ " root; tc qdisc del dev " ∷ ifname ∷ " ingress " ∷ [])

abbrev verb : Bool → String
verb replace = if replace then "replace" else "add"

module _ (fl : Floats) where
  open fl use {F, show}

  unfoldable pub build_bandwidth_cmd : LinkCharacteristics F → String → Bool → Result String
  unfolding concat buffer_size
  build_bandwidth_cmd l ifname replace = do
    limit ← buffer_size fl l
    ok (
        concat (
          "tc qdisc "
          ∷ verb replace
          ∷ " dev "
          ∷ ifname
          ∷ " root handle 1:0 tbf rate "
          ∷ show l.bandwidth
          ∷ "mbit burst 15000 limit "
          ∷ show limit
          ∷ []))

  delayed_bandwidth_cmds : LinkCharacteristics F → String → List (NetemAt F) → Result (List String)
  unfolding build_bandwidth_cmd
  delayed_bandwidth_cmds l ifname [] = ok []
  delayed_bandwidth_cmds l ifname (n ∷ ns) = do
    command ← build_bandwidth_cmd l ifname true
    rest ← delayed_bandwidth_cmds l ifname ns
    ok (concat ("sleep " ∷ show n.delta ∷ " && (" ∷ command ∷ ") " ∷ []) ∷ rest)

  unfoldable pub build_changing_bandwidth_cmd : LinkCharacteristics F → String → Result String
  unfolding delayed_bandwidth_cmds join
  build_changing_bandwidth_cmd l ifname = do
    commands ← delayed_bandwidth_cmds l ifname l.netem_at
    ok (chain commands)

  unfoldable pub build_netem_cmd : LinkCharacteristics F → String → String → Bool → String
  unfolding concat
  build_netem_cmd l ifname cmd replace = concat (
      "tc qdisc "
      ∷ verb replace
      ∷ " dev "
      ∷ ifname
      ∷ " root handle 10: netem "
      ∷ cmd
      ∷ " "
      ∷ (if replace then "" else concat ("delay " ∷ show l.delay ∷ "ms limit 50000" ∷ []))
      ∷ [])

  delayed_netem_cmds : LinkCharacteristics F → String → List (NetemAt F) → List String
  unfolding build_netem_cmd
  delayed_netem_cmds l ifname [] = []
  delayed_netem_cmds l ifname (n ∷ ns) =
      concat ("sleep " ∷ show n.delta ∷ " && " ∷ build_netem_cmd l ifname n.cmd true ∷ " " ∷ [])
      ∷ delayed_netem_cmds l ifname ns

  unfoldable pub build_changing_netem_cmd : LinkCharacteristics F → String → String
  unfolding delayed_netem_cmds join
  build_changing_netem_cmd l ifname = chain (delayed_netem_cmds l ifname l.netem_at)

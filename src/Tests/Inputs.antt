-- ===== src/Tests/Inputs.antt =====
-- The inputs that the tests share: whole numbers in place of floats, a network that answers every
-- command, and files.
use minitopo.Base.{ℕ, zero, suc, ◌+◌, ◌*◌, ◌/◌, ◌-◌, String, [], ◌∷◌, ◌++◌, ltb}
use minitopo.Base.Int.{ℤ, pos, negsuc}
use minitopo.Errors.{Result, ok, err, or_raise, value_error, zero_division}
use minitopo.Floats.{Floats}
use minitopo.Network.{Env}
use minitopo.TopoParameter.{TopoParameter}
use minitopo.Text.Number.{read_int, show}

abbrev as_ℕ : ℤ → ℕ
as_ℕ (pos n) = n
as_ℕ (negsuc n) = 0

abbrev divided : ℤ → ℤ → Result ℤ
divided a (pos zero) = err zero_division
divided a (pos (suc n)) = ok (pos (as_ℕ a / suc n))
divided a (negsuc n) = ok (pos 0)

-- Whole numbers that are not negative, with the division that rounds down.
abbrev pub whole_numbers : Floats
whole_numbers = record {
  F = ℤ;
  read = λ s. or_raise value_error (read_int s);
  of_int = λ n. n;
  add = λ a b. pos (as_ℕ a + as_ℕ b);
  sub = λ a b. pos (as_ℕ a - as_ℕ b);
  mul = λ a b. pos (as_ℕ a * as_ℕ b);
  div = divided;
  ceil = ok;
  trunc = ok;
  lt = λ a b. ltb (as_ℕ a) (as_ℕ b);
  show = show;
}

-- A network in which every node has two interfaces and every command answers nothing.
abbrev pub silent : Env
silent = record {
  node_cmd = λ done who cmd. "";
  shell = λ done cmd. ("", "");
  node_named = λ names who. ok who;
  node_names = λ hosts switches. hosts ++ switches;
  interface_names = λ links who. "eth0" ∷ "lo" ∷ "eth1" ∷ [];
  mac = λ who intf. "00:00:00:00:00:01";
}

abbrev pub or_else {ℓ} : {A : Type ℓ} → A → Result A → A
or_else d (ok a) = a
or_else d (err e) = d

-- Two links to the client, one to the server, and one change of netem.
abbrev pub two_paths : String
two_paths =
    "# a topology\nleftSubnet:10.0.\nchangeNetem:yes\npath_c2r_0:10,10,4\npath_c2r_1:40,30,4,1\npath_r2s_0:5,10\nnetemAt_c2r_0:7,loss 5\n"

-- A file with two changes of netem for one link.
abbrev pub two_netems : String
two_netems = "changeNetem:yes\npath_c2r_0:10,10,4\nnetemAt_c2r_0:7,loss 5\nnetemAt_c2r_0:9,loss 0\n"

-- Two changes of netem for one link, by two keys with one meaning.
abbrev pub two_changes : String
two_changes =
    "changeNetem:yes\npath_c2r_0:10,10,4\nnetemAt_c2r_0:7,loss 5\nnetemAt_c2r_00:9,loss 0\n"

abbrev pub empty_topology : TopoParameter ℤ
empty_topology = record {
  parameter = record { parameters = []; default_parameters = [] };
  link_characteristics = [];
}

-- A file with two lines for one link.
abbrev pub repeated_path : String
repeated_path = "path_c2r_0:10,4\npath_c2r_0:20,4\n"

-- ===== src/TopoParameter.antt =====
-- core/topo.py: `TopoParameter`, the parameters of a topology with its links.
pub mod Keys
pub mod Loops
pub mod Links
pub mod Finding
pub mod Schedules
pub mod Repeats
use minitopo.Base.{
  ℕ, zero, suc, ◌-◌, String, ◌==◌, Bool, true, false, ◌&&◌, List, [], ◌∷◌, ◌++◌, Option, none, some,
}
use minitopo.Base.{if◌then◌else◌, length, leb, ltb, get_elem?}
use minitopo.Base.Int.{ℤ, pos, negsuc, eqb_ℤ}
use minitopo.Base.Dict.{Dict, lookup, keys, update}
use minitopo.Errors.{
  Error, Result, ok, err, value_error, type_error, attribute_error, index_error, key_error,
  or_raise, ◌>>=◌, ◌>>◌,
}
use minitopo.Floats.{Floats}
use minitopo.Text.{starts_with}
use minitopo.Text.Split.{split}
use minitopo.Text.Sort.{sorted}
use minitopo.Text.Number.{read_int}
use minitopo.Parameter
use minitopo.Parameter.{Parameter, Value, text, several}
use minitopo.Link
use minitopo.Link.{
  NetemAt, LinkCharacteristics, get_bandwidth_delay_product_divided_by_mtu, add_netem_at,
}

abbrev pub left_subnet : String
left_subnet = "leftSubnet"

abbrev pub right_subnet : String
right_subnet = "rightSubnet"

abbrev pub netem_at : String
netem_at = "netemAt_"

abbrev pub change_netem : String
change_netem = "changeNetem"

abbrev pub default_parameters : Dict String
default_parameters = (left_subnet, "10.1.") ∷ (right_subnet, "10.2.") ∷ (change_netem, "false") ∷ []

pub record TopoParameter (F : Type 0) : Type 0 where
  pub parameter : Parameter
  pub link_characteristics : List (LinkCharacteristics F)

-- The fields that a value of a `path` key gives.
pub record Fields (F : Type 0) : Type 0 where
  pub delay : F
  pub bandwidth : F
  pub queue_size : ℤ
  pub loss_perc : F
  pub is_backup : ℤ

-- `_, link_type, link_id = key.split("_")`, which both kinds of keys are read by.
unfoldable pub words_of_key : List String → Result (String × ℤ)
words_of_key (_ ∷ link_type ∷ link_id ∷ []) = do
  id ← or_raise value_error (read_int link_id)
  ok (link_type, id)
words_of_key _ = err value_error

unfoldable pub parse_link_id_and_type : String → Result (String × ℤ)
unfolding words_of_key
parse_link_id_and_type key = words_of_key (split b'_' key)

unfoldable pub parse_netem_at : String → Result (String × ℤ)
unfolding words_of_key
parse_netem_at key = words_of_key (split b'_' key)

-- A `Value` is not the text that a test or a method of `str` wants.
abbrev pub is_text : Value → String → Bool
is_text (text s) t = s == t
is_text (several ss) t = false

abbrev pub as_text : Value → Result String
as_text (text s) = ok s
as_text (several ss) = err attribute_error

module _ (fl : Floats) where
  open fl use {F, read, of_int}

  unfoldable pub fields_of_words : List String → Result (Fields F)
  fields_of_words (d ∷ b ∷ []) = do
    delay ← read d
    bandwidth ← read b
    queue_size ← get_bandwidth_delay_product_divided_by_mtu fl delay bandwidth
    ok (record {
      delay = delay;
      bandwidth = bandwidth;
      queue_size = queue_size;
      loss_perc = of_int (pos 0);
      is_backup = pos 0;
    })
  fields_of_words (d ∷ q ∷ b ∷ []) = do
    delay ← read d
    bandwidth ← read b
    queue_size ← or_raise value_error (read_int q)
    ok (record {
      delay = delay;
      bandwidth = bandwidth;
      queue_size = queue_size;
      loss_perc = of_int (pos 0);
      is_backup = pos 0;
    })
  fields_of_words (d ∷ q ∷ b ∷ l ∷ []) = do
    delay ← read d
    bandwidth ← read b
    queue_size ← or_raise value_error (read_int q)
    loss_perc ← read l
    ok (record {
      delay = delay;
      bandwidth = bandwidth;
      queue_size = queue_size;
      loss_perc = loss_perc;
      is_backup = pos 0;
    })
  fields_of_words (d ∷ q ∷ b ∷ l ∷ k ∷ []) = do
    delay ← read d
    bandwidth ← read b
    queue_size ← or_raise value_error (read_int q)
    loss_perc ← read l
    is_backup ← or_raise value_error (read_int k)
    ok (record {
      delay = delay;
      bandwidth = bandwidth;
      queue_size = queue_size;
      loss_perc = loss_perc;
      is_backup = is_backup;
    })
  fields_of_words _ = err value_error

  unfoldable pub parse_link_characteristics : String → Result (Fields F)
  unfolding fields_of_words
  parse_link_characteristics value = fields_of_words (split b',' value)

  -- The `try` block of `load_link_characteristics` for one key.
  unfoldable pub read_path : Dict Value → String → Result (String × ℤ × Fields F)
  unfolding parse_link_id_and_type parse_link_characteristics
  read_path d k = do
    (link_type, link_id) ← parse_link_id_and_type k
    entry ← or_raise key_error (lookup k d)
    value ← as_text entry
    fields ← parse_link_characteristics value
    ok (link_type, link_id, fields)

  -- The `else` block.
  unfoldable pub link_of : String × ℤ × Fields F → Result (LinkCharacteristics F)
  link_of (link_type, link_id, f) =
      Link.init fl link_id link_type f.delay f.queue_size f.bandwidth f.loss_perc f.is_backup

  abbrev append_link :
      List (LinkCharacteristics F)
      → Result (String × ℤ × Fields F)
      → Result (List (LinkCharacteristics F))
  append_link links (err value_error) = ok links
  append_link links (err e) = err e
  append_link links (ok read) = do path ← link_of read; ok (links ++ path ∷ [])

  -- One round of the loop, for the key `k`.
  unfoldable pub load_path :
      Dict Value → List (LinkCharacteristics F) → String → Result (List (LinkCharacteristics F))
  unfolding read_path link_of
  load_path d links k = if starts_with k "path" then append_link links (read_path d k) else ok links

  unfoldable pub load_paths :
      Dict Value
      → List (LinkCharacteristics F)
      → List String
      → Result (List (LinkCharacteristics F))
  unfolding load_path
  load_paths d links [] = ok links
  load_paths d links (k ∷ ks) = do more ← load_path d links k; load_paths d more ks

  unfoldable pub load_link_characteristics : Parameter → Result (List (LinkCharacteristics F))
  unfolding load_paths sorted
  load_link_characteristics p = load_paths p.parameters [] (sorted (keys p.parameters))

  -- none is the `ValueError` that the method returns, and does not raise.
  unfoldable pub find_link_characteristic :
      List (LinkCharacteristics F) → String → ℤ → Option (LinkCharacteristics F)
  find_link_characteristic [] link_type link_id = none
  find_link_characteristic (l ∷ ls) link_type link_id =
      if l.link_type == link_type && eqb_ℤ l.id link_id
      then some l
      else find_link_characteristic ls link_type link_id

  -- `find_link_characteristic(link_type, link_id).add_netem_at(na)`: the link is changed in its
  -- place, and a returned `ValueError` has no such method.
  unfoldable pub add_to_link :
      List (LinkCharacteristics F) → String → ℤ → NetemAt F → Result (List (LinkCharacteristics F))
  unfolding add_netem_at
  add_to_link [] link_type link_id na = err attribute_error
  add_to_link (l ∷ ls) link_type link_id na =
      let rest = add_to_link ls link_type link_id na in
      if l.link_type == link_type && eqb_ℤ l.id link_id
      then ok (add_netem_at fl l na ∷ ls)
      else (do more ← rest; ok (l ∷ more))

  -- `self.link_characteristics[link_id]`: a negative index counts from the end.
  unfoldable pub index_of : List (LinkCharacteristics F) → ℤ → Result (LinkCharacteristics F)
  index_of links (pos i) = or_raise index_error (get_elem? links i)
  index_of links (negsuc i) =
      if ltb i (length links)
      then or_raise index_error (get_elem? links (length links - i - 1))
      else err index_error

  unfoldable pub netem_words :
      List (LinkCharacteristics F)
      → String
      → ℤ
      → List String
      → Result (List (LinkCharacteristics F))
  unfolding add_to_link
  netem_words links link_type link_id (at ∷ cmd ∷ []) = do
    time ← read at
    add_to_link links link_type link_id (record { at = time; cmd = cmd; delta = of_int (pos 0) })
  netem_words links link_type link_id _ = err value_error

  -- `except ValueError`
  abbrev or_keep :
      List (LinkCharacteristics F)
      → Result (List (LinkCharacteristics F))
      → Result (List (LinkCharacteristics F))
  or_keep links (err value_error) = ok links
  or_keep links r = r

  -- The last line logs the schedule of the link at the index `link_id`.
  unfoldable pub load_netem_at_value :
      List (LinkCharacteristics F) → String → ℤ → Value → Result (List (LinkCharacteristics F))
  unfolding netem_words index_of
  load_netem_at_value links link_type link_id n = do
    after ←
        or_keep links (do value ← as_text n; netem_words links link_type link_id (split b',' value))
    logged ← index_of after link_id
    ok after

  unfoldable pub load_netem_key :
      Dict Value → List (LinkCharacteristics F) → String → Result (List (LinkCharacteristics F))
  unfolding load_netem_at_value parse_netem_at
  load_netem_key d links k =
      if starts_with k netem_at
      then (do
        (link_type, link_id) ← parse_netem_at k
        n ← or_raise key_error (lookup k d)
        load_netem_at_value links link_type link_id n)
      else ok links

  unfoldable pub load_netem_keys :
      Dict Value
      → List (LinkCharacteristics F)
      → List String
      → Result (List (LinkCharacteristics F))
  unfolding load_netem_key
  load_netem_keys d links [] = ok links
  load_netem_keys d links (k ∷ ks) = do more ← load_netem_key d links k; load_netem_keys d more ks

  unfoldable pub load_netem_at :
      Parameter → List (LinkCharacteristics F) → Result (List (LinkCharacteristics F))
  unfolding load_netem_keys sorted Parameter.get
  load_netem_at p links = do
    change ← Parameter.get p change_netem
    if is_text change "yes"
        then load_netem_keys p.parameters links (sorted (keys p.parameters))
        else ok links

  -- `TopoParameter(filename)`, given the text of the file.
  unfoldable pub init : Option String → Result (TopoParameter F)
  unfolding Parameter.init update load_link_characteristics load_netem_at
  init contents = do
    let base = Parameter.init contents
    let p = record base { default_parameters = update base.default_parameters default_parameters }
    links ← load_link_characteristics p
    after ← load_netem_at p links
    ok (record { parameter = p; link_characteristics = after })

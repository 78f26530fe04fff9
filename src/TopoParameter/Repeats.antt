-- ===== src/TopoParameter/Repeats.antt =====
-- Files that make the loading fail: keys that stand twice, and netem commands for links that are
-- not there.
use minitopo.Base.{String, ◌==◌, ◌≡◌, ◌≢◌, refl, ap, sym, ◌∙◌, true, ◌&&◌, List, [], ◌∷◌}
use minitopo.Base.{none, some, arith, inl, inr, Bool-cases}
use minitopo.Base.Int.{ℤ, eqb_ℤ}
use minitopo.Base.Dict.{Dict, lookup, keys, elem, elem-keys, update}
use minitopo.Errors.{ok, err, attribute_error}
use minitopo.Floats.{Floats}
use minitopo.Text.{starts_with}
use minitopo.Text.Lines.{read_lines}
use minitopo.Text.Split.{split}
use minitopo.Text.Sort.{sorted, elem-sorted}
use minitopo.Parameter
use minitopo.Parameter.{Parameter, Value, text, several, load_parameter_file}
use minitopo.Parameter.Loading.{assignments, entry, lookup-load_parameter_file}
use minitopo.Link.{NetemAt, LinkCharacteristics}
use minitopo.TopoParameter.{
  TopoParameter, parse_link_id_and_type, parse_netem_at, read_path, load_path, load_paths,
  load_link_characteristics, load_netem_key, load_netem_keys, load_netem_at, load_netem_at_value,
  find_link_characteristic, add_to_link, init, netem_at, change_netem, default_parameters,
}
use minitopo.TopoParameter.Loops.{>>=-eq-ok, load_paths-fails, load_netem_keys-fails}

module _ (fl : Floats) where
  open fl use {F, read, of_int}

  read_path-several :
      (d : Dict Value) (k t : String) (i : ℤ) (vs : List String)
      → parse_link_id_and_type k ≡ ok (t, i)
      → lookup k d ≡ some (several vs)
      → read_path fl d k ≡ err attribute_error
  unfolding read_path
  read_path-several d k t i vs name e = rw (name, e) refl

  load_path-several :
      (d : Dict Value) (k t : String) (i : ℤ) (vs : List String)
      → starts_with k "path" ≡ true
      → parse_link_id_and_type k ≡ ok (t, i)
      → lookup k d ≡ some (several vs)
      → (links : List (LinkCharacteristics F)) → load_path fl d links k ≡ err attribute_error
  unfolding load_path
  load_path-several d k t i vs s name e links = rw s (rw (read_path-several d k t i vs name e) refl)

  load_netem_key-several :
      (d : Dict Value) (k t : String) (i : ℤ) (vs : List String)
      → starts_with k netem_at ≡ true
      → parse_netem_at k ≡ ok (t, i)
      → lookup k d ≡ some (several vs)
      → (links : List (LinkCharacteristics F)) → load_netem_key fl d links k ≡ err attribute_error
  unfolding load_netem_key load_netem_at_value
  load_netem_key-several d k t i vs s name e links = rw (s, name, e) refl

  get-some :
      (p : Parameter) (k : String) (v : Value)
      → lookup k p.parameters ≡ some v
      → Parameter.get p k ≡ ok v
  unfolding Parameter.get
  get-some p k v e = ground arith

  load_netem_at_yes :
      (p : Parameter) (links : List (LinkCharacteristics F))
      → Parameter.get p change_netem ≡ ok (text "yes")
      → load_netem_at fl p links
        ≡ load_netem_keys fl p.parameters links (sorted (keys p.parameters))
  unfolding load_netem_at
  load_netem_at_yes p links e = rw e refl

  module _ (contents k t : String) (i : ℤ) (v w : String) (vs : List String)
      (twice : assignments k (read_lines contents) ≡ v ∷ w ∷ vs) where
    abbrev table : Dict Value
    table = load_parameter_file contents []

    in_table : lookup k table ≡ some (several (v ∷ w ∷ vs))
    in_table = lookup-load_parameter_file k contents ∙ ap entry twice

    in_sorted : elem k (sorted (keys table)) ≡ true
    in_sorted = elem-sorted k (keys table) ∙ elem-keys k _ table in_table

    -- A file that gives the well-formed key of a link twice is not loaded.
    pub init-repeated_path :
        (tp : TopoParameter F)
        → starts_with k "path" ≡ true
        → parse_link_id_and_type k ≡ ok (t, i)
        → init fl (some contents) ≢ ok tp
    unfolding init load_link_characteristics Parameter.init
    init-repeated_path tp s name h =
        let (links, e, rest) = >>=-eq-ok (load_paths fl table [] (sorted (keys table))) _ h in
        load_paths-fails fl table k (load_path-several table k t i (v ∷ w ∷ vs) s name in_table)
          (sorted (keys table)) [] links in_sorted e

    -- A file that turns netem changes on and gives the well-formed key of one twice is not loaded.
    pub init-repeated_netem_at :
        (tp : TopoParameter F)
        → assignments change_netem (read_lines contents) ≡ "yes" ∷ []
        → starts_with k netem_at ≡ true
        → parse_netem_at k ≡ ok (t, i)
        → init fl (some contents) ≢ ok tp
    unfolding init load_netem_at Parameter.init Parameter.get
    init-repeated_netem_at tp on s name h =
        let (links, e, rest) = >>=-eq-ok (load_link_characteristics fl p) _ h in
        let (after, g, end) = >>=-eq-ok (load_netem_at fl p links) _ rest in
        load_netem_keys-fails fl table k
          (load_netem_key-several table k t i (v ∷ w ∷ vs) s name in_table) (sorted (keys table))
          links after in_sorted (changing links after g)
      where
        p : Parameter
        p = record { parameters = table; default_parameters = update [] default_parameters }

        changing :
            (links after : List (LinkCharacteristics F))
            → load_netem_at fl p links ≡ ok after
            → load_netem_keys fl table links (sorted (keys table)) ≡ ok after
        changing links after g =
            sym (
              load_netem_at_yes p links (
                get-some p change_netem (text "yes")
                  (lookup-load_parameter_file change_netem contents ∙ ap entry on)))
            ∙ g

  add_to_link_missing :
      (links : List (LinkCharacteristics F)) (t : String) (i : ℤ) (na : NetemAt F)
      → find_link_characteristic fl links t i ≡ none
      → add_to_link fl links t i na ≡ err attribute_error
  unfolding find_link_characteristic add_to_link
  add_to_link_missing [] t i na h = refl
  add_to_link_missing (l ∷ links) t i na h = elim (Bool-cases (l.link_type == t && eqb_ℤ l.id i)) [
    | inl e ↦ cc (rw e at h)
    | inr e ↦ rw e (rw (add_to_link_missing links t i na (rw e at h)) refl)
  ]

  -- A well-formed netem command for a link that is not there ends the loading with an
  -- `AttributeError`, which the handler of `ValueError` lets pass.
  pub load_netem_at_value_missing :
      (links : List (LinkCharacteristics F)) (t : String) (i : ℤ) (v at cmd : String) (time : F)
      → split b',' v ≡ at ∷ cmd ∷ []
      → read at ≡ ok time
      → find_link_characteristic fl links t i ≡ none
      → load_netem_at_value fl links t i (text v) ≡ err attribute_error
  unfolding load_netem_at_value
  load_netem_at_value_missing links t i v at cmd time words number missing =
      rw (words, number) (rw (add_to_link_missing links t i _ missing) refl)

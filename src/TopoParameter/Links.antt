-- ===== src/TopoParameter/Links.antt =====
-- The links that `load_link_characteristics` yields.
use mathlib.Core.Path.{subst}
use minitopo.Base.{String, ◌≡◌, refl, true}
use minitopo.Base.{List, [], Option, none, some, arith, All}
use minitopo.Base.Int.{ℤ}
use minitopo.Base.Dict.{Dict, lookup, keys}
use minitopo.Errors.{Result, ok, err, key_error, or_raise, ◌>>=◌}
use minitopo.Floats.{Floats}
use minitopo.Text.{starts_with}
use minitopo.Text.Sort.{sorted}
use minitopo.Parameter.{Parameter, Value, text, several}
use minitopo.Link
use minitopo.Link.{NetemAt, LinkCharacteristics}
use minitopo.TopoParameter.{
  Fields, parse_link_id_and_type, parse_link_characteristics, as_text, read_path, link_of,
  load_link_characteristics,
}
use minitopo.TopoParameter.Loops.{>>=-eq-ok, ok-injective, All-load_paths}

module _ (fl : Floats) where
  open fl use {F}

  -- The key and the text that a link was read from.
  pub record Source (d : Dict Value) (l : LinkCharacteristics F) : Type 0 where
    pub key : String
    pub value : String
    pub fields : Fields F
    pub is_path : starts_with key "path" ≡ true
    pub entry : lookup key d ≡ some (text value)
    pub name : parse_link_id_and_type key ≡ ok (l.link_type, l.id)
    pub parsed : parse_link_characteristics fl value ≡ ok fields
    pub delay : l.delay ≡ fields.delay
    pub bandwidth : l.bandwidth ≡ fields.bandwidth
    pub queue_size : l.queue_size ≡ fields.queue_size
    pub loss : l.loss ≡ fields.loss_perc
    pub backup : l.backup ≡ fields.is_backup
    pub no_netem : l.netem_at ≡ []

  path_parts :
      (a : Result (String × ℤ)) (o : Option Value) (g : String → Result (Fields F))
      {r : String × ℤ × Fields F}
      → (do
        (link_type, link_id) ← a
        entry ← or_raise key_error o
        value ← as_text entry
        fields ← g value
        ok (link_type, link_id, fields))
        ≡ ok r
      → (v : String) × (a ≡ ok (r.0, r.1)) × (o ≡ some (text v)) × (g v ≡ ok r.2)
  path_parts (ok (t, i)) (some (text v)) g h =
      let (f, e, k) = >>=-eq-ok (g v) (λ f. ok (t, i, f)) h in (v, ground arith, refl, ground arith)
  path_parts (ok (t, i)) (some (several vs)) g h = cc
  path_parts (ok (t, i)) none g h = cc
  path_parts (err e) _ g h = cc

  link_of-Source :
      (d : Dict Value) (k : String) (r : String × ℤ × Fields F) (l : LinkCharacteristics F)
      → starts_with k "path" ≡ true
      → read_path fl d k ≡ ok r
      → link_of fl r ≡ ok l
      → Source d l
  unfolding link_of read_path Link.init
  link_of-Source d k (t, i, f) l s q made =
      let (v, name, entry, parsed) =
        path_parts (parse_link_id_and_type k) (lookup k d) (parse_link_characteristics fl) q in
      let (delay, e, built) =
        >>=-eq-ok (Link.extract_queuing_delay fl f.queue_size f.bandwidth) _ made in
      subst (Source d) (ok-injective built) (record {
        key = k;
        value = v;
        fields = f;
        is_path = s;
        entry = entry;
        name = name;
        parsed = parsed;
        delay = refl;
        bandwidth = refl;
        queue_size = refl;
        loss = refl;
        backup = refl;
        no_netem = refl;
      })

  pub link_of-name :
      (r : String × ℤ × Fields F) (l : LinkCharacteristics F)
      → link_of fl r ≡ ok l
      → (l.link_type ≡ r.0) × (l.id ≡ r.1)
  unfolding link_of Link.init
  link_of-name (t, i, f) l made =
      let (delay, e, built) =
        >>=-eq-ok (Link.extract_queuing_delay fl f.queue_size f.bandwidth) _ made in
      subst (λ m. (m.link_type ≡ t) × (m.id ≡ i)) (ok-injective built) (refl, refl)

  -- Every link that is loaded comes from a `path` key that names its type and its identifier, and
  -- has the fields of that key's text and no netem command.
  pub load_link_characteristics-Source :
      (p : Parameter) (links : List (LinkCharacteristics F))
      → load_link_characteristics fl p ≡ ok links
      → All (Source p.parameters) links
  unfolding load_link_characteristics
  load_link_characteristics-Source p links h =
      All-load_paths fl p.parameters (Source p.parameters) (link_of-Source p.parameters)
        (sorted (keys p.parameters)) [] links h tt

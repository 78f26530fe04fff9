-- ===== src/TopoParameter/Finding.antt =====
-- `find_link_characteristic` on the links that are loaded.
use mathlib.Core.Path.{subst}
use minitopo.Base.{String, ◌==◌, eq_iff, eq_refl, ◌≡◌, ◌≢◌, refl, ap, sym, ◌∙◌, true, ◌&&◌}
use minitopo.Base.{List, [], ◌∷◌, ◌++◌, none, some, arith, inl, inr, Bool-cases}
use minitopo.Base.{if◌then◌else◌}
use minitopo.Base.Int.{ℤ, eqb_ℤ, eqb_ℤ-refl, eqb_ℤ→eq}
use minitopo.Base.Dict.{Dict, lookup, keys, elem, elem-keys}
use minitopo.Errors.{ok}
use minitopo.Floats.{Floats}
use minitopo.Text.{starts_with}
use minitopo.Text.Sort.{sorted, elem-sorted}
use minitopo.Parameter.{Parameter, Value, text}
use minitopo.Link.{LinkCharacteristics}
use minitopo.TopoParameter.{
  Fields, parse_link_id_and_type, parse_link_characteristics, read_path, link_of, load_path,
  load_paths, load_link_characteristics, find_link_characteristic, append_link,
}
use minitopo.TopoParameter.Loops.{>>=-eq-ok, ok-injective, Round, kept, appended, load_path-Round}
use minitopo.TopoParameter.Links.{link_of-name}

module _ (fl : Floats) where
  open fl use {F}

  -- The link that is found has the type and the identifier.
  find_link_characteristic-some :
      (links : List (LinkCharacteristics F)) (t : String) (i : ℤ) (l : LinkCharacteristics F)
      → find_link_characteristic fl links t i ≡ some l
      → (l.link_type ≡ t) × (l.id ≡ i)
  unfolding find_link_characteristic
  find_link_characteristic-some [] t i l h = cc
  find_link_characteristic-some (m ∷ links) t i l h =
      ground
        (arith, eq_iff m.link_type t, eqb_ℤ→eq m.id i, find_link_characteristic-some links t i l)

  find-append_left :
      (links more : List (LinkCharacteristics F)) (t : String) (i : ℤ)
      → find_link_characteristic fl links t i ≢ none
      → find_link_characteristic fl (links ++ more) t i ≢ none
  unfolding find_link_characteristic
  find-append_left [] more t i h = absurd (h refl)
  find-append_left (m ∷ links) more t i h = elim (Bool-cases (m.link_type == t && eqb_ℤ m.id i)) [
    | inl e ↦ rw e (ground arith)
    | inr e ↦ rw e (find-append_left links more t i (rw e at h))
  ]

  find-append_new :
      (links : List (LinkCharacteristics F)) (l : LinkCharacteristics F)
      → find_link_characteristic fl (links ++ l ∷ []) l.link_type l.id ≢ none
  unfolding find_link_characteristic
  find-append_new [] l = ground (arith, eq_refl l.link_type, eqb_ℤ-refl l.id)
  find-append_new (m ∷ links) l = ground (arith, find-append_new links l)

  read_path-ok :
      (d : Dict Value) (k v t : String) (i : ℤ) (f : Fields F)
      → parse_link_id_and_type k ≡ ok (t, i)
      → lookup k d ≡ some (text v)
      → parse_link_characteristics fl v ≡ ok f
      → read_path fl d k ≡ ok (t, i, f)
  unfolding read_path
  read_path-ok d k v t i f name entry parsed = rw (name, entry) (rw parsed refl)

  load_path-ok :
      (d : Dict Value) (k : String) (r : String × ℤ × Fields F)
      (links : List (LinkCharacteristics F))
      → starts_with k "path" ≡ true
      → read_path fl d k ≡ ok r
      → load_path fl d links k ≡ append_link fl links (ok r)
  unfolding load_path
  load_path-ok d k r links s q =
      ap (λ b. if b then append_link fl links (read_path fl d k) else ok links) s
      ∙ ap (append_link fl links) q

  module _ (d : Dict Value) (k : String) (r : String × ℤ × Fields F)
      (is_path : starts_with k "path" ≡ true) (found : read_path fl d k ≡ ok r) where
    Found : List (LinkCharacteristics F) → Type 0
    Found links = find_link_characteristic fl links r.0 r.1 ≢ none

    Found-at :
        (l : LinkCharacteristics F)
        → l.link_type ≡ r.0
        → l.id ≡ r.1
        → (links : List (LinkCharacteristics F)) → Found (links ++ l ∷ [])
    unfolding Found
    Found-at l p q links =
        subst (λ t. find_link_characteristic fl (links ++ l ∷ []) t r.1 ≢ none) p
          (subst (λ i. find_link_characteristic fl (links ++ l ∷ []) l.link_type i ≢ none) q
            (find-append_new links l))

    Round-Found_kept :
        (j : String) (links after : List (LinkCharacteristics F))
        → Round fl d links j after
        → Found links
        → Found after
    unfolding Found
    Round-Found_kept j links after (kept e) h = subst Found (sym e) h
    Round-Found_kept j links after (appended q l s e made more) h =
        subst Found (sym more) (find-append_left links (l ∷ []) r.0 r.1 h)

    Round-Found_new :
        (links after : List (LinkCharacteristics F))
        → load_path fl d links k ≡ ok after
        → Found after
    unfolding Found
    Round-Found_new links after h =
        let (l, made, more) =
          >>=-eq-ok (link_of fl r) (λ path. ok (links ++ path ∷ []))
            (subst (λ x. x ≡ ok after) (load_path-ok d k r links is_path found) h) in
        let (same_type, same_id) = link_of-name fl r l made in
        subst Found (ok-injective more) (Found-at l same_type same_id links)

    load_paths-Found_kept :
        (ks : List String) (links after : List (LinkCharacteristics F))
        → load_paths fl d links ks ≡ ok after
        → Found links
        → Found after
    unfolding load_paths
    load_paths-Found_kept [] links after h found = subst Found (ok-injective h) found
    load_paths-Found_kept (j ∷ ks) links after h found =
        let (more, e, rest) =
          >>=-eq-ok (load_path fl d links j) (λ more. load_paths fl d more ks) h in
        load_paths-Found_kept ks more after rest
          (Round-Found_kept j links more (load_path-Round fl d links j more e) found)

    load_paths-Found :
        (ks : List String) (links after : List (LinkCharacteristics F))
        → elem k ks ≡ true
        → load_paths fl d links ks ≡ ok after
        → Found after
    unfolding load_paths elem
    load_paths-Found [] links after m h = cc
    load_paths-Found (j ∷ ks) links after m h =
        let (more, e, rest) =
          >>=-eq-ok (load_path fl d links j) (λ more. load_paths fl d more ks) h in
        elim (Bool-cases (j == k)) [
          | inl same ↦ load_paths-Found_kept ks more after rest (
              Round-Found_new links more
                (subst (λ x. load_path fl d links x ≡ ok more) ((eq_iff j k).0 same) e))
          | inr other ↦ load_paths-Found ks more after (rw other at m) rest
        ]

  -- Where the loading of the links succeeds, a `path` key with a well-formed name and value has put
  -- a link under that name: `find_link_characteristic` finds one.
  pub find-load_link_characteristics :
      (p : Parameter) (k v t : String) (i : ℤ) (f : Fields F) (links : List (LinkCharacteristics F))
      → starts_with k "path" ≡ true
      → parse_link_id_and_type k ≡ ok (t, i)
      → lookup k p.parameters ≡ some (text v)
      → parse_link_characteristics fl v ≡ ok f
      → load_link_characteristics fl p ≡ ok links
      → find_link_characteristic fl links t i ≢ none
  unfolding load_link_characteristics Found
  find-load_link_characteristics p k v t i f links s name entry parsed h =
      load_paths-Found p.parameters k (t, i, f) s
        (read_path-ok p.parameters k v t i f name entry parsed) (sorted (keys p.parameters)) []
        links (elem-sorted k (keys p.parameters) ∙ elem-keys k (text v) p.parameters entry) h

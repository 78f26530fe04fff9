-- ===== src/TopoParameter/Schedules.antt =====
-- The schedules that the loop over the `netemAt_` keys leaves on the links.
use mathlib.Core.Path.{subst}
use minitopo.Base.{String, ◌==◌, ◌≡◌, refl, sym, ◌&&◌}
use minitopo.Base.{List, [], ◌∷◌, Option, inl, inr, Bool-cases, All}
use minitopo.Base.Int
use minitopo.Base.Int.{ℤ, eqb_ℤ, eqb_ℤ-refl, eqb_ℤ→eq}
use minitopo.Base.Dict.{Dict, lookup, keys}
use minitopo.Errors.{Result, ok, err, value_error, key_error, or_raise}
use minitopo.Floats.{Floats}
use minitopo.Text.{starts_with}
use minitopo.Text.Split
use minitopo.Text.Sort.{sorted}
use minitopo.Parameter
use minitopo.Parameter.{Parameter, Value, text, several}
use minitopo.Link.{NetemAt, LinkCharacteristics}
use minitopo.Base.{map}
use minitopo.Link.Schedule.{IsSchedule, Exact, run_times, run_times-eq-map, add_netem_at-IsSchedule}
use minitopo.TopoParameter.{
  TopoParameter, load_link_characteristics, add_to_link, netem_words, or_keep, index_of,
  load_netem_at_value, load_netem_key, load_netem_keys, load_netem_at, init, is_text, change_netem,
  parse_netem_at,
}
use minitopo.TopoParameter.Loops.{>>=-eq-ok, ok-injective}
use minitopo.Base.Dict.{update}
use minitopo.TopoParameter.{netem_at, default_parameters}
use minitopo.TopoParameter.Links.{Source, load_link_characteristics-Source}

module _ (fl : Floats) where
  open fl use {F}

  abbrev pub Scheduled : LinkCharacteristics F → Type 0
  Scheduled l = IsSchedule fl l.netem_at

  add_to_link-All :
      (links after : List (LinkCharacteristics F)) (t : String) (i : ℤ) (na : NetemAt F)
      → add_to_link fl links t i na ≡ ok after
      → All Scheduled links
      → All Scheduled after
  unfolding add_to_link
  add_to_link-All [] after t i na h all = cc
  add_to_link-All (m ∷ links) after t i na h all =
      elim (Bool-cases (m.link_type == t && eqb_ℤ m.id i)) [
        | inl e ↦
            subst (All Scheduled) (ok-injective (rw e at h))
              (add_netem_at-IsSchedule fl m na all.0, all.1)
        | inr e ↦
            let (more, f, g) =
              >>=-eq-ok (add_to_link fl links t i na) (λ more. ok (m ∷ more)) (rw e at h) in
            subst (All Scheduled) (ok-injective g)
              (all.0, add_to_link-All links more t i na f all.1)
      ]

  -- What keeps the schedules: the loop over the `netemAt_` keys.
  netem_words-Scheduled :
      (links after : List (LinkCharacteristics F)) (t : String) (i : ℤ) (ws : List String)
      → netem_words fl links t i ws ≡ ok after
      → All Scheduled links
      → All Scheduled after
  unfolding netem_words
  netem_words-Scheduled links after t i (at ∷ cmd ∷ []) h all =
      let (time, e, k) =
        >>=-eq-ok (fl.read at)
          (λ time.
            add_to_link fl links t i
              (record { at = time; cmd = cmd; delta = fl.of_int (Int.pos 0) }))
          h in
      add_to_link-All links after t i _ k all
  netem_words-Scheduled links after t i [] h all = cc
  netem_words-Scheduled links after t i (at ∷ []) h all = cc
  netem_words-Scheduled links after t i (a ∷ b ∷ c ∷ ws) h all = cc

  or_keep-Scheduled :
      (links after : List (LinkCharacteristics F)) (r : Result (List (LinkCharacteristics F)))
      → or_keep fl links r ≡ ok after
      → All Scheduled links
      → ((more : List (LinkCharacteristics F)) → r ≡ ok more → All Scheduled more)
      → All Scheduled after
  or_keep-Scheduled links after (ok more) h all each =
      subst (All Scheduled) (ok-injective h) (each more refl)
  or_keep-Scheduled links after (err value_error) h all each =
      subst (All Scheduled) (ok-injective h) all
  or_keep-Scheduled links after (err _) h all each = cc

  load_netem_at_value-Scheduled :
      (links after : List (LinkCharacteristics F)) (t : String) (i : ℤ) (n : Value)
      → load_netem_at_value fl links t i n ≡ ok after
      → All Scheduled links
      → All Scheduled after
  unfolding load_netem_at_value
  load_netem_at_value-Scheduled links after t i (several vs) h all = cc
  load_netem_at_value-Scheduled links after t i (text v) h all =
      let (more, e, k) =
        >>=-eq-ok (or_keep fl links (netem_words fl links t i (Split.split b',' v))) _ h in
      let (logged, g, j) = >>=-eq-ok (index_of fl more i) (λ _. ok more) k in
      subst (All Scheduled) (ok-injective j)
        (or_keep-Scheduled links more _ e all (λ m q. netem_words-Scheduled links m t i _ q all))

  load_netem_key-Scheduled :
      (d : Dict Value) (links after : List (LinkCharacteristics F)) (k : String)
      → load_netem_key fl d links k ≡ ok after
      → All Scheduled links
      → All Scheduled after
  unfolding load_netem_key
  load_netem_key-Scheduled d links after k h all = elim (Bool-cases (starts_with k netem_at)) [
    | inl e ↦
        let (name, e1, h1) = >>=-eq-ok (parse_netem_at k) _ (rw e at h) in
        let (n, e2, h2) =
          >>=-eq-ok (or_raise key_error (lookup k d))
            (λ n. load_netem_at_value fl links name.0 name.1 n) h1 in
        load_netem_at_value-Scheduled links after name.0 name.1 n h2 all
    | inr e ↦ subst (All Scheduled) (ok-injective (rw e at h)) all
  ]

  load_netem_keys-Scheduled :
      (d : Dict Value) (ks : List String) (links after : List (LinkCharacteristics F))
      → load_netem_keys fl d links ks ≡ ok after
      → All Scheduled links
      → All Scheduled after
  unfolding load_netem_keys
  load_netem_keys-Scheduled d [] links after h all = subst (All Scheduled) (ok-injective h) all
  load_netem_keys-Scheduled d (k ∷ ks) links after h all =
      let (more, e, rest) =
        >>=-eq-ok (load_netem_key fl d links k) (λ more. load_netem_keys fl d more ks) h in
      load_netem_keys-Scheduled d ks more after rest (load_netem_key-Scheduled d links more k e all)

  load_netem_at-Scheduled :
      (p : Parameter) (links after : List (LinkCharacteristics F))
      → load_netem_at fl p links ≡ ok after
      → All Scheduled links
      → All Scheduled after
  unfolding load_netem_at
  load_netem_at-Scheduled p links after h all =
      let (change, e, rest) = >>=-eq-ok (Parameter.get p change_netem) _ h in
      elim (Bool-cases (is_text change "yes")) [
        | inl yes_change ↦
            load_netem_keys-Scheduled p.parameters (sorted (keys p.parameters)) links after
              (rw yes_change at rest) all
        | inr not_change ↦ subst (All Scheduled) (ok-injective (rw not_change at rest)) all
      ]

  Source-Scheduled :
      (d : Dict Value) (links : List (LinkCharacteristics F))
      → All (Source fl d) links
      → All Scheduled links
  Source-Scheduled d [] all = tt
  Source-Scheduled d (l ∷ links) all =
      (subst (IsSchedule fl) (sym (all.0).no_netem) tt, Source-Scheduled d links all.1)

  -- Whatever the file says, the netem commands of each loaded link form a schedule: the first waits
  -- until its own time, and each other is strictly later than the one before it and waits for the
  -- difference.
  pub init-Scheduled :
      (contents : Option String) (tp : TopoParameter F)
      → init fl contents ≡ ok tp
      → All Scheduled tp.link_characteristics
  unfolding init
  init-Scheduled contents tp h =
      let base = Parameter.init contents in
      let p : Parameter = record base {
        default_parameters = update base.default_parameters default_parameters;
      } in
      let (links, e, h1) = >>=-eq-ok (load_link_characteristics fl p) _ h in
      let (after, g, h2) =
        >>=-eq-ok (load_netem_at fl p links)
          (λ after. ok (record { parameter = p; link_characteristics = after })) h1 in
      subst (λ t. All Scheduled t.link_characteristics) (ok-injective h2)
        (load_netem_at-Scheduled p links after g
          (Source-Scheduled p.parameters links (load_link_characteristics-Source fl p links e)))

  run_times-All :
      (links : List (LinkCharacteristics F))
      → All Scheduled links
      → All (λ l. Exact fl l.netem_at) links
      → All (λ l. run_times fl l.netem_at ≡ map (λ n. n.at) l.netem_at) links
  run_times-All [] all exact = tt
  run_times-All (l ∷ links) all exact =
      (run_times-eq-map fl l.netem_at all.0 exact.0, run_times-All links all.1 exact.1)

  -- Where a file is loaded and the differences of the times of its netem commands are exact, the
  -- commands of each link, each of which sleeps for its delta after the one before it, run at the
  -- times that they were given.
  pub init-run_times :
      (contents : Option String) (tp : TopoParameter F)
      → init fl contents ≡ ok tp
      → All (λ l. Exact fl l.netem_at) tp.link_characteristics
      → All (λ l. run_times fl l.netem_at ≡ map (λ n. n.at) l.netem_at) tp.link_characteristics
  init-run_times contents tp h exact =
      run_times-All tp.link_characteristics (init-Scheduled contents tp h) exact

-- ===== src/Experiments/PvSchedule.antt =====
-- experiments/ncpv.py: the changes of the rate of pv, next to the changes of netem of a link.
use minitopo.Base.{
  ◌≡◌, refl, sym, ap, ◌∙◌, Bool-cases, Option-cases, inl, inr, true, false, List, [], ◌∷◌, ◌++◌,
  Option, none, some, map, map-append, arith,
}
use minitopo.Floats.{Floats}
use minitopo.Link.{NetemAt, last, schedule}
use minitopo.Link.Schedule.{schedule_first, schedule_later, schedule_early}
use minitopo.Experiments.Netcat.{MpPvAt, add_pv_at}

module _ (fl : Floats) where
  open fl use {F, read, sub, lt}

  -- A change of the rate as a change of netem.
  abbrev pub to_netem : MpPvAt F → NetemAt F
  to_netem p = record { at = p.at; cmd = p.cmd; delta = p.delta }

  abbrev pub to_netems : List (MpPvAt F) → List (NetemAt F)
  to_netems = map to_netem

  map_last : Option (MpPvAt F) → Option (NetemAt F)
  map_last none = none
  map_last (some p) = some (to_netem p)

  last-to_netems : (ps : List (MpPvAt F)) → last (to_netems ps) ≡ map_last (last ps)
  unfolding map_last
  last-to_netems [] = refl
  last-to_netems (p ∷ []) = refl
  last-to_netems (p ∷ q ∷ ps) = last-to_netems (q ∷ ps)

  add_first :
      (ps : List (MpPvAt F)) (p : MpPvAt F)
      → last ps ≡ none
      → add_pv_at fl ps p ≡ ps ++ record p { delta = p.at } ∷ []
  unfolding add_pv_at
  add_first ps p e = ground arith

  add_later :
      (ps : List (MpPvAt F)) (p k : MpPvAt F)
      → last ps ≡ some k
      → lt k.at p.at ≡ true
      → add_pv_at fl ps p ≡ ps ++ record p { delta = sub p.at k.at } ∷ []
  unfolding add_pv_at
  add_later ps p k e later = ground arith

  add_early :
      (ps : List (MpPvAt F)) (p k : MpPvAt F)
      → last ps ≡ some k
      → lt k.at p.at ≡ false
      → add_pv_at fl ps p ≡ ps
  unfolding add_pv_at
  add_early ps p k e early = ground arith

  -- Adding a change of the rate to the changes of an experiment is what adding the same change of
  -- netem to those of a link is: the two methods build the same schedule.
  pub to_netems-add_pv_at :
      (changes : List (MpPvAt F)) (p : MpPvAt F)
      → to_netems (add_pv_at fl changes p) ≡ schedule fl (to_netems changes) (to_netem p)
  unfolding map_last
  to_netems-add_pv_at changes p = elim (Option-cases (last changes)) [
    | inl empty ↦
        ap to_netems (add_first changes p empty)
        ∙ map-append to_netem changes _
        ∙ sym (schedule_first fl _ (to_netem p) (last-to_netems changes ∙ ap map_last empty))
    | inr (k, e) ↦
        let others = last-to_netems changes ∙ ap map_last e in
        elim (Bool-cases (lt k.at p.at)) [
          | inl later ↦
              ap to_netems (add_later changes p k e later)
              ∙ map-append to_netem changes _
              ∙ sym (schedule_later fl _ (to_netem p) (to_netem k) others later)
          | inr early ↦
              ap to_netems (add_early changes p k e early)
              ∙ sym (schedule_early fl _ (to_netem p) (to_netem k) others early)
        ]
  ]

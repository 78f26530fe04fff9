-- ===== src/Link/Schedule.antt =====
-- The schedule of a link: its entries are in strict order of time, and each waits from the one
-- before it.
use minitopo.Base.{◌≡◌, refl, true, false, List, [], ◌∷◌, ◌++◌, none, some}
use minitopo.Base.{arith, map, ap, sym, inl, inr, Bool-cases, Option-cases}
use minitopo.Floats.{Floats}
use minitopo.Link.{NetemAt, LinkCharacteristics, last, schedule, add_netem_at}
use mathlib.Core.Path.{subst}

module _ (fl : Floats) where
  open fl use {F, add, sub, lt}

  -- Entries that follow one at the time `previous`.
  abbrev Follows : F → List (NetemAt F) → Type 0
  Follows previous [] = Unit {0}
  Follows previous (n ∷ ns) =
      (lt previous n.at ≡ true) × (n.delta ≡ sub n.at previous) × Follows n.at ns

  abbrev pub IsSchedule : List (NetemAt F) → Type 0
  IsSchedule [] = Unit {0}
  IsSchedule (n ∷ ns) = (n.delta ≡ n.at) × Follows n.at ns

  last_time : F → List (NetemAt F) → F
  last_time previous [] = previous
  last_time previous (n ∷ ns) = last_time n.at ns

  last-last_time :
      (m n : NetemAt F) (ns : List (NetemAt F)) → last (n ∷ ns) ≡ some m → m.at ≡ last_time n.at ns
  unfolding last_time
  last-last_time m n [] h = ground arith
  last-last_time m n (k ∷ ns) h = last-last_time m k ns h

  Follows-append :
      (previous : F) (ns : List (NetemAt F)) (n : NetemAt F)
      → Follows previous ns
      → lt (last_time previous ns) n.at ≡ true
      → n.delta ≡ sub n.at (last_time previous ns)
      → Follows previous (ns ++ n ∷ [])
  unfolding last_time
  Follows-append previous [] n h later e = (later, e, tt)
  Follows-append previous (m ∷ ns) n h later e = (h.0, h.1, Follows-append m.at ns n h.2 later e)

  -- `schedule` on an empty list.
  pub schedule_first :
      (ns : List (NetemAt F)) (n : NetemAt F)
      → last ns ≡ none
      → schedule fl ns n ≡ ns ++ record n { delta = n.at } ∷ []
  unfolding schedule
  schedule_first ns n e = ground arith

  -- `schedule` on a list that is not empty.
  pub schedule_later :
      (ns : List (NetemAt F)) (n k : NetemAt F)
      → last ns ≡ some k
      → lt k.at n.at ≡ true
      → schedule fl ns n ≡ ns ++ record n { delta = sub n.at k.at } ∷ []
  unfolding schedule
  schedule_later ns n k e later = ground arith

  pub schedule_early :
      (ns : List (NetemAt F)) (n k : NetemAt F)
      → last ns ≡ some k
      → lt k.at n.at ≡ false
      → schedule fl ns n ≡ ns
  unfolding schedule
  schedule_early ns n k e early = ground arith

  last-cons-ne-none : (n : NetemAt F) (ns : List (NetemAt F)) → last (n ∷ ns) ≡ none → ⊥
  last-cons-ne-none n [] e = cc
  last-cons-ne-none n (m ∷ ns) e = last-cons-ne-none m ns e

  schedule-IsSchedule :
      (ns : List (NetemAt F)) (n : NetemAt F) → IsSchedule ns → IsSchedule (schedule fl ns n)
  schedule-IsSchedule [] n h = unfold schedule in (refl, tt)
  schedule-IsSchedule (m ∷ ns) n h = elim (Option-cases (last (m ∷ ns))) [
    | inl e ↦ absurd (last-cons-ne-none m ns e)
    | inr (k, e) ↦ elim (Bool-cases (lt k.at n.at)) [
      | inl later ↦ subst IsSchedule (sym (schedule_later (m ∷ ns) n k e later)) (
        h.0,
        Follows-append m.at ns _ h.1 (rw (← last-last_time k m ns e) later)
            (rw (← last-last_time k m ns e) refl),
      )
      | inr early ↦ subst IsSchedule (sym (schedule_early (m ∷ ns) n k e early)) h
    ]
  ]

  -- Adding an entry, in order or not, leaves a schedule: the first entry waits until its own time,
  -- and every other one is strictly later than the one before it and waits for the difference.
  pub add_netem_at-IsSchedule :
      (l : LinkCharacteristics F) (n : NetemAt F)
      → IsSchedule l.netem_at
      → IsSchedule (add_netem_at fl l n).netem_at
  unfolding add_netem_at
  add_netem_at-IsSchedule l n h = schedule-IsSchedule l.netem_at n h

  -- The times at which the commands of a schedule run, when each sleeps for its delta after the
  -- one before it.
  abbrev runs_after : F → List (NetemAt F) → List F
  runs_after time [] = []
  runs_after time (n ∷ ns) = add time n.delta ∷ runs_after (add time n.delta) ns

  abbrev pub run_times : List (NetemAt F) → List F
  run_times [] = []
  run_times (n ∷ ns) = n.delta ∷ runs_after n.delta ns

  -- The differences of the times are exact, as they are between whole seconds.
  abbrev ExactAfter : F → List (NetemAt F) → Type 0
  ExactAfter previous [] = Unit {0}
  ExactAfter previous (n ∷ ns) = (add previous (sub n.at previous) ≡ n.at) × ExactAfter n.at ns

  abbrev pub Exact : List (NetemAt F) → Type 0
  Exact [] = Unit {0}
  Exact (n ∷ ns) = ExactAfter n.at ns

  runs_after-Follows :
      (previous : F) (ns : List (NetemAt F))
      → Follows previous ns
      → ExactAfter previous ns
      → runs_after previous ns ≡ map (λ n. n.at) ns
  runs_after-Follows previous [] h e = refl
  runs_after-Follows previous (n ∷ ns) h e =
      rw (h.1, e.0) (ap (λ l. n.at ∷ l) (runs_after-Follows n.at ns h.2 e.1))

  -- The commands of a schedule whose differences are exact run at the times that were asked for.
  pub run_times-eq-map :
      (ns : List (NetemAt F)) → IsSchedule ns → Exact ns → run_times ns ≡ map (λ n. n.at) ns
  run_times-eq-map [] h e = refl
  run_times-eq-map (n ∷ ns) h e = rw h.0 (ap (λ l. n.at ∷ l) (runs_after-Follows n.at ns h.1 e))

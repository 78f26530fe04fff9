-- ===== src/Messages/Rounds.antt =====
-- utils/msg_server.py and msg_client.py: a round of the client, and one of the server, do not look at
-- what was done before.
use minitopo.Base.{
  ℕ, zero, suc, ◌+◌, String, ◌≡◌, refl, ap, ◌∙◌, false, List, [], ◌∷◌, ◌++◌, eqb, ltb, append_assoc,
  Bool-cases, inl, inr,
}
use minitopo.Base.Int.{pos}
use minitopo.Text.{◌<>◌}
use minitopo.Text.Slices.{len}
use minitopo.Messages.{
  Received, broken, arrived, Chance, Done, slept, sent, Ending, string_generator, digits, Handling,
  respond, receive, run, Collected, collect, ask, send_request, take_reply, Asking, on_reply,
  collected, reading, failed,
}
use minitopo.Messages.Parts.{IsCut, with_buffer}

-- The texts among the actions.
abbrev pub texts : List Done → List String
texts [] = []
texts (slept ∷ ds) = texts ds
texts (sent s ∷ ds) = s ∷ texts ds

-- Each text is delivered in parts, in order.
abbrev pub Delivered : List String → List (List String) → Type 0
Delivered [] [] = Unit
Delivered (t ∷ ts) (c ∷ cs) = IsCut t c × Delivered ts cs
Delivered _ _ = ⊥

-- Steps of the server do not look at what was done before.
module _ (chance : Chance) (n : ℕ) where
  abbrev pub before : List Done → Handling chance → Handling chance
  before ds h = record h { actions = ds ++ h.actions }

  receive-before :
      (ds : List Done) (text : String) (h : Handling chance)
      → receive chance (pos n) text (before ds h) ≡ before ds (receive chance (pos n) text h)
  unfolding receive respond
  receive-before ds text h = elim (Bool-cases (ltb (len (h.buffer_data <> text)) n)) [
    | inl short ↦ rw short refl
    | inr enough ↦ rw enough (
        ap
          (λ acts.
            record (respond chance (pos n) (with_buffer chance n h (h.buffer_data <> text))) {
              actions = acts;
            })
          (append_assoc ds h.actions _))
  ]

  pub run-before :
      (ds : List Done) (rs : List Received) (h : Handling chance)
      → run chance (pos n) rs (before ds h)
        ≡ (before ds (run chance (pos n) rs h).0, (run chance (pos n) rs h).1)
  unfolding run
  run-before ds [] h = refl
  run-before ds (broken ∷ rs) h = refl
  run-before ds (arrived text ∷ rs) h = elim (Bool-cases (eqb (len text) 0)) [
    | inl empty ↦ rw empty refl
    | inr more ↦ rw more (
        ap (run chance (pos n) rs) (receive-before ds text h)
        ∙ run-before ds rs (receive chance (pos n) text h))
  ]

-- Nor do those of the client.
module _ (chance : Chance) (n : ℕ) where
  abbrev pub earlier : List Done → Asking chance → Asking chance
  earlier ds a = record a { done = ds ++ a.done }

  send_request-earlier :
      (ds : List Done) (a : Asking chance)
      → send_request chance false (pos n) (earlier ds a)
        ≡ earlier ds (send_request chance false (pos n) a)
  unfolding send_request
  send_request-earlier ds a =
      ap (λ d. record (send_request chance false (pos n) a) { done = d }) (append_assoc ds a.done _)

  on_reply-earlier :
      (ds : List Done) (next : List Received → Asking chance → Asking chance × Ending) (start : ℕ)
      (a : Asking chance) (c : Collected chance)
      → ((rs : List Received) (b : Asking chance)
          → next rs (earlier ds b) ≡ (earlier ds (next rs b).0, (next rs b).1))
      → on_reply chance false (pos n) next start (earlier ds a) c ≡ (
        earlier ds (on_reply chance false (pos n) next start a c).0,
        (on_reply chance false (pos n) next start a c).1,
      )
  unfolding on_reply take_reply
  on_reply-earlier ds next start a reading h = refl
  on_reply-earlier ds next start a failed h = refl
  on_reply-earlier ds next start a (collected buffer rest) h =
      elim (Bool-cases (eqb (len buffer) n)) [
        | inl full ↦ rw full (h rest (take_reply chance false (pos n) start a))
        | inr part ↦ rw part refl
      ]

  ask-earlier :
      (ds : List Done) (nb : ℕ) (rs : List Received) (a : Asking chance)
      → ask chance false (pos n) nb rs (earlier ds a)
        ≡ (earlier ds (ask chance false (pos n) nb rs a).0, (ask chance false (pos n) nb rs a).1)
  unfolding ask
  ask-earlier ds zero rs a = refl
  ask-earlier ds (suc nb) rs a =
      ap
        (λ b.
          on_reply chance false (pos n) (ask chance false (pos n) nb) a.reads b
            (collect chance (pos n) "" rs))
        (send_request-earlier ds a)
      ∙ on_reply-earlier ds (ask chance false (pos n) nb) a.reads
          (send_request chance false (pos n) a) (collect chance (pos n) "" rs) (ask-earlier ds nb)

  abbrev pub request : Asking chance → String
  request a = string_generator chance a.picks n digits

  abbrev pub fresh : Asking chance → Asking chance
  fresh a = record a { done = [] }

  abbrev pub next_asking : Asking chance → Asking chance
  next_asking a = record a { done = []; reads = a.reads + 1; picks = a.picks + n }

  -- What a round leads to, behind its request.
  abbrev pub round_rest : ℕ → List Received → Asking chance → Asking chance × Ending
  round_rest nb rs a =
      on_reply chance false (pos n) (ask chance false (pos n) nb) a.reads (next_asking a)
        (collect chance (pos n) "" rs)

  pub ask-round :
      (nb : ℕ) (rs : List Received) (a : Asking chance)
      → ask chance false (pos n) (suc nb) rs (fresh a)
        ≡ (earlier (slept ∷ sent (request a) ∷ []) (round_rest nb rs a).0, (round_rest nb rs a).1)
  unfolding ask send_request
  ask-round nb rs a =
      on_reply-earlier (slept ∷ sent (request a) ∷ []) (ask chance false (pos n) nb) a.reads
        (next_asking a) (collect chance (pos n) "" rs)
        (ask-earlier (slept ∷ sent (request a) ∷ []) nb)

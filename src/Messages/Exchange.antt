-- ===== src/Messages/Exchange.antt =====
-- utils/msg_server.py and msg_client.py: the client and the server together, over a network that
-- delivers each text in parts.
use mathlib.Core.Path.{subst}
use minitopo.Base.{true}
use minitopo.Base.{
  ℕ, zero, suc, ◌+◌, ◌<◌, String, ◌≡◌, refl, sym, ap, ◌∙◌, false, List, [], ◌∷◌, ◌++◌, arith, eqb,
  length, length-append,
}
use minitopo.Base.Int.{pos}
use minitopo.Text.{◌<>◌, concat}
use minitopo.Text.Slices.{len, drop, len-drop, len-eq-zero}
use minitopo.Messages.{
  Received, Chance, slept, sent, Ending, closed, string_generator, digits, Handling, new_handling,
  respond, run, ask, take_reply, Asking, on_reply, new_asking,
}
use minitopo.Messages.Balance.{len-string_generator}
use minitopo.Messages.Parts.{
  IsCut, arrivals, all_arrivals, run-arrivals, collect-arrivals, with_buffer,
}
use minitopo.Messages.Rounds.{
  Delivered, ask-round, before, earlier, fresh, next_asking, request, round_rest, run-before, texts,
}

module _ (chance : Chance) (n : ℕ) where
  abbrev reply : Handling chance → String
  reply h = string_generator chance h.choices n digits

  -- A handler between two messages.
  abbrev idle : Handling chance → Handling chance
  idle h = record h { buffer_data = ""; actions = [] }

  respond-idle :
      (h : Handling chance) (s : String)
      → len s ≡ n
      → respond chance (pos n) (with_buffer chance n (idle h) s)
        ≡ before chance n (slept ∷ sent (reply h) ∷ []) (idle (respond chance (pos n) (idle h)))
  unfolding respond
  respond-idle h s e =
      ap (λ b. with_buffer chance n (respond chance (pos n) (idle h)) b)
        (len-eq-zero (drop n s) (omega (arith, len-drop n s, e)))

module _ (chance : Chance) (n : ℕ) where
  -- A request that arrives in parts is answered, and the handler is idle again.
  run-round :
      (t p : String) (ps : List String) (rs : List Received) (h : Handling chance)
      → IsCut t (p ∷ ps)
      → len t ≡ n
      → run chance (pos n) (arrivals (p ∷ ps) ++ rs) (idle chance n h) ≡ (
        before chance n
            (slept ∷ sent (reply chance n h) ∷ [])
            (run chance (pos n) rs (idle chance n (respond chance (pos n) (idle chance n h)))).0,
        (run chance (pos n) rs (idle chance n (respond chance (pos n) (idle chance n h)))).1,
      )
  run-round t p ps rs h cut e =
      let total : len (concat (p ∷ ps)) ≡ n = ap len cut.whole ∙ e in
      run-arrivals chance n p ps rs (idle chance n h) cut.solid
        (len-empty-add (concat (p ∷ ps)) total)
      ∙ ap
          (λ s.
            run chance (pos n) rs
              (respond chance (pos n) (with_buffer chance n (idle chance n h) s)))
          (empty-append (concat (p ∷ ps)))
      ∙ ap (run chance (pos n) rs) (respond-idle chance n h (concat (p ∷ ps)) total)
      ∙ run-before chance n (slept ∷ sent (reply chance n h) ∷ []) rs
          (idle chance n (respond chance (pos n) (idle chance n h)))
    where
      empty-append : (s : String) → "" <> s ≡ s
      empty-append s = unfold ◌<>◌ in refl

      len-empty-add : (s : String) → len s ≡ n → len "" + len s ≡ n
      len-empty-add s e = unfold len in omega (arith, e)

  abbrev asked_again : Asking chance → Asking chance
  asked_again a = take_reply chance false (pos n) a.reads (next_asking chance n a)

  -- A reply that arrives in parts ends the round.
  round_rest-arrivals :
      (t : String) (ps : List String) (nb : ℕ) (rs : List Received) (a : Asking chance)
      → IsCut t ps
      → len t ≡ n
      → round_rest chance n nb (arrivals ps ++ rs) a
        ≡ ask chance false (pos n) nb rs (fresh chance n (asked_again a))
  unfolding on_reply take_reply ◌<>◌ len
  round_rest-arrivals t ps nb rs a cut e =
      let total : len (concat ps) ≡ n = ap len cut.whole ∙ e in
      ap
        (on_reply chance false (pos n) (ask chance false (pos n) nb) a.reads
          (next_asking chance n a))
        (collect-arrivals chance n ps "" rs cut.solid (omega (arith, total)))
      ∙ rw (eqb-true (len (concat ps)) n total) refl
    where
      eqb-true : (a b : ℕ) → a ≡ b → eqb a b ≡ true
      eqb-true a b h = ground arith

-- How a client of `nb` rounds ends that has taken `k` delays, and its server.
abbrev pub Complete :
    (client server : Chance) → ℕ → ℕ → Asking client × Ending → Handling server × Ending → Type 0
Complete client server k nb asking serving =
    (length asking.0.asked ≡ k + nb)
    × (asking.1 ≡ closed)
    × (length (texts serving.0.actions) ≡ nb)
    × (serving.0.buffer_data ≡ "")

module _ (client server : Chance) (n : ℕ) (some_bytes : 0 < n) where
  abbrev asking : ℕ → List (List String) → Asking client → Asking client × Ending
  asking nb reps a = ask client false (pos n) nb (all_arrivals reps) (fresh client n a)

  abbrev serving : List (List String) → Handling server → Handling server × Ending
  serving reqs h = run server (pos n) (all_arrivals reqs) (idle server n h)

  request-length : (a : Asking client) → len (request client n a) ≡ n
  request-length a = len-string_generator client a.picks n digits

  no_parts : (a : Asking client) → ¬ IsCut (request client n a) []
  unfolding concat len
  no_parts a cut = absurd (omega (arith, ap len cut.whole, request-length a, some_bytes))

  length-asked_again :
      (a : Asking client) → length (asked_again client n a).asked ≡ length a.asked + 1
  unfolding take_reply
  length-asked_again a = length-append a.asked (_ ∷ [])

  -- One round, where the other rounds are complete.
  served-round :
      (nb : ℕ) (p : String) (ps : List String) (cs reps : List (List String)) (h : Handling server)
      (a : Asking client)
      → ((ds : List (List String)) (h' : Handling server) (a' : Asking client)
          → Delivered (texts (asking nb ds a').0.done) cs
          → Delivered (texts (serving cs h').0.actions) ds
          → Complete client server (length a'.asked) nb (asking nb ds a') (serving cs h'))
      → Delivered (texts (asking (suc nb) reps a).0.done) ((p ∷ ps) ∷ cs)
      → Delivered (texts (serving ((p ∷ ps) ∷ cs) h).0.actions) reps
      → Complete client server
          (length a.asked)
          (suc nb)
          (asking (suc nb) reps a)
          (serving ((p ∷ ps) ∷ cs) h)
  served-round nb p ps cs [] h a ih d e =
      let d' =
        subst (λ x. Delivered (texts x.0.done) ((p ∷ ps) ∷ cs)) (ask-round client n nb [] a) d in
      absurd (
        subst (λ x. Delivered (texts x.0.actions) [])
          (run-round server n (request client n a) p ps (all_arrivals cs) h d'.0 (request-length a))
          e)
  served-round nb p ps cs (r ∷ rs) h a ih d e =
      let h' = respond server (pos n) (idle server n h) in
      let a' = asked_again client n a in
      let asked_once = ask-round client n nb (all_arrivals (r ∷ rs)) a in
      let d' = subst (λ x. Delivered (texts x.0.done) ((p ∷ ps) ∷ cs)) asked_once d in
      let served_once =
        run-round server n (request client n a) p ps (all_arrivals cs) h d'.0 (request-length a) in
      let e' = subst (λ x. Delivered (texts x.0.actions) (r ∷ rs)) served_once e in
      let replied =
        round_rest-arrivals client n (reply server n h) r nb (all_arrivals rs) a e'.0
          (len-string_generator server h.choices n digits) in
      let rest = ih rs h' a' (subst (λ x. Delivered (texts x.0.done) cs) replied d'.1) e'.1 in
      let ds = slept ∷ sent (request client n a) ∷ [] in
      subst (λ y. Complete client server (length a.asked) (suc nb) (asking (suc nb) (r ∷ rs) a) y)
        (sym served_once)
        (subst
          (λ x. Complete client server (length a.asked) (suc nb) x (
            before server n (slept ∷ sent (reply server n h) ∷ []) (serving cs h').0,
            (serving cs h').1,
          ))
          (sym (asked_once ∙ ap (λ o. (earlier client n ds o.0, o.1)) replied))
          (omega (arith, rest.0, length-asked_again a), rest.1, omega (arith, rest.2), rest.3))

  served :
      (nb : ℕ) (reqs reps : List (List String)) (h : Handling server) (a : Asking client)
      → Delivered (texts (asking nb reps a).0.done) reqs
      → Delivered (texts (serving reqs h).0.actions) reps
      → Complete client server (length a.asked) nb (asking nb reps a) (serving reqs h)
  unfolding ask run
  served zero [] reps h a d e = (omega arith, refl, refl, refl)
  served zero (c ∷ cs) reps h a d e = elim d [ ]
  served (suc nb) [] reps h a d e =
      absurd (subst (λ x. Delivered (texts x.0.done) []) (ask-round client n nb _ a) d)
  served (suc nb) ([] ∷ cs) reps h a d e = absurd (
      no_parts a
        (subst (λ x. Delivered (texts x.0.done) ([] ∷ cs)) (ask-round client n nb _ a) d).0)
  served (suc nb) ((p ∷ ps) ∷ cs) reps h a d e =
      served-round nb p ps cs reps h a (λ ds h' a'. served nb cs ds h' a') d e

-- Where the messages have a length `n` above 0, each text that the client sends reaches the server
-- in some parts, and each text that the server sends reaches the client in some parts, a client that
-- does not send in bulk ends all of its `nb` rounds with a delay for each, and the server has
-- answered `nb` times and holds nothing back.
pub ask-run-Complete :
    (client server : Chance) (n nb : ℕ) (reqs reps : List (List String))
    → 0 < n
    → Delivered
        (texts (ask client false (pos n) nb (all_arrivals reps) (new_asking client)).0.done)
        reqs
    → Delivered
        (texts (run server (pos n) (all_arrivals reqs) (new_handling server)).0.actions)
        reps
    → Complete client server 0 nb
        (ask client false (pos n) nb (all_arrivals reps) (new_asking client))
        (run server (pos n) (all_arrivals reqs) (new_handling server))
unfolding new_asking new_handling
ask-run-Complete client server n nb reqs reps some_bytes =
    served client server n some_bytes nb reqs reps (new_handling server) (new_asking client)

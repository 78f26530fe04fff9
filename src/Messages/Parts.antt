-- ===== src/Messages/Parts.antt =====
-- utils/msg_server.py and msg_client.py: texts that arrive in parts.
use minitopo.Base.{
  ℕ, ◌+◌, ◌≤◌, ◌<◌, String, ◌≡◌, refl, sym, ap, ◌∙◌, true, false, List, [], ◌∷◌, ◌++◌, All, arith,
  eqb, ltb,
}
use minitopo.Base.Int.{pos}
use minitopo.Text.{◌<>◌, concat}
use minitopo.Text.Split.{append-empty}
use minitopo.Text.Slices.{len, len-append, append_assoc_text}
use minitopo.Messages.{
  Received, broken, arrived, Chance, Handling, respond, receive, run, collect, collected,
}

-- The parts of a text: none is empty.
pub record IsCut (text : String) (parts : List String) : Type 0 where
  pub whole : concat parts ≡ text
  pub solid : All (λ p. 0 < len p) parts

-- What arrives of these parts.
abbrev pub arrivals : List String → List Received
arrivals [] = []
arrivals (p ∷ ps) = arrived p ∷ arrivals ps

abbrev pub all_arrivals : List (List String) → List Received
all_arrivals [] = []
all_arrivals (c ∷ cs) = arrivals c ++ all_arrivals cs

concat-cons : (p : String) (ps : List String) → concat (p ∷ ps) ≡ p <> concat ps
unfolding concat
concat-cons p ps = refl

concat-one : (p : String) → concat (p ∷ []) ≡ p
unfolding concat
concat-one p = append-empty p

len-concat-one : (p : String) → len (concat (p ∷ [])) ≡ len p
len-concat-one p = ap len (concat-one p)

len-concat-nil : len (concat []) ≡ 0
unfolding concat len
len-concat-nil = refl

append-concat-nil : (s : String) → s <> concat [] ≡ s
unfolding concat
append-concat-nil s = append-empty s

len-concat-cons : (p : String) (ps : List String) → len (concat (p ∷ ps)) ≡ len p + len (concat ps)
unfolding concat
len-concat-cons p ps = len-append p (concat ps)

eqb-false : (k : ℕ) → 0 < k → eqb k 0 ≡ false
eqb-false k h = ground arith

ltb-true : (a b : ℕ) → a < b → ltb a b ≡ true
ltb-true a b h = ground arith

ltb-false : (a b : ℕ) → b ≤ a → ltb a b ≡ false
ltb-false a b h = ground arith

module _ (chance : Chance) (n : ℕ) where
  abbrev pub with_buffer : Handling chance → String → Handling chance
  with_buffer h s = record h { buffer_data = s }

  receive-full :
      (p : String) (h : Handling chance)
      → n ≤ len (h.buffer_data <> p)
      → receive chance (pos n) p h ≡ respond chance (pos n) (with_buffer h (h.buffer_data <> p))
  unfolding receive
  receive-full p h enough = rw (ltb-false (len (h.buffer_data <> p)) n enough) refl

  receive-short :
      (p : String) (h : Handling chance)
      → len (h.buffer_data <> p) < n
      → receive chance (pos n) p h ≡ with_buffer h (h.buffer_data <> p)
  unfolding receive
  receive-short p h short = rw (ltb-true (len (h.buffer_data <> p)) n short) refl

  run-arrived :
      (p : String) (rs : List Received) (h : Handling chance)
      → 0 < len p
      → run chance (pos n) (arrived p ∷ rs) h ≡ run chance (pos n) rs (receive chance (pos n) p h)
  unfolding run
  run-arrived p rs h solid = rw (eqb-false (len p) solid) refl

  -- The parts of a request lead to one answer.
  pub run-arrivals :
      (p : String) (ps : List String) (rs : List Received) (h : Handling chance)
      → All (λ q. 0 < len q) (p ∷ ps)
      → len h.buffer_data + len (concat (p ∷ ps)) ≡ n
      → run chance (pos n) (arrivals (p ∷ ps) ++ rs) h
        ≡ run chance
            (pos n)
            rs
            (respond chance (pos n) (with_buffer h (h.buffer_data <> concat (p ∷ ps))))
  run-arrivals p [] rs h solid total =
      run-arrived p rs h solid.0
      ∙ ap (run chance (pos n) rs) (
          receive-full p h (omega (arith, len-append h.buffer_data p, len-concat-one p, total))
          ∙ ap (λ q. respond chance (pos n) (with_buffer h (h.buffer_data <> q)))
              (sym (concat-one p)))
  run-arrivals p (q ∷ ps) rs h solid total =
      run-arrived p (arrivals (q ∷ ps) ++ rs) h solid.0
      ∙ ap (run chance (pos n) (arrivals (q ∷ ps) ++ rs)) (
          receive-short p h (
            omega (
              arith,
              len-append h.buffer_data p,
              len-concat-cons p (q ∷ ps),
              len-concat-cons q ps,
              solid.1.0,
              total,
            )))
      ∙ run-arrivals q ps rs (with_buffer h (h.buffer_data <> p)) solid.1
          (omega (arith, len-append h.buffer_data p, len-concat-cons p (q ∷ ps), total))
      ∙ ap (λ s. run chance (pos n) rs (respond chance (pos n) (with_buffer h s)))
          (append_assoc_text h.buffer_data p (concat (q ∷ ps))
            ∙ ap (λ s. h.buffer_data <> s) (sym (concat-cons p (q ∷ ps))))

  collect-full :
      (buffer : String) (rs : List Received)
      → n ≤ len buffer
      → collect chance (pos n) buffer rs ≡ collected buffer rs
  unfolding collect
  collect-full buffer [] enough = rw (ltb-false (len buffer) n enough) refl
  collect-full buffer (broken ∷ rs) enough = rw (ltb-false (len buffer) n enough) refl
  collect-full buffer (arrived p ∷ rs) enough = rw (ltb-false (len buffer) n enough) refl

  collect-short :
      (buffer p : String) (rs : List Received)
      → len buffer < n
      → 0 < len p
      → collect chance (pos n) buffer (arrived p ∷ rs) ≡ collect chance (pos n) (buffer <> p) rs
  unfolding collect
  collect-short buffer p rs short solid =
      rw (ltb-true (len buffer) n short) (rw (eqb-false (len p) solid) refl)

  -- The parts of a reply are collected, and nothing behind them.
  pub collect-arrivals :
      (ps : List String) (buffer : String) (rs : List Received)
      → All (λ q. 0 < len q) ps
      → len buffer + len (concat ps) ≡ n
      → collect chance (pos n) buffer (arrivals ps ++ rs) ≡ collected (buffer <> concat ps) rs
  collect-arrivals [] buffer rs solid total =
      collect-full buffer rs (omega (arith, len-concat-nil, total))
      ∙ ap (λ s. collected s rs) (sym (append-concat-nil buffer))
  collect-arrivals (p ∷ ps) buffer rs solid total =
      collect-short buffer p (arrivals ps ++ rs)
        (omega (arith, len-concat-cons p ps, solid.0, total)) solid.0
      ∙ collect-arrivals ps (buffer <> p) rs solid.1
          (omega (arith, len-append buffer p, len-concat-cons p ps, total))
      ∙ ap (λ s. collected s rs)
          (append_assoc_text buffer p (concat ps) ∙ ap (λ s. buffer <> s) (sym (concat-cons p ps)))

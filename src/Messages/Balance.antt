-- ===== src/Messages/Balance.antt =====
-- utils/msg_server.py: what a connection has received, and what it has sent.
use native.Mathlib.Nat.{add-zero, zero-add, add_assoc}
use minitopo.Base.{
  ℕ, zero, suc, ◌+◌, ◌*◌, ◌≤◌, String, ◌≡◌, refl, sym, ap, ◌∙◌, false, Option, none, some, List, [],
  ◌∷◌, ◌++◌, All, arith, if◌then◌else◌, eqb, ltb, length, length-append, Bool-cases, inl, inr,
}
use minitopo.Base.Int.{pos}
use minitopo.Text.{◌<>◌}
use minitopo.Text.Slices.{len, len-append, len-drop}
use minitopo.Messages.{
  Received, broken, arrived, Chance, Done, slept, sent, string_generator, digits, Handling,
  new_handling, respond, receive, run, add_delay,
}

-- How many texts were sent.
abbrev pub replies : List Done → ℕ
replies [] = 0
replies (slept ∷ ds) = replies ds
replies (sent s ∷ ds) = suc (replies ds)

replies-append : (a b : List Done) → replies (a ++ b) ≡ replies a + replies b
replies-append [] b = omega arith
replies-append (slept ∷ a) b = replies-append a b
replies-append (sent s ∷ a) b = omega (arith, replies-append a b)

abbrev pub started {ℓ} : {T : Type ℓ} → Option T → ℕ
started none = 0
started (some t) = 1

-- One where there is some, and none where there is none.
abbrev at_most_one : ℕ → ℕ
at_most_one zero = 0
at_most_one (suc n) = 1

at_most_one-more : (n : ℕ) → at_most_one (n + 1) ≡ 1
at_most_one-more n = let more : n + 1 ≡ suc n = omega arith in ap at_most_one more

-- Every text that was sent has this length.
abbrev OfLength : ℕ → Done → Type 0
OfLength n slept = Unit
OfLength n (sent s) = len s ≡ n

pub All-append {ℓ κ} :
    {A : Type ℓ} (P : A → Type κ) (xs ys : List A) → All P xs → All P ys → All P (xs ++ ys)
All-append P [] ys hx hy = hy
All-append P (x ∷ xs) ys hx hy = (hx.0, All-append P xs ys hx.1 hy)

-- The length of what is read before the connection ends.
abbrev pub taken : List Received → ℕ
taken [] = 0
taken (broken ∷ rs) = 0
taken (arrived text ∷ rs) = let rest = taken rs in if eqb (len text) 0 then 0 else len text + rest

module _ (chance : Chance) where
  open chance use {Time, Delay, now, minus, choice}

  pub len-string_generator :
      (k n : ℕ) (chars : String) → len (string_generator chance k n chars) ≡ n
  unfolding string_generator len
  len-string_generator k zero chars = refl
  len-string_generator k (suc n) chars = omega (arith, len-string_generator (suc k) n chars)

  length-add_delay :
      (o : Option Time) (t : Time) (ds : List Delay)
      → length (add_delay chance o t ds) ≡ length ds + started o
  length-add_delay none t ds = omega arith
  length-add_delay (some s) t ds = omega (arith, length-append ds (minus t s ∷ []))

  module _ (n : ℕ) where
    -- What a handler of messages of length `n` keeps when `received` characters have arrived.
    pub record IsBalanced (received : ℕ) (h : Handling chance) : Type 0 where
      pub balance : len h.buffer_data + n * replies h.actions ≡ received
      pub timed : length h.delays + at_most_one (replies h.actions) ≡ replies h.actions
      pub begun : started h.start_time ≡ at_most_one (replies h.actions)
      pub whole : All (OfLength n) h.actions

    new_handling-IsBalanced : IsBalanced 0 (new_handling chance)
    unfolding new_handling len
    new_handling-IsBalanced = record {
      balance = omega arith;
      timed = refl;
      begun = refl;
      whole = tt;
    }

    respond-IsBalanced :
        (k : ℕ) (h : Handling chance)
        → n ≤ len h.buffer_data
        → IsBalanced k h
        → IsBalanced k (respond chance (pos n) h)
    unfolding respond
    respond-IsBalanced k h enough b =
        let reply = string_generator chance h.choices n digits in
        let count : replies (h.actions ++ slept ∷ sent reply ∷ []) ≡ replies h.actions + 1 =
          replies-append h.actions (slept ∷ sent reply ∷ []) in
        let one : at_most_one (replies (h.actions ++ slept ∷ sent reply ∷ [])) ≡ 1 =
          ap at_most_one count ∙ at_most_one-more (replies h.actions) in
        record {
          balance = omega (arith, len-drop n h.buffer_data, ap (λ (r : ℕ). n * r) count);
          timed = omega (
            arith,
            length-add_delay h.start_time (now h.readings) h.delays,
            one,
            count,
            b.timed,
            b.begun,
          );
          begun = sym one;
          whole =
              All-append (OfLength n) h.actions (slept ∷ sent reply ∷ []) b.whole
                (tt, (len-string_generator h.choices n digits, tt));
        }

    receive-IsBalanced :
        (k : ℕ) (text : String) (h : Handling chance)
        → IsBalanced k h
        → IsBalanced (k + len text) (receive chance (pos n) text h)
    unfolding receive
    receive-IsBalanced k text h b =
        let more : Handling chance = record h { buffer_data = h.buffer_data <> text } in
        let kept : IsBalanced (k + len text) more = record {
          balance = omega (arith, len-append h.buffer_data text, b.balance);
          timed = b.timed;
          begun = b.begun;
          whole = b.whole;
        } in
        elim (Bool-cases (ltb (len more.buffer_data) n)) [
          | inl short ↦ rw short kept
          | inr enough ↦ rw enough (
              respond-IsBalanced (k + len text) more (ltb-false (len more.buffer_data) n enough)
                kept)
        ]
      where
        ltb-false : (a b : ℕ) → ltb a b ≡ false → b ≤ a
        ltb-false a b h = ground arith

    run-IsBalanced :
        (rs : List Received) (k : ℕ) (h : Handling chance)
        → IsBalanced k h
        → IsBalanced (k + taken rs) (run chance (pos n) rs h).0
    unfolding run
    run-IsBalanced [] k h b = rw (add-zero k) b
    run-IsBalanced (broken ∷ rs) k h b = rw (add-zero k) b
    run-IsBalanced (arrived text ∷ rs) k h b =
        let next =
          run-IsBalanced rs (k + len text) (receive chance (pos n) text h)
            (receive-IsBalanced k text h b) in
        elim (Bool-cases (eqb (len text) 0)) [
          | inl empty ↦ rw empty (rw (add-zero k) b)
          | inr data_arrived ↦ rw data_arrived (rw (← add_assoc k (len text) (taken rs)) next)
        ]

    -- Whatever the socket yields and whatever the clock and the random numbers are, a connection of
    -- messages of length `n` has each character that it has read either in its buffer or answered,
    -- every answer has length `n`, the clock was started just if there are answers, and then one delay
    -- less than answers was taken.
    pub run-new-IsBalanced :
        (rs : List Received) → IsBalanced (taken rs) (run chance (pos n) rs (new_handling chance)).0
    run-new-IsBalanced rs =
        simp zero-add at (run-IsBalanced rs 0 (new_handling chance) new_handling-IsBalanced)

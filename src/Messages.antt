-- ===== src/Messages.antt =====
-- utils/msg_server.py and msg_client.py: one connection of the server, and the client. What a
-- socket receives is a list, in which a broken read is an exception of `recv` or of the decoding.
pub mod Balance
pub mod Parts
pub mod Rounds
pub mod Exchange
use minitopo.Base.{
  ℕ, zero, suc, ◌+◌, Char, String, Bool, true, false, Option, none, some, List, [], ◌∷◌, ◌++◌,
  if◌then◌else◌, eqb, ltb,
}
use minitopo.Base.Int.{ℤ, pos, negsuc}
use minitopo.Text.{◌<>◌}
use minitopo.Text.Slices.{len, slice_from}

pub data Received : Type 0 where
  broken : Received
  arrived : String → Received

-- `n <= k` for a text of length `k`.
abbrev at_most : ℤ → ℕ → Bool
at_most (negsuc n) k = true
at_most (pos n) k = if ltb k n then false else true

-- `range(n)` has this many rounds.
abbrev pub rounds : ℤ → ℕ
rounds (pos n) = n
rounds (negsuc n) = 0

-- The clock and the random numbers: what the reading or the choice of a number gives.
pub record Chance : Type 1 where
  pub Time : Type 0
  pub Delay : Type 0
  pub now : ℕ → Time
  pub minus : Time → Time → Delay
  pub choice : ℕ → String → Char

abbrev pub digits : String
digits = "0123456789"

-- What is done: `time.sleep(args.sleep)`, and `sendall` of a text.
pub data Done : Type 0 where
  slept : Done
  sent : String → Done

-- How a connection stands, or how its loop has ended.
pub data Ending : Type 0 where
  waiting closed raised : Ending

module _ (chance : Chance) where
  open chance use {Time, Delay, now, minus, choice}

  -- `string_generator(size, chars)`, where `k` choices have been made before.
  unfoldable pub string_generator : ℕ → ℕ → String → String
  string_generator k zero chars = ""
  string_generator k (suc size) chars =
      String.◌∷◌ (choice k chars) (string_generator (suc k) size chars)

  -- The variables of `HandleClientConnectionThread.run`, with what it has done.
  pub record Handling : Type 0 where
    pub buffer_data : String
    pub start_time : Option Time
    pub delays : List Delay
    pub actions : List Done
    pub readings : ℕ
    pub choices : ℕ

  unfoldable pub new_handling : Handling
  new_handling = record {
    buffer_data = "";
    start_time = none;
    delays = [];
    actions = [];
    readings = 0;
    choices = 0;
  }

  -- `if start_time: self.delays.append(stop_time - start_time)`
  abbrev pub add_delay : Option Time → Time → List Delay → List Delay
  add_delay none stop ds = ds
  add_delay (some start) stop ds = ds ++ minus stop start ∷ []

  module _ (msg_size : ℤ) where
    -- Behind the test of the length of the buffer.
    unfoldable pub respond : Handling → Handling
    unfolding string_generator slice_from
    respond h = record {
      buffer_data = slice_from msg_size h.buffer_data;
      start_time = some (now (suc h.readings));
      delays = add_delay h.start_time (now h.readings) h.delays;
      actions =
          h.actions ++ slept ∷ sent (string_generator h.choices (rounds msg_size) digits) ∷ [];
      readings = h.readings + 2;
      choices = h.choices + rounds msg_size;
    }

    -- One round of the loop, where data that is not empty has arrived.
    unfoldable pub receive : String → Handling → Handling
    unfolding respond ◌<>◌ len
    receive text h =
        let more = record h { buffer_data = h.buffer_data <> text } in
        if at_most msg_size (len more.buffer_data) then respond more else more

    -- `HandleClientConnectionThread.run`, up to the end of its loop.
    unfoldable pub run : List Received → Handling → Handling × Ending
    unfolding receive len
    run [] h = (h, waiting)
    run (broken ∷ rs) h = (h, raised)
    run (arrived text ∷ rs) h =
        let rest = run rs (receive text h) in if eqb (len text) 0 then (h, closed) else rest

  -- The inner loop of the client.
  pub data Collected : Type 0 where
    reading : Collected
    failed : Collected
    collected : String → List Received → Collected

  unfoldable pub collect : ℤ → String → List Received → Collected
  unfolding len ◌<>◌
  collect bytes buffer [] = if at_most bytes (len buffer) then collected buffer [] else reading
  collect bytes buffer (broken ∷ rs) =
      if at_most bytes (len buffer) then collected buffer (broken ∷ rs) else failed
  collect bytes buffer (arrived text ∷ rs) =
      let more = collect bytes (buffer <> text) rs in
      if at_most bytes (len buffer)
      then collected buffer (arrived text ∷ rs)
      else if eqb (len text) 0
      then collected buffer rs
      else more

  pub record Asking : Type 0 where
    pub asked : List Delay
    pub done : List Done
    pub reads : ℕ
    pub picks : ℕ

  unfoldable pub new_asking : Asking
  new_asking = record { asked = []; done = []; reads = 0; picks = 0 }

  -- `len(buffer_data) == args.bytes`
  abbrev is_length : ℕ → ℤ → Bool
  is_length k (pos n) = eqb k n
  is_length k (negsuc n) = false

  module _ (bulk : Bool) (bytes : ℤ) where
    -- One round of the client up to the sending of the request.
    unfoldable pub send_request : Asking → Asking
    unfolding string_generator
    send_request a = record a {
      done = a.done ++ slept ∷ sent (string_generator a.picks (rounds bytes) digits) ∷ [];
      reads = a.reads + 1;
      picks = a.picks + rounds bytes;
    }

    -- The end of a round that has waited for a reply since the reading `start`.
    unfoldable pub take_reply : ℕ → Asking → Asking
    take_reply start a = record a {
      asked = a.asked ++ minus (now a.reads) (now start) ∷ [];
      reads = a.reads + 1;
    }

    -- What follows the inner loop, where `next` is the rest of the rounds.
    unfoldable pub on_reply :
        (List Received → Asking → Asking × Ending) → ℕ → Asking → Collected → Asking × Ending
    unfolding take_reply len
    on_reply next start a reading = (a, waiting)
    on_reply next start a failed = (a, raised)
    on_reply next start a (collected buffer rest) =
        if is_length (len buffer) bytes then next rest (take_reply start a) else (a, closed)

    -- The rounds of the client, of which `nb` are left.
    unfoldable pub ask : ℕ → List Received → Asking → Asking × Ending
    unfolding send_request on_reply collect
    ask zero rs a = (a, closed)
    ask (suc nb) rs a =
        let b = send_request a in
        let all = ask nb rs b in
        if bulk then all else on_reply (ask nb) a.reads b (collect bytes "" rs)

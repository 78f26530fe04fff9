-- ===== src/SiriServer.antt =====
-- utils/siri_server.py: one connection of the server. The dictionaries that it fills under its own
-- identifier are the last fields of its state.
pub mod Requests
pub mod Headers
pub mod Replies
pub mod Starving
pub mod Sessions
use minitopo.Base.{
  ℕ, zero, suc, ◌+◌, ◌-◌, Char, code, String, ◌==◌, Bool, true, false, not, ◌&&◌, Option, none,
  some, List, [], ◌∷◌, ◌++◌, length, get_elem?, if◌then◌else◌, eqb, ltb, leb,
}
use minitopo.Base.Int.{ℤ, pos, negsuc, eqb_ℤ}
use minitopo.Errors
use minitopo.Errors.{Result, ok, err, value_error, index_error, or_raise}
use minitopo.Text.{◌<>◌, concat, has}
use minitopo.Text.Split.{split}
use minitopo.Text.Slices.{len}
use minitopo.Text.Number.{read_int, show}
use minitopo.Run.{Run, pure, lift, gets, modify, ◌>>=◌, ◌>>◌, for_each, count_from}

abbrev max_security_header_size : ℕ
max_security_header_size = 128

abbrev min_fields_nb : ℕ
min_fields_nb = 8

pub data Action : Type 0 where
  slept : ℤ → Action
  sent : String → Action

pub record Connection : Type 0 where
  pub first_data : Bool
  pub expected_req_size : ℤ
  pub res_size : ℤ
  pub waiting_time : ℤ
  pub expected_delay_results : ℤ
  pub buffer_data : String
  pub next_buffer_data : String
  pub message_sizes : List ℕ
  pub message_id : ℤ
  pub actions : List Action
  pub delay_results : List ℤ
  pub time_sent : List ℤ
  pub mac : Option String

unfoldable pub new_connection : Connection
new_connection = record {
  first_data = true;
  expected_req_size = pos 0;
  res_size = pos 0;
  waiting_time = pos 0;
  expected_delay_results = pos 0;
  buffer_data = "";
  next_buffer_data = "";
  message_sizes = [];
  message_id = pos 0;
  actions = [];
  delay_results = [];
  time_sent = [];
  mac = none;
}

-- `data.endswith("\n")`
unfoldable pub ends_line : String → Bool
ends_line String.[] = false
ends_line (String.◌∷◌ c String.[]) = eqb (code c) 10
ends_line (String.◌∷◌ c s) = ends_line s

-- `data[:data.index("\n") + 1]` where there is a line break.
unfoldable pub line_of : String → String
line_of String.[] = ""
line_of (String.◌∷◌ c s) = String.◌∷◌ c (if eqb (code c) 10 then "" else line_of s)

-- `data[data.index("\n") + 1:]` where there is a line break.
unfoldable pub behind_line : String → String
behind_line String.[] = ""
behind_line (String.◌∷◌ c s) = let rest = behind_line s in if eqb (code c) 10 then s else rest

-- The data that is used at once, and what is kept for the next request.
unfoldable pub cut_data : String → String × String
unfolding ends_line has line_of behind_line
cut_data text =
    if not (ends_line text) && has 10 text then (line_of text, behind_line text) else (text, "")

-- `a - b`
abbrev pub difference : ℕ → ℕ → ℤ
difference a b = if leb b a then pos (a - b) else negsuc (b - a - 1)

-- `"0" * n`
unfoldable pub zeros : ℕ → String
zeros zero = ""
zeros (suc n) = "0" <> zeros n

-- `res_size - len(str(message_id)) - 2` zeros; a product by a negative number is empty.
abbrev padding : ℤ → ℕ → ℕ
padding (pos n) k = n - k - 2
padding (negsuc n) k = 0

unfoldable pub response : ℤ → ℤ → String
unfolding ◌<>◌ zeros show len concat
response message_id res_size =
    concat (show message_id ∷ "&" ∷ zeros (padding res_size (len (show message_id))) ∷ "\n" ∷ [])

-- `time.sleep(seconds)`, which takes no negative number.
unfoldable pub sleep : ℤ → Run Connection Unit
sleep (pos n) = modify (λ c. record c { actions = c.actions ++ slept (pos n) ∷ [] })
sleep (negsuc n) = lift (err value_error)

-- `int(split_data[i])`
unfoldable pub int_at : List String → ℕ → Result ℤ
unfolding read_int
int_at words i =
    Errors.◌>>=◌ (or_raise index_error (get_elem? words i)) λ w. or_raise value_error (read_int w)

-- `range(n)`
abbrev pub rounds : ℤ → ℕ
rounds (pos n) = n
rounds (negsuc n) = 0

unfoldable pub add_delay_result : List String → ℕ → Run Connection Unit
unfolding int_at
add_delay_result words i = do
  delay ← lift (int_at words i)
  modify (λ c. record c { delay_results = c.delay_results ++ delay ∷ [] })

-- The check of the MAC; whether the connection goes on.
unfoldable pub check_mac : String → Run Connection Bool
check_mac word c = elim (c.mac) [
  | none ↦ (ok true, record c { mac = some word })
  | some known ↦ (ok (known == word), c)
]

-- Behind the count of the fields: the values of the header. Whether the connection goes on.
unfoldable pub read_header : List String → ℤ → Run Connection Bool
unfolding int_at check_mac add_delay_result
read_header words expected = do
  message_id ← lift (int_at words 0)
  modify (λ c. record c { message_id = message_id })
  expected_req_size ← lift (int_at words 1)
  modify (λ c. record c { expected_req_size = expected_req_size })
  res_size ← lift (int_at words 2)
  modify (λ c. record c { res_size = res_size })
  waiting_time ← lift (int_at words 3)
  modify (λ c. record c { waiting_time = waiting_time })
  time ← lift (int_at words 5)
  modify (λ c. record c { time_sent = c.time_sent ++ time ∷ [] })
  word ← lift (or_raise index_error (get_elem? words 6))
  known ← check_mac word
  if known
      then (do
        for_each (add_delay_result words) (count_from 7 (rounds expected))
        modify (λ c. record c { first_data = false })
        pure true)
      else pure false

-- A whole request is in the buffer.
unfoldable pub answer : Run Connection Unit
unfolding sleep response len
answer = do
  waiting_time ← gets (λ c. c.waiting_time)
  sleep waiting_time
  modify (λ c. record c { actions = c.actions ++ sent (response c.message_id c.res_size) ∷ [] })
  modify (λ c. record c {
    first_data = true;
    buffer_data = c.next_buffer_data;
    next_buffer_data = "";
    message_sizes = if ltb 0 (len c.next_buffer_data) then len c.next_buffer_data ∷ [] else [];
  })

-- `expected < n`
abbrev exceeds : ℕ → ℤ → Bool
exceeds n (pos k) = ltb k n
exceeds n (negsuc k) = true

-- The tests of the length of the buffer. Whether the connection goes on.
unfoldable pub check_size : Run Connection Bool
unfolding answer len
check_size = do
  size ← gets (λ c. len c.buffer_data)
  expected ← gets (λ c. c.expected_req_size)
  if eqb_ℤ (pos size) expected then (do answer; pure true) else pure (not (exceeds size expected))

-- The first data of a request, with its fields.
unfoldable pub read_first : Run Connection Bool
unfolding read_header check_size int_at split
read_first = do
  words ← gets (λ c. split b'&' c.buffer_data)
  expected ← lift (int_at words 4)
  modify (λ c. record c { expected_delay_results = expected })
  if eqb_ℤ (difference (length words) min_fields_nb) expected
      then (do goes_on ← read_header words expected; if goes_on then check_size else pure false)
      else pure true

-- Is there not enough yet to read the header?
unfoldable pub is_short : String → Bool
unfolding len split
is_short buffer =
    leb (len buffer) max_security_header_size && ltb (length (split b'&' buffer)) min_fields_nb

-- The buffers and sizes that one round of the loop starts by filling.
unfoldable pub store : String → Connection → Connection
unfolding cut_data ◌<>◌ len
store text c =
    let (used, kept) = cut_data text in
    record c {
      buffer_data = c.buffer_data <> used;
      next_buffer_data = c.next_buffer_data <> kept;
      message_sizes = c.message_sizes ++ len used ∷ [];
    }

-- One round of the loop, where data that is not empty has arrived. Whether the connection goes on.
unfoldable pub receive : String → Run Connection Bool
unfolding store is_short read_first check_size
receive text = do
  modify (store text)
  first ← gets (λ c. c.first_data)
  buffer ← gets (λ c. c.buffer_data)
  if first && is_short buffer then pure true else if first then read_first else check_size

-- The loop, over what `recv` yields; nothing more is waited for. Whether the connection goes on.
unfoldable pub serve : List String → Run Connection Bool
unfolding receive len
serve [] = pure true
serve (text ∷ ts) =
    let rest = serve ts in
    if eqb (len text) 0
    then pure false
    else (do goes_on ← receive text; if goes_on then rest else pure false)

-- ===== src/SiriServer/Replies.antt =====
-- utils/siri_server.py: a request that arrives is answered.
use mathlib.Core.Path.{subst}
use minitopo.Base.{
  ℕ, ◌+◌, String, ◌≡◌, refl, sym, ap, ◌∙◌, Bool, true, false, ◌&&◌, [], ◌∷◌, ◌++◌, arith, length,
  if◌then◌else◌, ltb, leb, some,
}
use minitopo.Base.Int.{pos, eqb_ℤ, eqb_ℤ-refl}
use minitopo.Errors.{ok}
use minitopo.Text.{◌<>◌}
use minitopo.Text.Split.{split}
use minitopo.Text.Slices.{len}
use minitopo.Run.{>>=-ok, modify, lift, gets, ◌>>=◌, pure}
use minitopo.SiriServer.{
  slept, sent, Connection, response, sleep, answer, check_size, read_header, read_first, is_short,
  store, receive, difference,
}
use minitopo.SiriServer.Requests.{
  Request, line, request_text, Unfinished, cut_data-line, int_at-show,
}
use minitopo.SiriServer.Headers.{
  IsSendable, Known, length-words, read_header-words, split-request, with_header, words_of,
}

-- What a request leaves behind that is answered, where `extra` has come along with it.
abbrev pub answered : Request → String → Connection → Connection
answered r extra c = record c {
  first_data = true;
  expected_req_size = r.req_size;
  res_size = r.res_size;
  waiting_time = pos r.waiting_time;
  expected_delay_results = pos (length r.delays);
  buffer_data = extra;
  next_buffer_data = "";
  message_sizes = if ltb 0 (len extra) then len extra ∷ [] else [];
  message_id = r.message_id;
  actions =
      (c.actions ++ slept (pos r.waiting_time) ∷ [])
      ++ sent (response r.message_id r.res_size) ∷ [];
  delay_results = c.delay_results ++ r.delays;
  time_sent = c.time_sent ++ r.time ∷ [];
  mac = some r.mac;
}

-- The buffers hold a request and what has come along with it.
record Holds (r : Request) (extra : String) (c : Connection) : Type 0 where
  buffer : c.buffer_data ≡ request_text r
  next : c.next_buffer_data ≡ extra

with_delays : Request → Connection → Connection
with_delays r c = record (with_header r c) {
  first_data = false;
  delay_results = c.delay_results ++ r.delays;
}

check_size-Holds :
    (r : Request) (extra : String) (c : Connection)
    → IsSendable r
    → Holds r extra c
    → check_size (with_delays r c)
      ≡ (ok true, record (answered r extra c) { expected_delay_results = c.expected_delay_results })
unfolding check_size with_delays answer sleep ◌>>=◌ lift gets modify pure
check_size-Holds r extra c h b =
    let fits : eqb_ℤ (pos (len c.buffer_data)) r.req_size ≡ true =
      ap (λ s. eqb_ℤ (pos (len s)) r.req_size) b.buffer
      ∙ ap (λ z. eqb_ℤ (pos (len (request_text r))) z) h.sized
      ∙ eqb_ℤ-refl (pos (len (request_text r))) in
    rw fits (rw b.next refl)

difference-add : (n : ℕ) → difference (8 + n) 8 ≡ pos n
difference-add n = ground arith

read_first-Holds :
    (r : Request) (extra : String) (c : Connection)
    → IsSendable r
    → Known r c
    → Holds r extra c
    → read_first c ≡ (ok true, answered r extra c)
unfolding read_first with_delays ◌>>=◌ lift gets modify pure
read_first-Holds r extra c h known b =
    let words : split b'&' c.buffer_data ≡ words_of r =
      ap (split b'&') b.buffer ∙ split-request r h in
    let count : eqb_ℤ (difference (length (words_of r)) 8) (pos (length r.delays)) ≡ true =
      ap (λ n. eqb_ℤ (difference n 8) (pos (length r.delays))) (length-words r)
      ∙ ap (λ z. eqb_ℤ z (pos (length r.delays))) (difference-add (length r.delays))
      ∙ eqb_ℤ-refl (pos (length r.delays)) in
    rw words (
      rw (int_at-show (words_of r) 4 (pos (length r.delays)) refl) (
        rw count (
          >>=-ok (read_header (words_of r) (pos (length r.delays)))
            (λ goes_on. if goes_on then check_size else pure false)
            (read_header-words r (announced c) known)
          ∙ check_size-Holds r extra (announced c) h
              (record { buffer = b.buffer; next = b.next }))))
  where
    announced : Connection → Connection
    announced c = record c { expected_delay_results = pos (length r.delays) }

is_short-request : (r : Request) → IsSendable r → is_short (request_text r) ≡ false
unfolding is_short
is_short-request r h =
    let many : ltb (length (split b'&' (request_text r))) 8 ≡ false =
      ap (λ ws. ltb (length ws) 8) (split-request r h)
      ∙ ap (λ n. ltb n 8) (length-words r)
      ∙ enough (length r.delays) in
    rw many (and-false (leb (len (request_text r)) 128))
  where
    enough : (n : ℕ) → ltb (8 + n) 8 ≡ false
    enough n = ground arith

    and-false : (b : Bool) → (b && false) ≡ false
    and-false true = refl
    and-false false = refl

-- A connection that waits for a request.
pub record IsIdle (c : Connection) : Type 0 where
  pub first : c.first_data ≡ true
  pub no_buffer : c.buffer_data ≡ ""
  pub no_next : c.next_buffer_data ≡ ""

pub receive-stored :
    (text : String) (c d : Connection)
    → store text c ≡ d
    → d.first_data ≡ true
    → is_short d.buffer_data ≡ false
    → receive text c ≡ read_first d
unfolding receive ◌>>=◌ gets modify
receive-stored text c d stored first long =
    subst
      (λ (e : Connection).
        (if e.first_data && is_short e.buffer_data
            then pure true
            else if e.first_data
            then read_first
            else check_size)
          e
        ≡ read_first d)
      (sym stored) (rw (first, long) refl)

store-request :
    (r : Request) (extra : String) (c : Connection)
    → IsSendable r
    → IsIdle c
    → Unfinished extra
    → store (line r <> "\n" <> extra) c ≡ record c {
      buffer_data = request_text r;
      next_buffer_data = extra;
      message_sizes = c.message_sizes ++ len (request_text r) ∷ [];
    }
unfolding store ◌<>◌
store-request r extra c h idle u = rw (cut_data-line (line r) extra h.one_line u) (
    ap
      (λ b. record (sized c) {
        buffer_data = b <> request_text r;
        next_buffer_data = c.next_buffer_data <> extra;
      })
      idle.no_buffer
    ∙ ap (λ b. record (sized c) { buffer_data = request_text r; next_buffer_data = b <> extra })
        idle.no_next)
  where
    sized : Connection → Connection
    sized c = record c { message_sizes = c.message_sizes ++ len (request_text r) ∷ [] }

-- A request that is sendable and comes with the MAC of the connection, if it has one, and arrives
-- whole at a connection that waits for one, alone or with the beginning of the next, is answered:
-- the server waits as long as it says and sends the response that it asks for; the delays and the
-- time that it gives are recorded, its MAC is that of the connection, and the connection waits for
-- the rest of the next request.
pub receive-request :
    (r : Request) (extra : String) (c : Connection)
    → IsSendable r
    → Known r c
    → IsIdle c
    → Unfinished extra
    → receive (line r <> "\n" <> extra) c ≡ (ok true, answered r extra c)
receive-request r extra c h known idle u =
    receive-stored (line r <> "\n" <> extra) c (stored c) (store-request r extra c h idle u)
      idle.first (is_short-request r h)
    ∙ read_first-Holds r extra (stored c) h known (record { buffer = refl; next = refl })
  where
    stored : Connection → Connection
    stored c = record c {
      buffer_data = request_text r;
      next_buffer_data = extra;
      message_sizes = c.message_sizes ++ len (request_text r) ∷ [];
    }

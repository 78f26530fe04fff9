-- ===== src/SiriServer/Sessions.antt =====
-- utils/siri_server.py: a connection with several requests, and the length of a response.
use minitopo.Base.{
  ℕ, zero, suc, ◌+◌, ◌-◌, ◌<◌, String, ◌≡◌, refl, sym, ap, ◌∙◌, Bool, true, false, List, [], ◌∷◌,
  ◌++◌, All, arith, if◌then◌else◌, eqb, ltb, ◌⊎◌, inl, inr, none, some, append_assoc, append-nil,
}
use minitopo.Base.Int.{ℤ, pos}
use minitopo.Errors.{Result, ok}
use minitopo.Text.{◌<>◌, concat}
use minitopo.Text.Slices.{len, len-append}
use minitopo.Text.Number.{show}
use minitopo.Run.{>>=-ok, pure}
use minitopo.SiriServer.{Action, slept, sent, Connection, zeros, response, receive, serve}
use minitopo.SiriServer.Requests.{Request, line, request_text}
use minitopo.SiriServer.Headers.{IsSendable, Known}
use minitopo.SiriServer.Replies.{IsIdle, answered, receive-request}

len-zeros : (n : ℕ) → len (zeros n) ≡ n
unfolding zeros len
len-zeros zero = refl
len-zeros (suc n) = omega (arith, len-append "0" (zeros n), len-zeros n)

-- A response has the size that is asked for, or where that is too small for its identifier, its
-- separator and its end, just the length of these.
pub len-response :
    (message_id : ℤ) (n : ℕ)
    → let least = len (show message_id) + 2 in
      len (response message_id (pos n)) ≡ (if ltb n least then least else n)
unfolding response concat len
len-response message_id n =
    let id = show message_id in
    ground (
      arith,
      len-append id ("&" <> zeros (n - len id - 2) <> "\n" <> ""),
      len-append (zeros (n - len id - 2)) ("\n" <> ""),
      len-zeros (n - len id - 2),
    )

-- What is done for a list of requests.
abbrev pub replies : List Request → List Action
replies [] = []
replies (r ∷ rs) = slept (pos r.waiting_time) ∷ sent (response r.message_id r.res_size) ∷ replies rs

abbrev pub texts : List Request → List String
texts [] = []
texts (r ∷ rs) = request_text r ∷ texts rs

-- The requests of one client: sendable, with one MAC.
abbrev FromMac : String → Request → Type 0
FromMac m r = IsSendable r × (r.mac ≡ m)

serve-received :
    (text : String) (ts : List String) (c d : Connection)
    → 0 < len text
    → receive text c ≡ (ok true, d)
    → serve (text ∷ ts) c ≡ serve ts d
unfolding serve
serve-received text ts c d some_text received =
    let more : eqb (len text) 0 ≡ false = ground (arith, some_text) in
    rw more (>>=-ok (receive text) (λ goes_on. if goes_on then serve ts else pure false) received)

request-received :
    (r : Request) (c : Connection)
    → IsSendable r
    → Known r c
    → IsIdle c
    → receive (request_text r) c ≡ (ok true, answered r "" c)
unfolding ◌<>◌
request-received r c h known idle = receive-request r "" c h known idle (inl refl)

request-some_text : (r : Request) → 0 < len (request_text r)
unfolding len
request-some_text r = omega (arith, len-append (line r) "\n")

mac-Known :
    (r : Request) (m : String) (c : Connection)
    → r.mac ≡ m
    → (c.mac ≡ none) ⊎ (c.mac ≡ some m)
    → Known r c
mac-Known r m c e (inl h) = inl h
mac-Known r m c e (inr h) = inr (h ∙ ap some (sym e))

-- Requests that are sendable and give one MAC, which is that of the connection if it has one, and
-- each of which arrives whole at a connection that waits for one, are all answered, in order and
-- with nothing else, and the connection goes on.
pub serve-requests :
    (m : String) (rs : List Request) (c : Connection)
    → All (FromMac m) rs
    → (c.mac ≡ none) ⊎ (c.mac ≡ some m)
    → IsIdle c
    → ((serve (texts rs) c).0 ≡ ok true)
      × ((serve (texts rs) c).1.actions ≡ c.actions ++ replies rs)
      × ((serve (texts rs) c).1.buffer_data ≡ "")
unfolding len
serve-requests m [] c all known idle =
    unfold serve in unfold pure in (refl, sym (append-nil c.actions), idle.no_buffer)
serve-requests m (r ∷ rs) c all known idle =
    let next : Connection = answered r "" c in
    let step =
      serve-received (request_text r) (texts rs) c next (request-some_text r)
        (request-received r c all.0.0 (mac-Known r m c all.0.1 known) idle) in
    let rest =
      serve-requests m rs next all.1 (inr (ap some all.0.1))
        (record { first = refl; no_buffer = refl; no_next = refl }) in
    (
      ap (λ (x : Result Bool × Connection). x.0) step ∙ rest.0,
      ap (λ (x : Result Bool × Connection). x.1.actions) step
          ∙ rest.1
          ∙ append_assoc (c.actions ++ slept (pos r.waiting_time) ∷ [])
              (sent (response r.message_id r.res_size) ∷ []) (replies rs)
          ∙ append_assoc c.actions (slept (pos r.waiting_time) ∷ [])
              (sent (response r.message_id r.res_size) ∷ replies rs),
      ap (λ (x : Result Bool × Connection). x.1.buffer_data) step ∙ rest.2,
    )

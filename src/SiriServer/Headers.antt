-- ===== src/SiriServer/Headers.antt =====
-- utils/siri_server.py: what the header of a request leaves.
use minitopo.Base.{
  ◌+◌, String, ◌≡◌, refl, ap, ◌∙◌, true, false, List, [], ◌∷◌, ◌++◌, map, All, arith, length,
  length-append, length-map, ◌⊎◌, inl, inr, none, some, eq_refl,
}
use minitopo.Base.Int.{ℤ, pos}
use minitopo.Errors.{ok}
use minitopo.Text.{◌<>◌, has}
use minitopo.Text.Split.{split}
use minitopo.Text.Slices.{len}
use minitopo.Text.Number.{show}
use minitopo.Text.Number.RoundTrip.{has-show}
use minitopo.Run.{>>=-ok, modify, lift, ◌>>=◌, for_each, count_from, pure}
use minitopo.SiriServer.{Connection, check_mac, add_delay_result, read_header}
use minitopo.SiriServer.Requests.{
  Request, front, fields, line, request_text, split-join, join-append, int_at-show,
  add_delay_results,
}

-- A request as the server expects it: no field holds a separator, it is one line, and its size is
-- the one that it gives.
pub record IsSendable (r : Request) : Type 0 where
  pub mac_free : has b'&' r.mac ≡ false
  pub filling_free : has b'&' (r.filling <> "\n") ≡ false
  pub one_line : has 10 (line r) ≡ false
  pub sized : r.req_size ≡ pos (len (request_text r))

-- The words that the server sees.
abbrev pub words_of : Request → List String
words_of r = fields r (r.filling <> "\n")

All-shown :
    (ds : List ℤ) (w : String)
    → has b'&' w ≡ false
    → All (λ v. has b'&' v ≡ false) (map show ds ++ w ∷ [])
All-shown [] w h = (h, tt)
All-shown (d ∷ ds) w h = (has-show b'&' d refl refl, All-shown ds w h)

pub split-request : (r : Request) → IsSendable r → split b'&' (request_text r) ≡ words_of r
split-request r h =
    ap (split b'&')
      (join-append (show r.message_id) (front_rest ++ map show r.delays) r.filling "\n")
    ∙ split-join (show r.message_id) (front_rest ++ (map show r.delays ++ (r.filling <> "\n") ∷ []))
        (
          has-show b'&' r.message_id refl refl,
          (
            has-show b'&' r.req_size refl refl,
            (
              has-show b'&' r.res_size refl refl,
              (
                has-show b'&' (pos r.waiting_time) refl refl,
                (
                  has-show b'&' (pos (length r.delays)) refl refl,
                  (
                    has-show b'&' r.time refl refl,
                    (h.mac_free, All-shown r.delays (r.filling <> "\n") h.filling_free),
                  ),
                ),
              ),
            ),
          ),
        )
  where
    front_rest : List String
    front_rest =
        show r.req_size
        ∷ show r.res_size
        ∷ show (pos r.waiting_time)
        ∷ show (pos (length r.delays))
        ∷ show r.time
        ∷ r.mac
        ∷ []

pub length-words : (r : Request) → length (words_of r) ≡ 8 + length r.delays
length-words r =
    omega (
      arith,
      length-append (map show r.delays) ((r.filling <> "\n") ∷ []),
      length-map show r.delays,
    )

-- The MAC of a request is that of the connection, if it has one.
abbrev pub Known : Request → Connection → Type 0
Known r c = (c.mac ≡ none) ⊎ (c.mac ≡ some r.mac)

check_mac-Known :
    (r : Request) (c : Connection)
    → Known r c
    → check_mac r.mac c ≡ (ok true, record c { mac = some r.mac })
unfolding check_mac
check_mac-Known r c (inl e) = rw e refl
check_mac-Known r c (inr e) = ground (arith, eq_refl r.mac, e)

-- What the header of a request leaves.
abbrev pub with_header : Request → Connection → Connection
with_header r c = record c {
  message_id = r.message_id;
  expected_req_size = r.req_size;
  res_size = r.res_size;
  waiting_time = pos r.waiting_time;
  time_sent = c.time_sent ++ r.time ∷ [];
  mac = some r.mac;
}

pub read_header-words :
    (r : Request) (c : Connection)
    → Known r c
    → read_header (words_of r) (pos (length r.delays)) c ≡ (
      ok true,
      record (with_header r c) { first_data = false; delay_results = c.delay_results ++ r.delays },
    )
unfolding read_header ◌>>=◌ lift modify pure
read_header-words r c known =
    rw
      (
        int_at-show (words_of r) 0 r.message_id refl,
        int_at-show (words_of r) 1 r.req_size refl,
        int_at-show (words_of r) 2 r.res_size refl,
        int_at-show (words_of r) 3 (pos r.waiting_time) refl,
        int_at-show (words_of r) 5 r.time refl,
      )
      (>>=-ok (check_mac r.mac) _
          (check_mac-Known r (record (with_header r c) { mac = c.mac }) known)
        ∙ >>=-ok (for_each (add_delay_result (words_of r)) (count_from 7 (length r.delays))) _
            (add_delay_results (front r) r.delays ((r.filling <> "\n") ∷ []) (with_header r c)))

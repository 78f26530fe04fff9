-- ===== src/SiriServer/Starving.antt =====
-- utils/siri_server.py: two whole requests that arrive together.
use minitopo.Base.{
  ℕ, ◌+◌, ◌<◌, String, ◌≡◌, refl, sym, ap, ◌∙◌, Bool, true, false, ◌&&◌, List, [], ◌∷◌, arith,
  length, get_elem?, some, if◌then◌else◌, eqb, ltb, leb, Bool-cases, inl, inr,
}
use minitopo.Base.Int.{pos, eqb_ℤ}
use minitopo.Errors.{Result, ok}
use minitopo.Text.{◌<>◌}
use minitopo.Text.Split.{split, split-nonempty, length-split-append, get_elem?-split-append}
use minitopo.Text.Slices.{len, append_assoc_text}
use minitopo.Text.Number.{show, read_int}
use minitopo.Text.Number.RoundTrip.{read_int-show}
use minitopo.Run.{>>=-ok, modify, lift, gets, ◌>>=◌, pure}
use minitopo.SiriServer.Requests.{Request, request_text, line, cut_data-ended}
use minitopo.SiriServer.Headers.{IsSendable, split-request, length-words}
use minitopo.SiriServer.Replies.{IsIdle, receive-stored}
use minitopo.SiriServer.{
  Connection, cut_data, int_at, read_first, is_short, store, receive, serve, difference,
}

-- A connection that waits for the fields of a request whose buffer has too many of them: its fifth
-- field announces `n` delays.
record IsStarving (n : ℕ) (c : Connection) : Type 0 where
  pub first : c.first_data ≡ true
  pub announced :
      (w : String) × (get_elem? (split b'&' c.buffer_data) 4 ≡ some w) × (read_int w ≡ some (pos n))
  pub too_many : 8 + n < length (split b'&' c.buffer_data)

more-IsStarving :
    (n : ℕ) (text : String) (c d : Connection)
    → IsStarving n c
    → d.first_data ≡ true
    → d.buffer_data ≡ c.buffer_data <> text
    → IsStarving n d
more-IsStarving n text c d v f b = record {
  first = f;
  announced = (
    v.announced.0,
    ap (λ s. get_elem? (split b'&' s) 4) b
        ∙ get_elem?-split-append b'&' c.buffer_data text 4 (omega (arith, v.too_many))
        ∙ v.announced.1,
    v.announced.2,
  );
  too_many = omega (
    arith,
    v.too_many,
    length-split-append b'&' c.buffer_data text,
    ap (λ s. length (split b'&' s)) b,
    length-split-pos text,
  );
}
  where
    length-split-pos : (s : String) → 0 < length (split b'&' s)
    length-split-pos s = let (w, ws, e) = split-nonempty b'&' s in omega (arith, ap length e)

is_short-IsStarving : (n : ℕ) (c : Connection) → IsStarving n c → is_short c.buffer_data ≡ false
unfolding is_short
is_short-IsStarving n c v =
    let many : ltb (length (split b'&' c.buffer_data)) 8 ≡ false = ground (arith, v.too_many) in
    rw many (and-false (leb (len c.buffer_data) 128))
  where
    and-false : (b : Bool) → (b && false) ≡ false
    and-false true = refl
    and-false false = refl

read_first-IsStarving :
    (n : ℕ) (c : Connection)
    → IsStarving n c
    → read_first c ≡ (ok true, record c { expected_delay_results = pos n })
unfolding read_first int_at ◌>>=◌ lift gets modify pure
read_first-IsStarving n c v =
    let other : eqb_ℤ (difference (length (split b'&' c.buffer_data)) 8) (pos n) ≡ false =
      ground (arith, v.too_many) in
    rw (v.announced.1) (rw (v.announced.2) (rw other refl))

-- A round that has stored its data in such a buffer does nothing else.
receive-stored-IsStarving :
    (n : ℕ) (text : String) (c : Connection)
    → IsStarving n (store text c)
    → (d : Connection) × (receive text c ≡ (ok true, d))
      × IsStarving n d
      × (d.actions ≡ (store text c).actions)
receive-stored-IsStarving n text c v =
    let stored = store text c in
    (
      record stored { expected_delay_results = pos n },
      receive-stored text c stored refl v.first (is_short-IsStarving n stored v)
          ∙ read_first-IsStarving n stored v,
      record { first = v.first; announced = v.announced; too_many = v.too_many },
      refl,
    )

serve-stored :
    (n : ℕ) (text : String) (ts : List String) (c : Connection)
    → IsStarving n (store text c)
    → ((d : Connection) → IsStarving n d → (serve ts d).1.actions ≡ d.actions)
    → (serve (text ∷ ts) c).1.actions ≡ c.actions
unfolding serve store pure
serve-stored n text ts c v rest = elim (Bool-cases (eqb (len text) 0)) [
  | inl empty ↦ rw empty refl
  | inr more ↦
      let (d, received, starving, same) = receive-stored-IsStarving n text c v in
      rw more (
        ap (λ (r : Result Bool × Connection). r.1.actions)
          (>>=-ok (receive text) (λ goes_on. if goes_on then serve ts else pure false) received)
        ∙ rest d starving
        ∙ same)
]

-- More data only adds fields.
store-IsStarving :
    (n : ℕ) (text : String) (c : Connection) → IsStarving n c → IsStarving n (store text c)
unfolding store
store-IsStarving n text c v = more-IsStarving n (cut_data text).0 c (store text c) v v.first refl

serve-IsStarving :
    (n : ℕ) (ts : List String) (c : Connection)
    → IsStarving n c
    → (serve ts c).1.actions ≡ c.actions
unfolding serve pure
serve-IsStarving n [] c v = refl
serve-IsStarving n (text ∷ ts) c v =
    serve-stored n text ts c (store-IsStarving n text c v) (serve-IsStarving n ts)

-- The buffer that two requests leave.
store-two_requests :
    (r q : Request) (c : Connection)
    → IsIdle c
    → (store (request_text r <> request_text q) c).buffer_data ≡ request_text r <> request_text q
unfolding store ◌<>◌
store-two_requests r q c idle =
    let whole = append_assoc_text (request_text r) (line q) "\n" in
    let kept : (cut_data (request_text r <> request_text q)).0 ≡ request_text r <> request_text q =
      ap (λ s. (cut_data s).0) (sym whole)
      ∙ ap (λ p. p.0) (cut_data-ended (request_text r <> line q))
      ∙ whole in
    ap (λ b. b <> (cut_data (request_text r <> request_text q)).0) idle.no_buffer ∙ kept

two_requests-IsStarving :
    (r q : Request) (c : Connection)
    → IsSendable r
    → IsSendable q
    → IsIdle c
    → IsStarving (length r.delays) (store (request_text r <> request_text q) c)
unfolding store
two_requests-IsStarving r q c hr hq idle =
    let both = request_text r <> request_text q in
    let buffer = store-two_requests r q c idle in
    let size_r : length (split b'&' (request_text r)) ≡ 8 + length r.delays =
      ap length (split-request r hr) ∙ length-words r in
    let size_q : length (split b'&' (request_text q)) ≡ 8 + length q.delays =
      ap length (split-request q hq) ∙ length-words q in
    record {
      first = idle.first;
      announced = (
        show (pos (length r.delays)),
        ap (λ s. get_elem? (split b'&' s) 4) buffer
            ∙ get_elem?-split-append b'&' (request_text r) (request_text q) 4
                (omega (arith, size_r))
            ∙ ap (λ ws. get_elem? ws 4) (split-request r hr),
        read_int-show (pos (length r.delays)),
      );
      too_many = omega (
        arith,
        size_r,
        size_q,
        length-split-append b'&' (request_text r) (request_text q),
        ap (λ s. length (split b'&' s)) buffer,
      );
    }

-- Two requests that are sendable and arrive together at a connection that waits for one are not
-- answered, whatever arrives behind them: the connection sends nothing more.
pub serve-two_requests :
    (r q : Request) (ts : List String) (c : Connection)
    → IsSendable r
    → IsSendable q
    → IsIdle c
    → (serve ((request_text r <> request_text q) ∷ ts) c).1.actions ≡ c.actions
serve-two_requests r q ts c hr hq idle =
    serve-stored (length r.delays) (request_text r <> request_text q) ts c
      (two_requests-IsStarving r q c hr hq idle) (serve-IsStarving (length r.delays) ts)

-- ===== src/SiriServer/Requests.antt =====
-- utils/siri_server.py: the text of a request, and its fields.
use minitopo.Base.{
  ℕ, ◌+◌, Char, String, ◌≡◌, refl, sym, ap, ◌∙◌, true, false, List, [], ◌∷◌, ◌++◌, map, All, arith,
  length, length-append, get_elem?, append_assoc, ◌⊎◌, inl, inr, some, ◌≢◌, append-nil,
}
use minitopo.Base.Int.{ℤ, pos}
use minitopo.Errors.{ok}
use minitopo.Text.{◌<>◌, join, has}
use minitopo.Text.Split.{split, split-append, split-free}
use minitopo.Text.Slices.{append_assoc_text}
use minitopo.Text.Number.{show}
use minitopo.Text.Number.RoundTrip.{read_int-show}
use minitopo.Run.{>>=-ok, modify, lift, ◌>>=◌, for_each, count_from, pure}
use minitopo.SiriServer.{
  Connection, cut_data, ends_line, line_of, behind_line, int_at, add_delay_result,
}

-- A request, with what fills it up.
pub record Request : Type 0 where
  pub message_id : ℤ
  pub req_size : ℤ
  pub res_size : ℤ
  pub waiting_time : ℕ
  pub time : ℤ
  pub mac : String
  pub delays : List ℤ
  pub filling : String

-- The fields before the delays.
abbrev pub front : Request → List String
front r =
    show r.message_id
    ∷ show r.req_size
    ∷ show r.res_size
    ∷ show (pos r.waiting_time)
    ∷ show (pos (length r.delays))
    ∷ show r.time
    ∷ r.mac
    ∷ []

abbrev pub fields : Request → String → List String
fields r last = front r ++ (map show r.delays ++ last ∷ [])

-- The line without its end.
abbrev pub line : Request → String
line r = join "&" (fields r r.filling)

abbrev pub request_text : Request → String
request_text r = line r <> "\n"

ampersand : Char
ampersand = Prim.Native.Char.char 38 tt

split-ampersand :
    (s t : String) → has b'&' s ≡ false → split b'&' (s <> "&" <> t) ≡ s ∷ split b'&' t
unfolding ◌<>◌ ampersand
split-ampersand s t h = split-append b'&' s ampersand t refl h

-- The words of a text that was joined of words without the separator.
pub split-join :
    (w : String) (ws : List String)
    → All (λ v. has b'&' v ≡ false) (w ∷ ws)
    → split b'&' (join "&" (w ∷ ws)) ≡ w ∷ ws
unfolding join
split-join w [] free = split-free b'&' w free.0
split-join w (v ∷ ws) free =
    split-ampersand w (join "&" (v ∷ ws)) free.0 ∙ ap (λ vs. w ∷ vs) (split-join v ws free.1)

-- An end of a joined text belongs to its last word.
pub join-append :
    (w : String) (ws : List String) (l e : String)
    → join "&" (w ∷ ws ++ l ∷ []) <> e ≡ join "&" (w ∷ ws ++ (l <> e) ∷ [])
unfolding join
join-append w [] l e =
    append_assoc_text w ("&" <> l) e ∙ ap (λ t. w <> t) (append_assoc_text "&" l e)
join-append w (v ∷ ws) l e =
    append_assoc_text w ("&" <> join "&" (v ∷ ws ++ l ∷ [])) e
    ∙ ap (λ t. w <> t)
        (append_assoc_text "&" (join "&" (v ∷ ws ++ l ∷ [])) e
          ∙ ap (λ t. "&" <> t) (join-append v ws l e))

-- A line, its end, and what comes behind it.
has-line : (s t : String) → has 10 (s <> "\n" <> t) ≡ true
unfolding has ◌<>◌
has-line String.[] t = refl
has-line (String.◌∷◌ c s) t = ground (arith, has-line s t)

line_of-append : (s t : String) → has 10 s ≡ false → line_of (s <> "\n" <> t) ≡ s <> "\n"
unfolding has ◌<>◌ line_of
line_of-append String.[] t h = refl
line_of-append (String.◌∷◌ c s) t h = ground (arith, line_of-append s t)

behind_line-append : (s t : String) → has 10 s ≡ false → behind_line (s <> "\n" <> t) ≡ t
unfolding has ◌<>◌ behind_line
behind_line-append String.[] t h = refl
behind_line-append (String.◌∷◌ c s) t h = ground (arith, behind_line-append s t)

ends_line-append :
    (s : String) (c : Char) (t : String)
    → ends_line (s <> String.◌∷◌ c t) ≡ ends_line (String.◌∷◌ c t)
unfolding ends_line ◌<>◌
ends_line-append String.[] c t = refl
ends_line-append (String.◌∷◌ d String.[]) c t = refl
ends_line-append (String.◌∷◌ d (String.◌∷◌ e s)) c t = ends_line-append (String.◌∷◌ e s) c t

-- What is not a line yet: nothing, or a text without its end.
abbrev pub Unfinished : String → Type 0
Unfinished s = (s ≡ "") ⊎ (ends_line s ≡ false)

newline : Char
newline = Prim.Native.Char.char 10 tt

ends_line-newline : (s t : String) → ends_line (s <> "\n" <> t) ≡ ends_line ("\n" <> t)
unfolding ◌<>◌ newline
ends_line-newline s t = ends_line-append s newline t

pub cut_data-line :
    (s t : String) → has 10 s ≡ false → Unfinished t → cut_data (s <> "\n" <> t) ≡ (s <> "\n", t)
unfolding cut_data ◌<>◌ ends_line
cut_data-line s String.[] h u =
    let e : ends_line (s <> "\n" <> "") ≡ true = ends_line-newline s "" in rw e refl
cut_data-line s (String.◌∷◌ c t) h (inl e) = absurd (cons-ne-empty c t e)
  where
    cons-ne-empty : (c : Char) (t : String) → String.◌∷◌ c t ≢ ""
    cons-ne-empty c t e = cc e
cut_data-line s (String.◌∷◌ c t) h (inr e) =
    let rest = String.◌∷◌ c t in
    let open_end : ends_line (s <> "\n" <> rest) ≡ false = ends_line-newline s rest ∙ e in
    rw (open_end, has-line s rest, line_of-append s rest h, behind_line-append s rest h) refl

pub cut_data-ended : (s : String) → cut_data (s <> "\n") ≡ (s <> "\n", "")
unfolding cut_data ◌<>◌ ends_line
cut_data-ended s = let e : ends_line (s <> "\n") ≡ true = ends_line-newline s "" in rw e refl

pub int_at-show :
    (words : List String) (i : ℕ) (d : ℤ)
    → get_elem? words i ≡ some (show d)
    → int_at words i ≡ ok d
unfolding int_at
int_at-show words i d e = rw e (rw (read_int-show d) refl)

get_elem?-front :
    (before : List String) (w : String) (behind : List String)
    → get_elem? (before ++ w ∷ behind) (length before) ≡ some w
get_elem?-front [] w behind = refl
get_elem?-front (v ∷ before) w behind = get_elem?-front before w behind

add_delay_result-show :
    (words : List String) (i : ℕ) (d : ℤ) (c : Connection)
    → get_elem? words i ≡ some (show d)
    → add_delay_result words i c ≡ (ok tt, record c { delay_results = c.delay_results ++ d ∷ [] })
unfolding add_delay_result ◌>>=◌ lift modify
add_delay_result-show words i d c e = rw (int_at-show words i d e) refl

-- The loop over the delays.
pub add_delay_results :
    (before : List String) (ds : List ℤ) (behind : List String) (c : Connection)
    → for_each
        (add_delay_result (before ++ (map show ds ++ behind)))
        (count_from (length before) (length ds))
        c
      ≡ (ok tt, record c { delay_results = c.delay_results ++ ds })
unfolding for_each pure
add_delay_results before [] behind c =
    ap (λ l. (ok tt, record c { delay_results = l })) (sym (append-nil c.delay_results))
add_delay_results before (d ∷ ds) behind c =
    let words = before ++ show d ∷ (map show ds ++ behind) in
    let after : Connection = record c { delay_results = c.delay_results ++ d ∷ [] } in
    >>=-ok (add_delay_result words (length before)) _ (
      add_delay_result-show words (length before) d c
        (get_elem?-front before (show d) (map show ds ++ behind)))
    ∙ ap (λ ws. for_each (add_delay_result ws) (count_from (length before + 1) (length ds)) after)
        (sym (append_assoc before (show d ∷ []) (map show ds ++ behind)))
    ∙ ap
        (λ i.
          for_each (add_delay_result ((before ++ show d ∷ []) ++ (map show ds ++ behind)))
            (count_from i (length ds)) after)
        (sym (length-append before (show d ∷ [])))
    ∙ add_delay_results (before ++ show d ∷ []) ds behind after
    ∙ ap (λ l. (ok tt, record c { delay_results = l })) (append_assoc c.delay_results (d ∷ []) ds)

-- ===== src/TopoParameter/Keys.antt =====
-- Keys of links: `path_{link_type}_{id}` and `netemAt_{link_type}_{id}`.
use minitopo.Base.{String, ◌≡◌, refl, false, [], ◌∷◌, ap, ◌∙◌, Char}
use minitopo.Base.Int.{ℤ}
use minitopo.Errors.{ok}
use minitopo.Text.{◌<>◌, has}
use minitopo.Text.Split.{split, split-append, split-free}
use minitopo.Text.Number.{show}
use minitopo.Text.Number.RoundTrip.{read_int-show, has-show}
use minitopo.TopoParameter.{parse_link_id_and_type, parse_netem_at, words_of_key}

-- `"{prefix}_{link_type}_{id}"`
abbrev pub link_key : String → String → ℤ → String
link_key prefix link_type id = prefix <> "_" <> link_type <> "_" <> show id

abbrev underscore : Char
underscore = Prim.Native.Char.char 95 tt

split-underscore :
    (s t : String) → has b'_' s ≡ false → split b'_' (s <> "_" <> t) ≡ s ∷ split b'_' t
unfolding ◌<>◌
split-underscore s t h = split-append b'_' s underscore t refl h

words_of_link_key :
    (prefix link_type : String) (id : ℤ)
    → has b'_' prefix ≡ false
    → has b'_' link_type ≡ false
    → split b'_' (link_key prefix link_type id) ≡ prefix ∷ link_type ∷ show id ∷ []
words_of_link_key prefix link_type id p h =
    split-underscore prefix (link_type <> "_" <> show id) p
    ∙ ap (λ ws. prefix ∷ ws)
        (split-underscore link_type (show id) h
          ∙ ap (λ ws. link_type ∷ ws) (split-free b'_' (show id) (has-show b'_' id refl refl)))

words_of_key-show :
    (prefix link_type : String) (id : ℤ)
    → words_of_key (prefix ∷ link_type ∷ show id ∷ []) ≡ ok (link_type, id)
unfolding words_of_key
words_of_key-show prefix link_type id = rw (read_int-show id) refl

-- The key that is written for a link whose type has no `_` is read back as its type and its
-- identifier, for both kinds of keys.
pub parse-link_key :
    (link_type : String) (id : ℤ)
    → has b'_' link_type ≡ false
    → (parse_link_id_and_type (link_key "path" link_type id) ≡ ok (link_type, id))
      × (parse_netem_at (link_key "netemAt" link_type id) ≡ ok (link_type, id))
unfolding parse_link_id_and_type parse_netem_at
parse-link_key link_type id h = (
  ap words_of_key (words_of_link_key "path" link_type id (unfold has in refl) h)
      ∙ words_of_key-show "path" link_type id,
  ap words_of_key (words_of_link_key "netemAt" link_type id (unfold has in refl) h)
      ∙ words_of_key-show "netemAt" link_type id,
)

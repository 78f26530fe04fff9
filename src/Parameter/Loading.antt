-- ===== src/Parameter/Loading.antt =====
-- The table of the parameters against the lines of the file.
use minitopo.Base.{String, ◌==◌, eq_iff, ◌≡◌, refl, ◌∙◌, Option, none, some}
use minitopo.Base.{List, [], ◌∷◌, ◌++◌, arith, if◌then◌else◌, append_assoc, append-nil, ap, sym}
use minitopo.Base.Dict.{Dict, lookup, lookup-insert}
use minitopo.Text.{starts_with, strip}
use minitopo.Text.Split.{split}
use minitopo.Text.Lines.{read_lines}
use minitopo.Parameter.{
  Value, text, several, append_value, add_words, load_line, load_lines, load_parameter_file,
}

-- The word behind `key` on a line, if the line sets that key.
unfoldable pub word_of : String → List String → List String
word_of k (key ∷ value ∷ []) = if key == k then value ∷ [] else []
word_of k _ = []

unfoldable pub assigned : String → String → List String
unfolding word_of
assigned k line = if starts_with line "#" then [] else word_of k (split b':' (strip line))

-- All words that the lines give to `key`, in their order.
unfoldable pub assignments : String → List String → List String
unfolding assigned
assignments k [] = []
assignments k (line ∷ lines) = assigned k line ++ assignments k lines

-- No word is no entry, one is a text, more are a list.
abbrev pub entry : List String → Option Value
entry [] = none
entry (v ∷ []) = some (text v)
entry (v ∷ w ∷ vs) = some (several (v ∷ w ∷ vs))

extended : Option Value → List String → Option Value
extended o [] = o
extended o (v ∷ vs) = extended (some (append_value o v)) vs

extended-append :
    (o : Option Value) (vs ws : List String) → extended o (vs ++ ws) ≡ extended (extended o vs) ws
unfolding extended
extended-append o [] ws = refl
extended-append o (v ∷ vs) ws = extended-append (some (append_value o v)) vs ws

extended-several :
    (us vs : List String) → extended (some (several us)) vs ≡ some (several (us ++ vs))
unfolding extended append_value
extended-several us [] = rw append-nil
extended-several us (v ∷ vs) = extended-several (us ++ v ∷ []) vs ∙ rw append_assoc

extended-none : (vs : List String) → extended none vs ≡ entry vs
unfolding extended append_value
extended-none [] = refl
extended-none (v ∷ []) = refl
extended-none (v ∷ w ∷ vs) = extended-several (v ∷ w ∷ []) vs

lookup-add_words :
    (k : String) (ws : List String) (d : Dict Value)
    → lookup k (add_words ws d) ≡ extended (lookup k d) (word_of k ws)
unfolding add_words word_of extended
lookup-add_words k [] d = refl
lookup-add_words k (a ∷ []) d = refl
lookup-add_words k (a ∷ b ∷ []) d =
    ground (arith, lookup-insert a k (append_value (lookup a d) b) d, eq_iff a k)
lookup-add_words k (a ∷ b ∷ c ∷ ws) d = refl

lookup-load_line :
    (k line : String) (d : Dict Value)
    → lookup k (load_line line d) ≡ extended (lookup k d) (assigned k line)
unfolding load_line extended assigned
lookup-load_line k line d = ground (arith, lookup-add_words k (split b':' (strip line)) d)

lookup-load_lines :
    (k : String) (lines : List String) (d : Dict Value)
    → lookup k (load_lines lines d) ≡ extended (lookup k d) (assignments k lines)
unfolding load_lines assignments
lookup-load_lines k [] d = unfold extended in refl
lookup-load_lines k (line ∷ lines) d =
    lookup-load_lines k lines (load_line line d)
    ∙ ap (λ o. extended o (assignments k lines)) (lookup-load_line k line d)
    ∙ sym (extended-append (lookup k d) (assigned k line) (assignments k lines))

-- After a file is loaded a key holds nothing, a text or a list, as the lines assign it no word,
-- one word or more, and the words stand in the order of the lines.
pub lookup-load_parameter_file :
    (k contents : String)
    → lookup k (load_parameter_file contents []) ≡ entry (assignments k (read_lines contents))
unfolding load_parameter_file lookup
lookup-load_parameter_file k contents =
    lookup-load_lines k (read_lines contents) [] ∙ extended-none _

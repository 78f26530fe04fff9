-- ===== src/Runner/Legacy.antt =====
-- runner.py: the written lines, as `load_parameter_file` reads them.
use minitopo.Base.{
  none, ℕ, Char, code, String, ◌==◌, eq_refl, ◌≡◌, refl, sym, ap, ◌∙◌, Bool, true, false, ◌&&◌,
  List, [], ◌∷◌, ◌++◌, map, All, arith, eqb, if◌then◌else◌, inl, inr, Bool-cases,
}
use minitopo.Base.Dict.{Dict, lookup}
use minitopo.Errors.{ok, ◌>>=◌}
use minitopo.Text.{◌<>◌, join, has, every, is_space, starts_with, strip}
use minitopo.Text.Slices.{append_assoc_text}
use minitopo.Text.Split.{split, split-append, split-free}
use minitopo.Text.Strip.{solid, strip-line}
use minitopo.Text.Lines.{read_lines, translate, split_lines}
use minitopo.Parameter.{load_parameter_file}
use minitopo.Parameter.Loading.{entry, word_of, assigned, assignments, lookup-load_parameter_file}
use minitopo.Runner.{YamlTopology, line, legacy_file, legacy_entries, yaml_topo_to_legacy}

-- Lines that each end in "\n".
terminated : List String → String
terminated [] = ""
terminated (l ∷ ls) = l <> "\n" <> terminated ls

join-terminated : (l : String) (ls : List String) → join "\n" (l ∷ ls) <> "\n" ≡ terminated (l ∷ ls)
unfolding join terminated ◌<>◌
join-terminated l [] = refl
join-terminated l (m ∷ ls) =
    append_assoc_text l ("\n" <> join "\n" (m ∷ ls)) "\n"
    ∙ ap (λ t. l <> "\n" <> t) (join-terminated m ls)

-- A character that is no white space is not this one.
not_space : (n m : ℕ) → is_space n ≡ false → is_space m ≡ true → eqb n m ≡ false
not_space n m h e = elim (Bool-cases (eqb n m)) [
  | inl same ↦ absurd (true-ne-false (sym e ∙ ap is_space (equal n m same) ∙ h))
  | inr apart ↦ apart
]
  where
    true-ne-false : true ≡ false → ⊥
    true-ne-false q = cc q

    equal : (n m : ℕ) → eqb n m ≡ true → m ≡ n
    equal n m q = ground arith

not_newline : (n : ℕ) → is_space n ≡ false → (eqb n 10 ≡ false) × (eqb n 13 ≡ false)
not_newline n h =
    (not_space n 10 h (unfold is_space in refl), not_space n 13 h (unfold is_space in refl))

translate-line :
    (l t : String)
    → every solid l ≡ true
    → translate false (l <> "\n" <> t) ≡ l <> "\n" <> translate false t
unfolding translate every ◌<>◌
translate-line String.[] t h = refl
translate-line (String.◌∷◌ c l) t h = ground (arith, not_newline (code c), translate-line l t)

split_lines-line :
    (l t : String)
    → every solid l ≡ true
    → split_lines (l <> "\n" <> t) ≡ (l <> "\n") ∷ split_lines t
unfolding split_lines every ◌<>◌
split_lines-line String.[] t h = refl
split_lines-line (String.◌∷◌ c l) t h = ground (arith, not_newline (code c), split_lines-line l t)

abbrev Solid : List String → Type 0
Solid = All (λ l. every solid l ≡ true)

translate-terminated :
    (ls : List String) → Solid ls → translate false (terminated ls) ≡ terminated ls
unfolding terminated translate
translate-terminated [] all = refl
translate-terminated (l ∷ ls) all =
    translate-line l (terminated ls) all.0
    ∙ ap (λ t. l <> "\n" <> t) (translate-terminated ls all.1)

split_lines-terminated :
    (ls : List String) → Solid ls → split_lines (terminated ls) ≡ map (λ l. l <> "\n") ls
unfolding terminated split_lines
split_lines-terminated [] all = refl
split_lines-terminated (l ∷ ls) all =
    split_lines-line l (terminated ls) all.0
    ∙ ap (λ k. (l <> "\n") ∷ k) (split_lines-terminated ls all.1)

read_lines-terminated :
    (ls : List String) → Solid ls → read_lines (terminated ls) ≡ map (λ l. l <> "\n") ls
unfolding read_lines
read_lines-terminated ls all =
    ap split_lines (translate-terminated ls all) ∙ split_lines-terminated ls all

-- A key and a value that a line can hold: without white space and colons, and a key that is not
-- empty and starts no comment.
pub record IsPlain (e : String × String) : Type 0 where
  pub key_solid : every solid e.0 ≡ true
  pub value_solid : every solid e.1 ≡ true
  pub key_free : has b':' e.0 ≡ false
  pub value_free : has b':' e.1 ≡ false
  pub no_comment : starts_with e.0 "#" ≡ false
  pub not_empty : (e.0 == "") ≡ false

-- The values that some entries give to a key.
abbrev pub given : String → Dict String → List String
given k [] = []
given k ((key, v) ∷ d) = let rest = given k d in if key == k then v ∷ rest else rest

every-append :
    (p : ℕ → Bool) (a b : String) → every p a ≡ true → every p b ≡ true → every p (a <> b) ≡ true
unfolding every ◌<>◌
every-append p String.[] b ha hb = hb
every-append p (String.◌∷◌ c a) b ha hb = ground (arith, every-append p a b)

line-solid : (e : String × String) → IsPlain e → every solid (line e) ≡ true
unfolding line ◌<>◌
line-solid (key, v) h = every-append solid key (":" <> v) h.key_solid (colon_solid v h.value_solid)
  where
    colon_solid : (v : String) → every solid v ≡ true → every solid (":" <> v) ≡ true
    colon_solid v e = unfold every in unfold is_space in e

starts_with-empty : (s : String) → starts_with s "" ≡ true
unfolding starts_with
starts_with-empty String.[] = refl
starts_with-empty (String.◌∷◌ c s) = refl

-- Whether a line is a comment shows in its first character.
starts_with-first :
    (c : Char) (s t : String) → starts_with (String.◌∷◌ c s) "#" ≡ starts_with (String.◌∷◌ c t) "#"
unfolding starts_with
starts_with-first c s t =
    ap (λ b. eqb (code c) b'#' && b) (starts_with-empty s ∙ sym (starts_with-empty t))

abbrev colon : Char
colon = Prim.Native.Char.char 58 tt

words_of_line : (e : String × String) → IsPlain e → split b':' (line e) ≡ e.0 ∷ e.1 ∷ []
unfolding line ◌<>◌
words_of_line (key, v) h =
    split-append b':' key colon v refl h.key_free
    ∙ ap (λ ws. key ∷ ws) (split-free b':' v h.value_free)

assigned-line :
    (k : String) (e : String × String) → IsPlain e → assigned k (line e <> "\n") ≡ given k (e ∷ [])
unfolding assigned word_of line ◌<>◌
assigned-line k (String.[], v) h = absurd (empty_key h.not_empty)
  where
    empty_key : ("" == "") ≡ false → ⊥
    empty_key q = cc (sym (eq_refl "") ∙ q)
assigned-line k (String.◌∷◌ c key, v) h =
    ap (λ b. if b then [] else word_of k (split b':' (strip (line (String.◌∷◌ c key, v) <> "\n"))))
      (starts_with-first c ((key <> ":" <> v) <> "\n") key ∙ h.no_comment)
    ∙ ap (λ s. word_of k (split b':' s))
        (strip-line c (key <> ":" <> v) (line-solid (String.◌∷◌ c key, v) h))
    ∙ ap (word_of k) (words_of_line (String.◌∷◌ c key, v) h)

lines-Solid : (d : Dict String) → All IsPlain d → Solid (map line d)
lines-Solid [] all = tt
lines-Solid (e ∷ d) all = (line-solid e all.0, lines-Solid d all.1)

given-cons :
    (k : String) (e : String × String) (d : Dict String)
    → given k (e ∷ []) ++ given k d ≡ given k (e ∷ d)
given-cons k (key, v) d = ground arith

assignments-lines :
    (k : String) (d : Dict String)
    → All IsPlain d
    → assignments k (map (λ l. l <> "\n") (map line d)) ≡ given k d
unfolding assignments
assignments-lines k [] all = refl
assignments-lines k (e ∷ d) all =
    ap (λ vs. vs ++ assignments k (map (λ l. l <> "\n") (map line d))) (assigned-line k e all.0)
    ∙ ap (λ vs. given k (e ∷ []) ++ vs) (assignments-lines k d all.1)
    ∙ given-cons k e d

read_lines-legacy_file :
    (e : String × String) (d : Dict String)
    → All IsPlain (e ∷ d)
    → read_lines (legacy_file (e ∷ d)) ≡ map (λ l. l <> "\n") (map line (e ∷ d))
unfolding legacy_file
read_lines-legacy_file e d all =
    ap read_lines (join-terminated (line e) (map line d))
    ∙ read_lines-terminated (map line (e ∷ d)) (lines-Solid (e ∷ d) all)

lookup-legacy_file :
    (k : String) (d : Dict String)
    → All IsPlain d
    → lookup k (load_parameter_file (legacy_file d) []) ≡ entry (given k d)
lookup-legacy_file k [] all = nothing_given k
  where
    nothing_given : (k : String) → lookup k (load_parameter_file (legacy_file []) []) ≡ none
    nothing_given k =
        lookup-load_parameter_file k (legacy_file [])
        ∙ (unfold legacy_file in
            unfold assignments in
            unfold strip in
            unfold is_space in unfold split in unfold starts_with in unfold read_lines in refl)
lookup-legacy_file k (e ∷ d) all =
    lookup-load_parameter_file k (legacy_file (e ∷ d))
    ∙ ap (λ ls. entry (assignments k ls)) (read_lines-legacy_file e d all)
    ∙ ap entry (assignments-lines k (e ∷ d) all)

-- A topology in YAML that has all that the conversion asks for, and whose keys and values are plain
-- (no white space, no colon, no key that is empty or starts a comment), is written as a file, and
-- loading that file gives each key the values of its entries.
pub lookup-yaml_topo_to_legacy :
    (t : YamlTopology) (entries : Dict String) (k : String)
    → legacy_entries t ≡ ok entries
    → All IsPlain entries
    → (yaml_topo_to_legacy t ≡ ok (legacy_file entries))
      × (lookup k (load_parameter_file (legacy_file entries) []) ≡ entry (given k entries))
unfolding yaml_topo_to_legacy
lookup-yaml_topo_to_legacy t entries k made all =
    (ap (λ r. r >>= λ d. ok (legacy_file d)) made, lookup-legacy_file k entries all)

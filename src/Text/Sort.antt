-- ===== src/Text/Sort.antt =====
-- `sorted` on texts: by code points.
use Prim.Native.String.{compare}
use text.Mathlib.Text.{is_le}
use minitopo.Base.Dict.{elem}
use minitopo.Base.{String, ◌==◌, arith, refl, ap, ◌∙◌, ◌||◌, List, [], ◌∷◌, ◌≡◌, if◌then◌else◌}

insert_sorted : String → List String → List String
insert_sorted s [] = s ∷ []
insert_sorted s (t ∷ ts) = if is_le (compare s t) then s ∷ t ∷ ts else t ∷ insert_sorted s ts

unfoldable pub sorted : List String → List String
unfolding insert_sorted
sorted [] = []
sorted (s ∷ ss) = insert_sorted s (sorted ss)

elem-insert_sorted :
    (k s : String) (ts : List String) → elem k (insert_sorted s ts) ≡ (s == k || elem k ts)
unfolding insert_sorted elem
elem-insert_sorted k s [] = refl
elem-insert_sorted k s (t ∷ ts) = ground (arith, elem-insert_sorted k s ts)

-- Sorting loses and adds nothing.
pub elem-sorted : (k : String) (ss : List String) → elem k (sorted ss) ≡ elem k ss
unfolding sorted elem
elem-sorted k [] = refl
elem-sorted k (s ∷ ss) =
    elem-insert_sorted k s (sorted ss) ∙ ap (λ b. s == k || b) (elem-sorted k ss)

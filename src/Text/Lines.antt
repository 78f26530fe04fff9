-- ===== src/Text/Lines.antt =====
-- `f.readlines()` over the text of a file that is opened for reading.
use minitopo.Base.{Char, code, String, Bool, false, ◌&&◌, List, [], ◌∷◌, eqb}
use minitopo.Base.{if◌then◌else◌}

abbrev newline : Char
newline = Prim.Native.Char.char 10 tt

-- Universal newlines: "\r\n" and "\r" are read as "\n".
unfoldable pub translate : Bool → String → String
translate after_cr String.[] = ""
translate after_cr (String.◌∷◌ c s) =
    let rest = translate (eqb (code c) 13) s in
    if eqb (code c) 13
    then String.◌∷◌ newline rest
    else if eqb (code c) 10 && after_cr
    then rest
    else String.◌∷◌ c rest

abbrev extend : Char → List String → List String
extend c [] = String.◌∷◌ c "" ∷ []
extend c (l ∷ ls) = String.◌∷◌ c l ∷ ls

-- Every line keeps its "\n".
unfoldable pub split_lines : String → List String
split_lines String.[] = []
split_lines (String.◌∷◌ c s) =
    let rest = split_lines s in if eqb (code c) 10 then String.◌∷◌ c "" ∷ rest else extend c rest

unfoldable pub read_lines : String → List String
unfolding translate split_lines
read_lines text = split_lines (translate false text)

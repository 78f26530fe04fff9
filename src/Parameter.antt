-- ===== src/Parameter.antt =====
-- core/parameter.py: the parameters of a configuration file.
pub mod Loading
use minitopo.Base.{ℕ, String, ◌==◌, Bool, true, false, Option, none, some, List, [], ◌∷◌, ◌++◌}
use minitopo.Base.{if◌then◌else◌, map}
use minitopo.Base.Dict.{Dict, lookup, insert}
use minitopo.Errors.{Error, exception, Result, ok, err}
use minitopo.Text.{starts_with, strip, ◌<>◌, concat, join}
use minitopo.Text.Split.{split}
use minitopo.Text.Lines.{read_lines}

-- What a key holds: a text, or the list of them where the file gives the key again.
pub data Value : Type 0 where
  text : String → Value
  several : List String → Value

pub record Parameter : Type 0 where
  pub parameters : Dict Value
  pub default_parameters : Dict String

-- The branches on `key in self.parameters` and `isinstance(..., list)`.
unfoldable pub append_value : Option Value → String → Value
append_value none value = text value
append_value (some (text first)) value = several (first ∷ value ∷ [])
append_value (some (several values)) value = several (values ++ value ∷ [])

-- The body of the loop behind the comment test. A line that is not two words is left out, with a
-- warning.
unfoldable pub add_words : List String → Dict Value → Dict Value
add_words (key ∷ value ∷ []) d = insert key (append_value (lookup key d) value) d
add_words _ d = d

unfoldable pub load_line : String → Dict Value → Dict Value
unfolding add_words
load_line line d = if starts_with line "#" then d else add_words (split b':' (strip line)) d

unfoldable pub load_lines : List String → Dict Value → Dict Value
unfolding load_line
load_lines [] d = d
load_lines (line ∷ lines) d = load_lines lines (load_line line d)

-- `load_parameter_file`, given the text of the file.
unfoldable pub load_parameter_file : String → Dict Value → Dict Value
unfolding load_lines read_lines
load_parameter_file contents d = load_lines (read_lines contents) d

-- `Parameter(filename)`; none where no file is given.
unfoldable pub init : Option String → Parameter
unfolding load_parameter_file
init none = record { parameters = []; default_parameters = [] }
init (some contents) = record {
  parameters = load_parameter_file contents [];
  default_parameters = [];
}

or_default : Option String → String → Result Value
unfolding ◌<>◌
or_default (some d) key = ok (text d)
or_default none key = err (exception ("Parameter not found " <> key))

unfoldable pub get : Parameter → String → Result Value
unfolding or_default
get p key = elim (lookup key p.parameters) [
  | some value ↦ ok value
  | none ↦ or_default (lookup key p.default_parameters) key
]

-- What an f-string or `format` makes of a value; of a list, where its texts hold no quote and no backslash.
quoted : String → String
unfolding concat
quoted s = concat ("'" ∷ s ∷ "'" ∷ [])

unfoldable pub formatted : Value → String
unfolding concat join quoted
formatted (text s) = s
formatted (several ss) = concat ("[" ∷ join ", " (map quoted ss) ∷ "]" ∷ [])

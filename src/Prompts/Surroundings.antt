-- ===== src/Prompts/Surroundings.antt =====
-- src/orchestra/prompts/parsers.py: the text around the object of an answer.
use Prim.Native.Char.{Char}
use Prim.Native.String.{◌++◌ as str_append}
use codename_madagascar.Prelude.{String, string_eq}
use codename_madagascar.Prompts.{Texts}

abbrev one : Char → String
one c = String.◌∷◌ c String.[]

-- The object: an opening brace, any text, and a closing brace.
abbrev pub braces : String → String
braces inner = str_append "{" (str_append inner "}")

abbrev body : String → String → String
body inner after = String.◌∷◌ "{" (str_append inner (String.◌∷◌ "}" after))

abbrev opening : String → String → String
opening before inner = str_append before (String.◌∷◌ "{" inner)

-- ===== src/Prelude/Texts.antt =====
-- Python's `str` where the program looks into it: slices, blanks, case and suffixes.
use Prim.Native.Nat.{ℕ, zero, suc, ◌-◌}
use Prim.Native.Char.{Char, code}
use Prim.Native.String.{String}
use mathlib.Core.Bool.{Bool, true, ◌&&◌, ◌||◌}
use mathlib.Core.Option.{Option, none, some}
use codename_madagascar.Prelude.Tests.{nat_beq, leb, if◌then◌else◌}
use codename_madagascar.Prelude.Equality.{◌==◌, string_eq}

-- `text[:n]`
unfoldable pub prefix : ℕ → String → String
prefix zero text = String.[]
prefix (suc n) String.[] = String.[]
prefix (suc n) (String.◌∷◌ c rest) = String.◌∷◌ c (prefix n rest)

-- The white space of ASCII.
abbrev pub is_space : Char → Bool
is_space c = nat_beq (code c) 32 || (leb 9 (code c) && leb (code c) 13)

-- `not text.strip()`
unfoldable pub is_blank : String → Bool
is_blank String.[] = true
is_blank (String.◌∷◌ c rest) = is_space c && is_blank rest

-- `text.endswith(suffix)`
unfoldable pub ends_with : String → String → Bool
ends_with String.[] suffix = String.[] == suffix
ends_with (String.◌∷◌ c rest) suffix =
    let later = ends_with rest suffix in String.◌∷◌ c rest == suffix || later

-- `text.startswith(start)`
unfoldable pub starts_with : String → String → Bool
starts_with String.[] start = start == String.[]
starts_with (String.◌∷◌ c rest) String.[] = true
starts_with (String.◌∷◌ c rest) (String.◌∷◌ d start) =
    nat_beq (code c) (code d) && starts_with rest start

-- `part in text`
unfoldable pub occurs : String → String → Bool
occurs part String.[] = part == String.[]
occurs part (String.◌∷◌ c rest) =
    let later = occurs part rest in starts_with (String.◌∷◌ c rest) part || later

unfoldable pub text_length : String → ℕ
text_length String.[] = 0
text_length (String.◌∷◌ c rest) = suc (text_length rest)

unfoldable pub drop : ℕ → String → String
drop zero text = text
drop (suc n) String.[] = String.[]
drop (suc n) (String.◌∷◌ c rest) = drop n rest

-- `text[-n:]`
unfoldable pub last_part : ℕ → String → String
unfolding text_length drop
last_part n text = drop (text_length text - n) text

-- `text.find(c)` and `text.rfind(c)` of one character, with none for -1
unfoldable pub find : String → String → Option ℕ
find c String.[] = none
find c (String.◌∷◌ d rest) = if String.◌∷◌ d String.[] == c then some 0 else next (find c rest)
  where
    next : Option ℕ → Option ℕ
    next none = none
    next (some n) = some (suc n)

unfoldable pub rfind : String → String → Option ℕ
rfind c String.[] = none
rfind c (String.◌∷◌ d rest) = later (rfind c rest)
  where
    later : Option ℕ → Option ℕ
    later none = if String.◌∷◌ d String.[] == c then some 0 else none
    later (some n) = some (suc n)

-- `text[start:stop]`
unfoldable pub slice : ℕ → ℕ → String → String
unfolding prefix drop
slice start stop text = prefix (stop - start) (drop start text)

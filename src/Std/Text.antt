-- ===== src/Std/Text.antt =====
-- `String` and `&str` as the list of their bytes.
use Prim.Native.String.{String}
use Prim.Native.Char.{code}
use zk_pse.Base.{
  ℕ, zero, suc, ◌+◌, ◌/◌, ◌%◌, ltb, if◌then◌else◌, List, [], ◌∷◌, ◌++◌, Bool, true, false, ◌&&◌,
  ◌==◌,
}

abbrev pub Text : Type 0
Text = List ℕ

-- The bytes of an ASCII literal.
abbrev pub bytes : String → Text
bytes String.[] = []
bytes (String.◌∷◌ c s) = code c ∷ bytes s

-- `text.starts_with(prefix)`
abbrev pub starts_with : Text → Text → Bool
starts_with text [] = true
starts_with [] (p ∷ prefix) = false
starts_with (c ∷ text) (p ∷ prefix) = c == p && starts_with text prefix

-- `text.ends_with(c)` for one ASCII character
abbrev pub ends_with_char : Text → ℕ → Bool
ends_with_char [] c = false
ends_with_char (b ∷ []) c = b == c
ends_with_char (b ∷ a ∷ text) c = ends_with_char (a ∷ text) c

-- The decimal digits of a number. It is fuel enough for itself.
unfoldable pub digits : ℕ → ℕ → Text
digits zero n = []
digits (suc fuel) n =
    let rest = digits fuel (n / 10) in
    if ltb n 10 then (48 + n) ∷ [] else rest ++ (48 + n % 10) ∷ []

-- `{}` in a format string, at a number
unfoldable pub decimal : ℕ → Text
unfolding digits
decimal n = digits (suc n) n

-- the pieces of a format string, one after another
unfoldable pub cat : List Text → Text
cat [] = []
cat (t ∷ ts) = t ++ cat ts

-- `join(separator)`
unfoldable pub join : Text → List Text → Text
join separator [] = []
join separator (t ∷ []) = t
join separator (t ∷ u ∷ ts) = t ++ separator ++ join separator (u ∷ ts)

-- ===== src/Tests/Ascii.antt =====
-- The runtime's tables on ASCII text, as a value of the parameter `Unicode`.
use Prim.Native.Char.{Char, code}
use Prim.Native.String.{String}
use jim_agent.Prelude.{ℕ, ◌-◌, Bool, ◌&&◌, ◌||◌, leb, ◌==◌, if◌then◌else◌}
use jim_agent.Prelude.Runtime.{Unicode}
use jim_agent.Prelude.Split.{cons}

abbrev is_digit : ℕ → Bool
is_digit n = leb b'0' n && leb n b'9'

abbrev is_space : ℕ → Bool
is_space n = n == 32 || (leb 9 n && leb n 13) || (leb 28 n && leb n 31)

abbrev is_upper : ℕ → Bool
is_upper n = leb b'A' n && leb n b'Z'

abbrev is_lower : ℕ → Bool
is_lower n = leb b'a' n && leb n b'z'

abbrev is_word : ℕ → Bool
is_word n = is_digit n || is_upper n || is_lower n || n == b'_'

-- The letter of an alphabet by its place.
abbrev pub letter : ℕ → String → Char → Char
letter n String.[] c = c
letter n (String.◌∷◌ d s) c = if n == 0 then d else letter (n - 1) s c

abbrev pub lower_char : Char → Char
lower_char c =
    if is_upper (code c) then letter (code c - b'A') "abcdefghijklmnopqrstuvwxyz" c else c

abbrev pub upper_char : Char → Char
upper_char c =
    if is_lower (code c) then letter (code c - b'a') "ABCDEFGHIJKLMNOPQRSTUVWXYZ" c else c

abbrev pub map_text : (Char → Char) → String → String
map_text f String.[] = ""
map_text f (String.◌∷◌ c s) = cons (f c) (map_text f s)

abbrev pub ascii : Unicode
ascii = record {
  is_digit = is_digit;
  is_space = is_space;
  is_word = is_word;
  lower = map_text lower_char;
  upper = map_text upper_char;
}

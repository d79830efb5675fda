-- ===== src/Tests/Identifiers.antt =====
-- Identifiers as they come in, with the ASCII tables.
use Prim.Native.Char.{Char, code}
use Prim.Native.String.{String}
use jim_agent.Prelude.{ℕ, ◌-◌, ◌≡◌, refl, true, inl, inr, arith, Bool-cases, leb, ◌==◌, ◌&&◌}
use jim_agent.Prelude.Regex.Reach.{all_codes, not_newline}
use jim_agent.Research.Identifiers.{
  canonical, refused, unclean, bad_ticker, bad_token, canonicalize, fundamentals_re, token_re,
}
use jim_agent.Research.Identifiers.Allowed.{IsPlain, canonicalize-IsPlain}
use jim_agent.Tests.Ascii.{ascii, letter, map_text, upper_char, lower_char}

letter_clean :
    (n : ℕ) (alphabet : String) (c : Char)
    → all_codes not_newline alphabet ≡ true
    → not_newline (code c) ≡ true
    → not_newline (code (letter n alphabet c)) ≡ true
unfolding all_codes
letter_clean n String.[] c ha hc = hc
letter_clean n (String.◌∷◌ d s) c ha hc = elim (Bool-cases (n == 0)) [
  | inl e ↦ rw e (ground (arith, ha))
  | inr e ↦ rw e (letter_clean (n - 1) s c (ground (arith, ha)) hc)
]

map_clean :
    (f : Char → Char) (s : String)
    → ((c : Char) → not_newline (code c) ≡ true → not_newline (code (f c)) ≡ true)
    → all_codes not_newline s ≡ true
    → all_codes not_newline (map_text f s) ≡ true
unfolding all_codes
map_clean f String.[] h e = refl
map_clean f (String.◌∷◌ c s) h e = ground (arith, h c, map_clean f s h)

upper_clean : (c : Char) → not_newline (code c) ≡ true → not_newline (code (upper_char c)) ≡ true
unfolding all_codes
upper_clean c h = elim (Bool-cases (leb b'a' (code c) && leb (code c) b'z')) [
  | inl e ↦ rw e (letter_clean (code c - b'a') "ABCDEFGHIJKLMNOPQRSTUVWXYZ" c refl h)
  | inr e ↦ rw e h
]

lower_clean : (c : Char) → not_newline (code c) ≡ true → not_newline (code (lower_char c)) ≡ true
unfolding all_codes
lower_clean c h = elim (Bool-cases (leb b'A' (code c) && leb (code c) b'Z')) [
  | inl e ↦ rw e (letter_clean (code c - b'A') "abcdefghijklmnopqrstuvwxyz" c refl h)
  | inr e ↦ rw e h
]

class_share : canonicalize ascii " brk.b " "fundamentals" ≡ canonical "BRK.B"
unfolding canonicalize fundamentals_re
class_share = refl

on_base : canonicalize ascii "WETH:Base" "token" ≡ canonical "WETH:base"
unfolding canonicalize token_re
on_base = refl

traversal : canonicalize ascii "../../etc" "fundamentals" ≡ refused bad_ticker
unfolding canonicalize fundamentals_re
traversal = refl

query_sign : canonicalize ascii "WETH?x=1" "token" ≡ refused bad_token
unfolding canonicalize token_re
query_sign = refl

two_lines : canonicalize ascii "US\nX" "macro" ≡ refused unclean
unfolding canonicalize
two_lines = refl

canonicalize-IsPlain_example : IsPlain "WETH:base"
canonicalize-IsPlain_example =
    canonicalize-IsPlain ascii (λ s. map_clean upper_char s upper_clean)
      (λ s. map_clean lower_char s lower_clean) "WETH:Base" "token" "WETH:base" on_base

-- ===== src/Research/Identifiers.antt =====
-- src/jim/research/identifiers.py: what may go into URLs, queries and keys. A refusal is a value, its
-- texts left out.
pub mod Allowed
use Prim.Native.Char.{code}
use Prim.Native.String.{count}
use jim_agent.Prelude.{
  ℕ, zero, suc, ◌-◌, String, append, Bool, true, false, not, ◌&&◌, ◌||◌, Option, none, some, List,
  [], ◌∷◌, str_eq, truthy, leb, ltb, ◌==◌, is_some, fmt, if◌then◌else◌,
}
use jim_agent.Prelude.Runtime.{Unicode}
use jim_agent.Prelude.Split.{strip, cons}
use jim_agent.Prelude.Regex.{Regex, opt, among, times, seqs, match_start, has_code}
use jim_agent.Prelude.Regex.Reach.{all_codes}

pub data Refusal : Type 0 where
  empty too_long unclean bad_ticker bad_token bad_macro bad_identifier : Refusal

pub data Canonical : Type 0 where
  canonical : String → Canonical
  refused : Refusal → Canonical

-- `{1,n}` and `{m,n}` of a class
unfoldable pub up_to : ℕ → Regex → Regex
up_to zero r = Regex.nothing
up_to (suc n) r = opt (Regex.seq r (up_to n r))

abbrev pub from_one_to : ℕ → Regex → Regex
from_one_to n r = Regex.seq r (up_to (n - 1) r)

abbrev pub in_range : ℕ → ℕ → ℕ → Bool
in_range a b n = leb a n && leb n b

abbrev pub is_upper : ℕ → Bool
is_upper = in_range b'A' b'Z'

abbrev pub is_lower : ℕ → Bool
is_lower = in_range b'a' b'z'

abbrev pub is_digit : ℕ → Bool
is_digit = in_range b'0' b'9'

-- `[A-Z0-9.\-]`, `[A-Za-z0-9.\-]` and `[a-z0-9\-]`
abbrev pub ticker_char : ℕ → Bool
ticker_char n = is_upper n || is_digit n || n == b'.' || n == b'-'

abbrev pub symbol_char : ℕ → Bool
symbol_char n = is_upper n || is_lower n || is_digit n || n == b'.' || n == b'-'

abbrev pub chain_char : ℕ → Bool
chain_char n = is_lower n || is_digit n || n == b'-'

abbrev pub hex_char : ℕ → Bool
hex_char n = is_digit n || in_range b'a' b'f' n || in_range b'A' b'F' n

abbrev pub generic_char : ℕ → Bool
generic_char n = symbol_char n || n == b':'

-- The allowlists, without their `$`.
unfoldable pub fundamentals_re : Regex
unfolding up_to
fundamentals_re = from_one_to 10 (Regex.one ticker_char)

unfoldable pub token_re : Regex
unfolding up_to
token_re =
    Regex.seq
      (Regex.alt
        (Regex.seq (Regex.one (λ n. n == b'0'))
          (Regex.seq (Regex.one (λ n. n == b'x')) (times 40 (Regex.one hex_char))))
        (from_one_to 20 (Regex.one symbol_char)))
      (opt (Regex.seq (Regex.one (λ n. n == b':')) (from_one_to 20 (Regex.one chain_char))))

unfoldable pub macro_re : Regex
unfolding up_to
macro_re = Regex.seq (Regex.one is_upper) (from_one_to 7 (Regex.one is_upper))

unfoldable pub generic_re : Regex
unfolding up_to
generic_re = from_one_to 40 (Regex.one generic_char)

abbrev pub max_length : ℕ
max_length = 80

-- `partition(":")`: what stands before the first colon, and what follows it if there is one
unfoldable pub partition : ℕ → String → String × Option String
partition sep String.[] = ("", none)
partition sep (String.◌∷◌ c s) =
    let rest = partition sep s in if code c == sep then ("", some s) else (cons c rest.0, rest.1)

module _ (U : Unicode) where
  abbrev pub unclean_char : ℕ → Bool
  unclean_char n = U.is_space n || ltb n 32 || n == 127

  unfoldable pub admit : Regex → String → Refusal → Canonical
  unfolding match_start
  admit r candidate why =
      if is_some (match_start U (Regex.seq r Regex.line_end) candidate)
      then canonical candidate
      else refused why

  unfoldable pub lowered_chain : String → String
  unfolding partition
  lowered_chain cleaned =
      let (token, rest) = partition b':' cleaned in
      elim rest [ none ↦ cleaned | some chain ↦ fmt (token ∷ ":" ∷ U.lower chain ∷ []) ]

  unfoldable pub for_product : String → String → Canonical
  unfolding admit lowered_chain
  for_product cleaned product =
      if str_eq product "fundamentals"
      then admit fundamentals_re (U.upper cleaned) bad_ticker
      else if str_eq product "token"
      then admit token_re (lowered_chain cleaned) bad_token
      else if str_eq product "macro"
      then admit macro_re (U.upper cleaned) bad_macro
      else admit generic_re cleaned bad_identifier

  unfoldable pub canonicalize : String → String → Canonical
  unfolding strip for_product all_codes
  canonicalize identifier product =
      let cleaned = strip U identifier in
      if not (truthy cleaned)
      then refused empty
      else if ltb max_length (count cleaned)
      then refused too_long
      else if not (all_codes (λ n. not (unclean_char n)) cleaned)
      then refused unclean
      else for_product cleaned product

-- ===== src/Tests/Milli.antt =====
-- A value of the parameter `Floats`: numbers with three decimals, as integers in thousandths.
use Prim.Native.Char.{code}
use Prim.Native.String.{String}
use jim_agent.Prelude.{
  ℕ, zero, suc, ◌+◌, ◌-◌, ◌*◌, ◌/◌, ◌^◌, Bool, true, false, ◌&&◌, leb, ◌==◌, if◌then◌else◌, Option,
  none, some,
}
use jim_agent.Prelude.Int.{ℤ, pos, negsuc, abs, pos_part, neg_part, sub_ℕ, ◌+ℤ◌, ◌-ℤ◌, leb_ℤ, ltb_ℤ}
use jim_agent.Prelude.Decimal.{show}
use jim_agent.Prelude.Runtime.{Floats}

abbrev is_negative : ℤ → Bool
is_negative (pos n) = false
is_negative (negsuc n) = true

abbrev negate : ℤ → ℤ
negate a = sub_ℕ (neg_part a) (pos_part a)

-- The magnitude `n` with the sign of a product.
abbrev signed : Bool → Bool → ℕ → ℤ
signed true true n = pos n
signed false false n = pos n
signed true false n = sub_ℕ 0 n
signed false true n = sub_ℕ 0 n

-- The digits of a text after `n`, and at most three decimals; the place counts those left.
abbrev decimals : ℕ → ℕ → String → Option ℕ
decimals n place String.[] = some (n * 10 ^ place)
decimals n zero (String.◌∷◌ c s) =
    if leb 48 (code c) && leb (code c) 57 then decimals n 0 s else none
decimals n (suc place) (String.◌∷◌ c s) =
    if leb 48 (code c) && leb (code c) 57 then decimals (n * 10 + (code c - 48)) place s else none

abbrev whole : ℕ → String → Option ℕ
whole n String.[] = some (n * 1000)
whole n (String.◌∷◌ c s) =
    if leb 48 (code c) && leb (code c) 57
    then whole (n * 10 + (code c - 48)) s
    else if code c == 46
    then decimals n 3 s
    else none

abbrev positive : Option ℕ → Option ℤ
positive none = none
positive (some n) = some (pos n)

abbrev negative : Option ℕ → Option ℤ
negative none = none
negative (some n) = some (sub_ℕ 0 n)

abbrev parse : String → Option ℤ
parse String.[] = none
parse (String.◌∷◌ c s) =
    if code c == 45 then negative (whole 0 s) else positive (whole 0 (String.◌∷◌ c s))

abbrev numeral : String → ℤ
numeral s = elim (parse s) [ none ↦ pos 0 | some n ↦ n ]

abbrev pub milli : Floats
milli = record {
  Real = ℤ;
  decimal = λ n k. pos (n * 1000 / 10 ^ k);
  add = ◌+ℤ◌;
  sub = ◌-ℤ◌;
  mul = λ a b. signed (is_negative a) (is_negative b) (abs a * abs b / 1000);
  div = λ a b. signed (is_negative a) (is_negative b) (abs a * 1000 / abs b);
  neg = negate;
  absolute = λ a. pos (abs a);
  lt = ltb_ℤ;
  le = leb_ℤ;
  eq = λ a b. leb_ℤ a b && leb_ℤ b a;
  parse = parse;
  numeral = numeral;
  round = λ a k. a;
  show = λ format a. show (abs a / 1000);
}

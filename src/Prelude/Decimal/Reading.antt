-- ===== src/Prelude/Decimal/Reading.antt =====
-- `int(s)` of a text of ASCII digits, and that it reads back what `str(n)` wrote.
use Prim.Native.Nat.{ℕ, zero, suc, ◌+◌, ◌-◌, ◌*◌, ◌/◌, ◌%◌, ◌<◌}
use Prim.Native.Char.{code}
use Prim.Native.String.{String, ◌++◌ as append}
use Prim.Native.String.append as append_clauses
use mathlib.Core.Path.{◌≡◌, refl}
use mathlib.Core.Logic.{inl, inr}
use mathlib.Core.Bool.{Bool, ◌&&◌}
use mathlib.Core.Option.{Option, none, some}
use native.Mathlib.Omega.{arith}
use jim_agent.Prelude.Tests.{ltb, leb, if◌then◌else◌, Bool-cases}
use jim_agent.Prelude.Decimal.{digit, digits, show}

abbrev pub is_decimal : ℕ → Bool
is_decimal n = leb b'0' n && leb n b'9'

-- The number that the digits continue.
unfoldable pub read_onto : ℕ → String → Option ℕ
read_onto acc String.[] = some acc
read_onto acc (String.◌∷◌ c s) =
    let rest = read_onto (acc * 10 + (code c - b'0')) s in
    if is_decimal (code c) then rest else none

unfoldable pub read : String → Option ℕ
unfolding read_onto
read String.[] = none
read (String.◌∷◌ c s) = read_onto 0 (String.◌∷◌ c s)

abbrev then_read : Option ℕ → String → Option ℕ
then_read none t = none
then_read (some n) t = read_onto n t

read_onto-append :
    (acc : ℕ) (s t : String) → read_onto acc (append s t) ≡ then_read (read_onto acc s) t
unfolding read_onto
read_onto-append acc String.[] t = rw append_clauses.nil refl
read_onto-append acc (String.◌∷◌ c s) t =
    rw append_clauses.cons (elim (Bool-cases (is_decimal (code c))) [
      | inl e ↦ rw (e, read_onto) (read_onto-append (acc * 10 + (code c - b'0')) s t)
      | inr e ↦ rw (e, read_onto) refl
    ])

read_onto-digit : (acc d : ℕ) → d < 10 → read_onto acc (digit d) ≡ some (acc * 10 + d)
unfolding read_onto digit
read_onto-digit acc zero h = refl
read_onto-digit acc (suc zero) h = refl
read_onto-digit acc (suc (suc zero)) h = refl
read_onto-digit acc (suc (suc (suc zero))) h = refl
read_onto-digit acc (suc (suc (suc (suc zero)))) h = refl
read_onto-digit acc (suc (suc (suc (suc (suc zero))))) h = refl
read_onto-digit acc (suc (suc (suc (suc (suc (suc zero)))))) h = refl
read_onto-digit acc (suc (suc (suc (suc (suc (suc (suc zero))))))) h = refl
read_onto-digit acc (suc (suc (suc (suc (suc (suc (suc (suc zero)))))))) h = refl
read_onto-digit acc (suc (suc (suc (suc (suc (suc (suc (suc (suc zero))))))))) h = refl
read_onto-digit acc (suc (suc (suc (suc (suc (suc (suc (suc (suc (suc n)))))))))) h =
    absurd (omega arith)

read_onto-digits : (fuel n : ℕ) → n < fuel → read_onto 0 (digits fuel n) ≡ some n
unfolding digits
read_onto-digits zero n h = absurd (omega arith)
read_onto-digits (suc fuel) n h = elim (Bool-cases (ltb n 10)) [
  | inl small ↦ rw (small, digits) (ground (arith, read_onto-digit 0 n))
  | inr large ↦
      rw (large, digits)
        (rw (read_onto-append 0 (digits fuel (n / 10)) (digit (n % 10))) (
          rw (read_onto-digits fuel (n / 10) (ground arith))
            (ground (arith, read_onto-digit (n / 10) (n % 10)))))
]

zero-show : show 0 ≡ "0"
unfolding show
zero-show = refl

read_written : (n : ℕ) (s : String) → show n ≡ s → read_onto 0 s ≡ some n → read s ≡ some n
unfolding read read_onto
read_written n String.[] e h =
    let z : n ≡ 0 = ground arith in let empty : show 0 ≡ "" = rw z at e in cc (zero-show, empty)
read_written n (String.◌∷◌ c s) e h = h

-- What was written is read back.
pub read-show : (n : ℕ) → read (show n) ≡ some n
unfolding show
read-show n = read_written n (show n) refl (read_onto-digits (suc n) n (omega arith))

-- ===== src/Tests/Clock.antt =====
-- A value of the parameter `Iso`: a time as a mark and as many strokes.
use Prim.Native.String.{String}
use jim_agent.Prelude.{ℕ, zero, suc, ◌≡◌, refl, Option, none, some, arith}
use jim_agent.Prelude.Runtime.{Iso}

abbrev strokes : ℕ → String
strokes zero = ""
strokes (suc n) = String.◌∷◌ "I" (strokes n)

abbrev counted : String → ℕ
counted String.[] = 0
counted (String.◌∷◌ c s) = suc (counted s)

abbrev unmarked : String → Option ℕ
unmarked String.[] = none
unmarked (String.◌∷◌ c s) = some (counted s)

abbrev pub strokes_iso : Iso
strokes_iso = record { isoformat = λ t. String.◌∷◌ "T" (strokes t); fromisoformat = unmarked }

counted-strokes : (n : ℕ) → counted (strokes n) ≡ n
counted-strokes zero = refl
counted-strokes (suc n) = ground (arith, counted-strokes n)

pub reads_back : (t : ℕ) → strokes_iso.fromisoformat (strokes_iso.isoformat t) ≡ some t
reads_back t = ground (arith, counted-strokes t)

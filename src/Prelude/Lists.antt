-- ===== src/Prelude/Lists.antt =====
-- Lists measured by native numbers, and the predicates by recursion that proofs use.
use Prim.Native.Nat.{ℕ, zero, suc, ◌+◌, ◌≤◌}
use mathlib.Core.Path.{◌≡◌, refl}
use mathlib.Core.Logic.{◌⊎◌, inl, inr}
use mathlib.Core.Bool.{Bool, true, false, ◌&&◌, ◌||◌}
use mathlib.Core.List.{List, [], ◌∷◌, ◌++◌}
use native.Mathlib.Omega.{arith}
use jim_agent.Prelude.Tests.{Bool-cases, if◌then◌else◌}

module _ {ℓ} {A : Type ℓ} where
  abbrev pub length : List A → ℕ
  length [] = 0
  length (x ∷ xs) = suc (length xs)

  -- `not xs`
  abbrev pub is_nil : List A → Bool
  is_nil [] = true
  is_nil (x ∷ xs) = false

  abbrev pub any : (A → Bool) → List A → Bool
  any p [] = false
  any p (x ∷ xs) = p x || any p xs

  abbrev pub all : (A → Bool) → List A → Bool
  all p [] = true
  all p (x ∷ xs) = p x && all p xs

  -- `[x for x in xs if p(x)]`
  abbrev pub keep : (A → Bool) → List A → List A
  keep p [] = []
  keep p (x ∷ xs) = let rest = keep p xs in if p x then x ∷ rest else rest

  -- `xs[:n]`
  abbrev pub first : ℕ → List A → List A
  first zero xs = []
  first (suc n) [] = []
  first (suc n) (x ∷ xs) = x ∷ first n xs

  -- `sorted`, which keeps the order of what is equal, by a test for less than
  abbrev pub insert_by : (A → A → Bool) → A → List A → List A
  insert_by lt x [] = x ∷ []
  insert_by lt x (y ∷ ys) = let rest = insert_by lt x ys in if lt y x then y ∷ rest else x ∷ y ∷ ys

  abbrev pub sort_by : (A → A → Bool) → List A → List A
  sort_by lt [] = []
  sort_by lt (x ∷ xs) = insert_by lt x (sort_by lt xs)

  pub length-append : (xs ys : List A) → length (xs ++ ys) ≡ length xs + length ys
  length-append [] ys = omega arith
  length-append (x ∷ xs) ys = omega (arith, length-append xs ys)

  pub length-keep-le : (p : A → Bool) (xs : List A) → length (keep p xs) ≤ length xs
  length-keep-le p [] = omega arith
  length-keep-le p (x ∷ xs) = ground (arith, length-keep-le p xs)

module _ {ℓ κ} {A : Type ℓ} where
  abbrev pub All : (A → Type κ) → List A → Type κ
  All P [] = Unit
  All P (x ∷ xs) = P x × All P xs

  pub All-append : (P : A → Type κ) (xs ys : List A) → All P xs → All P ys → All P (xs ++ ys)
  All-append P [] ys hx hy = hy
  All-append P (x ∷ xs) ys hx hy = (hx.0, All-append P xs ys hx.1 hy)

-- `x in xs`, with the place
abbrev pub In : {A : Type 0} → A → List A → Type 0
In x [] = ⊥
In x (y ∷ ys) = (x ≡ y) ⊎ In x ys

pub all-In :
    {A : Type 0} (p : A → Bool) (xs : List A) {x : A} → all p xs ≡ true → In x xs → p x ≡ true
all-In p [] h i = absurd i
all-In p (y ∷ ys) h (inl e) = rw e (ground arith)
all-In p (y ∷ ys) h (inr i) = all-In p ys (ground arith) i

pub any-In :
    {A : Type 0} (p : A → Bool) (xs : List A) → any p xs ≡ true → (x : A) × In x xs × (p x ≡ true)
any-In p [] h = cc
any-In p (y ∷ ys) h = elim (Bool-cases (p y)) [
  | inl e ↦ (y, inl refl, e)
  | inr e ↦ let (x, i, q) = any-In p ys (ground arith) in (x, inr i, q)
]

pub In-any :
    {A : Type 0} (p : A → Bool) (xs : List A) {x : A} → In x xs → p x ≡ true → any p xs ≡ true
In-any p [] i h = absurd i
In-any p (y ∷ ys) (inl e) h = let q : p y ≡ true = rw (← e) h in ground arith
In-any p (y ∷ ys) (inr i) h = ground (arith, In-any p ys i h)

module _ {A : Type 0} where
  pub In-insert_by :
      (lt : A → A → Bool) (x y : A) (ys : List A) → (x ≡ y) ⊎ In x ys → In x (insert_by lt y ys)
  In-insert_by lt x y [] h = h
  In-insert_by lt x y (z ∷ zs) h = elim (Bool-cases (lt z y)) [
    | inr e ↦ rw e h
    | inl e ↦ rw e (elim h [
      | inl same ↦ inr (In-insert_by lt x y zs (inl same))
      | inr (inl first) ↦ inl first
      | inr (inr later) ↦ inr (In-insert_by lt x y zs (inr later))
    ])
  ]

  pub In-sort_by : (lt : A → A → Bool) (x : A) (xs : List A) → In x xs → In x (sort_by lt xs)
  In-sort_by lt x [] i = absurd i
  In-sort_by lt x (y ∷ ys) (inl e) = In-insert_by lt x y (sort_by lt ys) (inl e)
  In-sort_by lt x (y ∷ ys) (inr i) =
      In-insert_by lt x y (sort_by lt ys) (inr (In-sort_by lt x ys i))

  pub All-insert_by :
      (P : A → Type 0) (lt : A → A → Bool) (y : A) (ys : List A)
      → P y
      → All P ys
      → All P (insert_by lt y ys)
  All-insert_by P lt y [] here h = (here, tt)
  All-insert_by P lt y (z ∷ zs) here h = elim (Bool-cases (lt z y)) [
    | inl e ↦ rw e (h.0, All-insert_by P lt y zs here h.1)
    | inr e ↦ rw e (here, h)
  ]

  pub All-sort_by :
      (P : A → Type 0) (lt : A → A → Bool) (xs : List A) → All P xs → All P (sort_by lt xs)
  All-sort_by P lt [] h = tt
  All-sort_by P lt (x ∷ xs) h = All-insert_by P lt x (sort_by lt xs) h.0 (All-sort_by P lt xs h.1)

  -- What holds of each member holds of all.
  pub All-of : (P : A → Type 0) (xs : List A) → ((x : A) → In x xs → P x) → All P xs
  All-of P [] h = tt
  All-of P (x ∷ xs) h = (h x (inl refl), All-of P xs (λ y i. h y (inr i)))

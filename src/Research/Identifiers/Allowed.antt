-- ===== src/Research/Identifiers/Allowed.antt =====
-- What an identifier that was let in is made of.
use Prim.Native.Char.{code}
use Prim.Native.String.{count}
use jim_agent.Prelude.{
  ℕ, zero, suc, ◌≤◌, String, ◌≡◌, refl, subst, Bool, true, not, some, [], ◌∷◌, arith, inl, inr,
  Bool-cases, Option-cases, str_eq, truthy, ltb, ◌==◌, is_some, fmt,
}
use jim_agent.Prelude.Runtime.{Unicode}
use jim_agent.Prelude.Split.{strip}
use jim_agent.Prelude.Regex.{Regex, match_start, times}
use jim_agent.Prelude.Regex.Reach.{
  all_codes, Within, longest, not_newline, anchored_match, all_codes-append, all_codes-weaken,
}
use jim_agent.Research.Identifiers.{
  Canonical, canonical, refused, Refusal, up_to, ticker_char, symbol_char, chain_char, hex_char,
  generic_char, is_upper, fundamentals_re, token_re, macro_re, generic_re, partition, unclean_char,
  admit, lowered_chain, for_product, canonicalize, max_length,
}

pub Within-up_to : (p : ℕ → Bool) (n : ℕ) (r : Regex) → Within p r → Within p (up_to n r)
unfolding up_to
Within-up_to p zero r w = tt
Within-up_to p (suc n) r w = (w, Within-up_to p n r w)

Within-times : (p : ℕ → Bool) (n : ℕ) (r : Regex) → Within p r → Within p (times n r)
Within-times p zero r w = tt
Within-times p (suc n) r w = (w, Within-times p n r w)

-- Letters, digits, dots, dashes and colons, at most 63 of them.
abbrev pub IsPlain : String → Type 0
IsPlain s = (all_codes generic_char s ≡ true) × (count s ≤ 63)

abbrev IsPlainResult : Canonical → Type 0
IsPlainResult (canonical s) = IsPlain s
IsPlainResult (refused why) = Unit

module _ (U : Unicode) where
  admit_lem :
      (r : Regex) (candidate : String) (why : Refusal)
      → Within generic_char r
      → longest r ≤ 63
      → all_codes not_newline candidate ≡ true
      → IsPlainResult (admit U r candidate why)
  unfolding admit
  admit_lem r candidate why w short clean =
      elim (Bool-cases (is_some (match_start U (Regex.seq r Regex.line_end) candidate))) [
        | inl e ↦
            let (ok, size) = anchored_match U generic_char r candidate w clean e in
            rw (e, admit) (ok, omega (arith, size, short))
        | inr e ↦ rw (e, admit) tt
      ]

  fundamentals-Within : Within generic_char fundamentals_re × (longest fundamentals_re ≤ 63)
  unfolding fundamentals_re longest up_to
  fundamentals-Within = (
    let w : Within generic_char (Regex.one ticker_char) = λ n h. ground arith in
        (w, Within-up_to generic_char 9 (Regex.one ticker_char) w),
    omega arith,
  )

  macro-Within : Within generic_char macro_re × (longest macro_re ≤ 63)
  unfolding macro_re longest up_to
  macro-Within = (
    let w : Within generic_char (Regex.one is_upper) = λ n h. ground arith in
        (w, (w, Within-up_to generic_char 6 (Regex.one is_upper) w)),
    omega arith,
  )

  generic-Within : Within generic_char generic_re × (longest generic_re ≤ 63)
  unfolding generic_re longest up_to
  generic-Within = (
    let w : Within generic_char (Regex.one generic_char) = λ n h. h in
        (w, Within-up_to generic_char 39 (Regex.one generic_char) w),
    omega arith,
  )

  token-Within : Within generic_char token_re × (longest token_re ≤ 63)
  unfolding token_re longest up_to
  token-Within =
      let symbol : Within generic_char (Regex.one symbol_char) = λ n h. ground arith in
      let hex : Within generic_char (Regex.one hex_char) = λ n h. ground arith in
      let chain : Within generic_char (Regex.one chain_char) = λ n h. ground arith in
      let zero_char : Within generic_char (Regex.one (λ n. n == b'0')) = λ n h. ground arith in
      let x_char : Within generic_char (Regex.one (λ n. n == b'x')) = λ n h. ground arith in
      let colon : Within generic_char (Regex.one (λ n. n == b':')) = λ n h. ground arith in
      (
        (
          (
            (zero_char, (x_char, Within-times generic_char 40 (Regex.one hex_char) hex)),
            (symbol, Within-up_to generic_char 19 (Regex.one symbol_char) symbol),
          ),
          (colon, (chain, Within-up_to generic_char 19 (Regex.one chain_char) chain)),
        ),
        omega arith,
      )

  clean_lem :
      (s : String)
      → all_codes (λ n. not (unclean_char U n)) s ≡ true
      → all_codes not_newline s ≡ true
  clean_lem s h =
      all_codes-weaken (λ n. not (unclean_char U n)) not_newline s (λ n e. ground arith) h

partition_lem :
    (p : ℕ → Bool) (sep : ℕ) (s : String)
    → all_codes p s ≡ true
    → (all_codes p (partition sep s).0 ≡ true)
      × ((t : String) → (partition sep s).1 ≡ some t → all_codes p t ≡ true)
unfolding partition all_codes
partition_lem p sep String.[] h = (refl, λ t e. absurd cc)
partition_lem p sep (String.◌∷◌ c s) h =
    let (here, later) = partition_lem p sep s (ground (arith, h)) in
    let head : p (code c) ≡ true = ground (arith, h) in
    let tail : all_codes p s ≡ true = ground (arith, h) in
    elim (Bool-cases (code c == sep)) [
      | inl e ↦
          rw (e, partition) (refl, λ t q. subst (λ u. all_codes p u ≡ true) (some_inj s t q) tail)
      | inr e ↦ rw (e, partition) (ground (arith, head, here), later)
    ]
  where
    some_inj : (s t : String) → some s ≡ some t → s ≡ t
    some_inj s t q = cc

joined_clean :
    (a b : String)
    → all_codes not_newline a ≡ true
    → all_codes not_newline b ≡ true
    → all_codes not_newline (fmt (a ∷ ":" ∷ b ∷ [])) ≡ true
unfolding all_codes
joined_clean a b ha hb = all_codes-append not_newline a (fmt (":" ∷ b ∷ [])) ha (
    all_codes-append not_newline ":" (fmt (b ∷ [])) refl
      (all_codes-append not_newline b "" hb refl))

module _ (U : Unicode)
    (upper_lem : (s : String)
      → all_codes not_newline s ≡ true
      → all_codes not_newline (U.upper s) ≡ true)
    (lower_lem : (s : String)
      → all_codes not_newline s ≡ true
      → all_codes not_newline (U.lower s) ≡ true) where
  lowered_chain_lem :
      (s : String)
      → all_codes not_newline s ≡ true
      → all_codes not_newline (lowered_chain U s) ≡ true
  unfolding lowered_chain
  lowered_chain_lem s h =
      let (before, after) = partition_lem not_newline b':' s h in
      elim (Option-cases (partition b':' s).1) [
        | inl e ↦ rw (e, lowered_chain) h
        | inr (chain, e) ↦
            let low = lower_lem chain (after chain e) in
            rw (e, lowered_chain) (joined_clean (partition b':' s).0 (U.lower chain) before low)
      ]

  for_product_lem :
      (cleaned product : String)
      → all_codes not_newline cleaned ≡ true
      → IsPlainResult (for_product U cleaned product)
  unfolding for_product
  for_product_lem cleaned product h = elim (Bool-cases (str_eq product "fundamentals")) [
    | inl e ↦
        rw (e, for_product)
          (admit_lem U fundamentals_re _ _ (fundamentals-Within U).0 (fundamentals-Within U).1
            (upper_lem cleaned h))
    | inr a ↦ elim (Bool-cases (str_eq product "token")) [
      | inl e ↦
          rw (a, e, for_product)
            (admit_lem U token_re _ _ (token-Within U).0 (token-Within U).1
              (lowered_chain_lem cleaned h))
      | inr b ↦ elim (Bool-cases (str_eq product "macro")) [
        | inl e ↦
            rw (a, b, e, for_product)
              (admit_lem U macro_re _ _ (macro-Within U).0 (macro-Within U).1 (upper_lem cleaned h))
        | inr e ↦
            rw (a, b, e, for_product)
              (admit_lem U generic_re _ _ (generic-Within U).0 (generic-Within U).1 h)
      ]
    ]
  ]

  canonicalize_lem :
      (identifier product : String) → IsPlainResult (canonicalize U identifier product)
  unfolding canonicalize
  canonicalize_lem identifier product = elim (Bool-cases (truthy (strip U identifier))) [
    | inr e ↦ rw (e, canonicalize) tt
    | inl a ↦ elim (Bool-cases (ltb max_length (count (strip U identifier)))) [
      | inl e ↦ rw (a, e, canonicalize) tt
      | inr b ↦ elim (Bool-cases (all_codes (λ n. not (unclean_char U n)) (strip U identifier))) [
        | inr e ↦ rw (a, b, e, canonicalize) tt
        | inl e ↦
            rw (a, b, e, canonicalize)
              (for_product_lem (strip U identifier) product (clean_lem U (strip U identifier) e))
      ]
    ]
  ]

  -- Whatever a caller sends, what `canonicalize` lets through for any product is made of ASCII letters,
  -- digits, dots, dashes and colons only, and has at most 63 characters: no slash, space, control
  -- character or query sign reaches a URL, a query or a key. Of the case maps it is assumed that they
  -- make no newline where there was none.
  pub canonicalize-IsPlain :
      (identifier product s : String) → canonicalize U identifier product ≡ canonical s → IsPlain s
  canonicalize-IsPlain identifier product s e =
      subst IsPlainResult e (canonicalize_lem identifier product)

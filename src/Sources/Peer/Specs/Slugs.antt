-- ===== src/Sources/Peer/Specs/Slugs.antt =====
-- What a peer that was configured is called and where it is bought from.
use Prim.Native.String.{count}
use jim_agent.Prelude.{
  ℕ, ◌≤◌, String, ◌≡◌, refl, subst, Bool, true, ◌||◌, Option, none, some, List, [], ◌∷◌, inl, inr,
  arith, All, Bool-cases, Option-cases, is_some, truthy, ◌==◌,
}
use jim_agent.Prelude.Json.{Json, Items, Members, items, find}
use jim_agent.Prelude.Runtime.{Floats, Unicode}
use jim_agent.Prelude.Split.{strip}
use jim_agent.Prelude.Regex.{Regex, match_start}
use jim_agent.Prelude.Regex.Reach.{all_codes, Within, longest, anchored_line}
use jim_agent.Research.Identifiers.{up_to}
use jim_agent.Research.Identifiers.Allowed.{Within-up_to}
use jim_agent.Sources.Peer.{PeerSpec}
use jim_agent.Sources.Peer.Specs.{
  Parsed, parsed, rejected, slug_char, name_re, is_http, or_else, estimate_of, tuple_of, built,
  checked, spec_of_entry, specs_of, specs_in, parse_peer_specs, is_for, peers_for,
}

-- A character of a slug, or the newline before which `$` matches too.
abbrev pub name_char : ℕ → Bool
name_char n = slug_char n || n == 10

abbrev pub IsAddressable : PeerSpec → Type 0
IsAddressable spec =
    (all_codes name_char spec.name ≡ true) × (count spec.name ≤ 65) × (is_http spec.url ≡ true)

abbrev Sound : {A : Type 0} → (A → Type 0) → Parsed A → Type 0
Sound P (parsed a) = P a
Sound P (rejected e) = Unit

name-Within : Within name_char name_re × (longest name_re ≤ 64)
unfolding name_re longest up_to
name-Within = (
  let w : Within name_char (Regex.one slug_char) = λ n h. ground arith in
      (λ n h. ground arith, Within-up_to name_char 63 (Regex.one slug_char) w),
  omega arith,
)

module _ (F : Floats) (U : Unicode) (repr : Json F.Real → String) (nano : F.Real → ℕ) where
  built_lem :
      (name url : String) (ms : Members F.Real)
      → (all_codes name_char name ≡ true) × (count name ≤ 65) × (is_http url ≡ true)
      → Sound IsAddressable (built F U repr nano name url ms)
  unfolding built
  built_lem name url ms h =
      elim (Option-cases (estimate_of F U repr nano (find "price_estimate_usd" ms))) [
        | inl e ↦ rw (e, built) tt
        | inr (price, e) ↦
            elim (Option-cases
              (tuple_of F U repr nano (or_else (Json.array Items.stop) (find "products" ms)))) [
                | inl e' ↦ rw (e, e', built) tt
                | inr (products, e') ↦ rw (e, e', built) h
              ]
      ]

  checked_lem :
      (name url : String) (ms : Members F.Real)
      → Sound IsAddressable (checked F U repr nano name url ms)
  unfolding checked
  checked_lem name url ms =
      elim (Bool-cases (is_some (match_start U (Regex.seq name_re Regex.line_end) name))) [
        | inr e ↦ rw (e, checked) tt
        | inl e ↦ elim (Bool-cases (is_http url)) [
          | inr e' ↦ rw (e, e', checked) tt
          | inl e' ↦
              let (codes, size) = anchored_line U name_char name_re name name-Within.0 refl e in
              rw (e, e', checked)
                (built_lem name url ms (codes, omega (arith, size, name-Within.1), e'))
        ]
      ]

  spec_of_entry_lem : (x : Json F.Real) → Sound IsAddressable (spec_of_entry F U repr nano x)
  unfolding spec_of_entry
  spec_of_entry_lem Json.null = tt
  spec_of_entry_lem (Json.flag b) = tt
  spec_of_entry_lem (Json.num n) = tt
  spec_of_entry_lem (Json.str s) = tt
  spec_of_entry_lem (Json.array xs) = tt
  spec_of_entry_lem (Json.object ms) = checked_lem _ _ ms

  specs_of_lem : (xs : List (Json F.Real)) → Sound (All IsAddressable) (specs_of F U repr nano xs)
  unfolding specs_of
  specs_of_lem [] = tt
  specs_of_lem (x ∷ xs) =
      go (spec_of_entry F U repr nano x) refl (specs_of F U repr nano xs) refl (spec_of_entry_lem x)
        (specs_of_lem xs)
    where
      go :
          (y : Parsed PeerSpec)
          → spec_of_entry F U repr nano x ≡ y
          → (ys : Parsed (List PeerSpec)) → specs_of F U repr nano xs ≡ ys
          → Sound IsAddressable y
          → Sound (All IsAddressable) ys
          → Sound (All IsAddressable) (specs_of F U repr nano (x ∷ xs))
      go (rejected e) p ys q h hs = rw (p, specs_of) tt
      go (parsed spec) p (rejected e) q h hs = rw (p, q, specs_of) tt
      go (parsed spec) p (parsed specs) q h hs = rw (p, q, specs_of) (h, hs)

  specs_in_lem :
      (loads : String → Option (Json F.Real)) (raw : Option String)
      → Sound (All IsAddressable) (parse_peer_specs F U repr nano loads raw)
  unfolding parse_peer_specs
  specs_in_lem loads none = tt
  specs_in_lem loads (some raw) = elim (Bool-cases (truthy (strip U raw))) [
    | inr e ↦ rw (e, parse_peer_specs) tt
    | inl e ↦ rw (e, parse_peer_specs) (go (loads raw))
  ]
    where
      go : (x : Option (Json F.Real)) → Sound (All IsAddressable) (specs_in F U repr nano x)
      go none = tt
      go (some Json.null) = tt
      go (some (Json.flag b)) = tt
      go (some (Json.num n)) = tt
      go (some (Json.str s)) = tt
      go (some (Json.array xs)) = specs_of_lem (items xs)
      go (some (Json.object ms)) = tt

  peers_for-All :
      (product : String) (specs : List PeerSpec)
      → All IsAddressable specs
      → All IsAddressable (peers_for product specs)
  unfolding peers_for
  peers_for-All product [] h = tt
  peers_for-All product (spec ∷ specs) (here, h) = elim (Bool-cases (is_for product spec)) [
    | inl e ↦ rw (e, peers_for) (here, peers_for-All product specs h)
    | inr e ↦ rw (e, peers_for) (peers_for-All product specs h)
  ]

  -- Whatever `PEER_SOURCES` holds: if it is accepted, each peer that a product is composed with is
  -- bought from at an http or https URL, and its name, which goes into cache keys, origins and the
  -- trust log, has at most 65 characters, each a lowercase letter, a digit, a dash, an underscore or
  -- a newline: no colon, slash, space or comma.
  pub parse_peer_specs-IsAddressable :
      (loads : String → Option (Json F.Real)) (raw : Option String) (product : String)
      (specs : List PeerSpec)
      → parse_peer_specs F U repr nano loads raw ≡ parsed specs
      → All IsAddressable (peers_for product specs)
  parse_peer_specs-IsAddressable loads raw product specs e =
      peers_for-All product specs (subst (Sound (All IsAddressable)) e (specs_in_lem loads raw))

-- ===== src/Sources/Peer/Specs.antt =====
-- `parse_peer_specs` of src/jim/sources/peer.py: the peers that `PEER_SOURCES` configures, and those that
-- src/jim/research/products.py composes into a product. `loads` is `json.loads`, `none` where it
-- raises; `nano` is what a price that is not negative is in nano-dollars.
pub mod Slugs
use jim_agent.Prelude.{
  ℕ, String, Bool, true, false, not, ◌||◌, Option, none, some, List, [], ◌∷◌, map, str_eq, truthy,
  any, is_nil, characters, is_some, ◌==◌, starts_with, if◌then◌else◌,
}
use jim_agent.Prelude.Json.{Json, Items, Members, items, find, json_to_float}
use jim_agent.Prelude.Runtime.{Floats, Unicode}
use jim_agent.Prelude.Split.{strip}
use jim_agent.Prelude.Regex.{Regex, match_start}
use jim_agent.Research.Identifiers.{up_to, is_lower, is_digit}
use jim_agent.Sources.Peer.{PeerSpec}
use jim_agent.Sources.Peer.Payload.{text_of}

-- The ValueErrors with what they quote; `broken` is an exception of a conversion.
pub data Problem : Type 0 where
  bad_json not_a_list broken : Problem
  bad_name : String → Problem
  bad_url : String → String → Problem

pub data Parsed (A : Type 0) : Type 0 where
  parsed : A → Parsed A
  rejected : Problem → Parsed A

abbrev pub alnum : ℕ → Bool
alnum n = is_lower n || is_digit n

abbrev pub slug_char : ℕ → Bool
slug_char n = alnum n || n == b'_' || n == b'-'

-- `_NAME_RE`, without its `$`
unfoldable pub name_re : Regex
unfolding up_to
name_re = Regex.seq (Regex.one alnum) (up_to 63 (Regex.one slug_char))

abbrev pub is_http : String → Bool
is_http url = starts_with "http://" url || starts_with "https://" url

abbrev pub or_else : {Real : Type 0} → Json Real → Option (Json Real) → Json Real
or_else x none = x
or_else x (some y) = y

module _ (F : Floats) (U : Unicode) (repr : Json F.Real → String) (nano : F.Real → ℕ) where
  abbrev element : Json F.Real → Option String
  element (Json.str s) = some s
  element x = none

  abbrev names_in : Members F.Real → List (Option String)
  names_in Members.last = []
  names_in (Members.member k x ms) = some k ∷ names_in ms

  -- `tuple(x)`, with the letters of a text
  unfoldable pub tuple_of : Json F.Real → Option (List (Option String))
  tuple_of Json.null = none
  tuple_of (Json.flag b) = none
  tuple_of (Json.num x) = none
  tuple_of (Json.str s) = some (map (λ c. some c) (characters s))
  tuple_of (Json.array xs) = some (map element (items xs))
  tuple_of (Json.object ms) = some (names_in ms)

  -- `float(entry.get("price_estimate_usd", 0.05))`
  unfoldable pub estimate_of : Option (Json F.Real) → Option ℕ
  unfolding json_to_float
  estimate_of none = some 50_000_000
  estimate_of (some x) = elim (json_to_float F x) [ none ↦ none | some p ↦ some (nano p) ]

  abbrev text_at : String → String → Members F.Real → String
  text_at key default ms = text_of F repr (or_else (Json.str default) (find key ms))

  unfoldable pub built : String → String → Members F.Real → Parsed PeerSpec
  unfolding estimate_of tuple_of
  built name url ms = elim (estimate_of (find "price_estimate_usd" ms)) [
    | none ↦ rejected broken
    | some price ↦ elim (tuple_of (or_else (Json.array Items.stop) (find "products" ms))) [
      | none ↦ rejected broken
      | some products ↦ parsed (record {
        name = name;
        url = url;
        identifier_param = text_at "identifier_param" "identifier" ms;
        price_estimate_usd = price;
        products = products;
      })
    ]
  ]

  unfoldable pub checked : String → String → Members F.Real → Parsed PeerSpec
  unfolding built match_start
  checked name url ms =
      if not (is_some (match_start U (Regex.seq name_re Regex.line_end) name))
      then rejected (bad_name name)
      else if not (is_http url)
      then rejected (bad_url name url)
      else built name url ms

  -- One entry; what is no object has no `get`.
  unfoldable pub spec_of_entry : Json F.Real → Parsed PeerSpec
  unfolding checked strip
  spec_of_entry (Json.object ms) =
      checked (U.lower (strip U (text_at "name" "" ms))) (strip U (text_at "url" "" ms)) ms
  spec_of_entry x = rejected broken

  unfoldable pub specs_of : List (Json F.Real) → Parsed (List PeerSpec)
  unfolding spec_of_entry
  specs_of [] = parsed []
  specs_of (entry ∷ entries) =
      let rest = specs_of entries in
      elim (spec_of_entry entry) [
        | rejected e ↦ rejected e
        | parsed spec ↦ elim rest [ rejected e ↦ rejected e | parsed specs ↦ parsed (spec ∷ specs) ]
      ]

  abbrev pub specs_in : Option (Json F.Real) → Parsed (List PeerSpec)
  specs_in none = rejected bad_json
  specs_in (some (Json.array xs)) = specs_of (items xs)
  specs_in (some x) = rejected not_a_list

  unfoldable pub parse_peer_specs :
      (String → Option (Json F.Real)) → Option String → Parsed (List PeerSpec)
  unfolding specs_of strip
  parse_peer_specs loads none = parsed []
  parse_peer_specs loads (some raw) =
      if truthy (strip U raw) then specs_in (loads raw) else parsed []

-- `not spec.products or product in spec.products`
abbrev pub is_for : String → PeerSpec → Bool
is_for product spec =
    is_nil spec.products
    || any (λ (o : Option String). elim o [ none ↦ false | some p ↦ str_eq p product ])
        spec.products

-- The peers of `_compose_peers`.
unfoldable pub peers_for : String → List PeerSpec → List PeerSpec
peers_for product [] = []
peers_for product (spec ∷ specs) =
    let rest = peers_for product specs in if is_for product spec then spec ∷ rest else rest

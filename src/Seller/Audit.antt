-- ===== src/Seller/Audit.antt =====
-- src/jim/seller/audit.py: what the middleware reads of a settlement. The row that it writes, with the
-- JSON values as they came, is not modelled. Headers and query parameters are
-- functions; `decode` is base64 and JSON, `none` where either fails; `text` is `str`. Amounts are in
-- nano-dollars: `parse_float` is `float` and `parse_int` is `int`, of amounts that are not negative.
use jim_agent.Prelude.{
  ℕ, ◌*◌, String, append, Bool, true, false, ◌||◌, Option, none, some, List, [], ◌∷◌, str_eq,
  truthy, is_some, after_prefix, if◌then◌else◌,
}
use jim_agent.Prelude.Json.{Json, Members, find, json_truth}
use jim_agent.Prelude.Runtime.{Floats, Unicode}
use jim_agent.Prelude.Regex.{has_code}
use jim_agent.Prelude.Split.{strip}

abbrev settle_headers : List String
settle_headers = "PAYMENT-RESPONSE" ∷ "X-PAYMENT-RESPONSE" ∷ []

-- `settlement_header`: the first that is there and not empty
unfoldable pub first_header : (String → Option String) → List String → Option String
first_header headers [] = none
first_header headers (name ∷ names) =
    let rest = first_header headers names in
    elim (headers name) [ none ↦ rest | some value ↦ if truthy value then some value else rest ]

abbrev pub settlement_header : (String → Option String) → Option String
settlement_header headers = first_header headers settle_headers

-- `_PATH_PRODUCTS`
abbrev pub path_products : List (String × String × Option String)
path_products =
    ("/research/fundamentals", "fundamentals", some "ticker")
    ∷ ("/research/token", "token", some "token")
    ∷ ("/mock-graph", "mock-graph", none)
    ∷ ("/ping", "ping", none)
    ∷ []

abbrev lies_under : String → String → Bool
lies_under path prefix = str_eq path prefix || is_some (after_prefix (append prefix "/") path)

unfoldable pub product_of :
    String → List (String × String × Option String) → Option (String × Option String)
unfolding after_prefix
product_of path [] = none
product_of path ((prefix, product, param) ∷ rows) =
    let rest = product_of path rows in
    if lies_under path prefix then some (product, param) else rest

-- The product, the identifier and the mode of a request.
unfoldable pub classify_request :
    String → (String → Option String) → Option String × Option String × Option String
unfolding product_of
classify_request path query = elim (product_of path path_products) [
  | none ↦ (none, none, query "mode")
  | some row ↦ elim row.1 [
    | none ↦ (some row.0, none, query "mode")
    | some param ↦ (some row.0, query param, query "mode")
  ]
]

-- `10**_USDC_DECIMALS` base units are a dollar, so one is 1000 nano-dollars.
abbrev pub base_unit : ℕ
base_unit = 1000

abbrev or_zero : Option ℕ → ℕ
or_zero none = 0
or_zero (some n) = n

-- `x is None or x == ""`
abbrev is_missing : {Real : Type 0} → Json Real → Bool
is_missing Json.null = true
is_missing (Json.str s) = str_eq s ""
is_missing x = false

module _ (F : Floats) (U : Unicode) (decode : String → Option (Json F.Real))
    (parse_float parse_int : String → Option ℕ) (text : Json F.Real → String) where
  -- A text with a point is dollars, any other base units, and what is neither counts as nothing.
  unfoldable pub amount_to_usdc : Json F.Real → ℕ
  unfolding strip has_code
  amount_to_usdc raw =
      let amount = strip U (text raw) in
      if is_missing raw
      then 0
      else if has_code b'.' amount
      then or_zero (parse_float amount)
      else or_zero (parse_int amount) * base_unit

  -- `decode_settlement`
  unfoldable pub decode_settlement : Option String → Option (Members F.Real)
  decode_settlement none = none
  decode_settlement (some header) =
      if truthy header
      then elim (decode header) [
        | none ↦ none
        | some body ↦ elim body [ Json.object ms ↦ some ms | _ ↦ none ]
      ]
      else none

  -- `body.get("success", True)`
  unfoldable pub succeeded : Members F.Real → Bool
  succeeded body = elim (find "success" body) [ none ↦ true | some x ↦ json_truth F x ]

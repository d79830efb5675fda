-- ===== src/Interop/CallChain.antt =====
-- src/jim/interop/callchain.py: the propagated call chain, checked before any payment.
-- The Unicode tables and case maps are the parameter `U`. A refusal's text is its constructor.
pub mod Refusals
use jim_agent.Prelude.{
  ℕ, ◌+◌, String, ◌≡◌, Bool, true, false, Option, none, some, List, [], ◌∷◌, ◌++◌, ltb, leb, length,
  map, keep, mem, truthy, join, str_eq, if◌then◌else◌,
}
use jim_agent.Prelude.Runtime.{Unicode}
use jim_agent.Prelude.Split.{split, strip, comma}

abbrev pub call_chain_header : String
call_chain_header = "X-Jim-Call-Chain"

pub data Refusal : Type 0 where
  accepted : Refusal
  payment_loop : String → String → Refusal
  too_deep : ℕ → ℕ → Refusal

pub record ChainVerdict : Type 0 where
  pub allowed : Bool
  pub reason : Refusal
  pub hops : List String

unfoldable pub encode_chain : List String → String
encode_chain hops = join "," hops

-- Extending the chain is refused, or gives the header's value.
pub data Outbound : Type 0 where
  depth_exceeded : ℕ → ℕ → Outbound
  header : String → Outbound

-- The response of the middleware: the wrapped app's, or a 409 that carries the verdict.
pub data Response {ℓ} (A : Type ℓ) : Type ℓ where
  from_app : A → Response A
  refused : ℕ → ChainVerdict → Response A

-- The first header of the name, which ASGI gives in any case.
unfoldable pub find_header : Unicode → List (String × String) → Option String
find_header U [] = none
find_header U ((name, value) ∷ hs) =
    if str_eq (U.lower name) "x-jim-call-chain" then some value else find_header U hs

module _ (U : Unicode) where
  unfoldable pub hops_of : List String → List String
  hops_of pieces = map (λ h. U.lower (strip U h)) (keep (λ h. truthy (strip U h)) pieces)

  unfoldable pub parse_chain : Option String → List String
  unfolding hops_of split strip
  parse_chain none = []
  parse_chain (some raw) = if truthy raw then hops_of (split comma raw) else []

  -- `own_address and own_address.lower() in hops`
  unfoldable pub in_chain : Option String → List String → Bool
  in_chain none hops = false
  in_chain (some own) hops = if truthy own then mem (U.lower own) hops else false

  abbrev loop_reason : Option String → List String → Refusal
  loop_reason none hops = accepted
  loop_reason (some own) hops = payment_loop (U.lower own) (encode_chain hops)

  unfoldable pub check_inbound : Option String → Option String → ℕ → ChainVerdict
  unfolding parse_chain in_chain
  check_inbound raw own_address max_depth =
      let hops = parse_chain raw in
      if in_chain own_address hops
      then record { allowed = false; reason = loop_reason own_address hops; hops = hops }
      else if leb max_depth (length hops)
      then record { allowed = false; reason = too_deep (length hops) max_depth; hops = hops }
      else record { allowed = true; reason = accepted; hops = hops }

  -- The inbound chain with our identity, unless it is there already.
  unfoldable pub extend : List String → String → List String
  extend inbound own = if mem own inbound then inbound else inbound ++ own ∷ []

  unfoldable pub outbound_payment_headers : List String → String → ℕ → Outbound
  unfolding extend encode_chain
  outbound_payment_headers inbound own_address max_depth =
      let chain = extend inbound (U.lower own_address) in
      if ltb max_depth (length chain)
      then depth_exceeded (length chain) max_depth
      else header (encode_chain chain)

-- The context variable holds the inbound chain of the request that is served.
-- Setting it gives the new binding and the token, which is the old one.
unfoldable pub set_inbound_chain : List String → List String → List String × List String
set_inbound_chain hops bound = (hops, bound)

unfoldable pub reset_inbound_chain : List String → List String → List String
reset_inbound_chain token bound = token

-- The app runs under a binding; what it gives, by return or exception, comes with the binding that it
-- leaves, which the `finally` resets.
module _ {ℓ} (U : Unicode) {A : Type ℓ} (app : List String → A × List String)
    (own_address : Option String) (max_depth : ℕ) where
  unfoldable pub middleware : Bool → List (String × String) → List String → Response A × List String
  unfolding check_inbound find_header set_inbound_chain reset_inbound_chain
  middleware false headers bound = let (a, left) = app bound in (from_app a, left)
  middleware true headers bound =
      let verdict = check_inbound U (find_header U headers) own_address max_depth in
      let (inside, token) = set_inbound_chain verdict.hops bound in
      let (a, left) = app inside in
      if verdict.allowed
      then (from_app a, reset_inbound_chain token left)
      else (refused 409 verdict, bound)

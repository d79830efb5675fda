-- ===== src/Sources/Pay.antt =====
-- `pay` of src/jim/buyer/client.py: the unpaid probe, the price cap, the paying request.
-- What the network, the seller and the x402 library do is an `Exchange`; amounts are nano-dollars,
-- of which a base unit of USDC is a thousand.
use jim_agent.Prelude.{
  ℕ, ◌+◌, ◌*◌, String, Bool, false, Option, none, some, List, ltb, ◌==◌, if◌then◌else◌,
}
use jim_agent.Prelude.Runtime.{Unicode}
use jim_agent.Research.Budget.{eps}
use jim_agent.Research.Budget.Ceiling.{micro}
use jim_agent.Interop.CallChain.{depth_exceeded, header, outbound_payment_headers}

-- The answer to the probe: its status, and the base units that the 402's header names, if it
-- can be decoded. An amount that is negative, or a header of another shape, which makes the decoding
-- raise, is not modelled.
pub record Probe : Type 0 where
  pub status : ℕ
  pub advertised : Option ℕ

-- The answer to the paying request: its decoded JSON, if it is JSON, and the settlement's
-- transaction, if one took place.
pub record Answer (P : Type 0) : Type 0 where
  pub status : ℕ
  pub payload : Option P
  pub settled : Bool
  pub tx_hash : Option String

-- Either request may be lost in the transport.
pub record Exchange (P : Type 0) : Type 0 where
  pub probe : Option Probe
  pub answer : Option (Answer P)

pub record PaidResponse (P : Type 0) : Type 0 where
  pub status_code : ℕ
  pub payload : Option P
  pub cost_in_usd : ℕ
  pub tx_hash : Option String

-- The exceptions of `pay`.
pub data PayError : Type 0 where
  no_private_key : PayError
  chain_too_deep : ℕ → ℕ → PayError
  price_cap_exceeded : ℕ → ℕ → PayError

pub data Paid (P : Type 0) : Type 0 where
  response : PaidResponse P → Paid P
  refused : PayError → Paid P
  transport_error : Paid P

-- Who pays: whether there is a key, its identity, the inbound chain and the depth ceiling.
pub record Buyer : Type 0 where
  pub has_key : Bool
  pub identity : String
  pub inbound : List String
  pub max_depth : ℕ

-- `_decode_advertised_price`
unfoldable pub decode_advertised_price : Option ℕ → ℕ
decode_advertised_price none = 0
decode_advertised_price (some base_units) = base_units * micro

-- The cost that the probe announces: nothing unless it is answered by a 402.
unfoldable pub announced : Probe → ℕ
unfolding decode_advertised_price
announced p = if p.status == 402 then decode_advertised_price p.advertised else 0

abbrev over_cap : Option ℕ → ℕ → Bool
over_cap none cost = false
over_cap (some cap) cost = ltb (cap + eps) cost

abbrev cap_of : Option ℕ → ℕ
cap_of none = 0
cap_of (some cap) = cap

module _ {P : Type 0} where
  unfoldable pub settle : ℕ → Option (Answer P) → Paid P
  settle cost none = transport_error
  settle cost (some a) = response (record {
    status_code = a.status;
    payload = a.payload;
    cost_in_usd = if a.settled then cost else 0;
    tx_hash = if a.settled then a.tx_hash else none;
  })

  unfoldable pub pay : Unicode → Buyer → Option ℕ → Exchange P → Paid P
  unfolding announced settle
  pay U buyer max_price e =
      if buyer.has_key
      then elim (outbound_payment_headers U buyer.inbound buyer.identity buyer.max_depth) [
        | depth_exceeded hops max_depth ↦ refused (chain_too_deep hops max_depth)
        | header h ↦ elim e.probe [
          | none ↦ transport_error
          | some p ↦
              if over_cap max_price (announced p)
              then refused (price_cap_exceeded (announced p) (cap_of max_price))
              else settle (announced p) e.answer
        ]
      ]
      else refused no_private_key

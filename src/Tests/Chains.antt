-- ===== src/Tests/Chains.antt =====
-- The call chain at concrete addresses.
use jim_agent.Prelude.{String, ◌≡◌, refl, true, false, some, List, [], ◌∷◌, inl, length, ◌≤◌, ◌<◌}
use jim_agent.Interop.CallChain.{
  Refusal, encode_chain, parse_chain, in_chain, check_inbound, extend, outbound_payment_headers,
  header, middleware, find_header, set_inbound_chain, reset_inbound_chain, from_app,
}
use jim_agent.Interop.CallChain.Refusals.{
  IsHop, parse_chain-encode_chain, outbound-refused_by_funders, accepted_header_depth,
}
use jim_agent.Prelude.Split.{strip, lacks}
use jim_agent.Tests.Ascii.{ascii}

abbrev chain : List String
chain = "0xaa" ∷ []

aa-IsHop : IsHop ascii "0xaa"
unfolding strip lacks
aa-IsHop = record { not_empty = refl; stripped = refl; lowered = refl; no_comma = refl }

bb-IsHop : IsHop ascii "0xbb"
unfolding strip lacks
bb-IsHop = record { not_empty = refl; stripped = refl; lowered = refl; no_comma = refl }

sent : outbound_payment_headers ascii chain "0xBB" 4 ≡ header "0xaa,0xbb"
unfolding outbound_payment_headers
sent = refl

let_in : (check_inbound ascii (some "0xaa,0xbb") (some "0xcc") 4).allowed ≡ true
unfolding check_inbound
let_in = refl

parse_chain-encode_chain_example :
    parse_chain ascii (some (encode_chain ("0xaa" ∷ "0xbb" ∷ []))) ≡ "0xaa" ∷ "0xbb" ∷ []
parse_chain-encode_chain_example =
    parse_chain-encode_chain ascii ("0xaa" ∷ "0xbb" ∷ []) (aa-IsHop, (bb-IsHop, tt))

outbound-refused_by_funders_example :
    check_inbound ascii (some "0xaa,0xbb") (some "0xaa") 9 ≡ record {
      allowed = false;
      reason = Refusal.payment_loop "0xaa" "0xaa,0xbb";
      hops = extend ascii chain "0xbb";
    }
outbound-refused_by_funders_example =
    outbound-refused_by_funders ascii chain "0xBB" 4 "0xaa,0xbb" "0xaa" 9 (aa-IsHop, tt) bb-IsHop
      sent refl (inl refl)

accepted_header_depth_example :
    let c = parse_chain ascii (some "0xaa,0xbb") in
    (c ≡ extend ascii chain "0xbb")
    × (length c ≤ 4)
    × (length c < 4)
    × (in_chain ascii (some "0xcc") c ≡ false)
accepted_header_depth_example =
    accepted_header_depth ascii chain "0xBB" 4 "0xaa,0xbb" (some "0xcc") 4 (aa-IsHop, tt) bb-IsHop
      sent let_in

abbrev headers : List (String × String)
headers = ("Host", "jim") ∷ ("X-Jim-Call-Chain", "0xaa, 0xBB") ∷ []

-- A request that is let in, to an app that binds another chain and leaves it; and one in a loop.
serves :
    middleware ascii (λ (hops : List String). (length hops, [])) (some "0xcc") 4 true headers chain
    ≡ (from_app 2, chain)
unfolding middleware check_inbound set_inbound_chain reset_inbound_chain find_header
serves = refl

refuses :
    (middleware ascii
      (λ (hops : List String). (length hops, []))
      (some "0xbb")
      4
      true
      headers
      chain).1
    ≡ chain
unfolding middleware check_inbound set_inbound_chain reset_inbound_chain find_header
refuses = refl

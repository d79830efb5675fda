-- ===== src/Interop/CallChain/Refusals.antt =====
-- Loops and deep request trees are refused before the app behind the paywall runs.
use jim_agent.Prelude.{
  ℕ, ◌≤◌, ◌<◌, String, ◌≡◌, refl, ◌⊎◌, inl, inr, true, false, Option, some, List, [], ◌∷◌, ◌++◌,
  arith, length, mem, truthy, eq_iff, Bool-cases, All, All-append,
}
use jim_agent.Prelude.Runtime.{Unicode}
use jim_agent.Prelude.Split.{strip, comma, lacks, split-join, truthy-join}
use jim_agent.Interop.CallChain.{
  Refusal, header, encode_chain, hops_of, parse_chain, in_chain, check_inbound, extend,
  outbound_payment_headers,
}

-- An identity as the code keeps it: not empty, in lower case, with no space round it, no comma.
pub record IsHop (U : Unicode) (h : String) : Type 0 where
  pub not_empty : truthy h ≡ true
  pub stripped : strip U h ≡ h
  pub lowered : U.lower h ≡ h
  pub no_comma : lacks comma h ≡ true

module _ (U : Unicode) where
  hops_of-IsHop : (hops : List String) → All (IsHop U) hops → hops_of U hops ≡ hops
  unfolding hops_of
  hops_of-IsHop [] v = refl
  hops_of-IsHop (h ∷ hs) v =
      ground (arith, v.0.not_empty, v.0.stripped, v.0.lowered, hops_of-IsHop hs v.1)

  All-no_comma : (hops : List String) → All (IsHop U) hops → All (λ s. lacks comma s ≡ true) hops
  All-no_comma [] v = tt
  All-no_comma (h ∷ hs) v = (v.0.no_comma, All-no_comma hs v.1)

  parse-encode :
      (hops : List String) → All (IsHop U) hops → parse_chain U (some (encode_chain hops)) ≡ hops
  unfolding parse_chain encode_chain
  parse-encode [] v = refl
  parse-encode (h ∷ hs) v =
      rw (truthy-join "," h hs v.0.not_empty)
        (rw (split-join h hs (All-no_comma (h ∷ hs) v)) (hops_of-IsHop (h ∷ hs) v))

  mem-append_right : (x : String) (xs ys : List String) → mem x ys ≡ true → mem x (xs ++ ys) ≡ true
  mem-append_right x [] ys h = h
  mem-append_right x (y ∷ xs) ys h = ground (arith, mem-append_right x xs ys h)

  mem-append_left : (x : String) (xs ys : List String) → mem x xs ≡ true → mem x (xs ++ ys) ≡ true
  mem-append_left x [] ys h = cc
  mem-append_left x (y ∷ xs) ys h = ground (arith, mem-append_left x xs ys)

  extend-IsHop :
      (inbound : List String) (own : String)
      → All (IsHop U) inbound
      → IsHop U own
      → All (IsHop U) (extend U inbound own)
  unfolding extend
  extend-IsHop inbound own v o = elim (Bool-cases (mem own inbound)) [
    | inl old ↦ rw old v
    | inr new ↦ rw new (All-append (IsHop U) inbound (own ∷ []) v (o, tt))
  ]

  mem-extend_own : (inbound : List String) (own : String) → mem own (extend U inbound own) ≡ true
  unfolding extend
  mem-extend_own inbound own = elim (Bool-cases (mem own inbound)) [
    | inl old ↦ rw old old
    | inr new ↦ rw new (mem-append_right own inbound (own ∷ []) (ground (arith, eq_iff own own)))
  ]

  mem-extend :
      (x : String) (inbound : List String) (own : String)
      → mem x inbound ≡ true
      → mem x (extend U inbound own) ≡ true
  unfolding extend
  mem-extend x inbound own h = elim (Bool-cases (mem own inbound)) [
    | inl old ↦ rw old h
    | inr new ↦ rw new (mem-append_left x inbound (own ∷ []) h)
  ]

  -- What a header carries is the extended chain, and it is within the ceiling.
  header-chain :
      (inbound : List String) (own : String) (max_depth : ℕ) (h : String)
      → All (IsHop U) inbound
      → IsHop U (U.lower own)
      → outbound_payment_headers U inbound own max_depth ≡ header h
      → (parse_chain U (some h) ≡ extend U inbound (U.lower own))
        × (length (extend U inbound (U.lower own)) ≤ max_depth)
  unfolding outbound_payment_headers
  header-chain inbound own max_depth h v o e = ground (
    arith,
    parse-encode (extend U inbound (U.lower own)) (extend-IsHop inbound (U.lower own) v o),
  )

  funder-mem :
      (f own : String) (inbound : List String)
      → (mem (U.lower f) inbound ≡ true) ⊎ (U.lower f ≡ U.lower own)
      → mem (U.lower f) (extend U inbound (U.lower own)) ≡ true
  funder-mem f own inbound (inl earlier) = mem-extend (U.lower f) inbound (U.lower own) earlier
  funder-mem f own inbound (inr self) = rw self (mem-extend_own inbound (U.lower own))

  -- Splitting what was encoded gives the chain back, for any chain of identities as the code
  -- keeps them: not empty, stripped, in lower case, without a comma.
  pub parse_chain-encode_chain :
      (hops : List String) → All (IsHop U) hops → parse_chain U (some (encode_chain hops)) ≡ hops
  parse_chain-encode_chain hops v = parse-encode hops v

  -- No payment loop: when a buy sends a call chain header, then every agent that funded the chain
  -- so far, the buyer included, answers a request that carries this header with a refusal for a
  -- loop, whatever its own depth ceiling.
  pub outbound-refused_by_funders :
      (inbound : List String) (own : String) (max_depth : ℕ) (h f : String) (their_depth : ℕ)
      → All (IsHop U) inbound
      → IsHop U (U.lower own)
      → outbound_payment_headers U inbound own max_depth ≡ header h
      → truthy f ≡ true
      → (mem (U.lower f) inbound ≡ true) ⊎ (U.lower f ≡ U.lower own)
      → check_inbound U (some h) (some f) their_depth ≡ record {
        allowed = false;
        reason = Refusal.payment_loop (U.lower f) h;
        hops = extend U inbound (U.lower own);
      }
  unfolding check_inbound outbound_payment_headers
  outbound-refused_by_funders inbound own max_depth h f their_depth v o e nonempty funded =
      rw (header-chain inbound own max_depth h v o e).0
        (ground (arith, funder-mem f own inbound funded))

  -- The depth of a request tree is bounded: when a buy sends a header and the agent that gets it
  -- lets the request through, then the chain that this agent reads is the extended one, with at
  -- most as many hops as the buyer's ceiling and fewer than the agent's own, and the agent's
  -- address is not in it.
  pub accepted_header_depth :
      (inbound : List String) (own : String) (max_depth : ℕ) (h : String)
      (their_address : Option String) (their_depth : ℕ)
      → All (IsHop U) inbound
      → IsHop U (U.lower own)
      → outbound_payment_headers U inbound own max_depth ≡ header h
      → (check_inbound U (some h) their_address their_depth).allowed ≡ true
      → let chain = parse_chain U (some h) in
        (chain ≡ extend U inbound (U.lower own))
        × (length chain ≤ max_depth)
        × (length chain < their_depth)
        × (in_chain U their_address chain ≡ false)
  accepted_header_depth inbound own max_depth h their_address their_depth v o e a =
      let sent = header-chain inbound own max_depth h v o e in
      (
        sent.0,
        rw sent.0 sent.1,
        unfold check_inbound in ground arith,
        unfold check_inbound in ground arith,
      )

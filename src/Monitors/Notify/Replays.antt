-- ===== src/Monitors/Notify/Replays.antt =====
-- A delivery is accepted once.
use jim_agent.Prelude.{
  ℕ, String, ◌≡◌, true, false, ◌≢◌, Option, none, some, List, [], ◌∷◌, ◌≤◌, arith, mem, eq_iff,
  Option-cases, inl, inr,
}
use jim_agent.Prelude.Int.{ℤ, abs, pos, ◌-ℤ◌, ◌*ℤ◌}
use jim_agent.Research.Facts.{shown}
use jim_agent.Monitors.Models.{microseconds}
use jim_agent.Monitors.Notify.{Verdict, ok, sign_delivery, check_fresh, verify_delivery}

-- What arrives at a subscriber, and when.
pub record Delivery : Type 0 where
  pub body : String
  pub signature : Option String
  pub timestamp : Option String
  pub nonce : Option String
  pub tolerance : ℕ
  pub now : ℤ

module _ (hmac : String → String → String) (to_int : String → Option ℤ) where
  -- A delivery is accepted only if its signature is the one of its body, timestamp and nonce under
  -- the secret, its timestamp is an integer within the tolerance of now, and its nonce is new; the
  -- nonce is then remembered.
  pub accepted_delivery :
      (body secret : String) (signature timestamp nonce : Option String) (tolerance : ℕ)
      (nonces : List String) (now : ℤ)
      → (verify_delivery hmac to_int body secret signature timestamp nonce tolerance
          (some nonces)
          now).0
        ≡ ok
      → (shown signature ≡ sign_delivery hmac to_int body secret (shown timestamp) (shown nonce))
        × ((ts : ℤ) × (to_int (shown timestamp) ≡ some ts)
            × (abs (now -ℤ ts *ℤ pos 1000000) ≤ microseconds tolerance))
        × (mem (shown nonce) nonces ≡ false)
        × ((verify_delivery hmac to_int body secret signature timestamp nonce tolerance
              (some nonces)
              now).1
            ≡ some (shown nonce ∷ nonces))
  unfolding verify_delivery check_fresh
  accepted_delivery body secret signature timestamp nonce tolerance nonces now h =
      let signed = sign_delivery hmac to_int body secret (shown timestamp) (shown nonce) in
      elim (Option-cases (to_int (shown timestamp))) [
        | inl e ↦ ground (arith, eq_iff signed (shown signature))
        | inr (ts, e) ↦ (
          ground (arith, eq_iff signed (shown signature)),
          (ts, e, ground arith),
          ground arith,
          ground arith,
        )
      ]

  abbrev pub verified : String → Delivery → Option (List String) → Verdict × Option (List String)
  verified secret d seen =
      verify_delivery hmac to_int d.body secret d.signature d.timestamp d.nonce d.tolerance seen
        d.now

  -- The set of nonces after deliveries that are checked one after the other, each accepted or not.
  unfoldable pub seen_after : String → List Delivery → Option (List String) → Option (List String)
  seen_after secret [] seen = seen
  seen_after secret (d ∷ ds) seen = seen_after secret ds (verified secret d seen).1

  -- A set that has the nonce.
  abbrev Has : String → Option (List String) → Type 0
  Has nonce none = ⊥
  Has nonce (some nonces) = mem nonce nonces ≡ true

  verified-Has :
      (secret nonce : String) (d : Delivery) (seen : Option (List String))
      → Has nonce seen
      → Has nonce (verified secret d seen).1
  unfolding verify_delivery check_fresh
  verified-Has secret nonce d none h = absurd h
  verified-Has secret nonce d (some nonces) h = elim (Option-cases (to_int (shown d.timestamp))) [
    | inl e ↦ ground arith
    | inr (ts, e) ↦ ground arith
  ]

  seen_after-Has :
      (secret nonce : String) (ds : List Delivery) (seen : Option (List String))
      → Has nonce seen
      → Has nonce (seen_after secret ds seen)
  unfolding seen_after
  seen_after-Has secret nonce [] seen h = h
  seen_after-Has secret nonce (d ∷ ds) seen h =
      seen_after-Has secret nonce ds (verified secret d seen).1 (verified-Has secret nonce d seen h)

  Has-refused :
      (secret : String) (again : Delivery) (seen : Option (List String))
      → Has (shown again.nonce) seen
      → (verified secret again seen).0 ≢ ok
  Has-refused secret again none h e = absurd h
  Has-refused secret again (some nonces) h e =
      let (signed, time, fresh, kept) =
        accepted_delivery again.body secret again.signature again.timestamp again.nonce
          again.tolerance nonces again.now e in
      ground arith

  -- Where the subscriber keeps a set of nonces: once a delivery was accepted, then after any further
  -- deliveries, accepted or not, that are checked with the set as each check left it, no delivery with
  -- its nonce is accepted again, whatever its body, timestamp and signature, and whenever it comes.
  pub replay_refused :
      (secret : String) (first : Delivery) (nonces : List String) (between : List Delivery)
      (again : Delivery)
      → (verified secret first (some nonces)).0 ≡ ok
      → again.nonce ≡ first.nonce
      → (verified secret again
          (seen_after secret between (verified secret first (some nonces)).1)).0
        ≢ ok
  replay_refused secret first nonces between again h same =
      let (signed, time, fresh, kept) =
        accepted_delivery first.body secret first.signature first.timestamp first.nonce
          first.tolerance nonces first.now h in
      let has : Has (shown first.nonce) (verified secret first (some nonces)).1 =
        rw kept (ground (arith, eq_iff (shown first.nonce) (shown first.nonce))) in
      let later =
        seen_after-Has secret (shown first.nonce) between (verified secret first (some nonces)).1
          has in
      Has-refused secret again _ (rw same later)

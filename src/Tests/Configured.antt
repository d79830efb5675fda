-- ===== src/Tests/Configured.antt =====
-- Peers that are configured by a text, and a query that buys from them.
use jim_agent.Prelude.{
  ℕ, ◌*◌, String, ◌≡◌, refl, true, false, Option, some, [], ◌∷◌, All, arith, after_prefix,
}
use jim_agent.Prelude.Int.{ℤ, pos, pos_part}
use jim_agent.Prelude.Json.{Json, Items, Members}
use jim_agent.Net.Resilience.{ResiliencePolicy}
use jim_agent.Research.Budget.{fresh}
use jim_agent.Research.Budget.Ceiling.{IsWithin}
use jim_agent.Sources.Pay.{Buyer, Exchange}
use jim_agent.Sources.Procure.{World}
use jim_agent.Sources.Peer.{PeerSpec, PeerSettings, GatherResult, Traffic}
use jim_agent.Sources.Peer.Composite.{composite_gather}
use jim_agent.Sources.Peer.Composite.Spending.{peers_of, composite_gather-IsWithin}
use jim_agent.Sources.Peer.Specs.{parsed, parse_peer_specs, name_re, peers_for}
use jim_agent.Sources.Peer.Specs.Slugs.{IsAddressable, parse_peer_specs-IsAddressable}
use jim_agent.Store.Memory.{MemoryStore}
use jim_agent.Tests.Ascii.{ascii}
use jim_agent.Tests.Clock.{strokes_iso}
use jim_agent.Tests.Milli.{milli}
use jim_agent.Tests.Polling.{priced}

abbrev field : String → Json ℤ → Members ℤ → Members ℤ
field k x ms = Members.member k x ms

-- [{"name": " Alpha", "url": "https://alpha.example/s", "price_estimate_usd": 0.02,
--   "products": ["token"]}]
abbrev entries : Json ℤ
entries = Json.array (
    Items.item
      (Json.object (
        field "name" (Json.str " Alpha") (
          field "url" (Json.str "https://alpha.example/s") (
            field "price_estimate_usd" (Json.num (pos 20)) (
              field "products" (Json.array (Items.item (Json.str "token") Items.stop))
                Members.last)))))
      Items.stop)

abbrev loads : String → Option (Json ℤ)
loads raw = some entries

abbrev repr : Json ℤ → String
repr x = "[…]"

abbrev nano : ℤ → ℕ
nano x = pos_part x * 1_000_000

abbrev alpha : PeerSpec
alpha = record {
  name = "alpha";
  url = "https://alpha.example/s";
  identifier_param = "identifier";
  price_estimate_usd = 20_000_000;
  products = some "token" ∷ [];
}

configured : parse_peer_specs milli ascii repr nano loads (some "[...]") ≡ parsed (alpha ∷ [])
unfolding parse_peer_specs name_re after_prefix
configured = refl

parse_peer_specs-IsAddressable_example : All IsAddressable (peers_for "token" (alpha ∷ []))
parse_peer_specs-IsAddressable_example =
    parse_peer_specs-IsAddressable milli ascii repr nano loads (some "[...]") "token" (alpha ∷ [])
      configured

abbrev settings : PeerSettings
settings = record {
  trust_min_events = 3;
  trust_floor = 3000;
  network = "base";
  cache_ttl_seconds = 3600;
}

abbrev empty : MemoryStore (Json ℤ)
empty = record {
  purchases = [];
  queries = [];
  insights = [];
  receipts = [];
  memos = [];
  trust_events = [];
}

abbrev world : World (Json ℤ)
world = record { budget = fresh 100_000_000; store = empty; breakers = [] }

abbrev buyer : Buyer
buyer = record { has_key = true; identity = "0xbb"; inbound = []; max_depth = 4 }

abbrev policy : ResiliencePolicy
policy = record {
  retries = 2;
  backoff_base = 250;
  breaker_failure_threshold = 5;
  breaker_reset = 30000;
}

-- Two cents for a payload that has no facts.
abbrev exchange : ℕ → Exchange (Json ℤ)
exchange i = record {
  probe = some (record { status = 402; advertised = some 20_000 });
  answer = some (record {
    status = 200;
    payload = some (Json.object Members.last);
    settled = true;
    tx_hash = some "0x1";
  });
}

abbrev zero_clock : ℕ → ℕ
zero_clock i = 0

abbrev traffic : Traffic (Json ℤ)
traffic = record {
  now = 10;
  dialled = 0;
  clock = zero_clock;
  jitter = zero_clock;
  exchanges = exchange;
}

abbrev found : GatherResult ℤ
found = record { snapshot = priced 200; cost_in_usd = 3; cache_hit = false; notes = [] }

abbrev same : String → String
same s = s

world-IsWithin : IsWithin world.budget
world-IsWithin = record { whole_ceiling = refl; whole_spent = refl; within = omega arith }

composite_gather-IsWithin_example :
    IsWithin
      (composite_gather "edgar"
        (peers_of milli ascii strokes_iso settings same same repr buyer policy "WETH"
          ((alpha, traffic) ∷ (alpha, traffic) ∷ []))
        found
        world).1.budget
composite_gather-IsWithin_example =
    composite_gather-IsWithin milli ascii strokes_iso settings same same repr buyer policy "edgar"
      "WETH" ((alpha, traffic) ∷ (alpha, traffic) ∷ []) found world world-IsWithin

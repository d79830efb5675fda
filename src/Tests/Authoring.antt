-- ===== src/Tests/Authoring.antt =====
-- Triggers as a model may propose them.
use jim_agent.Prelude.{String, ◌≡◌, refl, some, List, [], ◌∷◌}
use jim_agent.Prelude.Int.{ℤ, pos}
use jim_agent.Prelude.Json.{Json, Items, Members}
use jim_agent.Monitors.Authoring.{validate_triggers}
use jim_agent.Monitors.Models.{TriggerSpec, numeric}
use jim_agent.Tests.Milli.{milli}

abbrev kind_and : String → Members ℤ → Json ℤ
kind_and kind params = Json.object (
    Members.member "kind" (Json.str kind)
      (Members.member "params" (Json.object params) Members.last))

-- A move of 5000%, a threshold without a level, and a kind that the crew does not have.
abbrev proposals : Json ℤ
proposals = Json.array (
    Items.item
      (kind_and "price_move" (Members.member "pct" (Json.num (pos 5_000_000)) Members.last))
      (Items.item (kind_and "threshold" (Members.member "label" (Json.str "Price") Members.last))
        (Items.item (kind_and "buy" Members.last) Items.stop)))

abbrev str : Json ℤ → String
str (Json.str s) = s
str x = ""

abbrev clamped : List (TriggerSpec ℤ)
clamped = record { kind = "price_move"; params = ("pct", numeric (pos 1_000_000)) ∷ [] } ∷ []

disposed : validate_triggers milli str proposals ≡ some clamped
unfolding validate_triggers
disposed = refl

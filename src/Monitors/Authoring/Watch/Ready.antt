-- ===== src/Monitors/Authoring/Watch/Ready.antt =====
-- A monitor that is created has a crew, and the crew can run.
use jim_agent.Prelude.{
  ℕ, String, ◌≡◌, refl, subst, Bool, true, false, Option, none, some, List, [], ◌∷◌, ◌++◌, mem,
  str_eq, inl, inr, is_nil, truthy, All, All-append, Bool-cases, Option-cases, ltb, length, ◌&&◌,
  if◌then◌else◌,
}
use jim_agent.Prelude.Dict.{Dict}
use jim_agent.Prelude.Json.{Json, Members}
use jim_agent.Prelude.Runtime.{Floats, Unicode}
use jim_agent.Prelude.Split.{split, strip}
use jim_agent.Monitors.Authoring.{validate_triggers}
use jim_agent.Monitors.Authoring.Typed.{IsTyped, Fits}
use jim_agent.Monitors.Authoring.Validated.{IsReady, Ready, IsRunnable, runnable, validate-Ready}
use jim_agent.Monitors.Authoring.Watch.{MonitorSettings, any_word, part, first_or, last_or}
use jim_agent.Monitors.Authoring.Watch.Build.{
  Spec, crew, or_crew, when_any, metric_part, one_spec, float_or, rsi_from, threshold_from,
  level_entry, price_spec, rsi_spec, cross_over, metric_spec, spec, metric_labels, pcts,
  price_words, rsi_words, cross_words, filing_words, keyword_triggers, deterministic_triggers,
  parse_watch_spec, parse_watches,
}
use jim_agent.Monitors.Authoring.Watch.Create.{
  MonitorArgs, described_by, proposed, propose_triggers, product_for, interval_for, cooldown_for,
  triggers_for, create_monitor,
}
use jim_agent.Monitors.Diff.{SnapshotDiff}
use jim_agent.Monitors.Models.{Monitor, Param}
use jim_agent.Monitors.Triggers.Crew.{default_triggers}

module _ (F : Floats) where
  -- At least one trigger, and all of them ready.
  abbrev IsCrew : List (Spec F) → Type 0
  IsCrew specs = (is_nil specs ≡ false) × All (IsReady F) specs

  when_any-Ready :
      (words : List String) (t : String) (x : Spec F)
      → IsReady F x
      → All (IsReady F) (when_any F words t x)
  when_any-Ready words t x h = elim (Bool-cases (any_word words t)) [
    | inl e ↦ rw e (h, tt)
    | inr e ↦ rw e tt
  ]

  or_crew-IsCrew : (xs d : List (Spec F)) → All (IsReady F) xs → IsCrew d → IsCrew (or_crew F xs d)
  or_crew-IsCrew [] d h c = c
  or_crew-IsCrew (x ∷ xs) d h c = (refl, h)

  price-IsReady : (product : String) (pct : F.Real) → IsReady F (price_spec F product pct)
  price-IsReady product pct = (refl, (refl, (refl, tt)))

  rsi-IsReady : (above below : F.Real) → IsReady F (rsi_spec F above below)
  rsi-IsReady above below = (refl, (refl, (refl, (refl, tt))))

  cross-IsReady : IsReady F (cross_over F)
  cross-IsReady = (refl, (refl, (refl, tt)))

  metric-IsReady : (labels : List String) (pct : F.Real) → IsReady F (metric_spec F labels pct)
  metric-IsReady labels pct = (refl, (refl, (refl, tt)))

  crew-IsCrew :
      (settings : MonitorSettings F.Real) (product : String) → IsCrew (crew F settings product)
  unfolding default_triggers
  crew-IsCrew settings product = elim (Bool-cases (str_eq product "token")) [
    | inl e ↦
        rw (e, default_triggers)
          (refl, ((refl, (refl, (refl, tt))), ((refl, (refl, (refl, tt))), tt)))
    | inr e ↦
        rw (e, default_triggers)
          (
            refl,
            (
              (refl, (refl, (refl, tt))),
              (
                (refl, (refl, (refl, (refl, tt)))),
                ((refl, (refl, (refl, tt))), ((refl, (refl, (refl, tt))), ((refl, tt), tt))),
              ),
            ),
          )
  ]

  metric_part-Ready :
      (pct : F.Real) (labels : List String) → All (IsReady F) (metric_part F pct labels)
  metric_part-Ready pct [] = tt
  metric_part-Ready pct (l ∷ ls) = ((refl, (refl, (refl, tt))), tt)

  keyword-Ready :
      (settings : MonitorSettings F.Real) (t product : String) (found : List F.Real)
      → All (IsReady F) (keyword_triggers F settings t product found)
  unfolding keyword_triggers
  keyword-Ready settings t product found =
      let price = price_spec F product (first_or settings.price_move_pct found) in
      let rsi = rsi_spec F settings.rsi_overbought settings.rsi_oversold in
      let filing = spec F "new_filing" [] in
      let pct = last_or settings.metric_change_pct found in
      let labels = metric_labels F product t in
      let e = metric_part F pct labels in
      let d = when_any F filing_words t filing in
      let c = when_any F cross_words t (cross_over F) in
      let b = when_any F rsi_words t rsi in
      let a = when_any F price_words t price in
      let price_ready =
        when_any-Ready price_words t price
          (price-IsReady product (first_or settings.price_move_pct found)) in
      let rsi_ready =
        when_any-Ready rsi_words t rsi
          (rsi-IsReady settings.rsi_overbought settings.rsi_oversold) in
      let cross_ready = when_any-Ready cross_words t (cross_over F) cross-IsReady in
      let filing_ready = when_any-Ready filing_words t filing (refl, tt) in
      All-append (IsReady F) (a ++ b ++ c ++ d) e
        (All-append (IsReady F) (a ++ b ++ c) d
          (All-append (IsReady F) (a ++ b) c (All-append (IsReady F) a b price_ready rsi_ready)
            cross_ready)
          filing_ready)
        (metric_part-Ready pct labels)

  keyword-IsCrew :
      (U : Unicode) (settings : MonitorSettings F.Real) (described product : String)
      → IsCrew (deterministic_triggers F U settings described product)
  unfolding deterministic_triggers
  keyword-IsCrew U settings described product =
      or_crew-IsCrew (keyword_triggers F settings (U.lower described) product (pcts F U described))
        (crew F settings product)
        (keyword-Ready settings (U.lower described) product (pcts F U described))
        (crew-IsCrew settings product)

  one_spec-Ready :
      (f : F.Real → Spec F) (o : Option F.Real)
      → ((x : F.Real) → IsReady F (f x))
      → Ready F (one_spec F f o)
  one_spec-Ready f none h = tt
  one_spec-Ready f (some x) h = (h x, tt)

  rsi_from-Ready : (a b : Option F.Real) → Ready F (rsi_from F a b)
  rsi_from-Ready none b = tt
  rsi_from-Ready (some a) none = tt
  rsi_from-Ready (some a) (some b) = (rsi-IsReady a b, tt)

  abbrev TypedEntry : Option (Dict (Param F.Real)) → Type 0
  TypedEntry none = Unit
  TypedEntry (some d) = IsTyped d

  level_entry-Typed :
      (k s : String)
      → mem k ("pct" ∷ "abs" ∷ "above" ∷ "below" ∷ []) ≡ true
      → TypedEntry (level_entry F k s)
  level_entry-Typed k s m = elim (Bool-cases (truthy s)) [
    | inr e ↦ rw e tt
    | inl e ↦ rw e (elim (Option-cases (F.parse s)) [ inl g ↦ rw g tt | inr (x, g) ↦ rw g (m, tt) ])
  ]

  threshold-Ready :
      (label : String) (a b : Option (Dict (Param F.Real)))
      → TypedEntry a
      → TypedEntry b
      → Ready F (threshold_from F label a b)
  threshold-Ready label none b ha hb = tt
  threshold-Ready label (some a) none ha hb = tt
  threshold-Ready label (some a) (some b) ha hb =
      ((refl, (refl, All-append (λ e. Fits e.0 e.1) a b ha hb)), tt)

  either :
      (b : Bool) (x y : Option (List (Spec F)))
      → Ready F x
      → Ready F y
      → Ready F (if b then x else y)
  either true x y hx hy = hx
  either false x y hx hy = hy

  module _ (U : Unicode) (settings : MonitorSettings F.Real) where
    watch-Ready :
        (watched product : String) → Ready F (parse_watch_spec F U settings watched product)
    unfolding parse_watch_spec
    watch-Ready watched product =
        let parts = split b':' watched in
        let head = U.lower (strip U (part 0 parts)) in
        let bounds = split b'/' (part 1 parts) in
        let Result : Type 0 = Option (List (Spec F)) in
        let above = level_entry F "above" (part 2 parts) in
        let below = level_entry F "below" (part 3 parts) in
        let pct = float_or F settings.metric_change_pct (part 2 parts) in
        let high = float_or F settings.rsi_overbought (part 0 bounds) in
        let low = float_or F settings.rsi_oversold (part 1 bounds) in
        let move = float_or F settings.price_move_pct (part 1 parts) in
        let is_price = mem head ("price" ∷ "price_move" ∷ []) in
        let is_cross = mem head ("ma" ∷ "macross" ∷ "ma_cross" ∷ []) in
        let is_filing = mem head ("filing" ∷ "new_filing" ∷ []) in
        let is_metric = mem head ("metric" ∷ "metric_change" ∷ []) && ltb 1 (length parts) in
        let is_level = str_eq head "threshold" && ltb 2 (length parts) in
        let unknown : Result = some [] in
        let level = threshold_from F (part 1 parts) above below in
        let metric = one_spec F (metric_spec F (part 1 parts ∷ [])) pct in
        let filing : Result = some (spec F "new_filing" [] ∷ []) in
        let cross : Result = some (cross_over F ∷ []) in
        let from_level : Result = if is_level then level else unknown in
        let from_metric : Result = if is_metric then metric else from_level in
        let from_filing : Result = if is_filing then filing else from_metric in
        let from_cross : Result = if is_cross then cross else from_filing in
        let rsi = rsi_from F high low in
        either is_price (one_spec F (price_spec F product) move)
          (if str_eq head "rsi" then rsi else from_cross)
          (one_spec-Ready (price_spec F product) move (price-IsReady product))
          (either (str_eq head "rsi") rsi from_cross (rsi_from-Ready high low) (
            either is_cross cross from_filing (cross-IsReady, tt)
              (either is_filing filing from_metric ((refl, tt), tt)
                (either is_metric metric from_level
                  (one_spec-Ready (metric_spec F (part 1 parts ∷ [])) pct
                    (metric-IsReady (part 1 parts ∷ [])))
                  (either is_level level unknown
                    (threshold-Ready (part 1 parts) above below
                      (level_entry-Typed "above" (part 2 parts) refl)
                      (level_entry-Typed "below" (part 3 parts) refl))
                    tt)))))

    watches-Ready :
        (ws : List String) (product : String) → Ready F (parse_watches F U settings ws product)
    unfolding parse_watches
    watches-Ready [] product = tt
    watches-Ready (w ∷ ws) product = elim (Option-cases (parse_watch_spec F U settings w product)) [
      | inl e ↦ rw (e, parse_watches) tt
      | inr (here, e) ↦ elim (Option-cases (parse_watches F U settings ws product)) [
        | inl g ↦ rw (e, g, parse_watches) tt
        | inr (rest, g) ↦
            rw (e, g, parse_watches)
              (All-append (IsReady F) here rest (subst (Ready F) e (watch-Ready w product))
                (subst (Ready F) g (watches-Ready ws product)))
      ]
    ]

module _ (F : Floats) (U : Unicode) (str : Json F.Real → String)
    (settings : MonitorSettings F.Real) where
  propose-IsCrew :
      (has_key : Bool) (answer : Option (Option (Members F.Real))) (described product : String)
      → IsCrew F (propose_triggers F U str settings has_key answer described product).0
  unfolding propose_triggers
  propose-IsCrew false answer described product = keyword-IsCrew F U settings described product
  propose-IsCrew true none described product = keyword-IsCrew F U settings described product
  propose-IsCrew true (some block) described product =
      validated (validate_triggers F str (proposed F U str settings block))
        (validate-Ready F str (proposed F U str settings block))
    where
      validated :
          (o : Option (List (Spec F)))
          → Ready F o
          → IsCrew F
              (elim o as (λ x. List (Spec F) × Bool) [
                | none ↦ (deterministic_triggers F U settings described product, false)
                | some [] ↦ (deterministic_triggers F U settings described product, false)
                | some (t ∷ ts) ↦ (t ∷ ts, true)
              ]).0
      validated none h = keyword-IsCrew F U settings described product
      validated (some []) h = keyword-IsCrew F U settings described product
      validated (some (t ∷ ts)) h = (refl, h)

  abbrev HasCrew : Option (List (Spec F)) → Type 0
  HasCrew none = Unit
  HasCrew (some specs) = IsCrew F specs

  triggers-HasCrew :
      (has_key : Bool) (answer : Option (Option (Members F.Real))) (args : MonitorArgs)
      → HasCrew (triggers_for F U str settings has_key answer args)
  unfolding triggers_for
  triggers-HasCrew has_key answer args =
      let product = product_for F U str settings args in
      elim (Bool-cases (is_nil args.watch)) [
        | inl e ↦ elim (Option-cases (described_by args.describe)) [
          | inl d ↦ rw (e, d, triggers_for) (crew-IsCrew F settings product)
          | inr (words, d) ↦ rw (e, d, triggers_for) (propose-IsCrew has_key answer words product)
        ]
        | inr e ↦ elim (Option-cases (parse_watches F U settings args.watch product)) [
          | inl g ↦ rw (e, g, triggers_for) tt
          | inr (ts, g) ↦
              rw (e, g, triggers_for)
                (or_crew-IsCrew F ts (crew F settings product)
                  (subst (Ready F) g (watches-Ready F U settings args.watch product))
                  (crew-IsCrew F settings product))
        ]
      ]

  -- A monitor has triggers, and the crew runs each of them on the diff without an exception.
  abbrev pub IsWatchful : SnapshotDiff F.Real → Monitor F.Real → Type 0
  IsWatchful diff m = (is_nil m.triggers ≡ false) × All (IsRunnable F diff) m.triggers

  abbrev Watchful : SnapshotDiff F.Real → Option (Monitor F.Real) → Type 0
  Watchful diff none = Unit
  Watchful diff (some m) = IsWatchful diff m

  module _ (new_monitor_id : String → String → String) (now : ℕ) (has_key : Bool)
      (answer : Option (Option (Members F.Real))) (args : MonitorArgs)
      (diff : SnapshotDiff F.Real) where
    create_lem :
        Watchful diff (create_monitor F U str settings new_monitor_id now has_key answer args)
    unfolding create_monitor
    create_lem = elim (Option-cases (interval_for F U str settings args)) [
      | inl e ↦ rw (e, create_monitor) tt
      | inr (interval, e) ↦ elim (Option-cases (cooldown_for F U str settings args)) [
        | inl g ↦ rw (e, g, create_monitor) tt
        | inr (cooldown, g) ↦
            elim (Option-cases (triggers_for F U str settings has_key answer args)) [
              | inl h ↦ rw (e, g, h, create_monitor) tt
              | inr (triggers, h) ↦
                  let (some_trigger, ready) =
                    subst HasCrew h (triggers-HasCrew has_key answer args) in
                  rw (e, g, h, create_monitor) (some_trigger, runnable F diff triggers ready)
            ]
      ]
    ]

    -- Every way to create a monitor, from mini-specs, a description with or without a model, or
    -- neither, gives it at least one trigger, and its crew evaluates each trigger on any diff without an
    -- exception: only a row that was written by other means can make a tick raise there.
    pub create_monitor-IsWatchful :
        (m : Monitor F.Real)
        → create_monitor F U str settings new_monitor_id now has_key answer args ≡ some m
        → IsWatchful diff m
    create_monitor-IsWatchful m e = subst (Watchful diff) e create_lem

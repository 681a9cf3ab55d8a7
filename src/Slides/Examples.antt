-- ===== src/Slides/Examples.antt =====
-- The slide tools at small decks and tables.
use enterprise_angular_nest.Base.{
  ℕ, suc, ◌<◌, true, none, some, List, [], ◌∷◌, ◌≡◌, ◌↔◌, refl, arith, if◌then◌else◌,
}
use enterprise_angular_nest.Base.Ascii.{ascii}
use enterprise_angular_nest.Base.Cents.{cents}
use enterprise_angular_nest.Search.Rows.{Row}
use enterprise_angular_nest.Keyword.Lookup.{Tables}
use enterprise_angular_nest.Slides.Deck.{should_use_full_bleed, calculate_pattern_break}
use enterprise_angular_nest.Slides.Deck.Laws.{full_bleed-consecutive}
use enterprise_angular_nest.Slides.Context.{inferred_goal_of, context_of}
use enterprise_angular_nest.Slides.Decisions.{get_layout_for_goal, load_decision_csv}
use text.Mathlib.Text.{◌==◌}

abbrev layouts : List Row
layouts =
    (("goal", "features") ∷ ("emotion", "clarity") ∷ [])
    ∷ (("goal", "problem") ∷ ("emotion", "fear") ∷ ("use_bg_image", "true") ∷ [])
    ∷ []

abbrev tables : Tables
tables file = if file == "slide-layout-logic.csv" then some layouts else none

full_bleed-consecutive_example :
    ((i : ℕ) × (should_use_full_bleed i 6 "hope" ≡ true)
      × (should_use_full_bleed (suc i) 6 "hope" ≡ true))
    ↔ (6 < 9)
full_bleed-consecutive_example = full_bleed-consecutive 6 "hope" (omega arith) refl

-- a break after a slide of hope, whatever the emotion of the next one
no_switch : calculate_pattern_break 2 9 (some "hope") ≡ true
unfolding calculate_pattern_break
no_switch = refl

problem_slide : inferred_goal_of cents ascii tables "The problem" ≡ "problem"
problem_slide = refl

problem_image :
    (context_of cents ascii tables "the problem" 2 9 (some "hope")).use_background_image ≡ true
unfolding context_of get_layout_for_goal load_decision_csv
problem_image = refl

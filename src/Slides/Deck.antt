-- ===== src/Slides/Deck.antt =====
-- The deck rules: `should_use_full_bleed` and `calculate_pattern_break`.
pub mod Laws
use enterprise_angular_nest.Base.{
  ℕ, ◌*◌, ◌/◌, ◌-◌, Bool, true, false, String, Option, none, some, List, [], ◌∷◌, ltb, eqb, ◌||◌,
  if◌then◌else◌,
}
use enterprise_angular_nest.Base.Text.{contains}

abbrev pub high_emotion_beats : List String
high_emotion_beats = "hope" ∷ "urgency" ∷ "fear" ∷ "curiosity" ∷ []

abbrev pub among : ℕ → List ℕ → Bool
among i [] = false
among i (p ∷ ps) = eqb i p || among i ps

-- `strategic_positions`
abbrev pub strategic_positions : ℕ → List ℕ
strategic_positions total = 1 ∷ (total / 3) ∷ (total / 3 * 2) ∷ (total - 1) ∷ []

unfoldable pub should_use_full_bleed : ℕ → ℕ → String → Bool
should_use_full_bleed slide_index total_slides emotion =
    if contains high_emotion_beats emotion
    then (if ltb total_slides 3
        then false
        else among slide_index (strategic_positions total_slides))
    else false

-- the keys of `contrasting_emotions`, whose values the code does not read
abbrev pub contrasting_emotions : List String
contrasting_emotions = "frustration" ∷ "hope" ∷ "fear" ∷ []

abbrev pub contrasting : Option String → Bool
contrasting none = false
contrasting (some emotion) = contains contrasting_emotions emotion

unfoldable pub calculate_pattern_break : ℕ → ℕ → Option String → Bool
calculate_pattern_break slide_index total_slides previous_emotion =
    if ltb total_slides 5
    then false
    else if among slide_index ((total_slides / 3) ∷ (total_slides / 3 * 2) ∷ [])
    then true
    else contrasting previous_emotion

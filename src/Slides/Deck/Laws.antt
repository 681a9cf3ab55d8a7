-- ===== src/Slides/Deck/Laws.antt =====
-- How far full-bleed slides stand apart.
use enterprise_angular_nest.Base.{ℕ, suc, ◌≤◌, ◌<◌, true, String, ◌≡◌, ◌↔◌, arith, sym, ◌∙◌}
use enterprise_angular_nest.Base.Text.{contains}
use enterprise_angular_nest.Slides.Deck.{
  high_emotion_beats, among, strategic_positions, should_use_full_bleed,
}

full_bleed-among :
    (i total : ℕ) (emotion : String)
    → contains high_emotion_beats emotion ≡ true
    → 3 ≤ total
    → should_use_full_bleed i total emotion ≡ among i (strategic_positions total)
unfolding should_use_full_bleed
full_bleed-among i total emotion h long = rw h (ground arith)

apart :
    (i total : ℕ)
    → 3 ≤ total
    → among i (strategic_positions total) ≡ true
    → among (suc i) (strategic_positions total) ≡ true
    → total < 9
apart i total long h k = ground arith

meets : (total : ℕ) → 3 ≤ total → total < 9 → among 1 (strategic_positions total) ≡ true
meets total long short = ground arith

meets_two : (total : ℕ) → 3 ≤ total → total < 9 → among 2 (strategic_positions total) ≡ true
meets_two total long short = ground arith

-- In a deck of at least 3 slides whose emotion is a high-emotion beat, two consecutive slides are
-- full-bleed exactly when the deck has fewer than 9 slides.
pub full_bleed-consecutive :
    (total : ℕ) (emotion : String)
    → 3 ≤ total
    → contains high_emotion_beats emotion ≡ true
    → ((i : ℕ) × (should_use_full_bleed i total emotion ≡ true)
        × (should_use_full_bleed (suc i) total emotion ≡ true))
      ↔ (total < 9)
full_bleed-consecutive total emotion long high = (
  λ c.
      apart c.0 total long (sym (full_bleed-among c.0 total emotion high long) ∙ c.1)
        (sym (full_bleed-among (suc c.0) total emotion high long) ∙ c.2),
  λ short. (
    1,
    full_bleed-among 1 total emotion high long ∙ meets total long short,
    full_bleed-among 2 total emotion high long ∙ meets_two total long short,
  ),
)

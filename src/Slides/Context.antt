-- ===== src/Slides/Context.antt =====
-- `search_with_context`: the search enriched with what the decision tables and the deck rules advise.
use enterprise_angular_nest.Base.{
  ℕ, Bool, false, String, Option, none, some, List, [], ◌∷◌, if◌then◌else◌, ◌||◌,
}
use enterprise_angular_nest.Base.Dict
use enterprise_angular_nest.Base.Dict.{Dict, lookup}
use enterprise_angular_nest.Base.Text.{Unicode, has_sub}
use enterprise_angular_nest.Base.Floats.{Floats}
use enterprise_angular_nest.Search.Rows.{Row, cell}
use enterprise_angular_nest.Keyword.Lookup.{Tables, Answer}
use enterprise_angular_nest.Slides.Search
use enterprise_angular_nest.Slides.Decisions.{
  is_text, get_layout_for_goal, get_typography_for_slide, get_color_for_emotion,
  get_background_config,
}
use enterprise_angular_nest.Slides.Deck.{should_use_full_bleed, calculate_pattern_break}

-- a group of entries that are read by `.get` from one row
abbrev pub Advice : Type 0
Advice = Dict (Option String)

-- the dictionary `context`; a group is `none` where the code leaves it out
pub record Context : Type 0 where
  pub slide_position : ℕ
  pub total_slides : ℕ
  pub previous_emotion : Option String
  pub inferred_goal : String
  pub layout : Option Advice
  pub use_background_image : Bool
  pub typography : Option Advice
  pub color_treatment : Option Advice
  pub should_break_pattern : Bool
  pub full_bleed : Bool
  pub background : Option Advice
  pub animation_class : String

-- the chain of tests on the lowered query; the first that holds decides
abbrev pub goal_words : List (List String × String)
goal_words =
    ("problem" ∷ [], "problem")
    ∷ ("solution" ∷ [], "solution")
    ∷ ("cta" ∷ "call to action" ∷ [], "cta")
    ∷ ("hook" ∷ "title" ∷ [], "hook")
    ∷ ("traction" ∷ "metric" ∷ [], "traction")
    ∷ []

abbrev pub says_any : String → List String → Bool
says_any query [] = false
says_any query (word ∷ words) = has_sub word query || says_any query words

abbrev pub first_said : String → List (List String × String) → String → String
first_said query [] goal = goal
first_said query ((words, said) ∷ rest) goal =
    let later = first_said query rest goal in if says_any query words then said else later

abbrev pub animation_map : Dict String
animation_map =
    ("hook", "animate-fade-up")
    ∷ ("problem", "animate-fade-up")
    ∷ ("agitation", "animate-count animate-stagger")
    ∷ ("solution", "animate-scale")
    ∷ ("features", "animate-stagger")
    ∷ ("traction", "animate-chart animate-count")
    ∷ ("proof", "animate-stagger-scale")
    ∷ ("social", "animate-fade-up")
    ∷ ("cta", "animate-pulse")
    ∷ []

-- the entries that a group reads from a row, each under its own key
abbrev pub read_all : List (String × String) → Row → Advice
read_all [] row = []
read_all ((key, column) ∷ rest) row = (key, lookup column row) ∷ read_all rest row

-- a group that is made only from a row that is not empty
abbrev pub advise : List (String × String) → Row → Option Advice
advise keys [] = none
advise keys (c ∷ row) = some (read_all keys (c ∷ row))

abbrev pub layout_keys : List (String × String)
layout_keys =
    ("recommended_layout", "layout_pattern")
    ∷ ("layout_direction", "direction")
    ∷ ("visual_weight", "visual_weight")
    ∷ []

abbrev pub typography_keys : List (String × String)
typography_keys =
    ("primary_size", "primary_size")
    ∷ ("secondary_size", "secondary_size")
    ∷ ("weight_contrast", "weight_contrast")
    ∷ []

abbrev pub color_keys : List (String × String)
color_keys =
    ("background", "background")
    ∷ ("text_color", "text_color")
    ∷ ("accent_usage", "accent_usage")
    ∷ ("card_style", "card_style")
    ∷ []

abbrev pub background_keys : List (String × String)
background_keys =
    ("image_category", "image_category")
    ∷ ("overlay_style", "overlay_style")
    ∷ ("search_keywords", "search_keywords")
    ∷ []

module _ (F : Floats) (u : Unicode) (tables : Tables) where
  abbrev pub inferred_goal_of : String → String
  inferred_goal_of query =
      first_said (u.lower query) goal_words (Search.detect_domain F u tables (u.lower query))

  unfoldable pub context_of : String → ℕ → ℕ → Option String → Context
  unfolding get_layout_for_goal get_typography_for_slide get_color_for_emotion get_background_config
      should_use_full_bleed calculate_pattern_break
  context_of query slide_position total_slides previous_emotion =
      let goal = inferred_goal_of query in
      let layout = get_layout_for_goal tables goal previous_emotion in
      let emotion = cell "clarity" "emotion" layout.row in
      let with_image = is_text "true" (lookup "use_bg_image" layout.row) in
      record {
        slide_position = slide_position;
        total_slides = total_slides;
        previous_emotion = previous_emotion;
        inferred_goal = goal;
        layout = advise layout_keys layout.row;
        use_background_image = with_image;
        typography = advise typography_keys (get_typography_for_slide tables goal false false);
        color_treatment = advise color_keys (get_color_for_emotion tables emotion);
        should_break_pattern = calculate_pattern_break slide_position total_slides previous_emotion;
        full_bleed = should_use_full_bleed slide_position total_slides emotion;
        background =
            if with_image then advise background_keys (get_background_config tables goal) else none;
        animation_class = Dict.get_or "animate-fade-up" goal animation_map;
      }

  -- what is returned: the query, the context and the base results
  abbrev pub with_results :
      String → Context → Option (Dict Answer) → Option (String × (Context × Dict Answer))
  with_results query context none = none
  with_results query context (some results) = some (query, (context, results))

  unfoldable pub search_with_context :
      String → ℕ → ℕ → Option String → Option (String × (Context × Dict Answer))
  unfolding context_of
  search_with_context query slide_position total_slides previous_emotion =
      with_results query (context_of query slide_position total_slides previous_emotion)
        (Search.search_all F u tables query 2)

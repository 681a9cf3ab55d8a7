-- ===== src/Reasoning/Vocabulary.antt =====
-- The closed vocabulary of decision rules (reasoning_contract.py, module level).
use enterprise_angular_nest.Base.{String, List, [], ◌∷◌}
use enterprise_angular_nest.Base.Dict.{Dict, keys}

abbrev pub condition_signals : Dict (List String)
condition_signals =
    ("if_booking", "booking" ∷ "appointment" ∷ "calendar" ∷ [])
    ∷ ("if_boutique", "boutique" ∷ [])
    ∷ ("if_casual", "casual" ∷ "playful" ∷ [])
    ∷ ("if_checkout", "checkout" ∷ "payment" ∷ "purchase" ∷ [])
    ∷ ("if_children", "child" ∷ "children" ∷ "kids" ∷ [])
    ∷ ("if_collaboration", "collaboration" ∷ "multiplayer" ∷ "co-edit" ∷ [])
    ∷ ("if_competitive", "competitive" ∷ "leaderboard" ∷ [])
    ∷ ("if_content_focused", "content" ∷ "article" ∷ "reading" ∷ "documentation" ∷ [])
    ∷ ("if_conversion_focused", "conversion" ∷ "sales" ∷ "signup" ∷ "purchase" ∷ [])
    ∷ ("if_creative_field", "creative" ∷ "artist" ∷ "portfolio" ∷ [])
    ∷ ("if_crop_focused", "crop" ∷ "farm" ∷ "agriculture" ∷ [])
    ∷ ("if_dashboard", "dashboard" ∷ "operations" ∷ "monitoring" ∷ [])
    ∷ ("if_data_heavy", "data heavy" ∷ "data-heavy" ∷ "analytics" ∷ "large dataset" ∷ [])
    ∷ ("if_delivery", "delivery" ∷ "courier" ∷ "shipping" ∷ [])
    ∷ ("if_discovery_focused", "discover" ∷ "discovery" ∷ "browse" ∷ "directory" ∷ [])
    ∷ ("if_engagement_metric", "engagement" ∷ "retention" ∷ "contribution" ∷ [])
    ∷ ("if_experience_focused", "experience" ∷ "immersive" ∷ "journey" ∷ [])
    ∷ ("if_gamification", "gamification" ∷ "badges" ∷ "streak" ∷ [])
    ∷ ("if_health", "health" ∷ "medical" ∷ "patient" ∷ [])
    ∷ ("if_hero_needed", "hero" ∷ "showcase" ∷ "launch" ∷ [])
    ∷ ("if_large_dataset", "large dataset" ∷ "thousands" ∷ "millions" ∷ [])
    ∷ ("if_light_mode_needed", "light mode" ∷ "light theme" ∷ [])
    ∷ ("if_low_performance", "low performance" ∷ "low-end" ∷ "slow device" ∷ [])
    ∷ ("if_luxury", "luxury" ∷ "premium" ∷ "high-end" ∷ [])
    ∷ ("if_medication", "medication" ∷ "medicine" ∷ "prescription" ∷ [])
    ∷ ("if_meditation", "meditation" ∷ "breathing" ∷ "mindfulness" ∷ [])
    ∷ ("if_minimal_portfolio", "minimal portfolio" ∷ "simple portfolio" ∷ [])
    ∷ ("if_mobile", "mobile" ∷ "phone" ∷ "tablet" ∷ "ios" ∷ "android" ∷ [])
    ∷ ("if_personalized", "personalized" ∷ "personalised" ∷ "recommendation" ∷ [])
    ∷ ("if_pre_launch", "pre-launch" ∷ "prelaunch" ∷ "coming soon" ∷ "waitlist" ∷ [])
    ∷ ("if_salary_focused", "salary" ∷ "compensation" ∷ "pay range" ∷ [])
    ∷ ("if_team_collaboration", "team collaboration" ∷ "team workspace" ∷ [])
    ∷ ("if_trust_needed", "trust" ∷ "secure" ∷ "verified" ∷ "authority" ∷ [])
    ∷ ("if_ux_focused", "ux" ∷ "usability" ∷ "accessibility" ∷ "accessible" ∷ [])
    ∷ ("if_video_ready", "video ready" ∷ "product video" ∷ "demo video" ∷ [])
    ∷ []

abbrev pub allowed_conditions : List String
allowed_conditions = "must_have" ∷ keys condition_signals

abbrev pub action_prefixes : List String
action_prefixes = "constraint" ∷ "style" ∷ "pattern" ∷ "mode" ∷ []

abbrev pub token_action_prefixes : List String
token_action_prefixes = "constraint" ∷ "style" ∷ []

-- the set literal of the `mode` test
abbrev pub modes : List String
modes = "dark" ∷ "light" ∷ []

-- ===== src/Search/Domain.antt =====
-- The domain of a query: `_contains_phrase`, the labels of `_load_product_keywords`, and the scores of
-- `detect_domain`. The order in which a set of texts is iterated is the parameter `order`. The scores
-- are small whole numbers, which floats hold exactly.
use enterprise_angular_nest.Base.{
  ℕ, ◌+◌, ◌*◌, Bool, true, false, not, ◌&&◌, ◌||◌, String, ◌==◌, Option, none, some, List, [], ◌∷◌,
  ◌++◌, length, leb, ltb, eqb, if◌then◌else◌, code,
}
use enterprise_angular_nest.Base.Dict
use enterprise_angular_nest.Base.Dict.{Dict, has, lookup, insert}
use enterprise_angular_nest.Base.Sort.{sort_desc}
use enterprise_angular_nest.Base.Text.{Unicode, all_chars, distinct, has_sub, size, split, strip}
use enterprise_angular_nest.Base.Words.{search_phrase}
use enterprise_angular_nest.Search.Config.{domain_tiebreak_order}
use enterprise_angular_nest.Search.Memory.{}
use enterprise_angular_nest.Search.Rows.{Row, text_of}
use enterprise_angular_nest.Search.Vocabulary.{product_seed}

-- `re.sub(r"\([^)]*\)", "", s)`; `inside` says that the end of a match is still to come
abbrev pub drop_parens : Bool → String → String
drop_parens inside String.[] = ""
drop_parens true (String.◌∷◌ c s) = drop_parens (not (eqb (code c) b')')) s
drop_parens false (String.◌∷◌ c s) =
    let opens = eqb (code c) b'(' && has_sub ")" s in
    let rest = drop_parens opens s in if opens then rest else String.◌∷◌ c rest

-- `[0-9a-f]` in any case
abbrev pub is_hex : ℕ → Bool
is_hex n = (leb b'0' n && leb n b'9') || (leb b'a' n && leb n b'f') || (leb b'A' n && leb n b'F')

-- `a < b` on texts: the code points in order
abbrev pub text_lt : String → String → Bool
text_lt String.[] String.[] = false
text_lt String.[] (String.◌∷◌ d t) = true
text_lt (String.◌∷◌ c s) String.[] = false
text_lt (String.◌∷◌ c s) (String.◌∷◌ d t) =
    ltb (code c) (code d) || (eqb (code c) (code d) && text_lt s t)

-- `sorted(set(xs))`
unfoldable pub sorted_set : List String → List String
unfolding sort_desc
sorted_set xs = sort_desc (λ a b. text_lt b a) (λ (x : String). x) (distinct xs)

-- `_DOMAIN_TIEBREAK_RANK.get(domain, 999)`
abbrev rank_in : ℕ → List String → String → ℕ
rank_in i [] domain = 999
rank_in i (d ∷ ds) domain = let rest = rank_in (i + 1) ds domain in if d == domain then i else rest

abbrev pub tiebreak_rank : String → ℕ
tiebreak_rank domain = rank_in 0 domain_tiebreak_order domain

-- `<` on the sort keys `(score, -rank)`
abbrev pub ranks_below : ℕ × ℕ → ℕ × ℕ → Bool
ranks_below p q = ltb p.0 q.0 || (eqb p.0 q.0 && ltb q.1 p.1)

abbrev pub rank_key : String × ℕ → ℕ × ℕ
rank_key p = (p.1, tiebreak_rank p.0)

module _ (u : Unicode) where
  -- `#[0-9a-f]{3,8}(?!\w)` at the head of the text, behind the `#` and `k` digits
  abbrev pub hex_rest : ℕ → String → Bool
  hex_rest k String.[] = leb 3 k && leb k 8
  hex_rest k (String.◌∷◌ c s) =
      let more = hex_rest (k + 1) s in
      (leb 3 k && leb k 8 && not (u.is_word c)) || (is_hex (code c) && more)

  -- the search for it behind no word character
  abbrev pub hex_color_from : Bool → String → Bool
  hex_color_from after String.[] = false
  hex_color_from after (String.◌∷◌ c s) =
      (not after && eqb (code c) b'#' && hex_rest 0 s) || hex_color_from (u.is_word c) s

  -- `_contains_phrase`
  unfoldable pub contains_phrase : String → String → Bool
  unfolding search_phrase
  contains_phrase text phrase =
      if all_chars (λ c. not (u.is_word c)) phrase
      then has_sub phrase text
      else search_phrase u.is_word phrase text

  -- the label of a row of products.csv
  unfoldable pub product_label : Row → String
  unfolding strip
  product_label row = u.lower (strip u.is_space (drop_parens false (text_of "Product Type" row)))

  abbrev pub add_labels : List String → List Row → List String
  add_labels found [] = found
  add_labels found (row ∷ rows) =
      let label = product_label row in
      add_labels (if leb 4 (size label) then found ++ (label ∷ []) else found) rows

  -- `sorted(keywords, key=len, reverse=True)`
  unfoldable pub product_labels : (List String → List String) → List Row → List String
  unfolding sort_desc product_label
  product_labels order rows = sort_desc ltb size (order (distinct (add_labels product_seed rows)))

  -- the words of a keyword, at least one
  unfoldable pub specificity : String → ℕ
  unfolding split
  specificity keyword = let n = length (split u.is_space keyword) in if eqb n 0 then 1 else n

  -- the total of one domain, for a lowered and normalized query
  abbrev pub total : String → String → List String → ℕ
  total query domain [] = 0
  total query domain (keyword ∷ keywords) =
      let rest = total query domain keywords in
      if contains_phrase query keyword
      then (if domain == "product" then specificity keyword else 2 * specificity keyword) + rest
      else rest

  abbrev pub score_domains : String → Dict (List String) → Dict ℕ
  score_domains query [] = []
  score_domains query ((domain, keywords) ∷ d) =
      (domain, total query domain keywords) ∷ score_domains query d

  abbrev pub with_color : String → Dict ℕ → Dict ℕ
  with_color query scores =
      if hex_color_from false query
      then insert "color" (Dict.get_or 0 "color" scores + 2) scores
      else scores

  -- `ranked`
  unfoldable pub rank_domains : String → Dict (List String) → Dict ℕ
  unfolding sort_desc contains_phrase specificity
  rank_domains query keywords =
      sort_desc ranks_below rank_key (with_color query (score_domains query keywords))

-- `best_domain if best_score > 0 else "style"`, and the runner-up
abbrev pub runner_up_of : Dict ℕ → Option String
runner_up_of [] = none
runner_up_of ((domain, score) ∷ ranked) = if ltb 0 score then some domain else none

abbrev pub choose_domain : Dict ℕ → String × Option String
choose_domain [] = ("style", none)
choose_domain ((domain, score) ∷ ranked) =
    (if ltb 0 score then domain else "style", runner_up_of ranked)

-- ===== src/Search/Routing.antt =====
-- The routing keywords, kept by the signature of products.csv, and the queries they route:
-- `_load_product_keywords`, `_domain_keywords`, `_rewrite_query_for_domain` and `detect_domain`.
-- `path_of` gives the path of a data file.
pub mod Calm
use enterprise_angular_nest.Search.Domain.{
  sorted_set, contains_phrase, product_labels, choose_domain, rank_domains,
}
use enterprise_angular_nest.Base.{
  Bool, true, false, not, ◌&&◌, String, ◌<>◌, ◌==◌, Option, none, some, List, [], ◌∷◌, any,
  if◌then◌else◌,
}
use enterprise_angular_nest.Base.Dict
use enterprise_angular_nest.Base.Dict.{Dict, has, lookup, insert}
use enterprise_angular_nest.Base.Floats.{Floats}
use enterprise_angular_nest.Base.Text.{Unicode, contains, join}
use enterprise_angular_nest.Ranking.Index.{Index, vocabulary}
use enterprise_angular_nest.Ranking.Tokens.{normalize, tokenize}
use enterprise_angular_nest.Search.Cache.{Files, Outcome, Signature, err, ok, same_signature}
use enterprise_angular_nest.Search.Config.{domain_query_rewrites}
use enterprise_angular_nest.Search.Memory.{Act, exists, file_signature, load_csv, return, ◌>>=◌}
use enterprise_angular_nest.Search.Rows.{Row}
use enterprise_angular_nest.Search.Vocabulary.{keyword_table, product_seed}

-- What is replaced in a query: pairs `keyword->replacement`, and the terms that are added.
abbrev pub Rewrites : Type 0
Rewrites = List String × List String

abbrev add_rewrite : String → Option (Option String) → Rewrites → Rewrites
add_rewrite keyword (some (some replacement)) (rewrites, terms) =
    ((keyword <> ("->" <> replacement)) ∷ rewrites, replacement ∷ terms)
add_rewrite keyword _ rewritten = rewritten

abbrev pub rewritten : String → Rewrites → String × List String
rewritten query (rewrites, []) = (query, [])
rewritten query (rewrites, term ∷ terms) =
    (query <> (" " <> join " " (sorted_set (term ∷ terms))), sorted_set rewrites)

module _ (u : Unicode) where
  abbrev pub rewrite_loop : String → List String → Dict (Option String) → List String → Rewrites
  rewrite_loop text known replacements [] = ([], [])
  rewrite_loop text known replacements (keyword ∷ keywords) =
      let rest = rewrite_loop text known replacements keywords in
      if contains_phrase u text keyword && not (any (contains known) (tokenize u keyword))
      then add_rewrite keyword (lookup keyword replacements) rest
      else rest

module _ (u : Unicode) (order : List String → List String) where
  abbrev labels_of : Outcome (List Row) → List String
  labels_of (ok rows) = product_labels u order rows
  labels_of (err e) = product_seed

abbrev pub same_memo : Option Signature → Option Signature → Bool
same_memo none none = true
same_memo (some a) (some b) = same_signature a b
same_memo _ _ = false

module _ {F : Floats} (files : Files) (u : Unicode) (order : List String → List String)
    (path_of : String → String) where
  abbrev try_labels : Act F (List Row) → Act F (List String)
  try_labels load m = let (r, n) = load m in (ok (labels_of u order r), n)

  abbrev labels_if : Bool → Act F (List String)
  labels_if true = try_labels (load_csv files (path_of "products.csv"))
  labels_if false = return product_seed

  -- `_load_product_keywords`
  unfoldable pub load_product_keywords : Act F (List String)
  unfolding load_csv
  load_product_keywords = exists files (path_of "products.csv") >>= labels_if

  abbrev some_signature : Signature → Act F (Option Signature)
  some_signature sig = return (some sig)

  abbrev signature_if : Bool → Act F (Option Signature)
  signature_if true = file_signature files (path_of "products.csv") >>= some_signature
  signature_if false = return none

  abbrev keep_keywords : Option Signature → List String → Act F (Dict (List String))
  keep_keywords sig labels m =
      (ok (keyword_table labels), record m { keywords = some (sig, keyword_table labels) })

  abbrev refresh : Option Signature → Act F (Dict (List String))
  refresh sig = load_product_keywords >>= keep_keywords sig

  abbrev memoized :
      Option (Option Signature × Dict (List String)) → Option Signature → Act F (Dict (List String))
  memoized none sig = refresh sig
  memoized (some (held, keywords)) sig = if same_memo held sig then return keywords else refresh sig

  abbrev use_memo : Option Signature → Act F (Dict (List String))
  use_memo sig m = memoized m.keywords sig m

  -- `_domain_keywords`
  unfoldable pub domain_keywords : Act F (Dict (List String))
  unfolding load_product_keywords
  domain_keywords = exists files (path_of "products.csv") >>= signature_if >>= use_memo

  abbrev rewrite_with :
      String → String → Index F → Dict (List String) → Act F (String × List String)
  rewrite_with query domain index keywords = return (
      rewritten query (
        rewrite_loop u (normalize u (u.lower query)) (vocabulary F index)
          (Dict.get_or [] domain domain_query_rewrites) (Dict.get_or [] domain keywords)))

  abbrev rewrite_known :
      String → String → Index F → Dict (List String) → Act F (String × List String)
  rewrite_known query domain index keywords =
      if has domain keywords
      then domain_keywords >>= rewrite_with query domain index
      else return (query, [])

  abbrev rewrite_for : String → Option String → Index F → Act F (String × List String)
  rewrite_for query none index = return (query, [])
  rewrite_for query (some domain) index =
      if domain == ""
      then return (query, [])
      else domain_keywords >>= rewrite_known query domain index

  -- `_rewrite_query_for_domain`
  unfoldable pub rewrite_query_for_domain :
      String → Option String → Index F → Act F (String × List String)
  unfolding contains_phrase tokenize normalize domain_keywords
  rewrite_query_for_domain query domain index = rewrite_for query domain index

  abbrev detect_with : String → Dict (List String) → Act F (String × Option String)
  detect_with query keywords =
      return (choose_domain (rank_domains u (normalize u (u.lower query)) keywords))

  -- `detect_domain` with its scores
  unfoldable pub detect_domain : String → Act F (String × Option String)
  unfolding rank_domains normalize domain_keywords
  detect_domain query = domain_keywords >>= detect_with query

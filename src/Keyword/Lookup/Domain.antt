-- ===== src/Keyword/Lookup/Domain.antt =====
-- The domain that `detect_domain` chooses is the first of the best.
use enterprise_angular_nest.Base.{
  ℕ, ◌<◌, ◌≤◌, false, String, List, [], ◌∷◌, ◌++◌, ◌≡◌, inl, inr, refl, ap, arith, ltb, ltb→lt, All,
  Bool-cases, sym,
}
use mathlib.Core.List.{head-eq_of_cons-eq, tail-eq_of_cons-eq}
use enterprise_angular_nest.Base.Dict.{Dict}
use enterprise_angular_nest.Keyword.Lookup.{hits, best_of, score_all, or_default, best_domain}

-- `best` is the first entry with the highest score
pub record IsFirstBest (best : String × ℕ) (scores : List (String × ℕ)) : Type 0 where
  pub before : List (String × ℕ)
  pub behind : List (String × ℕ)
  pub splits : scores ≡ before ++ (best ∷ behind)
  pub less : All (λ s. s.1 < best.1) before
  pub at_most : All (λ s. s.1 ≤ best.1) behind

not_less : (a b : ℕ) → ltb a b ≡ false → b ≤ a
not_less a b h = ground arith

-- a worse entry behind the first one changes nothing
skip_worse :
    (b x : String × ℕ) (best : String × ℕ) (xs : List (String × ℕ))
    → x.1 ≤ b.1
    → IsFirstBest best (b ∷ xs)
    → IsFirstBest best (b ∷ x ∷ xs)
skip_worse b x best xs h f = by_place f.before f.splits f.less
  where
    head_less :
        {y : String × ℕ} {l m : List (String × ℕ)} → b ∷ l ≡ y ∷ m → y.1 < best.1 → b.1 < best.1
    head_less e h = rw (ap (λ s. s.1) (head-eq_of_cons-eq e)) h

    by_place :
        (before : List (String × ℕ))
        → b ∷ xs ≡ before ++ (best ∷ f.behind)
        → All (λ s. s.1 < best.1) before
        → IsFirstBest best (b ∷ x ∷ xs)
    by_place [] e l = record {
      before = [];
      behind = x ∷ xs;
      splits = ap (λ l. l) (ap (λ h. h ∷ x ∷ xs) (head-eq_of_cons-eq e));
      less = tt;
      at_most =
          (rw (ap (λ s. s.1) (sym (head-eq_of_cons-eq e))) h, rw (tail-eq_of_cons-eq e) f.at_most);
    }
    by_place (y ∷ ys) e l = record {
      before = b ∷ x ∷ ys;
      behind = f.behind;
      splits = ap (λ l. b ∷ x ∷ l) (tail-eq_of_cons-eq e);
      less = (head_less e l.0, (omega (arith, h, head_less e l.0), l.1));
      at_most = f.at_most;
    }

-- the first entry is no better than the best
first_at_most :
    (b : String × ℕ) (best : String × ℕ) (xs : List (String × ℕ))
    → IsFirstBest best (b ∷ xs)
    → b.1 ≤ best.1
first_at_most b best xs f = by_place f.before f.splits f.less
  where
    by_place :
        (before : List (String × ℕ))
        → b ∷ xs ≡ before ++ (best ∷ f.behind)
        → All (λ s. s.1 < best.1) before
        → b.1 ≤ best.1
    by_place [] e l = rw (ap (λ s. s.1) (head-eq_of_cons-eq e)) (omega arith)
    by_place (y ∷ ys) e l = rw (ap (λ s. s.1) (head-eq_of_cons-eq e)) (omega (arith, l.0))

-- a better entry behind the first one takes its place
pass_worse :
    (b x best : String × ℕ) (xs : List (String × ℕ))
    → b.1 < x.1
    → IsFirstBest best (x ∷ xs)
    → IsFirstBest best (b ∷ x ∷ xs)
pass_worse b x best xs h f = record {
  before = b ∷ f.before;
  behind = f.behind;
  splits = ap (λ l. b ∷ l) f.splits;
  less = (omega (arith, h, first_at_most x best xs f), f.less);
  at_most = f.at_most;
}

best_of-IsFirstBest :
    (b : String × ℕ) (xs : List (String × ℕ)) → IsFirstBest (best_of b xs) (b ∷ xs)
best_of-IsFirstBest b [] = record {
  before = [];
  behind = [];
  splits = refl;
  less = tt;
  at_most = tt;
}
best_of-IsFirstBest b (x ∷ xs) = elim (Bool-cases (ltb b.1 x.1)) [
  | inl e ↦ rw e (pass_worse b x (best_of x xs) xs (ltb→lt b.1 x.1 e) (best_of-IsFirstBest x xs))
  | inr e ↦ rw e (skip_worse b x (best_of b xs) xs (not_less b.1 x.1 e) (best_of-IsFirstBest b xs))
]

-- What `detect_domain` returns: the default when no keyword of any domain is hit, and otherwise the
-- first of the domains with most hits.
pub data Detects (default : String) (scores : List (String × ℕ)) (domain : String) : Type 0 where
  nothing_hit : All (λ s. s.1 ≡ 0) scores → domain ≡ default → Detects default scores domain
  most_hits :
      (hits : ℕ) → 0 < hits → IsFirstBest (domain, hits) scores → Detects default scores domain

-- a best of no hits leaves none for the others
nothing_above :
    (best : String × ℕ) (before behind : List (String × ℕ))
    → best.1 ≤ 0
    → All (λ s. s.1 < best.1) before
    → All (λ s. s.1 ≤ best.1) behind
    → All (λ s. s.1 ≡ 0) (before ++ (best ∷ behind))
nothing_above best [] [] h l m = (omega (arith, h), tt)
nothing_above best [] (s ∷ behind) h l m =
    (omega (arith, h), (omega (arith, h, m.0), (nothing_above best [] behind h tt m.1).1))
nothing_above best (s ∷ before) behind h l m =
    (omega (arith, h, l.0), nothing_above best before behind h l.1 m)

detected :
    (default : String) (best : String × ℕ) (scores : List (String × ℕ))
    → IsFirstBest best scores
    → Detects default scores (or_default default best)
detected default best scores f = elim (Bool-cases (ltb 0 best.1)) [
  | inl e ↦ rw e (Detects.most_hits best.1 (ltb→lt 0 best.1 e) f)
  | inr e ↦ rw e (
      Detects.nothing_hit
        (rw f.splits (nothing_above best f.before f.behind (not_less 0 best.1 e) f.less f.at_most))
        refl)
]

-- On every table of keywords and every query, `detect_domain` returns the default when no keyword of
-- any domain occurs in the query, and otherwise the first domain in the table's order with the highest
-- number of keywords that occur.
pub best_domain-Detects :
    (default : String) (domains : Dict (List String)) (query : String)
    → Detects default (score_all query domains) (best_domain default domains query)
unfolding best_domain
best_domain-Detects default [] query = Detects.nothing_hit tt refl
best_domain-Detects default ((domain, keywords) ∷ d) query =
    detected default (best_of (domain, hits query keywords) (score_all query d))
      ((domain, hits query keywords) ∷ score_all query d)
      (best_of-IsFirstBest (domain, hits query keywords) (score_all query d))

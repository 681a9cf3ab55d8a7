-- ===== src/Search/Routing/Calm.antt =====
-- Reading the routing keywords keeps the data cache coherent and leaves the index cache alone.
use enterprise_angular_nest.Base.{
  String, Option, some, none, List, Bool, true, false, refl, Bool-cases, inl, inr, ◌==◌, [],
}
use enterprise_angular_nest.Base.Dict.{Dict, has}
use enterprise_angular_nest.Base.Floats.{Floats}
use enterprise_angular_nest.Base.Text.{Unicode}
use enterprise_angular_nest.Ranking.Index.{Index}
use enterprise_angular_nest.Search.Cache.{Files, Signature}
use enterprise_angular_nest.Search.Cache.Coherence.{IsStable}
use enterprise_angular_nest.Search.Memory.{file_signature, exists, ◌>>=◌}
use enterprise_angular_nest.Search.Memory.Calm.{
  Calm, bind-Calm, return-Calm, exists-Calm, file_signature-Calm, load_csv-IsStill,
}
use enterprise_angular_nest.Search.Routing
use enterprise_angular_nest.Search.Routing.{
  detect_domain, domain_keywords, load_product_keywords, rewrite_query_for_domain, Row,
}

module _ {F : Floats} (files : Files) (u : Unicode) (order : List String → List String)
    (path_of : String → String) (content : String → Signature → List Row)
    (stable : IsStable files content) where
  labels_if-Calm :
      (b : Bool) → Calm {F = F} files content (Routing.labels_if files u order path_of b)
  labels_if-Calm true m h =
      (load_csv-IsStill files content stable (path_of "products.csv") m h, λ e q. cc q)
  labels_if-Calm false m h = return-Calm files content _ m h

  signature_if-Calm :
      (b : Bool) → Calm {F = F} files content (Routing.signature_if files u order path_of b)
  signature_if-Calm true =
      bind-Calm files content (file_signature files (path_of "products.csv"))
        (Routing.some_signature files u order path_of)
        (file_signature-Calm files content (path_of "products.csv"))
        (λ sig. return-Calm files content (some sig))
  signature_if-Calm false = return-Calm files content none

  load_product_keywords-Calm :
      Calm {F = F} files content (load_product_keywords files u order path_of)
  unfolding load_product_keywords
  load_product_keywords-Calm =
      bind-Calm files content (exists files (path_of "products.csv"))
        (Routing.labels_if files u order path_of)
        (exists-Calm files content (path_of "products.csv")) labels_if-Calm

  keep_keywords-Calm :
      (sig : Option Signature) (labels : List String)
      → Calm {F = F} files content (Routing.keep_keywords files u order path_of sig labels)
  keep_keywords-Calm sig labels m h = ((h, refl), λ e q. cc q)

  refresh-Calm :
      (sig : Option Signature)
      → Calm {F = F} files content (Routing.refresh files u order path_of sig)
  refresh-Calm sig =
      bind-Calm files content (load_product_keywords files u order path_of)
        (Routing.keep_keywords files u order path_of sig) load_product_keywords-Calm
        (keep_keywords-Calm sig)

  use_memo-Calm :
      (memo : Option (Option Signature × Dict (List String))) (sig : Option Signature)
      → Calm {F = F} files content (Routing.memoized files u order path_of memo sig)
  use_memo-Calm none sig = refresh-Calm sig
  use_memo-Calm (some (held, keywords)) sig = elim (Bool-cases (Routing.same_memo held sig)) [
    | inl e ↦ rw e (return-Calm files content keywords)
    | inr e ↦ rw e (refresh-Calm sig)
  ]

  domain_keywords-Calm : Calm {F = F} files content (domain_keywords files u order path_of)
  unfolding domain_keywords
  domain_keywords-Calm =
      bind-Calm files content
        (exists files (path_of "products.csv") >>= Routing.signature_if files u order path_of)
        (Routing.use_memo files u order path_of)
        (bind-Calm files content (exists files (path_of "products.csv"))
          (Routing.signature_if files u order path_of)
          (exists-Calm files content (path_of "products.csv")) signature_if-Calm)
        (λ sig m. use_memo-Calm m.keywords sig m)

  rewrite_known-Calm :
      (query domain : String) (index : Index F) (keywords : Dict (List String))
      → Calm {F = F} files content
          (Routing.rewrite_known files u order path_of query domain index keywords)
  rewrite_known-Calm query domain index keywords = elim (Bool-cases (has domain keywords)) [
    | inl e ↦ rw e (
        bind-Calm files content (domain_keywords files u order path_of)
          (Routing.rewrite_with files u order path_of query domain index) domain_keywords-Calm
          (λ k. return-Calm files content _))
    | inr e ↦ rw e (return-Calm files content (query, []))
  ]

  pub rewrite_query_for_domain-Calm :
      (query : String) (domain : Option String) (index : Index F)
      → Calm {F = F} files content
          (rewrite_query_for_domain files u order path_of query domain index)
  unfolding rewrite_query_for_domain
  rewrite_query_for_domain-Calm query none index = return-Calm files content (query, [])
  rewrite_query_for_domain-Calm query (some domain) index = elim (Bool-cases (domain == "")) [
    | inl e ↦ rw e (return-Calm files content (query, []))
    | inr e ↦ rw e (
        bind-Calm files content (domain_keywords files u order path_of)
          (Routing.rewrite_known files u order path_of query domain index) domain_keywords-Calm
          (rewrite_known-Calm query domain index))
  ]

  pub detect_domain-Calm :
      (query : String) → Calm {F = F} files content (detect_domain files u order path_of query)
  unfolding detect_domain
  detect_domain-Calm query =
      bind-Calm files content (domain_keywords files u order path_of)
        (Routing.detect_with files u order path_of query) domain_keywords-Calm
        (λ k. return-Calm files content _)

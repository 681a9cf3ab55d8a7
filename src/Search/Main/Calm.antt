-- ===== src/Search/Main/Calm.antt =====
-- Finding the domain and the identity keeps the data cache coherent and leaves the index cache alone.

use enterprise_angular_nest.Base.{
  Bool, true, false, String, Option, none, some, List, if◌then◌else◌,
}
use enterprise_angular_nest.Base.Floats.{Floats}
use enterprise_angular_nest.Base.Text.{Unicode}
use enterprise_angular_nest.Search.Answers.{table_of}
use enterprise_angular_nest.Search.Cache.{Files, Signature}
use enterprise_angular_nest.Search.Cache.Coherence.{IsStable}
use enterprise_angular_nest.Search.Identity.{style_identity}
use enterprise_angular_nest.Search.Main
use enterprise_angular_nest.Search.Main.{
  Resolved, Route, request_for, resolve, retrieve, route_of, search,
}
use enterprise_angular_nest.Search.Memory.{Act, load_rows_or_empty}
use enterprise_angular_nest.Search.Memory.Calm.{
  Calm, bind-Calm, load_rows_or_empty-Calm, return-Calm,
}
use enterprise_angular_nest.Search.Retrieve.Laws.{}
use enterprise_angular_nest.Search.Routing.{detect_domain}
use enterprise_angular_nest.Search.Routing.Calm.{detect_domain-Calm}
use enterprise_angular_nest.Search.Rows.{Row}

module _ {F : Floats} (files : Files) (u : Unicode) (order : List String → List String)
    (path_of : String → String) (ratio : String → String → F.Float)
    (content : String → Signature → List Row) (stable : IsStable files content) where
  route_by-Calm :
      (rows : List Row) (query : String) (named : Option Row)
      → Calm {F = F} files content (Main.route_by files u order path_of ratio rows query named)
  route_by-Calm rows query (some matched) = return-Calm files content _
  route_by-Calm rows query none =
      bind-Calm files content (detect_domain files u order path_of query)
        (Main.detected_route files u order path_of ratio rows)
        (detect_domain-Calm files u order path_of content stable query)
        (λ d. return-Calm files content _)

  pub route_of-Calm :
      (query : String) (domain : Option String)
      → Calm {F = F} files content (route_of files u order path_of ratio query domain)
  route_of-Calm query (some domain) = return-Calm files content _
  route_of-Calm query none =
      bind-Calm files content (load_rows_or_empty files (path_of "styles.csv"))
        (Main.route_with files u order path_of ratio query)
        (load_rows_or_empty-Calm files content stable (path_of "styles.csv"))
        (λ rows. route_by-Calm rows query (style_identity u rows query false))

  styles_of-Calm :
      (rows : Option (List Row))
      → Calm {F = F} files content (Main.styles_of files u order path_of ratio rows)
  styles_of-Calm none = load_rows_or_empty-Calm files content stable (path_of "styles.csv")
  styles_of-Calm (some rows) = return-Calm files content rows

  if-Calm :
      {A : Type 0} (b : Bool) (x y : Act F A)
      → Calm files content x
      → Calm files content y
      → Calm files content (if b then x else y)
  if-Calm true x y h k = h
  if-Calm false x y h k = k

  pub resolve-Calm :
      (query domain : String) (route : Route)
      → Calm {F = F} files content (resolve files u order path_of ratio query domain route)
  resolve-Calm query domain route =
      if-Calm _ _ _
        (bind-Calm files content (Main.styles_of files u order path_of ratio route.style_rows)
          (Main.destination files u order path_of ratio query) (styles_of-Calm route.style_rows)
          (λ rows. return-Calm files content _))
        (if-Calm _ _ _
          (bind-Calm files content (load_rows_or_empty files (path_of (table_of "landing").file))
            (Main.landing_identity files u order path_of ratio query route)
            (load_rows_or_empty-Calm files content stable (path_of (table_of "landing").file))
            (λ rows. return-Calm files content _))
          (return-Calm files content _))

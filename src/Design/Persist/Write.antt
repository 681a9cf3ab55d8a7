-- ===== src/Design/Persist/Write.antt =====
-- What one write leaves in the files.
use enterprise_angular_nest.Base.{
  Bool, false, String, ◌==◌, eq_iff, none, some, if◌then◌else◌, ◌≡◌, ap, arith, ◌||◌, not,
  Bool-cases, inl, true, sym, ◌∙◌, inr, refl,
}
use enterprise_angular_nest.Base.Dict.{
  has, insert, lookup, remove, lookup-insert, lookup-remove, has-insert,
}
use enterprise_angular_nest.Design.Persist.{Files, write_persisted_file, link_temp}

-- The temporary file has a name of its own: no file has it yet, and it is not the file that is written.
pub record IsFreshName (temp_for : Files → String → String) : Type 0 where
  pub absent : (files : Files) (path : String) → lookup (temp_for files path) files ≡ none
  pub other : (files : Files) (path : String) → (temp_for files path == path) ≡ false

-- A write that is published changes the one file, and one that is not changes none; without force the
-- file that is published was not there.
pub record IsWrite (path content : String) (force : Bool) (files : Files) (result : Bool × Files)
    : Type 0 where
  pub after :
      (p : String)
      → lookup p result.1 ≡ (
          if result.0 then (if path == p then some content else lookup p files) else lookup p files)
  pub wins : result.0 ≡ (force || not (has path files))

after_link :
    (temp path text p : String) (files : Files)
    → lookup temp files ≡ none
    → (temp == path) ≡ false
    → lookup p (remove temp (insert path text (insert temp text files)))
      ≡ (if path == p then some text else lookup p files)
after_link temp path text p files fresh other = ground (
  arith,
  lookup-remove temp p (insert path text (insert temp text files)),
  lookup-insert path p text (insert temp text files),
  lookup-insert temp p text files,
  eq_iff temp p,
  eq_iff path p,
  eq_iff temp path,
  fresh,
  other,
)

after_replace :
    (temp path text p : String) (files : Files)
    → lookup temp files ≡ none
    → lookup p (insert path text (remove temp (insert temp text files)))
      ≡ (if path == p then some text else lookup p files)
after_replace temp path text p files fresh = ground (
  arith,
  lookup-insert path p text (remove temp (insert temp text files)),
  lookup-remove temp p (insert temp text files),
  lookup-insert temp p text files,
  eq_iff temp p,
  fresh,
)

after_refusal :
    (temp text p : String) (files : Files)
    → lookup temp files ≡ none
    → lookup p (remove temp (insert temp text files)) ≡ lookup p files
after_refusal temp text p files fresh = ground (
  arith,
  lookup-remove temp p (insert temp text files),
  lookup-insert temp p text files,
  eq_iff temp p,
  fresh,
)

module _ (temp_for : Files → String → String) (fresh : IsFreshName temp_for) where
  absent_has :
      (path content : String) (files : Files)
      → has path files ≡ has path (insert (temp_for files path) content files)
  absent_has path content files =
      ground (arith, has-insert (temp_for files path) path content files, fresh.other files path)

  link-IsWrite :
      (path content : String) (files : Files)
      → IsWrite path content false files (
          link_temp (temp_for files path) path content (insert (temp_for files path) content files))
  link-IsWrite path content files =
      elim (Bool-cases (has path (insert (temp_for files path) content files))) [
        | inl e ↦ rw e (record {
          after =
              λ p. after_refusal (temp_for files path) content p files (fresh.absent files path);
          wins = sym (ap not (absent_has path content files ∙ e));
        })
        | inr e ↦ rw e (record {
          after = λ p.
              after_link (temp_for files path) path content p files (fresh.absent files path)
                (fresh.other files path);
          wins = sym (ap not (absent_has path content files ∙ e));
        })
      ]

  pub write_persisted_file-IsWrite :
      (path content : String) (force : Bool) (files : Files)
      → IsWrite path content force files (write_persisted_file temp_for path content force files)
  unfolding write_persisted_file
  write_persisted_file-IsWrite path content false files = link-IsWrite path content files
  write_persisted_file-IsWrite path content true files = record {
    after = λ p. after_replace (temp_for files path) path content p files (fresh.absent files path);
    wins = refl;
  }

-- ===== src/Design/Persist/Laws.antt =====
-- What persisting leaves in the files.
use enterprise_angular_nest.Base.{
  Bool, false, String, ◌==◌, eq_iff, none, some, if◌then◌else◌, ◌≡◌, ap, arith, ◌||◌, not,
  Bool-cases, inl, true, sym, ◌∙◌, inr, ◌++◌, Option,
}
use enterprise_angular_nest.Base.Dict.{has, lookup, has-eq-lookup}
use enterprise_angular_nest.Base.Text.{Unicode, contains}
use enterprise_angular_nest.Design.Persist.{
  Persisted, answer, created, persist_page, page_path, page_of, project_dir, persist_design_system,
  Files, write_persisted_file, Unicode, Persisted, answer, created,
}
use enterprise_angular_nest.Design.Persist.Write.{
  IsFreshName, IsWrite, write_persisted_file-IsWrite,
}

-- What persisting does: every created file has its content, every other file is as before; without force
-- no created file was there, and with it the master file is always created.
pub record IsPersisted (master : String) (master_content page_content : String) (force : Bool)
    (files : Files) (result : Persisted × Files) : Type 0 where
  pub after :
      (p : String)
      → lookup p result.1 ≡ (
          if contains result.0.created_files p
          then some (if master == p then master_content else page_content)
          else lookup p files)
  pub fresh :
      force ≡ false
      → (p : String) → contains result.0.created_files p ≡ true
      → lookup p files ≡ none
  pub forced : force ≡ true → contains result.0.created_files master ≡ true

absent_before :
    (force : Bool) (path : String) (files : Files)
    → true ≡ (force || not (has path files))
    → force ≡ false
    → lookup path files ≡ none
absent_before force path files wins unforced =
    ground (arith, wins, unforced, has-eq-lookup path files)

at_name :
    (p q : String) (files : Files) → (p == q) ≡ true → lookup q files ≡ none → lookup p files ≡ none
at_name p q files e h = ap (λ n. lookup n files) ((eq_iff p q).0 e) ∙ h

module _ (u : Unicode) (slash : String → String → String) (temp_for : Files → String → String)
    (fresh : IsFreshName temp_for) where
  half-IsPersisted :
      (dir master mc pc : String) (force won : Bool) (files after : Files)
      → IsWrite master mc force files (won, after)
      → IsPersisted master mc pc force files (answer dir master (created won master), after)
  half-IsPersisted dir master mc pc force true files after w = record {
    after = λ p. w.after p ∙ ground (arith, eq_iff master p, eq_iff p master);
    fresh = λ unforced p c.
        ground (arith, w.wins, unforced, c, eq_iff p master, has-eq-lookup master files);
    forced = λ e. ground (arith, eq_iff master master);
  }
  half-IsPersisted dir master mc pc force false files after w = record {
    after = λ p. w.after p;
    fresh = λ unforced p c. ground (arith, c);
    forced = λ e. ground (arith, w.wins, e);
  }

  -- the page's file after the master's
  page-IsPersisted :
      (dir master page_file mc pc : String) (force won also : Bool) (files between after : Files)
      → (master == page_file) ≡ false
      → IsWrite master mc force files (won, between)
      → IsWrite page_file pc force between (also, after)
      → IsPersisted master mc pc force files
          (answer dir master (created won master ++ created also page_file), after)
  page-IsPersisted dir master page_file mc pc force true true files between after apart w v =
      record {
        after = λ p.
            v.after p
            ∙ ground (
              arith,
              w.after p,
              apart,
              eq_iff master p,
              eq_iff p master,
              eq_iff page_file p,
              eq_iff p page_file,
              eq_iff master page_file,
            );
        fresh = λ unforced p c. elim (Bool-cases (p == master)) [
          | inl e ↦ at_name p master files e (absent_before force master files w.wins unforced)
          | inr e ↦ at_name p page_file files (ground (arith, c, e)) (
              ground (
                arith,
                w.after page_file,
                apart,
                absent_before force page_file between v.wins unforced,
              ))
        ];
        forced = λ e. ground (arith, eq_iff master master);
      }
  page-IsPersisted dir master page_file mc pc force true false files between after apart w v =
      record {
        after = λ p. v.after p ∙ w.after p ∙ ground (arith, eq_iff master p, eq_iff p master);
        fresh = λ unforced p c.
            ground (arith, w.wins, unforced, c, eq_iff p master, has-eq-lookup master files);
        forced = λ e. ground (arith, eq_iff master master);
      }
  page-IsPersisted dir master page_file mc pc force false true files between after apart w v =
      record {
        after = λ p.
            v.after p
            ∙ ground (
              arith,
              w.after p,
              apart,
              eq_iff p page_file,
              eq_iff page_file p,
              eq_iff master p,
              eq_iff master page_file,
            );
        fresh = λ unforced p c.
            at_name p page_file files (ground (arith, c))
              (sym (w.after page_file) ∙ absent_before force page_file between v.wins unforced);
        forced = λ e. ground (arith, w.wins, e);
      }
  page-IsPersisted dir master page_file mc pc force false false files between after apart w v =
      record {
        after = λ p. v.after p ∙ w.after p;
        fresh = λ unforced p c. ground (arith, c);
        forced = λ e. ground (arith, w.wins, e);
      }

  -- For every project, page and directory, with temporary names that are fresh and a page's file apart
  -- from the master file: every created file has its content and every other file is as before; without
  -- force no created file was there before, and with it the master file is always created.
  pub persist-IsPersisted :
      (cwd : String) (project page output_dir : Option String) (mc pc : String) (force : Bool)
      (files : Files)
      → ((name : String)
          → (slash (project_dir u slash cwd output_dir project) "MASTER.md"
              == page_path u slash (project_dir u slash cwd output_dir project) name)
            ≡ false)
      → IsPersisted
          (slash (project_dir u slash cwd output_dir project) "MASTER.md")
          mc
          pc
          force
          files
          (persist_design_system u slash temp_for cwd project page output_dir mc pc force files)
  unfolding persist_design_system
  persist-IsPersisted cwd project page output_dir mc pc force files apart = by_page (page_of page)
    where
      dir : String
      dir = project_dir u slash cwd output_dir project

      master : String
      master = slash dir "MASTER.md"

      first : Bool × Files
      first = write_persisted_file temp_for master mc force files

      by_page :
          (asked : Option String)
          → IsPersisted master mc pc force files (
              persist_page u slash temp_for dir master
                (created first.0 master)
                asked
                pc
                force
                first.1)
      by_page none =
          half-IsPersisted dir master mc pc force first.0 files first.1
            (write_persisted_file-IsWrite temp_for fresh master mc force files)
      by_page (some name) =
          page-IsPersisted dir master (page_path u slash dir name) mc pc force first.0
            (write_persisted_file temp_for (page_path u slash dir name) pc force first.1).0 files
            first.1 (write_persisted_file temp_for (page_path u slash dir name) pc force first.1).1
            (apart name) (write_persisted_file-IsWrite temp_for fresh master mc force files)
            (write_persisted_file-IsWrite temp_for fresh (page_path u slash dir name) pc force
              first.1)

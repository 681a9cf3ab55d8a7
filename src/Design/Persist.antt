-- ===== src/Design/Persist.antt =====
-- `_write_persisted_file` and `persist_design_system`, over the files by their paths. The directories
-- can be made and written; what else the operating system may refuse ends the run before any file is
-- published.
pub mod Write
pub mod Laws
pub mod Race
use enterprise_angular_nest.Base.{
  Bool, true, false, String, ◌<>◌, ◌==◌, Option, none, some, List, [], ◌∷◌, ◌++◌, is_empty,
  if◌then◌else◌,
}
use enterprise_angular_nest.Base.Dict.{Dict, has, insert, lookup, remove}
use enterprise_angular_nest.Base.Text.{Unicode}
use enterprise_angular_nest.Design.Slug.{safe_slug}

abbrev pub Files : Type 0
Files = Dict String

-- `os.link(temp_name, path)`, `none` for the `FileExistsError`; then the temporary file is removed.
abbrev pub link_temp : String → String → String → Files → Bool × Files
link_temp temp path text files =
    if has path files
    then (false, remove temp files)
    else (true, remove temp (insert path text files))

-- `os.replace(temp_name, path)`
abbrev pub replace_temp : String → String → String → Files → Bool × Files
replace_temp temp path text files = (true, insert path text (remove temp files))

-- `_write_persisted_file`: whether the file was published, or a `FileExistsError` raised
unfoldable pub write_persisted_file :
    (Files → String → String) → String → String → Bool → Files → Bool × Files
write_persisted_file temp_for path content force files =
    let temp = temp_for files path in
    let held = insert temp content files in
    if force then replace_temp temp path content held else link_temp temp path content held

pub data Status : Type 0 where
  success skipped_exists : Status

-- the returned dictionary: its status, the file that the message names, and the created files
pub record Persisted : Type 0 where
  pub status : Status
  pub design_system_dir : String
  pub master_file : String
  pub created_files : List String

-- `output_dir`, where none or an empty text stands for the current directory
abbrev pub base_of : String → Option String → String
base_of cwd none = cwd
base_of cwd (some dir) = if dir == "" then cwd else dir

-- `design_system.get("project_name") or "default"`
abbrev pub project_of : Option String → String
project_of none = "default"
project_of (some name) = if name == "" then "default" else name

abbrev pub created : Bool → String → List String
created true path = path ∷ []
created false path = []

-- the page that is asked for; none or an empty text is no page
abbrev pub page_of : Option String → Option String
page_of none = none
page_of (some page) = if page == "" then none else some page

abbrev pub answer : String → String → List String → Persisted
answer dir master created_files = record {
  status = if is_empty created_files then skipped_exists else success;
  design_system_dir = dir;
  master_file = master;
  created_files = created_files;
}

-- `slash` joins a path, as `/` of pathlib does.
module _ (u : Unicode) (slash : String → String → String) where
  abbrev pub project_dir : String → Option String → Option String → String
  project_dir cwd output_dir project =
      slash (slash (base_of cwd output_dir) "design-system")
        (safe_slug u (project_of project) "default")

  abbrev pub page_path : String → String → String
  page_path dir page = slash (slash dir "pages") (safe_slug u page "page" <> ".md")

module _ (u : Unicode) (slash : String → String → String) (temp_for : Files → String → String) where
  -- the second half: the page's file, with what the master's half has created
  abbrev pub persist_page :
      String → String → List String → Option String → String → Bool → Files → Persisted × Files
  persist_page dir master created_files none content force files =
      (answer dir master created_files, files)
  persist_page dir master created_files (some page) content force files =
      let (won, after) =
        write_persisted_file temp_for (page_path u slash dir page) content force files in
      (answer dir master (created_files ++ created won (page_path u slash dir page)), after)

  -- `persist_design_system`, with the two contents that it formats
  unfoldable pub persist_design_system :
      String
      → Option String
      → Option String
      → Option String
      → String
      → String
      → Bool
      → Files
      → Persisted × Files
  unfolding safe_slug write_persisted_file
  persist_design_system cwd project page output_dir master_content page_content force files =
      let dir = project_dir u slash cwd output_dir project in
      let master = slash dir "MASTER.md" in
      let (won, after) = write_persisted_file temp_for master master_content force files in
      persist_page dir master (created won master) (page_of page) page_content force after

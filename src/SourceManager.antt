-- ===== src/SourceManager.antt =====
-- src/SourceManager.hpp and the part of src/SourceBuffer.hpp that it uses: where a file is looked
-- for, and the table of the files that are loaded. The file system is a parameter.
pub mod Cache
use partio.Prelude.{
  Bool, true, false, not, ◌||◌, List, [], ◌∷◌, ◌++◌, Option, none, some, if◌then◌else◌,
}
use partio.Prelude.Text.{Bytes, bytes, equal}

-- What the code asks of `std::filesystem` and of the calls of the system that map a file.
pub record FileSystem : Type 0 where
  -- `inc / filepath`
  pub join : Bytes → Bytes → Bytes
  pub parent_path : Bytes → Bytes
  pub exists : Bytes → Bool
  pub canonical : Bytes → Bytes
  -- the bytes of a file, or none where the constructor of `SourceBuffer` throws
  pub contents : Bytes → Option Bytes

pub record SourceBuffer : Type 0 where
  pub filepath : Bytes
  pub source : Bytes

-- `loaded_files` is an association list of canonical paths.
pub record SourceManager : Type 0 where
  pub loaded_files : List (Bytes × SourceBuffer)
  pub include_paths : List Bytes

pub add_include_path : Bytes → SourceManager → SourceManager
add_include_path path m = record m { include_paths = m.include_paths ++ path ∷ [] }

unfoldable pub find_loaded : Bytes → List (Bytes × SourceBuffer) → Option SourceBuffer
find_loaded k [] = none
find_loaded k ((j, b) ∷ rest) = if equal j k then some b else find_loaded k rest

module _ (fs : FileSystem) where
  open fs use {join, parent_path, exists, canonical, contents}

  -- the loop over `include_paths`; an empty path means that nothing was found
  unfoldable pub search_paths : List Bytes → Bytes → Bytes
  search_paths [] filepath = []
  search_paths (inc ∷ incs) filepath =
      if exists (join inc filepath) then join inc filepath else search_paths incs filepath

  -- Where the first candidate does not exist and the search finds nothing, `resolved_path` keeps it.
  unfoldable pub resolve : SourceManager → Bytes → Bytes → Bool → Bytes
  resolve m filepath current_dir true = search_paths m.include_paths filepath
  resolve m filepath current_dir false =
      let first = join current_dir filepath in
      let found = search_paths m.include_paths filepath in
      if exists first then first else if equal found [] then first else found

  -- the new entry, or the state as it was where the buffer cannot be made
  unfoldable pub load_new :
      SourceManager → Bytes → Option Bytes → SourceManager × Option SourceBuffer
  load_new m path none = (m, none)
  load_new m path (some source) =
      let buffer : SourceBuffer = record { filepath = path; source = source } in
      (record m { loaded_files = (path, buffer) ∷ m.loaded_files }, some buffer)

  unfoldable pub load_canonical :
      SourceManager → Bytes → Option SourceBuffer → SourceManager × Option SourceBuffer
  load_canonical m path (some buffer) = (m, some buffer)
  load_canonical m path none = load_new m path (contents path)

  unfoldable pub load_file :
      SourceManager → Bytes → Bytes → Bool → SourceManager × Option SourceBuffer
  load_file m filepath current_dir is_system =
      let resolved = resolve m filepath current_dir is_system in
      let path = canonical resolved in
      if equal resolved [] || not (exists resolved)
      then (m, none)
      else load_canonical m path (find_loaded path m.loaded_files)

-- ===== src/SourceManager/Cache.antt =====
-- The cache of loaded files of src/SourceManager.hpp.
use partio.Prelude.{
  ◌≡◌, refl, inl, inr, Bool, true, false, List, [], ◌∷◌, some, arith, Option-cases,
}
use partio.Prelude.Text.{Bytes, equal, equal_refl}
use partio.SourceManager.{
  FileSystem, SourceBuffer, SourceManager, find_loaded, search_paths, resolve, load_new,
  load_canonical, load_file,
}

-- the first include path under which the file exists
pub data FirstIn (fs : FileSystem) (filepath : Bytes) : List Bytes → Bytes → Type 0 where
  here :
      {inc : Bytes} {incs : List Bytes}
      → fs.exists (fs.join inc filepath) ≡ true
      → FirstIn fs filepath (inc ∷ incs) (fs.join inc filepath)
  later :
      {inc path : Bytes} {incs : List Bytes}
      → fs.exists (fs.join inc filepath) ≡ false
      → FirstIn fs filepath incs path
      → FirstIn fs filepath (inc ∷ incs) path

module _ (fs : FileSystem) where
  pub search_paths-FirstIn :
      (filepath path : Bytes) (incs : List Bytes)
      → FirstIn fs filepath incs path
      → (search_paths fs incs filepath ≡ path) × (fs.exists path ≡ true)
  unfolding search_paths
  search_paths-FirstIn filepath path incs (FirstIn.here e) = (rw e, e)
  search_paths-FirstIn filepath path incs (FirstIn.later {incs = rest} e f) =
      let (found, there) = search_paths-FirstIn filepath path rest f in (rw e found, there)

  loaded_is_found :
      (m m' : SourceManager) (path : Bytes) (b : SourceBuffer)
      → load_canonical fs m path (find_loaded path m.loaded_files) ≡ (m', some b)
      → find_loaded path m'.loaded_files ≡ some b
  unfolding load_canonical load_new
  loaded_is_found m m' path b h = elim (Option-cases (find_loaded path m.loaded_files)) [
    | inl new ↦ elim (Option-cases (fs.contents path)) [
      | inl fails ↦ cc (rw (new, load_canonical, fails, load_new) at h)
      | inr (source, read) ↦
          added source (cc (rw (new, load_canonical, read, load_new) at h))
            (cc (rw (new, load_canonical, read, load_new) at h))
    ]
    | inr (c, old) ↦
        let e = rw (old, load_canonical) at h in
        let same : m ≡ m' = cc e in let buffer : c ≡ b = cc e in rw (← same, old, buffer)
  ]
    where
      added :
          (source : Bytes)
          → record m {
            loaded_files = (path, record { filepath = path; source = source }) ∷ m.loaded_files;
          }
            ≡ m'
          → record { filepath = path; source = source } ≡ b
          → find_loaded path m'.loaded_files ≡ some b
      added source e f = rw (← e, ← f) (unfold find_loaded in rw (equal_refl path))

  -- Loading a file again, from any directory from which its path leads to the same canonical path,
  -- gives the buffer of the first time and changes nothing: the file is not read a second time.
  pub load_file-again :
      (m m' : SourceManager) (filepath filepath' dir dir' : Bytes) (sys sys' : Bool)
      (b : SourceBuffer)
      → load_file fs m filepath dir sys ≡ (m', some b)
      → fs.canonical (resolve fs m' filepath' dir' sys')
        ≡ fs.canonical (resolve fs m filepath dir sys)
      → fs.exists (resolve fs m' filepath' dir' sys') ≡ true
      → equal (resolve fs m' filepath' dir' sys') [] ≡ false
      → load_file fs m' filepath' dir' sys' ≡ (m', some b)
  unfolding load_file
  load_file-again m m' filepath filepath' dir dir' sys sys' b h same there named =
      let found = loaded_is_found m m' _ b (loaded h) in
      rw (named, there, same, found) (unfold load_canonical in refl)
    where
      loaded :
          load_file fs m filepath dir sys ≡ (m', some b)
          → load_canonical fs m
              (fs.canonical (resolve fs m filepath dir sys))
              (find_loaded (fs.canonical (resolve fs m filepath dir sys)) m.loaded_files)
            ≡ (m', some b)
      loaded e = ground arith

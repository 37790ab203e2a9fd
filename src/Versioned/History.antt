-- ===== src/Versioned/History.antt =====
-- The versions of a file in packages/storage/src/versioned.ts: listing, reading, restoring and removing them.
use tactile.Base.{
  ℕ, ◌-◌, true, false, not, ◌||◌, Option, some, none, List, [], ◌∷◌, Text, plain, ◌==◌, length,
  take, any, if◌then◌else◌,
}
use tactile.Paths.{normalize_path, slash}
use tactile.Storage.{Action, ◌>>=◌, ◌>>◌, pure, throw, lift, BackendOptions}
use tactile.Storage.Backend.{Backend, catch}
use tactile.Versioned.{
  FileVersion, Versioning, version_names, sort_versions, has_dots, Versioned, delegate,
  forget_snapshot, version_dir_for, in_dir, quiet, write_text_file,
}

module _ (inner : Backend) (settings : Versioning) where
  unfoldable pub some_dir : Option Text → Action (Versioned inner settings) Text
  some_dir none = throw plain
  some_dir (some dir) = pure dir

  unfoldable pub read_version : Text → Text → Action (Versioned inner settings) Text
  unfolding has_dots version_dir_for some_dir delegate
  read_version path id = if any (λ c. c == slash) id || has_dots id then throw plain else do
    found ← lift (version_dir_for inner settings path)
    dir ← some_dir found
    delegate inner settings (inner.read_text_file (in_dir inner settings dir id))

  unfoldable pub restore_version :
      ℕ → ℕ → Text → Text → Action (Versioned inner settings) (Unit {0})
  unfolding read_version write_text_file
  restore_version rounds now path id = do
    contents ← read_version path id
    write_text_file inner settings rounds now path contents
        (record { keep_version = none; recursive = false; origin = none })

  -- The size of a version, 0 where it cannot be asked for.
  unfoldable pub size_of : Text → Action inner.World ℕ
  unfolding catch
  size_of path = catch (do found ← inner.stat path; pure found.size) (λ _. pure 0)

  -- `number` stands for the runtime's `Number(s) || 0` on the stem of a version's name.
  unfoldable pub describe : (Text → ℕ) → Text → List Text → Action inner.World (List FileVersion)
  unfolding size_of
  describe number dir [] = pure []
  describe number dir (name ∷ names) = do
    size ← size_of (in_dir inner settings dir name)
    rest ← describe number dir names
    pure
        (record { id = name; timestamp = number (take (length name - 3) name); size = size } ∷ rest)

  unfoldable pub list_in : (Text → ℕ) → Option Text → Action inner.World (List FileVersion)
  unfolding version_names describe sort_versions
  list_in number none = pure []
  list_in number (some dir) = do
    there ← inner.exists dir
    if not there then pure [] else do
      entries ← inner.read_dir dir
      versions ← describe number dir (version_names entries)
      pure (sort_versions versions)

  unfoldable pub list_versions :
      (Text → ℕ) → Text → Action (Versioned inner settings) (List FileVersion)
  unfolding version_dir_for delegate list_in
  list_versions number path = do
    dir ← lift (version_dir_for inner settings path)
    delegate inner settings (list_in number dir)

  unfoldable pub remove_history : Option Text → Action inner.World (Unit {0})
  remove_history none = pure tt
  remove_history (some dir) = do
    there ← inner.exists dir
    (if there then inner.remove dir (quiet inner settings true) else pure tt)

  unfoldable pub remove : Text → BackendOptions → Action (Versioned inner settings) (Unit {0})
  unfolding normalize_path forget_snapshot delegate version_dir_for remove_history
  remove path options = do
    normalized ← lift (normalize_path path)
    forget_snapshot inner settings normalized
    delegate inner settings (inner.remove path options)
    wanted ← lift (settings.should_version normalized)
    if not wanted then pure tt else do
      dir ← lift (version_dir_for inner settings normalized)
      delegate inner settings (remove_history dir)

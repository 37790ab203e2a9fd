-- ===== src/App.antt =====
-- packages/core/src/api: what the application does with notes, folders and the trash of the open
-- collection.
--
-- The storage backend, the platform's own trash, the JSON codec of the trash manifest, the editor's
-- markdown and the runtime's case folding are the parameter `Environment`. The state `App` is the
-- part of `appState` that these functions use, with an editor that is there; a toast is recorded
-- without its text. A call that is not awaited runs to its end, and what it throws does not reach the
-- caller.
pub mod Trash
pub mod Notes
pub mod Folders
pub mod Frame
pub mod Open
pub mod Deletion
pub mod Moving
use tactile.Base.{
  ℕ, Bool, true, false, Option, some, none, List, [], ◌∷◌, ◌++◌, Text, codes, ok, err, Failure,
  plain, Result, split, join, text_eq, if◌then◌else◌, storage, not_found,
}
use tactile.Paths.{slash}
use tactile.Storage.{Action, ◌>>=◌, ◌>>◌, pure, throw, DirEntry, BackendOptions}
use tactile.Storage.Backend.{Backend, catch}

pub record TrashItem : Type 0 where
  pub name : Text
  pub original_path : Text
  pub deleted_at : Text
  pub is_folder : Bool

pub data TrashDir : Type 0 where
  system_trash tactile_trash delete_for_good : TrashDir

pub data EditorMode : Type 0 where
  edit view source : EditorMode

pub data Toast : Type 0 where
  success error : Toast

pub record Environment : Type 1 where
  pub backend : Backend
  -- `getStorage()`: the backend is there, or its provider throws.
  pub get_storage : Action backend.World (Unit {0})
  -- `platform().moveToSystemTrash`, where it is registered.
  pub move_to_system_trash : Option (Text → Action backend.World (Unit {0}))
  -- The items of a manifest; `none` where it is no JSON, or has no array of items.
  pub parse_manifest : Text → Option (List TrashItem)
  pub stringify_manifest : List TrashItem → Text
  -- The markdown of the document that was loaded from a text and edited.
  pub markdown : Text → Text
  pub to_lower : Text → Text
  pub same : ℕ → ℕ → Bool

-- `path.split('/').pop()!`
unfoldable pub last_of : Text → List Text → Text
last_of path [] = path
last_of path (x ∷ xs) = last_of x xs

unfoldable pub file_name : Text → Text
unfolding last_of
file_name path = last_of path (split slash path)

-- All parts but the last.
unfoldable pub all_but_last : List Text → List Text
all_but_last [] = []
all_but_last (x ∷ []) = []
all_but_last (x ∷ y ∷ rest) = x ∷ all_but_last (y ∷ rest)

-- `path.split('/').slice(0, -1).join('/')`
unfoldable pub directory_of : Text → Text
unfolding all_but_last
directory_of path = join slash (all_but_last (split slash path))

-- `s || '/'`
unfoldable pub or_root : Text → Text
or_root [] = slash ∷ []
or_root (c ∷ cs) = c ∷ cs

-- `s.replace('//', '/')`: the first pair of slashes.
unfoldable pub single_slash : Text → Text
single_slash [] = []
single_slash (x ∷ []) = x ∷ []
single_slash (x ∷ y ∷ rest) =
    let later = x ∷ single_slash (y ∷ rest) in
    if text_eq (x ∷ y ∷ []) (slash ∷ slash ∷ []) then slash ∷ rest else later

-- `${dir}/${name}`
abbrev pub in_dir : Text → Text → Text
in_dir dir name = dir ++ (slash ∷ name)

module _ (env : Environment) where
  pub record App : Type 0 where
    pub world : env.backend.World
    pub collection : Text
    pub trash_dir : TrashDir
    pub active_file : Option Text
    pub dirty_path : Option Text
    pub source_content : Text
    pub editor_content : Text
    pub editor_mode : EditorMode
    pub note_history : List Text
    pub toasts : List Toast

  -- A call of the storage backend.
  unfoldable pub call : {A : Type 0} → Action env.backend.World A → Action App A
  call m a = let (r, w) = m a.world in (r, record a { world = w })

  -- What follows `const storage = await getStorage()`.
  unfoldable pub with_storage : {A : Type 0} → Action App A → Action App A
  unfolding call
  with_storage m = call env.get_storage >> m

  -- A reading of the state, and a change of it.
  unfoldable pub get_app : Action App App
  get_app a = (ok a, a)

  unfoldable pub change : (App → App) → Action App (Unit {0})
  change f a = (ok tt, f a)

  unfoldable pub toast : Toast → Action App (Unit {0})
  unfolding change
  toast t = change (λ a. record a { toasts = a.toasts ++ t ∷ [] })

  -- A call that is not awaited.
  unfoldable pub detached : Action App (Unit {0}) → Action App (Unit {0})
  unfolding catch
  detached m = catch m (λ _. pure tt)

  -- The entries of a directory; one that is missing has none.
  unfoldable pub no_entries : Failure → Action App (List DirEntry)
  no_entries (storage not_found) = pure []
  no_entries (storage c) = throw (storage c)
  no_entries e = throw e

  unfoldable pub read_dir_or_empty : Text → Action App (List DirEntry)
  unfolding catch call no_entries
  read_dir_or_empty dir = catch (call (env.backend.read_dir dir)) no_entries

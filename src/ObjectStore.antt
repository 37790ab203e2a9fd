-- ===== src/ObjectStore.antt =====
-- The IndexedDB object store that packages/storage/src/idbfs.ts keeps its records in: a parameter,
-- with the documented behaviour of a store keyed by `path` that has an index on `parent`.
pub mod Memory
use tactile.Base.{
  DomError, ℕ, Bool, true, false, Option, some, none, List, [], ◌∷◌, ◌≡◌, Text, text_eq,
  if◌then◌else◌, ◌⊎◌,
}
use tactile.Storage.{FileData}

pub data EntryKind : Type 0 where
  file dir : EntryKind

pub record EntryRecord : Type 0 where
  pub path : Text
  pub parent : Text
  pub kind : EntryKind
  pub contents : FileData
  pub size : ℕ
  pub mtime : ℕ
  pub ctime : ℕ

-- `r` is in the list.
abbrev pub In : EntryRecord → List EntryRecord → Type 0
In r [] = ⊥
In r (x ∷ xs) = (r ≡ x) ⊎ In r xs

-- What is asked of the store and awaited: a request, or the end of a transaction.
pub data Request : Type 0 where
  getting getting_children : Text → Request
  putting : EntryRecord → Request
  getting_all committing : Request

pub record ObjectStore : Type 1 where
  pub Db : Type 0
  -- The error with which a request, or the opening of its database or transaction, is rejected. A
  -- rejected request changes nothing.
  pub refused : Db → Request → Option DomError
  pub get : Db → Text → Option EntryRecord
  pub put : Db → EntryRecord → Db
  pub delete : Db → Text → Db
  pub get_all : Db → List EntryRecord
  -- `index('parent').getAll(path)`
  pub get_by_parent : Db → Text → List EntryRecord
  -- A record is stored under its own path.
  pub get-key : (db : Db) (p : Text) (r : EntryRecord) → get db p ≡ some r → r.path ≡ p
  pub get-put :
      (db : Db) (r : EntryRecord) (p : Text)
      → get (put db r) p ≡ (if text_eq r.path p then some r else get db p)
  pub get-delete :
      (db : Db) (q p : Text) → get (delete db q) p ≡ (if text_eq q p then none else get db p)
  pub get_all_sound : (db : Db) (r : EntryRecord) → In r (get_all db) → get db r.path ≡ some r
  pub get_all_complete :
      (db : Db) (p : Text) (r : EntryRecord) → get db p ≡ some r → In r (get_all db)
  pub get_by_parent_sound :
      (db : Db) (q : Text) (r : EntryRecord)
      → In r (get_by_parent db q)
      → (get db r.path ≡ some r) × (r.parent ≡ q)
  pub get_by_parent_complete :
      (db : Db) (p : Text) (r : EntryRecord) → get db p ≡ some r → In r (get_by_parent db r.parent)

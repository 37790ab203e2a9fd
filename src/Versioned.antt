-- ===== src/Versioned.antt =====
-- packages/storage/src/versioned.ts: a backend that snapshots a file before it is overwritten.
--
-- The wrapped backend is `inner`. An operation is given the time at which it runs. `rounds` bounds the
-- loop that looks for a free version name.
pub mod Bump
pub mod Frame
pub mod History
use tactile.Base.{
  ℕ, zero, suc, ◌+◌, ◌-◌, Bool, true, false, not, ◌&&◌, ◌||◌, Option, some, none, List, [], ◌∷◌,
  ◌++◌, map, filter, Text, codes, text_eq, ok, err, Failure, plain, Result, ◌==◌, ltb, leb, length,
  take, drop, any, if◌then◌else◌, sort_names, lookup, assign, erase, to_decimal, starts_with,
}
use tactile.Paths.{normalize_path, path_segments, has_hidden_segment, encode_path_as_dir, slash}
use tactile.Storage.{
  Action, ◌>>=◌, ◌>>◌, pure, throw, lift, DirEntry, FileStat, BackendOptions, ChangeOrigin, local,
}
use tactile.Storage.Backend.{Backend, catch}

pub record FileVersion : Type 0 where
  pub id : Text
  pub timestamp : ℕ
  pub size : ℕ

-- The settings of a `VersionedBackend`, defaults filled in.
pub record Versioning : Type 0 where
  pub versions_dir : Text
  pub max_versions : ℕ
  pub max_file_bytes : ℕ
  pub min_interval : ℕ
  pub root_for : Text → Result (Option Text)
  pub should_version : Text → Result Bool

unfoldable pub default_root : List Text → Option Text
default_root [] = none
default_root (s ∷ []) = none
default_root (s ∷ t ∷ rest) = some (slash ∷ s)

unfoldable pub default_root_for : Text → Result (Option Text)
unfolding path_segments default_root
default_root_for path = elim (path_segments path) [
  | err e ↦ err e
  | ok segments ↦ ok (default_root segments)
]

-- `this.rootFor(path) !== undefined && !hasHiddenSegment(path)`
unfoldable pub default_should_version : (Text → Result (Option Text)) → Text → Result Bool
unfolding has_hidden_segment
default_should_version root_for path = elim (root_for path) [
  | err e ↦ err e
  | ok none ↦ ok false
  | ok (some root) ↦ elim (has_hidden_segment path) [ err e ↦ err e | ok hidden ↦ ok (not hidden) ]
]

abbrev pub defaults : Versioning
defaults = record {
  versions_dir = codes ".tactile/versions";
  max_versions = 30;
  max_file_bytes = 524288;
  min_interval = 30000;
  root_for = default_root_for;
  should_version = default_should_version default_root_for;
}

-- `s.endsWith(suffix)`
unfoldable pub ends_with : Text → Text → Bool
ends_with s suffix =
    text_eq (drop (length s - length suffix) s) suffix && leb (length suffix) (length s)

-- `.filter((e) => e.isFile && e.name.endsWith('.md')).map((e) => e.name)`
unfoldable pub version_names : List DirEntry → List Text
unfolding ends_with
version_names entries =
    map (λ (e : DirEntry). e.name)
      (filter (λ (e : DirEntry). e.is_file && ends_with e.name (codes ".md")) entries)

-- `sort((a, b) => b.timestamp - a.timestamp)`
unfoldable pub insert_version : FileVersion → List FileVersion → List FileVersion
insert_version v [] = v ∷ []
insert_version v (x ∷ xs) =
    let later = insert_version v xs in if ltb v.timestamp x.timestamp then x ∷ later else v ∷ x ∷ xs

unfoldable pub sort_versions : List FileVersion → List FileVersion
unfolding insert_version
sort_versions [] = []
sort_versions (v ∷ vs) = insert_version v (sort_versions vs)

-- `id.includes('..')`
unfoldable pub has_dots : Text → Bool
has_dots [] = false
has_dots (x ∷ xs) = starts_with (x ∷ xs) (codes "..") || has_dots xs

module _ (inner : Backend) (settings : Versioning) where
  pub record Versioned : Type 0 where
    pub world : inner.World
    pub last_snapshot_at : List (Text × ℕ)

  -- A call of the wrapped backend.
  unfoldable pub delegate : {A : Type 0} → Action inner.World A → Action Versioned A
  delegate m v = let (r, w) = m v.world in (r, record v { world = w })

  unfoldable pub set_snapshot : Text → ℕ → Action Versioned (Unit {0})
  unfolding assign
  set_snapshot path now v =
      (ok tt, record v { last_snapshot_at = assign path now v.last_snapshot_at })

  unfoldable pub forget_snapshot : Text → Action Versioned (Unit {0})
  unfolding erase
  forget_snapshot path v = (ok tt, record v { last_snapshot_at = erase path v.last_snapshot_at })

  unfoldable pub last_snapshot : Text → Action Versioned ℕ
  unfolding lookup
  last_snapshot path v = (ok (elim (lookup path v.last_snapshot_at) [ none ↦ 0 | some t ↦ t ]), v)

  -- An empty root counts as none, as `!root` does.
  unfoldable pub dir_under : Option Text → Text → Result (Option Text)
  unfolding encode_path_as_dir
  dir_under none normalized = ok none
  dir_under (some []) normalized = ok none
  dir_under (some (c ∷ cs)) normalized = elim (encode_path_as_dir normalized) [
    | err e ↦ err e
    | ok name ↦ ok (some ((c ∷ cs) ++ (slash ∷ (settings.versions_dir ++ (slash ∷ name)))))
  ]

  unfoldable pub version_dir_for : Text → Result (Option Text)
  unfolding normalize_path dir_under
  version_dir_for path = elim (normalize_path path) [
    | err e ↦ err e
    | ok normalized ↦ elim (settings.root_for normalized) [
      | err e ↦ err e
      | ok root ↦ dir_under root normalized
    ]
  ]

  abbrev pub in_dir : Text → Text → Text
  in_dir dir name = dir ++ (slash ∷ name)

  abbrev pub version_path : Text → ℕ → Text
  version_path dir t = in_dir dir (to_decimal t ++ codes ".md")

  abbrev pub quiet : Bool → BackendOptions
  quiet recursive = record { keep_version = some false; recursive = recursive; origin = some local }

  -- `while (await exists(…)) versionTime++`
  unfoldable pub bump : ℕ → Text → ℕ → Action inner.World ℕ
  unfolding to_decimal
  bump zero dir t = pure t
  bump (suc rounds) dir t = do
    taken ← inner.exists (version_path dir t)
    elim taken [ true ↦ bump rounds dir (suc t) | false ↦ pure t ]

  unfoldable pub remove_stale : Text → List Text → Action inner.World (Unit {0})
  remove_stale dir [] = pure tt
  remove_stale dir (stale ∷ rest) = do
    inner.remove (in_dir dir stale) (quiet false)
    remove_stale dir rest

  -- The oldest versions beyond the cap go.
  unfoldable pub prune : Text → List DirEntry → Action inner.World (Unit {0})
  unfolding version_names sort_names remove_stale
  prune dir entries = remove_stale dir (
      take (length (version_names entries) - settings.max_versions)
        (sort_names (version_names entries)))

  unfoldable pub write_and_prune : Text → List ℕ → ℕ → Action inner.World (Unit {0})
  unfolding prune
  write_and_prune dir previous time = do
    inner.write_file (version_path dir time) previous (quiet false)
    entries ← inner.read_dir dir
    prune dir entries

  -- The version file and the pruning, once the contents are read and the directory is known.
  unfoldable pub store_version : ℕ → Text → ℕ → List ℕ → Action inner.World (Unit {0})
  unfolding bump write_and_prune
  store_version rounds dir now previous = do
    inner.mkdir dir (record { keep_version = none; recursive = true; origin = none })
    time ← bump rounds dir now
    write_and_prune dir previous time

  unfoldable pub store_in : ℕ → Option Text → ℕ → List ℕ → Action inner.World (Unit {0})
  unfolding store_version
  store_in rounds none now previous = pure tt
  store_in rounds (some dir) now previous = store_version rounds dir now previous

  unfoldable pub store_for : ℕ → ℕ → Text → List ℕ → Action Versioned (Unit {0})
  unfolding delegate version_dir_for store_in
  store_for rounds now path previous = do
    dir ← lift (version_dir_for path)
    delegate (store_in rounds dir now previous)

  -- The snapshot of a file that is there and not too large.
  unfoldable pub take_snapshot : ℕ → ℕ → Text → Action Versioned (Unit {0})
  unfolding set_snapshot delegate store_for
  take_snapshot rounds now path = do
    set_snapshot path now
    previous ← delegate (inner.read_file path)
    store_for rounds now path previous

  unfoldable pub snapshot_if_due : ℕ → ℕ → Text → Action Versioned (Unit {0})
  unfolding last_snapshot take_snapshot
  snapshot_if_due rounds now path = do
    last ← last_snapshot path
    (if ltb 0 settings.min_interval && ltb now (last + settings.min_interval)
        then pure tt
        else take_snapshot rounds now path)

  unfoldable pub snapshot_if_small : ℕ → ℕ → Text → Action Versioned (Unit {0})
  unfolding delegate snapshot_if_due
  snapshot_if_small rounds now path = do
    found ← delegate (inner.stat path)
    (if ltb settings.max_file_bytes found.size then pure tt else snapshot_if_due rounds now path)

  unfoldable pub snapshot_before_write : ℕ → ℕ → Text → Action Versioned (Unit {0})
  unfolding delegate snapshot_if_small
  snapshot_before_write rounds now path = do
    there ← delegate (inner.exists path)
    (if not there then pure tt else snapshot_if_small rounds now path)

  -- `options?.keepVersion !== false && this.shouldVersion(path)`
  unfoldable pub snapshot_wanted : ℕ → ℕ → Text → BackendOptions → Action Versioned (Unit {0})
  unfolding snapshot_before_write
  snapshot_wanted rounds now path options = elim (options.keep_version) [
    | some false ↦ pure tt
    | some true ↦ do
      wanted ← lift (settings.should_version path)
      (if wanted then snapshot_before_write rounds now path else pure tt)
    | none ↦ do
      wanted ← lift (settings.should_version path)
      (if wanted then snapshot_before_write rounds now path else pure tt)
  ]

  unfoldable pub write_text_file :
      ℕ → ℕ → Text → Text → BackendOptions → Action Versioned (Unit {0})
  unfolding snapshot_wanted delegate
  write_text_file rounds now path contents options = do
    snapshot_wanted rounds now path options
    delegate (inner.write_text_file path contents options)

  unfoldable pub write_file : ℕ → ℕ → Text → List ℕ → BackendOptions → Action Versioned (Unit {0})
  unfolding snapshot_wanted delegate
  write_file rounds now path contents options = do
    snapshot_wanted rounds now path options
    delegate (inner.write_file path contents options)

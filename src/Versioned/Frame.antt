-- ===== src/Versioned/Frame.antt =====
-- What a snapshot may touch.
use tactile.Base.{
  ℕ, zero, suc, ◌+◌, Bool, true, false, not, ◌&&◌, ◌≡◌, ap, some, none, List, [], ◌∷◌, Text, ◌++◌,
  codes, to_decimal, sort_names, take, length, ◌-◌, ok, ltb, if◌then◌else◌,
}
use tactile.Storage.{Action, ◌>>=◌, BackendOptions, FileStat, pure}
use tactile.Storage.Backend.{Backend, Keeps, Keeps-bind}
use tactile.Versioned.{
  Versioning, Versioned, delegate, set_snapshot, last_snapshot, version_dir_for, in_dir,
  version_path, bump, remove_stale, store_version, store_in, take_snapshot, snapshot_if_due,
  snapshot_before_write, snapshot_if_small, write_and_prune, prune, store_for, version_names, quiet,
}

module _ (inner : Backend) (settings : Versioning) (P : inner.World → Type 0) where
  -- The property survives every reading call.
  pub record IsStable : Type 0 where
    pub exists : (q : Text) → Keeps P (inner.exists q)
    pub stat : (q : Text) → Keeps P (inner.stat q)
    pub read_file : (q : Text) → Keeps P (inner.read_file q)
    pub read_dir : (q : Text) → Keeps P (inner.read_dir q)

  -- The property survives what is done to one directory: making it, and writing and removing files
  -- in it.
  pub record IsApart (dir : Text) : Type 0 where
    pub mkdir : (o : BackendOptions) → Keeps P (inner.mkdir dir o)
    pub write_file :
        (name : Text) (c : List ℕ) (o : BackendOptions)
        → Keeps P (inner.write_file (in_dir inner settings dir name) c o)
    pub remove :
        (name : Text) (o : BackendOptions)
        → Keeps P (inner.remove (in_dir inner settings dir name) o)

  Keeps-bump :
      (rounds : ℕ) (dir : Text) (t : ℕ) → IsStable → Keeps P (bump inner settings rounds dir t)
  unfolding bump
  Keeps-bump zero dir t st = λ w p. p
  Keeps-bump (suc rounds) dir t st =
      Keeps-bind P (inner.exists (version_path inner settings dir t))
        (λ b. elim b [ true ↦ bump inner settings rounds dir (suc t) | false ↦ pure t ])
        (st.exists (version_path inner settings dir t)) (next (Keeps-bump rounds dir (suc t) st))
    where
      next :
          Keeps P (bump inner settings rounds dir (suc t))
          → (b : Bool)
          → Keeps P (elim b as (λ _. Action inner.World ℕ) [
            | true ↦ bump inner settings rounds dir (suc t)
            | false ↦ pure t
          ])
      next k true = k
      next k false = λ w p. p

  Keeps-remove_stale :
      (dir : Text) (names : List Text)
      → IsApart dir
      → Keeps P (remove_stale inner settings dir names)
  unfolding remove_stale
  Keeps-remove_stale dir [] ap = λ w p. p
  Keeps-remove_stale dir (n ∷ names) ap =
      Keeps-bind P (inner.remove (in_dir inner settings dir n) (quiet inner settings false))
        (λ _. remove_stale inner settings dir names) (ap.remove n (quiet inner settings false))
        (λ _. Keeps-remove_stale dir names ap)

  Keeps-store_version :
      (rounds : ℕ) (dir : Text) (now : ℕ) (previous : List ℕ)
      → IsStable
      → IsApart dir
      → Keeps P (store_version inner settings rounds dir now previous)
  unfolding store_version write_and_prune prune
  Keeps-store_version rounds dir now previous st ap =
      Keeps-bind P
        (inner.mkdir dir (record { keep_version = none; recursive = true; origin = none }))
        (λ _. bump inner settings rounds dir now >>= write_and_prune inner settings dir previous)
        (ap.mkdir (record { keep_version = none; recursive = true; origin = none }))
        λ _.
          Keeps-bind P (bump inner settings rounds dir now)
            (write_and_prune inner settings dir previous) (Keeps-bump rounds dir now st)
            λ time.
              Keeps-bind P
                (inner.write_file (version_path inner settings dir time) previous
                  (quiet inner settings false))
                (λ _. inner.read_dir dir >>= prune inner settings dir)
                (ap.write_file (to_decimal time ++ codes ".md") previous
                  (quiet inner settings false))
                λ _.
                  Keeps-bind P (inner.read_dir dir) (prune inner settings dir) (st.read_dir dir)
                    λ entries.
                      Keeps-remove_stale dir
                        (take (length (version_names entries) - settings.max_versions)
                          (sort_names (version_names entries)))
                        ap

  -- The same of the state of the wrapper.
  abbrev pub Inside : Versioned inner settings → Type 0
  Inside v = P v.world

  Keeps-delegate :
      {A : Type 0} (m : Action inner.World A) → Keeps P m → Keeps Inside (delegate inner settings m)
  unfolding delegate
  Keeps-delegate m k = λ v p. k v.world p

  Keeps-store_for :
      (rounds now : ℕ) (path dir : Text) (previous : List ℕ)
      → version_dir_for inner settings path ≡ ok (some dir)
      → IsStable
      → IsApart dir
      → Keeps Inside (store_for inner settings rounds now path previous)
  unfolding store_for store_in
  Keeps-store_for rounds now path dir previous e st ap = rw e (
      Keeps-delegate (store_version inner settings rounds dir now previous)
        (Keeps-store_version rounds dir now previous st ap))

  Keeps-take_snapshot :
      (rounds now : ℕ) (path dir : Text)
      → version_dir_for inner settings path ≡ ok (some dir)
      → IsStable
      → IsApart dir
      → Keeps Inside (take_snapshot inner settings rounds now path)
  unfolding take_snapshot set_snapshot
  Keeps-take_snapshot rounds now path dir e st ap =
      Keeps-bind Inside (set_snapshot inner settings path now)
        (λ _.
          delegate inner settings (inner.read_file path)
          >>= store_for inner settings rounds now path)
        (λ v p. p)
        λ _.
          Keeps-bind Inside (delegate inner settings (inner.read_file path))
            (store_for inner settings rounds now path)
            (Keeps-delegate (inner.read_file path) (st.read_file path))
            λ previous. Keeps-store_for rounds now path dir previous e st ap

  Keeps-branch :
      {A : Type 0} (b : Bool) (m n : Action (Versioned inner settings) A)
      → Keeps Inside m
      → Keeps Inside n
      → Keeps Inside (if b then m else n)
  Keeps-branch true m n k l = k
  Keeps-branch false m n k l = l

  -- Whatever a snapshot does before a write to `path`, and wherever it throws, a property of the
  -- wrapped backend that reading keeps, and that what is done in the version directory of the path
  -- keeps, holds afterwards: a snapshot makes that directory, writes and removes files in it, and
  -- changes nothing else.
  pub Keeps-snapshot_before_write :
      (rounds now : ℕ) (path dir : Text)
      → version_dir_for inner settings path ≡ ok (some dir)
      → IsStable
      → IsApart dir
      → Keeps Inside (snapshot_before_write inner settings rounds now path)
  unfolding snapshot_before_write snapshot_if_small snapshot_if_due last_snapshot
  Keeps-snapshot_before_write rounds now path dir e st ap =
      Keeps-bind Inside (delegate inner settings (inner.exists path))
        (λ there. if not there then pure tt else snapshot_if_small inner settings rounds now path)
        (Keeps-delegate (inner.exists path) (st.exists path))
        λ there.
          Keeps-branch (not there) (pure tt) (snapshot_if_small inner settings rounds now path)
            (λ v p. p)
            (Keeps-bind Inside (delegate inner settings (inner.stat path))
              (λ (found : FileStat).
                if ltb settings.max_file_bytes found.size
                then pure tt
                else snapshot_if_due inner settings rounds now path)
              (Keeps-delegate (inner.stat path) (st.stat path))
              λ found.
                Keeps-branch (ltb settings.max_file_bytes found.size) (pure tt)
                  (snapshot_if_due inner settings rounds now path) (λ v p. p)
                  (Keeps-bind Inside (last_snapshot inner settings path)
                    (λ last.
                      if ltb 0 settings.min_interval && ltb now (last + settings.min_interval)
                      then pure tt
                      else take_snapshot inner settings rounds now path)
                    (λ v p. p)
                    λ last.
                      Keeps-branch
                        (ltb 0 settings.min_interval && ltb now (last + settings.min_interval))
                        (pure tt) (take_snapshot inner settings rounds now path) (λ v p. p)
                        (Keeps-take_snapshot rounds now path dir e st ap)))

-- ===== src/IdbFs/Mkdir.antt =====
-- `mkdir`: the tree stays one, no record is lost or changed, and on success the directory is there.
use tactile.Base.{
  ℕ, Bool, true, false, ◌≡◌, refl, sym, ap, ◌∙◌, inl, inr, Option, some, none, List, [], ◌∷◌, ◌++◌,
  Text, text_eq, text_eq_iff, text_eq_refl, ok, Bool-cases, if◌then◌else◌, Ensures-ok, append-nil,
  append_assoc, join,
}
use tactile.Paths.{slash, normalize_path, parent_of, from_segments}
use tactile.Paths.Segments.{IsSegment, AreSegments}
use tactile.Paths.Normal.{
  IsNormal, normalize_path-IsNormal, from_segments-snoc, not_root, parent_of-snoc,
}
use tactile.Paths.Known.{
  root, parent_path_known, parent_of-IsNormal, is_root_known, path_segments_known,
  IsNormal-segments,
}
use tactile.Storage.{create, BackendOptions, origin_or_local, text}
use tactile.ObjectStore.{ObjectStore, EntryRecord, dir}
use tactile.IdbFs.{Fs, is_dir, require_parent, emit_change}
use tactile.IdbFs.Making.{make_missing, make_dir, make_dirs, make_one, make_all, mkdir}
use tactile.IdbFs.Tree.{
  Holds-get_record, Holds-put_record, Holds, Holds-bind, Holds-weaken, HasDir, IsTree, IsTree-put,
  require_parent_lem,
}

module _ (store : ObjectStore) where
  -- The records of `fs` are still there, unchanged.
  abbrev pub Keeps : Fs store → Fs store → Type 0
  Keeps fs s = (q : Text) (r : EntryRecord) → store.get fs.db q ≡ some r → store.get s.db q ≡ some r

  -- A tree that still has every record.
  pub record Grown (fs s : Fs store) : Type 0 where
    pub tree : IsTree store s.db
    pub keeps : Keeps fs s

  make_dir_lem :
      (now : ℕ) (n : Text) (fs : Fs store)
      → IsTree store fs.db
      → IsNormal n
      → text_eq n root ≡ false
      → HasDir store fs.db (parent_of n)
      → Holds
          (λ _ s. Grown fs s × HasDir store s.db n)
          (λ _ s. Grown fs s)
          (make_dir store now n fs)
  unfolding make_dir
  make_dir_lem now n fs tree normal below has =
      Holds-get_record store (λ _ s. Grown fs s × HasDir store s.db n) (λ _ s. Grown fs s) n
        (make_missing store now n) fs (λ _. same) (made (store.get fs.db n) refl)
    where
      same : Grown fs fs
      same = record { tree = tree; keeps = λ q r e. e }

      entry : EntryRecord
      entry = record {
        path = n;
        parent = parent_of n;
        kind = dir;
        contents = text [];
        size = 0;
        mtime = now;
        ctime = now;
      }

      kept :
          store.get fs.db n ≡ none
          → (q : Text) (r : EntryRecord) → store.get fs.db q ≡ some r
          → store.get (store.put fs.db entry) q ≡ some r
      kept free q r e = elim (Bool-cases (text_eq n q)) [
        | inl hit ↦
            let same_path = (text_eq_iff n q).0 hit in
            absurd (cc (free, e, ap (store.get fs.db) same_path))
        | inr miss ↦ store.get-put fs.db entry q ∙ rw miss e
      ]

      made :
          (found : Option EntryRecord)
          → store.get fs.db n ≡ found
          → Holds
              (λ _ s. Grown fs s × HasDir store s.db n)
              (λ _ s. Grown fs s)
              (make_missing store now n found fs)
      made none free =
          unfold make_missing in
          rw (parent_path_known normal) (
            Holds-put_record store (λ _ s. Grown fs s × HasDir store s.db n) (λ _ s. Grown fs s)
              entry fs (λ _. same)
              (
                record {
                  tree = IsTree-put store fs.db entry tree normal below refl has (inl refl);
                  keeps = kept free;
                },
                inr (entry, store.get-put fs.db entry n ∙ rw (text_eq_refl n) refl, refl),
              ))
      made (some r) e =
          unfold make_missing in
          elim (Bool-cases (is_dir r.kind)) [
            | inl d ↦ rw d (same, inr (r, e, d))
            | inr f ↦ rw f same
          ]

  Grown-trans : {a b c : Fs store} → Grown a b → Grown b c → Grown a c
  Grown-trans g h = record { tree = h.tree; keeps = λ q r e. h.keeps q r (g.keeps q r e) }

  -- `current` of the loop, for the segments that are done.
  abbrev current_of : List Text → Text
  current_of [] = []
  current_of (d ∷ r) = from_segments (d ∷ r)

  current_of-snoc :
      (r : List Text) (s : Text) → current_of r ++ slash ∷ s ≡ from_segments (r ++ s ∷ [])
  current_of-snoc [] s = unfold join in refl
  current_of-snoc (d ∷ r) s = sym (from_segments-snoc d r s)

  below_root :
      (r : List Text) (s : Text)
      → AreSegments (r ++ s ∷ [])
      → text_eq (from_segments (r ++ s ∷ [])) root ≡ false
  below_root [] s h = not_root s [] h.0
  below_root (d ∷ r) s h = not_root d (r ++ s ∷ []) h.0

  current_of_snoc :
      (r : List Text) (s : Text) → current_of (r ++ s ∷ []) ≡ from_segments (r ++ s ∷ [])
  current_of_snoc [] s = refl
  current_of_snoc (d ∷ r) s = refl

  valid_split :
      (r : List Text) (s : Text) (t : List Text)
      → AreSegments (r ++ s ∷ t)
      → AreSegments (r ++ s ∷ []) × IsSegment s
  valid_split [] s t h = ((h.0, tt), h.0)
  valid_split (d ∷ r) s t h = let rest = valid_split r s t h.1 in ((h.0, rest.0), rest.1)

  make_dirs_lem :
      (now : ℕ) (done rest : List Text) (fs : Fs store)
      → IsTree store fs.db
      → AreSegments (done ++ rest)
      → HasDir store fs.db (from_segments done)
      → Holds
          (λ _ s. Grown fs s × HasDir store s.db (from_segments (done ++ rest)))
          (λ _ s. Grown fs s)
          (make_dirs store now (current_of done) rest fs)
  unfolding make_dirs
  make_dirs_lem now done [] fs tree valid has =
      (record { tree = tree; keeps = λ q r e. e }, rw (append-nil done) has)
  make_dirs_lem now done (x ∷ rest) fs tree valid has =
      let (here, seg) = valid_split done x rest valid in
      let target = from_segments (done ++ x ∷ []) in
      let all : (done ++ x ∷ []) ++ rest ≡ done ++ x ∷ rest = append_assoc done (x ∷ []) rest in
      let first =
        make_dir_lem now target fs tree (IsNormal-segments (done ++ x ∷ []) here)
          (below_root done x here) (rw (parent_of-snoc done x seg) has) in
      rw (current_of-snoc done x) (
        Holds-bind (λ _ s. Grown fs s × HasDir store s.db target)
          (λ _ s. Grown fs s × HasDir store s.db (from_segments (done ++ x ∷ rest)))
          (λ _ s. Grown fs s) (make_dir store now target) (λ _. make_dirs store now target rest) fs
          first
          (λ _ s h.
            let ih = make_dirs_lem now (done ++ x ∷ []) rest s h.0.tree (rw all valid) h.1 in
            Holds-weaken
              (λ _ t. Grown s t × HasDir store t.db (from_segments ((done ++ x ∷ []) ++ rest)))
              (λ _ t. Grown fs t × HasDir store t.db (from_segments (done ++ x ∷ rest)))
              (λ _ t. Grown s t) (λ _ t. Grown fs t) (make_dirs store now target rest s)
              (rw (current_of_snoc done x) at ih) (λ _ t k. (Grown-trans h.0 k.0, rw all at k.1))
              (λ _ t k. Grown-trans h.0 k)))

  -- The directory is there afterwards unless something is thrown; every record is kept.
  made_lem :
      (now : ℕ) (n : Text) (recursive : Bool) (fs : Fs store)
      → IsTree store fs.db
      → IsNormal n
      → text_eq n root ≡ false
      → Holds
          (λ _ s. Grown fs s × HasDir store s.db n)
          (λ _ s. Grown fs s)
          ((if recursive then make_all store now n else make_one store now n) fs)
  unfolding make_all make_one
  made_lem now n true fs tree normal below = rw (path_segments_known normal) (
      Holds-weaken (λ _ s. Grown fs s × HasDir store s.db (from_segments normal.parts))
        (λ _ s. Grown fs s × HasDir store s.db n) (λ _ s. Grown fs s) (λ _ s. Grown fs s)
        (make_dirs store now [] normal.parts fs)
        (make_dirs_lem now [] normal.parts fs tree normal.valid (inl (unfold join in refl)))
        (λ _ s h. (h.0, rw (← normal.spelled) at h.1)) (λ _ s h. h))
  made_lem now n false fs tree normal below = rw (parent_path_known normal) (
      Holds-bind (λ _ s. (s ≡ fs) × HasDir store fs.db (parent_of n))
        (λ _ s. Grown fs s × HasDir store s.db n) (λ _ s. Grown fs s)
        (require_parent store (parent_of n)) (λ _. make_dir store now n) fs
        (Holds-weaken (λ _ s. (s ≡ fs) × HasDir store fs.db (parent_of n))
          (λ _ s. (s ≡ fs) × HasDir store fs.db (parent_of n)) (λ _ s. s ≡ fs) (λ _ s. Grown fs s)
          (require_parent store (parent_of n) fs)
          (require_parent_lem store (parent_of n) fs (parent_of-IsNormal normal)) (λ _ s h. h)
          (λ _ s h. unchanged s h))
        (λ _ s h. rw (h.0) (make_dir_lem now n fs tree normal below h.1)))
    where
      unchanged : (s : Fs store) → s ≡ fs → Grown fs s
      unchanged s e = record { tree = rw e tree; keeps = λ q r found. rw e found }

  -- `mkdir` of a path keeps the tree and every record, whatever it throws; if it throws nothing, the
  -- path is the root or a directory afterwards.
  pub mkdir_lem :
      (now : ℕ) (path n : Text) (options : BackendOptions) (fs : Fs store)
      → IsTree store fs.db
      → normalize_path path ≡ ok n
      → Holds
          (λ _ s. Grown fs s × HasDir store s.db n)
          (λ _ s. Grown fs s)
          (mkdir store now path options fs)
  unfolding mkdir
  mkdir_lem now path n options fs tree normalized =
      let normal =
        Ensures-ok IsNormal (normalize_path path) (normalize_path-IsNormal path) normalized in
      rw (normalized, is_root_known normal)
        (elim (Bool-cases (text_eq n root)) [
          | inl e ↦
              rw e
                (record { tree = tree; keeps = λ q r found. found }, inl ((text_eq_iff n root).0 e))
          | inr e ↦ rw e (
              Holds-bind (λ _ s. Grown fs s × HasDir store s.db n)
                (λ _ s. Grown fs s × HasDir store s.db n) (λ _ s. Grown fs s)
                (if options.recursive then make_all store now n else make_one store now n)
                (λ _. emit_change store (record {
                  path = n;
                  kind = create;
                  origin = origin_or_local options;
                  old_path = none;
                }))
                fs (made_lem now n options.recursive fs tree normal e)
                (λ _ s h. (record { tree = h.0.tree; keeps = h.0.keeps }, h.1)))
        ])

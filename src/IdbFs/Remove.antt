-- ===== src/IdbFs/Remove.antt =====
-- `remove`: the path and everything below it goes, and nothing else.
use tactile.Base.{
  Bool, true, false, not, ◌&&◌, ◌≡◌, refl, sym, ap, ◌∙◌, inl, inr, Option, some, none, List, [],
  ◌∷◌, Text, text_eq, text_eq_iff, ok, arith, Bool-cases, if◌then◌else◌, Ensures-ok, length, ltb,
}
use tactile.Paths.{normalize_path, under}
use tactile.Paths.Normal.{IsNormal, normalize_path-IsNormal}
use tactile.Paths.Known.{root, is_root_known, under_parent, under_self}
use tactile.Storage.{◌>>=◌, lift, >>=-ok, delete, BackendOptions, origin_or_local}
use tactile.ObjectStore.{ObjectStore, EntryRecord, In}
use tactile.IdbFs.{transaction, get_record, get_all_records, Fs, is_dir, delete_record, emit_change}
use tactile.IdbFs.Removing.{descendants, remove_below, delete_all, remove_dir, remove_found, remove}
use tactile.IdbFs.Below.{
  text_ne, listed, AllNormal, delete_all_lem, delete_all_ok, descendants_lem, file_alone,
}
use tactile.IdbFs.Tree.{
  Holds-get_record, Holds-get_all_records, Holds-transaction, IsServed, get_record-IsServed,
  get_all_records-IsServed, transaction-IsServed, Holds, Holds-ok, Holds-bind, IsTree,
  IsTree-remove,
}

module _ (store : ObjectStore) where
  -- What a removal of the normal path `n` leaves.
  pub record Removed (fs : Fs store) (n : Text) (s : Fs store) : Type 0 where
    pub left : (p : Text) → store.get s.db p ≡ (if under p n then none else store.get fs.db p)
    pub tree : IsTree store s.db

  removed :
      (fs s : Fs store) (n : Text)
      → IsTree store fs.db
      → IsNormal n
      → ((p : Text) → store.get s.db p ≡ (if under p n then none else store.get fs.db p))
      → Removed fs n s
  removed fs s n tree normal left = record {
    left = left;
    tree =
        IsTree-remove store fs.db s.db (λ p. under p n) tree left
          (λ p np h. under_parent np normal h);
  }

  -- A stored file goes alone.
  file_removed :
      (fs : Fs store) (n : Text) (r : EntryRecord)
      → IsTree store fs.db
      → store.get fs.db n ≡ some r
      → is_dir r.kind ≡ false
      → (p : Text)
      → store.get (store.delete fs.db n) p ≡ (if under p n then none else store.get fs.db p)
  file_removed fs n r tree found plain p = elim (Bool-cases (text_eq n p)) [
    | inl e ↦
        let self = under_self (tree.at n r found).normal in
        let same = (text_eq_iff n p).0 e in store.get-delete fs.db n p ∙ rw (e, ← same, self) refl
    | inr e ↦ store.get-delete fs.db n p ∙ rw e (other e (store.get fs.db p) refl)
  ]
    where
      other :
          text_eq n p ≡ false
          → (o : Option EntryRecord) → store.get fs.db p ≡ o
          → store.get fs.db p ≡ (if under p n then none else store.get fs.db p)
      other e none h = rw h (ground arith)
      other e (some q) h = elim (Bool-cases (under p n)) [
        | inr u ↦ rw u refl
        | inl u ↦
            let same = file_alone store fs n r p q tree found plain h u in
            let hit = (text_eq_iff n p).1 (sym same) in absurd (cc (e, hit))
      ]

  listed-In :
      (q : EntryRecord) (rs : List EntryRecord) (p : Text)
      → In q rs
      → q.path ≡ p
      → listed p rs ≡ true
  listed-In q [] p h e = absurd h
  listed-In q (r ∷ rs) p (inl same) e =
      let hit : text_eq r.path p ≡ true =
        (text_eq_iff r.path p).1 (ap (λ x. x.path) (sym same) ∙ e) in
      rw hit refl
  listed-In q (r ∷ rs) p (inr h) e = ground (arith, listed-In q rs p h e)

  -- A directory goes with everything below it.
  dir_removed :
      (fs : Fs store) (n : Text) (ds : List EntryRecord)
      → IsTree store fs.db
      → IsNormal n
      → ((p : Text)
          → listed p ds ≡ (listed p (store.get_all fs.db) && under p n && not (text_eq p n)))
      → (p : Text)
      → store.get (store.delete (delete_all store ds fs).1.db n) p
        ≡ (if under p n then none else store.get fs.db p)
  dir_removed fs n ds tree normal spec p =
      store.get-delete (delete_all store ds fs).1.db n p
      ∙ ap (λ g. if text_eq n p then none else g) (delete_all_lem store ds fs p)
      ∙ by_record (store.get fs.db p) refl
    where
      by_record :
          (o : Option EntryRecord)
          → store.get fs.db p ≡ o
          → (if text_eq n p then none else (if listed p ds then none else store.get fs.db p))
            ≡ (if under p n then none else store.get fs.db p)
      by_record none h = rw h (ground arith)
      by_record (some q) h =
          let all =
            listed-In q (store.get_all fs.db) p (store.get_all_complete fs.db p q h)
              (store.get-key fs.db p q h) in
          elim (Bool-cases (text_eq n p)) [
            | inl e ↦
                let same = (text_eq_iff n p).0 e in
                let u = ap (λ t. under t n) (sym same) ∙ under_self normal in rw (e, u) refl
            | inr e ↦ let m = text_ne n p e in rw e (ground (arith, spec p, all, m))
          ]

  remove_dir_lem :
      (fs : Fs store) (n : Text) (recursive : Bool)
      → IsTree store fs.db
      → IsNormal n
      → Holds (λ _ s. Removed fs n s) (λ _ _. Unit) (remove_dir store n recursive fs)
  unfolding remove_dir
  remove_dir_lem fs n recursive tree normal =
      let all_normal : AllNormal (store.get_all fs.db) =
        λ r h. (tree.at r.path r (store.get_all_sound fs.db r h)).normal in
      let (ds, found, spec) = descendants_lem store n (store.get_all fs.db) normal all_normal in
      Holds-get_all_records store (λ _ s. Removed fs n s) (λ _ _. Unit)
        (λ all. lift (descendants store n all) >>= remove_below store n recursive) fs (λ _. tt)
        (rw found (elim (Bool-cases (ltb 0 (length ds) && not recursive)) [
          | inl e ↦ rw e tt
          | inr e ↦ rw e (
              let all_gone : delete_all store ds fs ≡ (ok tt, (delete_all store ds fs).1) =
                λ i. (delete_all_ok store ds fs i, (delete_all store ds fs).1) in
              rw (>>=-ok (delete_all store ds) (λ _. delete_record store n) fs all_gone) (
                removed fs
                  (record (delete_all store ds fs).1 {
                    db = store.delete (delete_all store ds fs).1.db n;
                  })
                  n tree normal (dir_removed fs n ds tree normal spec)))
        ]))

  found_lem :
      (n : Text) (recursive : Bool) (fs : Fs store)
      → IsTree store fs.db
      → IsNormal n
      → (found : Option EntryRecord) → store.get fs.db n ≡ found
      → Holds (λ _ s. Removed fs n s) (λ _ _. Unit) (remove_found store n recursive found fs)
  unfolding remove_found
  found_lem n recursive fs tree normal none e = tt
  found_lem n recursive fs tree normal (some r) e = elim (Bool-cases (is_dir r.kind)) [
    | inl d ↦ rw d (remove_dir_lem fs n recursive tree normal)
    | inr f ↦ rw f (
        removed fs (record fs { db = store.delete fs.db n }) n tree normal
          (file_removed fs n r tree e f))
  ]

  pub remove_lem :
      (path n : Text) (options : BackendOptions) (fs : Fs store)
      → IsTree store fs.db
      → normalize_path path ≡ ok n
      → Holds (λ _ s. Removed fs n s) (λ _ s. s ≡ fs) (remove store path options fs)
  unfolding remove
  remove_lem path n options fs tree normalized =
      let normal =
        Ensures-ok IsNormal (normalize_path path) (normalize_path-IsNormal path) normalized in
      rw (normalized, is_root_known normal)
        (elim (Bool-cases (text_eq n root)) [
          | inl e ↦ rw e refl
          | inr e ↦ rw e (
              Holds-bind (λ _ s. Removed fs n s) (λ _ s. Removed fs n s) (λ _ s. s ≡ fs)
                (transaction store (get_record store n >>= remove_found store n options.recursive))
                (λ _. emit_change store (record {
                  path = n;
                  kind = delete;
                  origin = origin_or_local options;
                  old_path = none;
                }))
                fs
                (Holds-transaction store (λ _ s. Removed fs n s)
                  (get_record store n >>= remove_found store n options.recursive) fs
                  (Holds-get_record store (λ _ s. Removed fs n s) (λ _ _. Unit) n
                    (remove_found store n options.recursive) fs (λ _. tt)
                    (found_lem n options.recursive fs tree normal (store.get fs.db n) refl)))
                (λ _ s h. record { left = h.left; tree = record { at = h.tree.at } }))
        ])

  remove_dir-ok :
      (fs : Fs store) (n : Text)
      → IsTree store fs.db
      → IsNormal n
      → IsServed store
      → (remove_dir store n true fs).0 ≡ ok tt
  unfolding remove_dir remove_below
  remove_dir-ok fs n tree normal served =
      let (ds, found, spec) =
        descendants_lem store n (store.get_all fs.db) normal
          (λ r h. (tree.at r.path r (store.get_all_sound fs.db r h)).normal) in
      ap (λ r. r.0)
        (>>=-ok (get_all_records store)
          (λ all. lift (descendants store n all) >>= remove_below store n true) fs
          (get_all_records-IsServed store fs served))
      ∙ rw (found, never (ltb 0 (length ds)))
          (ap (λ r. r.0)
            (>>=-ok (delete_all store ds) (λ _. delete_record store n) fs
              (λ i. (delete_all_ok store ds fs i, (delete_all store ds fs).1))))
    where
      never : (b : Bool) → (b && not true) ≡ false
      never b = ground arith

  remove_found-ok :
      (fs : Fs store) (n : Text) (r : EntryRecord)
      → IsTree store fs.db
      → IsNormal n
      → IsServed store
      → (remove_found store n true (some r) fs).0 ≡ ok tt
  unfolding remove_found
  remove_found-ok fs n r tree normal served = elim (Bool-cases (is_dir r.kind)) [
    | inr f ↦ rw f refl
    | inl d ↦ rw d (remove_dir-ok fs n tree normal served)
  ]

  remove-ok :
      (path n : Text) (options : BackendOptions) (fs : Fs store) (r : EntryRecord)
      → IsTree store fs.db
      → normalize_path path ≡ ok n
      → text_eq n root ≡ false
      → store.get fs.db n ≡ some r
      → options.recursive ≡ true
      → IsServed store
      → (remove store path options fs).0 ≡ ok tt
  unfolding remove emit_change
  remove-ok path n options fs r tree normalized below stored recursive served =
      let normal =
        Ensures-ok IsNormal (normalize_path path) (normalize_path-IsNormal path) normalized in
      let step = get_record store n >>= remove_found store n options.recursive in
      let found : (step fs).0 ≡ ok tt =
        ap (λ r. r.0)
          (>>=-ok (get_record store n) (remove_found store n options.recursive) fs
            (get_record-IsServed store n fs served))
        ∙ rw (stored, recursive) (remove_found-ok fs n r tree normal served) in
      rw (normalized, is_root_known normal, below)
        (ap (λ r. r.0)
          (>>=-ok (transaction store step)
            (λ _. emit_change store (record {
              path = n;
              kind = delete;
              origin = origin_or_local options;
              old_path = none;
            }))
            fs (transaction-IsServed store step fs served found)))

  -- Where no request of the object store is rejected, removing a stored path other than the root with
  -- the `recursive` option throws nothing: the path and everything below it goes, nothing else does,
  -- and a tree is left.
  pub remove_recursive_lem :
      (path n : Text) (options : BackendOptions) (fs : Fs store) (r : EntryRecord)
      → IsTree store fs.db
      → normalize_path path ≡ ok n
      → text_eq n root ≡ false
      → store.get fs.db n ≡ some r
      → options.recursive ≡ true
      → IsServed store
      → Holds (λ _ s. Removed fs n s) (λ _ _. ⊥) (remove store path options fs)
  remove_recursive_lem path n options fs r tree normalized below stored recursive served =
      Holds-ok (λ _ s. Removed fs n s) (λ _ s. s ≡ fs) (remove store path options fs)
        (remove_lem path n options fs tree normalized)
        (remove-ok path n options fs r tree normalized below stored recursive served)

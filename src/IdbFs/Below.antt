-- ===== src/IdbFs/Below.antt =====
-- What lies below a path: the descendants that `remove` finds, and the effect of deleting them.
use tactile.Base.{
  ℕ, zero, suc, ◌≤◌, Bool, true, false, not, ◌&&◌, ◌||◌, ◌≡◌, ◌≢◌, refl, sym, ap, ◌∙◌, ◌⊎◌, inl,
  inr, Option, some, none, List, [], ◌∷◌, ◌++◌, Text, text_eq, text_eq_iff, ok, arith, Bool-cases,
  if◌then◌else◌, length, any, join, append_assoc, append-nil, length-append,
}
use tactile.Paths.{from_segments, parent_of, under}
use tactile.Paths.Normal.{IsNormal, parent_of-snoc}
use tactile.Paths.Segments.{AreSegments}
use tactile.Paths.Under.{from_segments-injective}
use tactile.Paths.Known.{root, is_under_known, unsnoc, under_iff, All-init, All-last}
use tactile.ObjectStore.{ObjectStore, EntryRecord, In}
use tactile.IdbFs.{Fs, is_dir}
use tactile.IdbFs.Removing.{descendants, delete_all}
use tactile.IdbFs.Tree.{IsTree}

pub text_ne : (a b : Text) → text_eq a b ≡ false → text_eq b a ≡ false
text_ne a b h = elim (Bool-cases (text_eq b a)) [
  | inr e ↦ e
  | inl e ↦ absurd (cc (h, (text_eq_iff a b).1 (sym ((text_eq_iff b a).0 e))))
]

nil_or : (i : List Text) → (i ≡ []) ⊎ (i ≢ [])
nil_or [] = inl refl
nil_or (x ∷ i) = inr (cc)

no_front : (m i : List Text) → m ++ i ≡ [] → m ≡ []
no_front [] i e = refl
no_front (x ∷ m) i e = cc

not_at_root : (n : Text) (m : List Text) → n ≡ from_segments m → m ≡ [] → text_eq n root ≡ false → ⊥
unfolding join
not_at_root n m e z below = cc (below, (text_eq_iff n root).1 (e ∙ ap from_segments z))

-- Some record of the list is stored at the path.
abbrev pub listed : Text → List EntryRecord → Bool
listed p rs = any (λ r. text_eq r.path p) rs

-- Records at normal paths.
abbrev pub AllNormal : List EntryRecord → Type 0
AllNormal rs = (r : EntryRecord) → In r rs → IsNormal r.path

module _ (store : ObjectStore) where
  pub delete_all_lem :
      (rs : List EntryRecord) (fs : Fs store) (p : Text)
      → store.get (delete_all store rs fs).1.db p
        ≡ (if listed p rs then none else store.get fs.db p)
  unfolding delete_all
  delete_all_lem [] fs p = refl
  delete_all_lem (r ∷ rs) fs p =
      delete_all_lem rs (record fs { db = store.delete fs.db r.path }) p
      ∙ ap (λ g. if listed p rs then none else g) (store.get-delete fs.db r.path p)
      ∙ join_tests (text_eq r.path p) (listed p rs) (store.get fs.db p)
    where
      join_tests :
          (a b : Bool) (g : Option EntryRecord)
          → (if b then none else (if a then none else g)) ≡ (if a || b then none else g)
      join_tests a b g = ground arith

  pub delete_all_ok : (rs : List EntryRecord) (fs : Fs store) → (delete_all store rs fs).0 ≡ ok tt
  unfolding delete_all
  delete_all_ok [] fs = refl
  delete_all_ok (r ∷ rs) fs = delete_all_ok rs (record fs { db = store.delete fs.db r.path })

  -- What the tests on a listed path say of its record.
  tests_of :
      (n : Text) (r : EntryRecord) (p : Text)
      → (text_eq r.path p ≡ false)
        ⊎ ((text_eq r.path p ≡ true)
            × (text_eq p n ≡ text_eq r.path n)
            × (under p n ≡ under r.path n))
  tests_of n r p = elim (Bool-cases (text_eq r.path p)) [
    | inr e ↦ inl e
    | inl e ↦
        let same = (text_eq_iff r.path p).0 e in
        inr (e, ap (λ t. text_eq t n) (sym same), ap (λ t. under t n) (sym same))
  ]

  -- Of records at normal paths, the descendants are those strictly below.
  pub descendants_lem :
      (n : Text) (rs : List EntryRecord)
      → IsNormal n
      → AllNormal rs
      → (ds : List EntryRecord) × (descendants store n rs ≡ ok ds)
        × ((p : Text) → listed p ds ≡ (listed p rs && under p n && not (text_eq p n)))
  unfolding descendants
  descendants_lem n [] normal all = ([], refl, λ p. refl)
  descendants_lem n (r ∷ rs) normal all =
      let (ds, found, spec) = descendants_lem n rs normal (λ x h. all x (inr h)) in
      let here = is_under_known (all r (inl refl)) normal in
      elim (Bool-cases (text_eq r.path n)) [
        | inl e ↦
            (ds, rw (found, descendants) (rw e refl), λ p. ground (arith, spec p, tests_of n r p))
        | inr e ↦ elim (Bool-cases (under r.path n)) [
          | inl u ↦ (
            r ∷ ds,
            rw (found, descendants) (rw (e, here, u) refl),
            λ p. ground (arith, spec p, tests_of n r p),
          )
          | inr u ↦ (
            ds,
            rw (found, descendants) (rw (e, here, u) refl),
            λ p. ground (arith, spec p, tests_of n r p),
          )
        ]
      ]

  -- Nothing is stored strictly below a path that is not a directory.
  pub below_dir :
      (db : store.Db) (m : List Text) (k : ℕ) (rest : List Text)
      → IsTree store db
      → length rest ≤ k
      → AreSegments (m ++ rest)
      → (m ≢ [])
      → (rest ≢ [])
      → (r : EntryRecord) → store.get db (from_segments (m ++ rest)) ≡ some r
      → (d : EntryRecord) × (store.get db (from_segments m) ≡ some d) × (is_dir d.kind ≡ true)
  below_dir db m zero [] tree le valid ne me r found = absurd (me refl)
  below_dir db m zero (x ∷ rest) tree le valid ne me r found = absurd (omega arith)
  below_dir db m (suc k) rest tree le valid ne me r found = elim (unsnoc rest) [
    | inl e ↦ absurd (me e)
    | inr (i, l, e) ↦
        let whole : m ++ rest ≡ (m ++ i) ++ l ∷ [] =
          ap (λ t. m ++ t) e ∙ sym (append_assoc m i (l ∷ [])) in
        let split : AreSegments ((m ++ i) ++ l ∷ []) = rw whole at valid in
        let above = All-init (m ++ i) (l ∷ []) split in
        let here = (All-last (m ++ i) (l ∷ []) split).0 in
        let up = ap parent_of (ap from_segments whole) ∙ parent_of-snoc (m ++ i) l here in
        elim (tree.at (from_segments (m ++ rest)) r found).parent_dir [
          | inl at_root ↦ absurd (
              ne (
                no_front m i (
                  from_segments-injective (m ++ i) [] above tt
                    (sym up ∙ at_root ∙ unfold join in refl))))
          | inr (d, stored, is) ↦ elim (nil_or i) [
            | inl e' ↦ (
              d,
              ap (λ t. store.get db (from_segments t)) (sym (ap (λ t. m ++ t) e' ∙ append-nil m))
                  ∙ ap (store.get db) (sym up)
                  ∙ stored,
              is,
            )
            | inr more ↦
                below_dir db m k i tree (omega (arith, ap length e, length-append {0} i (l ∷ [])))
                  above ne more d (ap (store.get db) (sym up) ∙ stored)
          ]
        ]
  ]

  -- Below a stored path that is no directory, nothing is stored.
  pub file_alone :
      (fs : Fs store) (n : Text) (r : EntryRecord) (p : Text) (q : EntryRecord)
      → IsTree store fs.db
      → store.get fs.db n ≡ some r
      → is_dir r.kind ≡ false
      → store.get fs.db p ≡ some q
      → under p n ≡ true
      → p ≡ n
  file_alone fs n r p q tree found plain stored u =
      let np = (tree.at p q stored).normal in
      let nn = (tree.at n r found).normal in
      let (rest, e) = (under_iff np nn).0 u in
      elim (nil_or rest) [
        | inl none_more ↦
            np.spelled
            ∙ ap from_segments (e ∙ ap (λ t. nn.parts ++ t) none_more ∙ append-nil nn.parts)
            ∙ sym nn.spelled
        | inr more ↦
            let below = (tree.at n r found).below_root in
            let at : p ≡ from_segments (nn.parts ++ rest) = np.spelled ∙ ap from_segments e in
            let (d, there, is) =
              below_dir fs.db nn.parts (length rest) rest tree (omega arith) (rw e at np.valid)
                (λ z. not_at_root n nn.parts nn.spelled z below) more q
                (ap (store.get fs.db) (sym at) ∙ stored) in
            absurd (cc (found, ap (store.get fs.db) nn.spelled, there, is, plain))
      ]

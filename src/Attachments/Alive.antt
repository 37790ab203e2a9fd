-- ===== src/Attachments/Alive.antt =====
-- An object URL that is in the cache was not revoked.
use tactile.Base.{
  ℕ, suc, ◌-◌, ◌<◌, Bool, true, false, ◌||◌, ◌≡◌, refl, sym, ap, ◌∙◌, Option, some, none, List, [],
  ◌∷◌, ◌++◌, Text, text_eq, text_eq_iff, ◌==◌, ==_iff, any, ltb, lookup, lookup-assign,
  lookup-erase, assign, erase, arith, Bool-cases, inl, inr, ◌⊎◌, All, map,
}
use tactile.Paths.{slash}
use tactile.Attachments.{
  CacheEntry, Cache, is_external_src, acquire_new, acquire_found, acquire_attachment_url,
  release_found, release_attachment_url, CacheStep, acquire, release, fail, lookup_failed, clear,
  clear_attachment_cache, InUse, none_yet, later, empty_cache,
}

abbrev pub is_revoked : Cache → ℕ → Bool
is_revoked c u = any (λ v. v == u) c.revoked

pub record IsAlive (c : Cache) : Type 0 where
  pub counted : (p : Text) (e : CacheEntry) → lookup p c.entries ≡ some e → 0 < e.refs
  pub fresh : (p : Text) (e : CacheEntry) → lookup p c.entries ≡ some e → e.url < c.made
  pub apart :
      (p q : Text) (e f : CacheEntry)
      → lookup p c.entries ≡ some e
      → lookup q c.entries ≡ some f
      → e.url ≡ f.url
      → p ≡ q
  pub kept : (p : Text) (e : CacheEntry) → lookup p c.entries ≡ some e → is_revoked c e.url ≡ false
  pub listed : All (λ (e : Text × CacheEntry). e.1.url < c.made) c.entries
  pub old : (u : ℕ) → is_revoked c u ≡ true → u < c.made

All-assign :
    (n : ℕ) (path : Text) (new : CacheEntry) (d : List (Text × CacheEntry))
    → new.url < n
    → All (λ (e : Text × CacheEntry). e.1.url < n) d
    → All (λ (e : Text × CacheEntry). e.1.url < n) (assign path new d)
unfolding assign
All-assign n path new [] h a = (h, tt)
All-assign n path new (e ∷ d) h a = elim (Bool-cases (text_eq e.0 path)) [
  | inl s ↦ rw (s, All) (h, a.1)
  | inr s ↦ rw (s, All) (a.0, All-assign n path new d h a.1)
]

All-erase :
    (n : ℕ) (path : Text) (d : List (Text × CacheEntry))
    → All (λ (e : Text × CacheEntry). e.1.url < n) d
    → All (λ (e : Text × CacheEntry). e.1.url < n) (erase path d)
unfolding erase
All-erase n path [] a = tt
All-erase n path (e ∷ d) a = elim (Bool-cases (text_eq e.0 path)) [
  | inl s ↦ rw (s, All) (All-erase n path d a.1)
  | inr s ↦ rw (s, All) (a.0, All-erase n path d a.1)
]

All-suc :
    (n : ℕ) (d : List (Text × CacheEntry))
    → All (λ (e : Text × CacheEntry). e.1.url < n) d
    → All (λ (e : Text × CacheEntry). e.1.url < suc n) d
All-suc n [] a = tt
All-suc n (e ∷ d) a = (omega (arith, a.0), All-suc n d a.1)

-- The URLs that clearing the cache revokes were made before.
revoked_before :
    (n : ℕ) (d : List (Text × CacheEntry)) (revoked : List ℕ) (u : ℕ)
    → All (λ (e : Text × CacheEntry). e.1.url < n) d
    → (any (λ v. v == u) revoked ≡ true → u < n)
    → any (λ v. v == u) (map (λ (e : Text × CacheEntry). e.1.url) d ++ revoked) ≡ true
    → u < n
revoked_before n [] revoked u a old r = old r
revoked_before n (e ∷ d) revoked u a old r = elim (Bool-cases (e.1.url == u)) [
  | inl s ↦ omega (arith, (==_iff e.1.url u).0 s, a.0)
  | inr s ↦ revoked_before n d revoked u a.1 old (ground arith)
]

-- What is found after a change of one entry.
found_after :
    (path q : Text) (new f : CacheEntry) (d : List (Text × CacheEntry))
    → lookup q (assign path new d) ≡ some f
    → ((path ≡ q) × (new ≡ f)) ⊎ ((text_eq path q ≡ false) × (lookup q d ≡ some f))
found_after path q new f d h = elim (Bool-cases (text_eq path q)) [
  | inl e ↦
      let found : some new ≡ some f = sym (lookup-assign path q new d ∙ rw e refl) ∙ h in
      inl ((text_eq_iff path q).0 e, cc found)
  | inr e ↦ inr (e, sym (lookup-assign path q new d ∙ rw e refl) ∙ h)
]

found_left :
    (path q : Text) (f : CacheEntry) (d : List (Text × CacheEntry))
    → lookup q (erase path d) ≡ some f
    → (text_eq path q ≡ false) × (lookup q d ≡ some f)
found_left path q f d h = elim (Bool-cases (text_eq path q)) [
  | inl e ↦
      let gone : none ≡ some f = sym (lookup-erase path q d ∙ rw e refl) ∙ h in absurd (cc gone)
  | inr e ↦ (e, sym (lookup-erase path q d ∙ rw e refl) ∙ h)
]

module _ (c : Cache) (o : IsAlive c) (path : Text) where
  -- An entry gets another count.
  IsAlive-count :
      (e : CacheEntry) (n : ℕ)
      → lookup path c.entries ≡ some e
      → 0 < n
      → IsAlive (record c { entries = assign path (record e { refs = n }) c.entries })
  IsAlive-count e n there many =
      let new : CacheEntry = record e { refs = n } in
      let same : (q : Text) (f : CacheEntry)
          → lookup q (assign path new c.entries) ≡ some f
          → (g : CacheEntry) × (lookup q c.entries ≡ some g) × (g.url ≡ f.url) =
        λ q f h. elim (found_after path q new f c.entries h) [
          | inl (p, s) ↦ (e, ap (λ x. lookup x c.entries) (sym p) ∙ there, ap (λ x. x.url) s)
          | inr (_, l) ↦ (f, l, refl)
        ] in
      record {
        counted = λ q f h. elim (found_after path q new f c.entries h) [
          | inl (p, s) ↦ rw (← ap (λ x. x.refs) s) many
          | inr (_, l) ↦ o.counted q f l
        ];
        fresh = λ q f h. let (g, l, s) = same q f h in rw (← s) (o.fresh q g l);
        apart = λ p q e f h k u.
            let (g, l, s) = same p e h in
            let (g', l', s') = same q f k in o.apart p q g g' l l' (s ∙ u ∙ sym s');
        kept = λ q f h. let (g, l, s) = same q f h in rw (← s) (o.kept q g l);
        listed = All-assign c.made path new c.entries (o.fresh path e there) o.listed;
        old = o.old;
      }

  IsAlive-new : IsAlive (record c {
    entries = assign path (record { url = c.made; refs = 1 }) c.entries;
    made = suc c.made;
  })
  IsAlive-new =
      let new : CacheEntry = record { url = c.made; refs = 1 } in
      record {
        counted = λ q f h. elim (found_after path q new f c.entries h) [
          | inl (_, s) ↦ rw (← ap (λ x. x.refs) s) (omega arith)
          | inr (_, l) ↦ o.counted q f l
        ];
        fresh = λ q f h. elim (found_after path q new f c.entries h) [
          | inl (_, s) ↦ omega (arith, ap (λ x. x.url) s)
          | inr (_, l) ↦ omega (arith, o.fresh q f l)
        ];
        apart = λ p q e f h k u. elim (found_after path p new e c.entries h) [
          | inl (x, s) ↦ elim (found_after path q new f c.entries k) [
            | inl (y, t) ↦ sym x ∙ y
            | inr (_, l) ↦ absurd (omega (arith, o.fresh q f l, ap (λ x. x.url) s, u))
          ]
          | inr (_, m) ↦ elim (found_after path q new f c.entries k) [
            | inl (y, t) ↦ absurd (omega (arith, o.fresh p e m, ap (λ x. x.url) t, u))
            | inr (_, l) ↦ o.apart p q e f m l u
          ]
        ];
        kept = λ q f h. elim (found_after path q new f c.entries h) [
          | inl (_, s) ↦ rw (← ap (λ x. x.url) s) (unused (is_revoked c c.made) refl)
          | inr (_, l) ↦ o.kept q f l
        ];
        listed =
            All-assign (suc c.made) path new c.entries (omega arith)
              (All-suc c.made c.entries o.listed);
        old = λ u r. omega (arith, o.old u r);
      }
    where
      unused : (b : Bool) → is_revoked c c.made ≡ b → is_revoked c c.made ≡ false
      unused true e = absurd (omega (arith, o.old c.made e))
      unused false e = e

  IsAlive-erase :
      (extra : List ℕ)
      → ((u : ℕ) → any (λ v. v == u) (extra ++ c.revoked) ≡ true → u < c.made)
      → ((q : Text) (f : CacheEntry)
          → text_eq path q ≡ false
          → lookup q c.entries ≡ some f
          → any (λ v. v == f.url) (extra ++ c.revoked) ≡ false)
      → IsAlive (record c { entries = erase path c.entries; revoked = extra ++ c.revoked })
  IsAlive-erase extra past alive = record {
    counted = λ q f h. o.counted q f (found_left path q f c.entries h).1;
    fresh = λ q f h. o.fresh q f (found_left path q f c.entries h).1;
    apart = λ p q e f h k.
        o.apart p q e f (found_left path p e c.entries h).1 (found_left path q f c.entries k).1;
    kept =
        λ q f h. alive q f (found_left path q f c.entries h).0 (found_left path q f c.entries h).1;
    listed = All-erase c.made path c.entries o.listed;
    old = past;
  }

  IsAlive-acquire_found :
      (found : Option CacheEntry)
      → lookup path c.entries ≡ found
      → IsAlive (acquire_found path found c).1
  unfolding acquire_found acquire_new
  IsAlive-acquire_found (some e) h = IsAlive-count e (suc e.refs) h (omega arith)
  IsAlive-acquire_found none h = IsAlive-new

  IsAlive-lookup_failed : IsAlive (lookup_failed path c)
  unfolding lookup_failed
  IsAlive-lookup_failed = IsAlive-erase [] o.old (λ q f _ l. o.kept q f l)

  IsAlive-release_found :
      (found : Option CacheEntry)
      → lookup path c.entries ≡ found
      → IsAlive (release_found path found c)
  unfolding release_found
  IsAlive-release_found none h = o
  IsAlive-release_found (some e) h = elim (Bool-cases (ltb 0 (e.refs - 1))) [
    | inl more ↦ rw more (IsAlive-count e (e.refs - 1) h (ground arith))
    | inr last ↦ rw last (IsAlive-erase (e.url ∷ []) past other)
  ]
    where
      past : (u : ℕ) → (e.url == u || is_revoked c u) ≡ true → u < c.made
      past u r = elim (Bool-cases (e.url == u)) [
        | inl s ↦ omega (arith, (==_iff e.url u).0 s, o.fresh path e h)
        | inr s ↦ o.old u (ground arith)
      ]

      other :
          (q : Text) (f : CacheEntry)
          → text_eq path q ≡ false
          → lookup q c.entries ≡ some f
          → (e.url == f.url || is_revoked c f.url) ≡ false
      other q f n l = elim (Bool-cases (e.url == f.url)) [
        | inl s ↦
            let same = o.apart path q e f h l ((==_iff e.url f.url).0 s) in
            let yes = (text_eq_iff path q).1 same in absurd (cc (n, yes))
        | inr s ↦ rw s (o.kept q f l)
      ]

IsAlive-CacheStep : {c d : Cache} → CacheStep c d → IsAlive c → IsAlive d
unfolding acquire_attachment_url release_attachment_url clear_attachment_cache lookup
IsAlive-CacheStep (acquire c collection src) o = elim (Bool-cases (is_external_src src)) [
  | inl e ↦ rw e o
  | inr e ↦ rw e (
      IsAlive-acquire_found c o (collection ++ (slash ∷ src))
        (lookup (collection ++ (slash ∷ src)) c.entries) refl)
]
IsAlive-CacheStep (fail c path) o = IsAlive-lookup_failed c o path
IsAlive-CacheStep (release c collection src) o = elim (Bool-cases (is_external_src src)) [
  | inl e ↦ rw e o
  | inr e ↦ rw e (
      IsAlive-release_found c o (collection ++ (slash ∷ src))
        (lookup (collection ++ (slash ∷ src)) c.entries) refl)
]
IsAlive-CacheStep (clear c) o = record {
  counted = λ p e h. absurd (cc h);
  fresh = λ p e h. absurd (cc h);
  apart = λ p q e f h k u. absurd (cc h);
  kept = λ p e h. absurd (cc h);
  listed = tt;
  old = λ u r. revoked_before c.made c.entries c.revoked u o.listed (o.old u) r;
}

IsAlive-empty_cache : IsAlive empty_cache
unfolding lookup
IsAlive-empty_cache = record {
  counted = λ p e h. absurd (cc h);
  fresh = λ p e h. absurd (cc h);
  apart = λ p q e f h k u. absurd (cc h);
  kept = λ p e h. absurd (cc h);
  listed = tt;
  old = λ u h. absurd (cc h);
}

-- However attachments were acquired and released, lookups failed, and the cache was cleared: an
-- entry of the cache is counted at least once, no two entries share a URL, and none of their URLs is
-- revoked.
pub IsAlive-InUse : {c : Cache} → InUse c → IsAlive c
IsAlive-InUse none_yet = IsAlive-empty_cache
IsAlive-InUse (later u s) = IsAlive-CacheStep s (IsAlive-InUse u)

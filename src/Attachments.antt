-- ===== src/Attachments.antt =====
-- packages/core/src/api/attachments.ts: the cache of the object URLs of attachments.
--
-- A URL is a promise: the number of the lookup that makes it. A lookup may fail at any time after it
-- was started, which is a step of its own; `revoked` are the lookups whose URL is revoked as soon as
-- it is there.
pub mod Alive
use tactile.Base.{
  ℕ, suc, ◌+◌, ◌-◌, Bool, true, false, ◌&&◌, Option, some, none, List, [], ◌∷◌, ◌++◌, map, Text,
  codes, any, leb, ltb, starts_with, lookup, assign, erase, if◌then◌else◌,
}
use tactile.Paths.{slash}

unfoldable pub ascii_lower : ℕ → ℕ
ascii_lower c = if leb b'A' c && leb c b'Z' then c + 32 else c

-- `/^(https?:|data:|blob:|mailto:)/i.test(src)`
unfoldable pub is_external_src : Text → Bool
unfolding ascii_lower starts_with
is_external_src src =
    any (λ scheme. starts_with (map ascii_lower src) scheme)
      (codes "http:" ∷ codes "https:" ∷ codes "data:" ∷ codes "blob:" ∷ codes "mailto:" ∷ [])

pub record CacheEntry : Type 0 where
  pub url : ℕ
  pub refs : ℕ

pub record Cache : Type 0 where
  pub entries : List (Text × CacheEntry)
  -- How many lookups were started, and the ones whose URLs are revoked.
  pub made : ℕ
  pub revoked : List ℕ

pub data Url : Type 0 where
  external : Text → Url
  object : ℕ → Url

-- A path that is not in the cache: an entry for its lookup, which starts.
unfoldable pub acquire_new : Text → Cache → Url × Cache
unfolding assign
acquire_new path c = (
  object c.made,
  record c {
    entries = assign path (record { url = c.made; refs = 1 }) c.entries;
    made = suc c.made;
  },
)

unfoldable pub acquire_found : Text → Option CacheEntry → Cache → Url × Cache
unfolding acquire_new assign
acquire_found path none c = acquire_new path c
acquire_found path (some e) c =
    (object e.url, record c { entries = assign path (record e { refs = suc e.refs }) c.entries })

unfoldable pub acquire_attachment_url : Text → Text → Cache → Url × Cache
unfolding is_external_src acquire_found lookup
acquire_attachment_url collection src c =
    let path = collection ++ (slash ∷ src) in
    if is_external_src src then (external src, c) else acquire_found path (lookup path c.entries) c

-- `url.catch(() => urlCache.delete(path))`: the entry that stands under the path by then.
unfoldable pub lookup_failed : Text → Cache → Cache
unfolding erase
lookup_failed path c = record c { entries = erase path c.entries }

unfoldable pub release_found : Text → Option CacheEntry → Cache → Cache
unfolding assign erase
release_found path none c = c
release_found path (some e) c =
    if ltb 0 (e.refs - 1)
    then record c { entries = assign path (record e { refs = e.refs - 1 }) c.entries }
    else record c { entries = erase path c.entries; revoked = e.url ∷ c.revoked }

unfoldable pub release_attachment_url : Text → Text → Cache → Cache
unfolding is_external_src release_found lookup
release_attachment_url collection src c =
    let path = collection ++ (slash ∷ src) in
    if is_external_src src then c else release_found path (lookup path c.entries) c

unfoldable pub clear_attachment_cache : Cache → Cache
clear_attachment_cache c = record c {
  entries = [];
  revoked = map (λ (e : Text × CacheEntry). e.1.url) c.entries ++ c.revoked;
}

abbrev pub empty_cache : Cache
empty_cache = record { entries = []; made = 0; revoked = [] }

pub data CacheStep : Cache → Cache → Type 0 where
  acquire :
      (c : Cache) (collection src : Text) → CacheStep c (acquire_attachment_url collection src c).1
  fail : (c : Cache) (path : Text) → CacheStep c (lookup_failed path c)
  release :
      (c : Cache) (collection src : Text) → CacheStep c (release_attachment_url collection src c)
  clear : (c : Cache) → CacheStep c (clear_attachment_cache c)

pub data InUse : Cache → Type 0 where
  none_yet : InUse empty_cache
  later : {c d : Cache} → InUse c → CacheStep c d → InUse d

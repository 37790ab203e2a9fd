-- ===== src/Paths.antt =====
-- packages/storage/src/paths.ts: absolute, normalised POSIX paths. The proofs are in the modules
-- below this one.
pub mod Segments
pub mod Normal
pub mod Under
pub mod Hash
pub mod Known
pub mod Refusal
use Prim.Native.Nat.{bit_xor}
use tactile.Base.{
  ℕ, zero, suc, ◌+◌, ◌*◌, ◌/◌, ◌%◌, ◌^◌, ◌-◌, Bool, true, false, not, ◌||◌, Option, none, some,
  List, [], ◌∷◌, ◌++◌, Text, Result, ok, err, storage, invalid_path, ◌>>=◌, codes, text_eq,
  starts_with, split, join, take, drop, any, length, ltb, leb, ◌&&◌, replicate, ◌==◌, if◌then◌else◌,
  utf8, code_points, uri,
}

abbrev pub slash : ℕ
slash = b'/'

-- The loop of `normalizePath`: empty and '.' segments are dropped, '..' is refused.
unfoldable pub collect_segments : List Text → Result (List Text)
collect_segments [] = ok []
collect_segments (segment ∷ rest) =
    let keep = collect_segments rest >>= (λ segments. ok (segment ∷ segments)) in
    let skip = collect_segments rest in
    if text_eq segment [] || text_eq segment (codes ".")
    then skip
    else if text_eq segment (codes "..")
    then err (storage invalid_path)
    else keep

-- '/' + segments.join('/')
abbrev pub from_segments : List Text → Text
from_segments segments = slash ∷ join slash segments

unfoldable pub normalize_path : Text → Result Text
unfolding collect_segments
normalize_path [] = err (storage invalid_path)
normalize_path (c ∷ cs) = do
  segments ← collect_segments (split slash (c ∷ cs))
  ok (from_segments segments)

unfoldable pub join_path : List Text → Result Text
unfolding normalize_path
join_path parts = normalize_path (join slash parts)

-- `s.lastIndexOf(c)`, with `none` for -1.
unfoldable pub last_index_of : ℕ → Text → Option ℕ
last_index_of c [] = none
last_index_of c (x ∷ xs) = elim (last_index_of c xs) [
  | some i ↦ some (suc i)
  | none ↦ if x == c then some zero else none
]

unfoldable pub parent_of : Text → Text
unfolding last_index_of
parent_of normalized = elim (last_index_of slash normalized) [
  | some (suc i) ↦ take (suc i) normalized
  | _ ↦ slash ∷ []
]

unfoldable pub parent_path : Text → Result Text
unfolding normalize_path parent_of
parent_path path = do normalized ← normalize_path path; ok (parent_of normalized)

unfoldable pub base_of : Text → Text
unfolding last_index_of
base_of normalized = elim (last_index_of slash normalized) [
  | some i ↦ drop (suc i) normalized
  | none ↦ normalized
]

unfoldable pub base_name : Text → Result Text
unfolding normalize_path base_of
base_name path = do normalized ← normalize_path path; ok (base_of normalized)

unfoldable pub is_root : Text → Result Bool
unfolding normalize_path
is_root path = do normalized ← normalize_path path; ok (text_eq normalized (slash ∷ []))

unfoldable pub path_segments : Text → Result (List Text)
unfolding normalize_path
path_segments path = do
  normalized ← normalize_path path
  ok (if text_eq normalized (slash ∷ []) then [] else split slash (drop 1 normalized))

-- The test of `isUnder` on two normalised paths.
unfoldable pub under : Text → Text → Bool
under c a = text_eq a (slash ∷ []) || text_eq c a || starts_with c (a ++ slash ∷ [])

unfoldable pub is_under : Text → Text → Result Bool
unfolding normalize_path under
is_under child ancestor = do c ← normalize_path child; a ← normalize_path ancestor; ok (under c a)

unfoldable pub is_hidden : Text → Bool
is_hidden segment = starts_with segment (codes ".")

unfoldable pub has_hidden_segment : Text → Result Bool
unfolding path_segments is_hidden
has_hidden_segment path = do segments ← path_segments path; ok (any is_hidden segments)

-- What `isInternalPath` says of the segments: whether the one behind the first '.tactile' is
-- another than 'daily', or missing.
unfoldable pub is_internal : List Text → Bool
is_internal [] = false
is_internal (s ∷ []) = text_eq s (codes ".tactile")
is_internal (s ∷ t ∷ rest) =
    let later = is_internal (t ∷ rest) in
    if text_eq s (codes ".tactile") then not (text_eq t (codes "daily")) else later

unfoldable pub is_internal_path : Text → Result Bool
unfolding path_segments is_internal
is_internal_path path = do segments ← path_segments path; ok (is_internal segments)

-- One round of FNV-1a: `hash ^= c; hash = Math.imul(hash, 0x01000193) >>> 0`.
unfoldable pub fnv_step : ℕ → ℕ → ℕ
fnv_step hash c = (bit_xor hash c * 0x01000193) % 2 ^ 32

unfoldable pub fnv_loop : Text → ℕ → ℕ
unfolding fnv_step
fnv_loop [] hash = hash
fnv_loop (c ∷ cs) hash = fnv_loop cs (fnv_step hash c)

-- A digit of `toString(16)`.
unfoldable pub hex_digit : ℕ → ℕ
hex_digit d = if ltb d 10 then b'0' + d else b'a' + (d - 10)

-- `n.toString(16)` in front of `out`; more fuel than `n` is enough.
unfoldable pub to_hex_loop : ℕ → ℕ → Text → Text
unfolding hex_digit
to_hex_loop zero n out = out
to_hex_loop (suc fuel) n out =
    let rest = to_hex_loop fuel (n / 16) (hex_digit (n % 16) ∷ out) in
    if n / 16 == 0 then hex_digit (n % 16) ∷ out else rest

unfoldable pub to_hex : ℕ → Text
unfolding to_hex_loop
to_hex n = to_hex_loop (suc n) n []

-- `s.padStart(width, '0')`
unfoldable pub pad_start : ℕ → Text → Text
pad_start width s = replicate (width - length s) b'0' ++ s

unfoldable pub fnv1a : Text → Text
unfolding fnv_loop to_hex pad_start
fnv1a input = pad_start 8 (to_hex (fnv_loop input 0x811c9dc5))

-- The bytes of `encodeURIComponent` that are not escaped: letters, digits and - _ . ! ~ * ' ( ).
unfoldable pub is_unreserved : ℕ → Bool
is_unreserved c =
    (leb b'a' c && leb c b'z')
    || (leb b'A' c && leb c b'Z')
    || (leb b'0' c && leb c b'9')
    || any (λ d. d == c) (codes "-_.!~*'()")

-- An upper-case digit of a percent escape.
unfoldable pub escape_digit : ℕ → ℕ
escape_digit d = if ltb d 10 then b'0' + d else b'A' + (d - 10)

unfoldable pub percent : List ℕ → Text
unfolding escape_digit
percent [] = []
percent (b ∷ bs) = b'%' ∷ escape_digit (b / 16) ∷ escape_digit (b % 16) ∷ percent bs

-- `encodeURIComponent` on code points; a lone surrogate throws a `URIError`.
unfoldable pub encode_points : List ℕ → Result Text
unfolding is_unreserved percent utf8
encode_points [] = ok []
encode_points (p ∷ ps) =
    let rest = encode_points ps in
    if leb 0xd800 p && ltb p 0xe000
    then err uri
    else (rest >>= λ out. ok ((if is_unreserved p then p ∷ [] else percent (utf8 p)) ++ out))

unfoldable pub encode_path_as_dir : Text → Result Text
unfolding normalize_path encode_points code_points fnv1a
encode_path_as_dir path = do
  normalized ← normalize_path path
  encoded ← encode_points (code_points normalized)
  ok (take 120 encoded ++ b'-' ∷ fnv1a normalized)

-- ===== src/Diff.antt =====
-- packages/core/src/utils/diff.ts: the line diff of the version history panel. The proofs are in
-- the modules below this one.
pub mod Lcs
pub mod Walk
pub mod Sides
pub mod Trim
pub mod Formed
pub mod Counts
pub mod Collapse
use tactile.Base.{
  ℕ, zero, suc, ◌+◌, ◌-◌, ◌*◌, min, max, Bool, true, false, ◌&&◌, Option, none, some, List, [], ◌∷◌,
  ◌++◌, map, Text, text_eq, split, length, take, drop, get_elem?, get_or, leb, ltb, ◌==◌,
  if◌then◌else◌,
}

pub data DiffLineType : Type 0 where
  same add del : DiffLineType

pub record DiffLine : Type 0 where
  pub type : DiffLineType
  pub text : Text
  pub old_number : Option ℕ
  pub new_number : Option ℕ

pub record DiffResult : Type 0 where
  pub lines : List DiffLine
  pub added : ℕ
  pub removed : ℕ
  pub unchanged : ℕ
  pub truncated : Bool

abbrev pub max_cells : ℕ
max_cells = 4000000

-- `dp[i]` from `dp[i + 1]`: the cells of line `x` of `a` against the rest of `b`, from the right.
unfoldable pub fill_row : Text → List Text → List ℕ → List ℕ
fill_row x [] below = 0 ∷ []
fill_row x (y ∷ b) below =
    let rest = fill_row x b (drop 1 below) in
    (if text_eq x y then get_or below 1 0 + 1 else max (get_or below 0 0) (get_or rest 0 0)) ∷ rest

abbrev pub zeros : List Text → List ℕ
zeros [] = 0 ∷ []
zeros (y ∷ b) = 0 ∷ zeros b

-- The table `dp`, a list of its rows. Its entries are at most the length of `a`, so the 32-bit
-- words of the array hold them.
unfoldable pub table : List Text → List Text → List (List ℕ)
unfolding fill_row
table [] b = zeros b ∷ []
table (x ∷ a) b = let rows = table a b in fill_row x b (get_or rows 0 []) ∷ rows

abbrev pub cell : List (List ℕ) → ℕ → ℕ → ℕ
cell rows i j = get_or (get_or rows i []) j 0

-- One operation of `lcsDiff`.
pub record Op : Type 0 where
  pub type : DiffLineType
  pub text : Text
  pub a_index : Option ℕ
  pub b_index : Option ℕ

unfoldable pub deletions : ℕ → List Text → List Op
deletions i [] = []
deletions i (x ∷ a) =
    record { type = del; text = x; a_index = some i; b_index = none } ∷ deletions (suc i) a

unfoldable pub additions : ℕ → List Text → List Op
additions j [] = []
additions j (y ∷ b) =
    record { type = add; text = y; a_index = none; b_index = some j } ∷ additions (suc j) b

-- The three loops of `lcsDiff` from position `i` of `a` and `j` of `b`, over what is left of both.
unfoldable pub walk : List (List ℕ) → ℕ → List Text → ℕ → List Text → List Op
unfolding deletions additions
walk dp i [] j b = additions j b
walk dp i (x ∷ a) j [] = deletions i (x ∷ a)
walk dp i (x ∷ a) j (y ∷ b) =
    let keep =
      record { type = same; text = x; a_index = some i; b_index = some j }
      ∷ walk dp (suc i) a (suc j) b in
    let delete =
      record { type = del; text = x; a_index = some i; b_index = none }
      ∷ walk dp (suc i) a j (y ∷ b) in
    let insert =
      record { type = add; text = y; a_index = none; b_index = some j }
      ∷ walk dp i (x ∷ a) (suc j) b in
    if text_eq x y
    then keep
    else if leb (cell dp i (suc j)) (cell dp (suc i) j)
    then delete
    else insert

unfoldable pub lcs_diff : List Text → List Text → List Op
unfolding table walk
lcs_diff a b = walk (table a b) 0 a 0 b

-- `text === '' ? [] : text.split('\n')`
unfoldable pub lines_of : Text → List Text
lines_of [] = []
lines_of (c ∷ cs) = split b'\n' (c ∷ cs)

unfoldable pub common_prefix : List Text → List Text → ℕ
common_prefix [] b = 0
common_prefix (x ∷ a) [] = 0
common_prefix (x ∷ a) (y ∷ b) =
    let more = suc (common_prefix a b) in if text_eq x y then more else 0

abbrev pub same_line : Option Text → Option Text → Bool
same_line (some x) (some y) = text_eq x y
same_line (some x) none = false
same_line none _ = false

-- The second loop of `diffLines`, with `room` rounds at most and `s` lines found so far.
unfoldable pub common_suffix : List Text → List Text → ℕ → ℕ → ℕ
common_suffix a b zero s = s
common_suffix a b (suc room) s =
    let more = common_suffix a b room (suc s) in
    if same_line (get_elem? a (length a - 1 - s)) (get_elem? b (length b - 1 - s)) then more else s

-- Unchanged lines, numbered on from `i` on the old side and from `j` on the new side.
unfoldable pub same_lines : List Text → ℕ → ℕ → List DiffLine
same_lines [] i j = []
same_lines (x ∷ xs) i j =
    record { type = same; text = x; old_number = some i; new_number = some j }
    ∷ same_lines xs (suc i) (suc j)

unfoldable pub deleted_lines : List Text → ℕ → List DiffLine
deleted_lines [] i = []
deleted_lines (x ∷ xs) i =
    record { type = del; text = x; old_number = some i; new_number = none }
    ∷ deleted_lines xs (suc i)

unfoldable pub added_lines : List Text → ℕ → List DiffLine
added_lines [] j = []
added_lines (y ∷ ys) j =
    record { type = add; text = y; old_number = none; new_number = some j } ∷ added_lines ys (suc j)

abbrev pub shifted : ℕ → Option ℕ → Option ℕ
shifted prefix (some i) = some (prefix + i + 1)
shifted prefix none = none

-- A line of the result for an operation on the middle.
unfoldable pub number_line : ℕ → Op → DiffLine
number_line prefix op = record {
  type = op.type;
  text = op.text;
  old_number = shifted prefix op.a_index;
  new_number = shifted prefix op.b_index;
}

abbrev pub is_add : DiffLineType → Bool
is_add add = true
is_add _ = false

abbrev pub is_del : DiffLineType → Bool
is_del del = true
is_del _ = false

abbrev pub is_same : DiffLineType → Bool
is_same same = true
is_same _ = false

-- How many operations are of the type that `p` tests for: the counters of the loop.
unfoldable pub count_ops : (DiffLineType → Bool) → List Op → ℕ
count_ops p [] = 0
count_ops p (op ∷ ops) = (if p op.type then 1 else 0) + count_ops p ops

-- `xs.slice(from, to)`
abbrev pub slice {ℓ} : {A : Type ℓ} → List A → ℕ → ℕ → List A
slice xs from to = take (to - from) (drop from xs)

-- The lines of the middle, and how many of them are additions and deletions.
pub record Middle : Type 0 where
  pub lines : List DiffLine
  pub added : ℕ
  pub removed : ℕ

unfoldable pub coarse : ℕ → List Text → List Text → Middle
unfolding deleted_lines added_lines
coarse prefix a b = record {
  lines = deleted_lines a (prefix + 1) ++ added_lines b (prefix + 1);
  added = length b;
  removed = length a;
}

unfoldable pub fine : ℕ → List Text → List Text → Middle
unfolding lcs_diff number_line count_ops
fine prefix a b = record {
  lines = map (number_line prefix) (lcs_diff a b);
  added = count_ops is_add (lcs_diff a b);
  removed = count_ops is_del (lcs_diff a b);
}

unfoldable pub diff_middle : ℕ → List Text → List Text → Middle
unfolding coarse fine
diff_middle prefix a b =
    if ltb max_cells (length a * length b) then coarse prefix a b else fine prefix a b

-- `diffLines` on the lines of two different texts.
unfoldable pub diff_documents : List Text → List Text → DiffResult
unfolding common_prefix common_suffix diff_middle same_lines
diff_documents a b =
    let prefix = common_prefix a b in
    let suffix = common_suffix a b (min (length a - prefix) (length b - prefix)) 0 in
    let a_mid = slice a prefix (length a - suffix) in
    let b_mid = slice b prefix (length b - suffix) in
    let mid = diff_middle prefix a_mid b_mid in
    let lines =
      same_lines (take prefix a) 1 1
      ++ (mid.lines
          ++ same_lines (drop (length a - suffix) a) (length a - suffix + 1)
              (length b - suffix + 1)) in
    record {
      lines = lines;
      added = mid.added;
      removed = mid.removed;
      unchanged = length lines - mid.added - mid.removed;
      truncated = ltb max_cells (length a_mid * length b_mid);
    }

unfoldable pub diff_lines : Text → Text → DiffResult
unfolding lines_of same_lines diff_documents
diff_lines old_text new_text =
    if text_eq old_text new_text
    then record {
      lines = same_lines (lines_of old_text) 1 1;
      added = 0;
      removed = 0;
      unchanged = length (same_lines (lines_of old_text) 1 1);
      truncated = false;
    }
    else diff_documents (lines_of old_text) (lines_of new_text)

pub data DisplayRow : Type 0 where
  line : DiffLine → DisplayRow
  collapsed : ℕ → ℕ → ℕ → DisplayRow

abbrev pub number_or_zero : Option ℕ → ℕ
number_or_zero (some n) = n
number_or_zero none = 0

-- The row for the hidden part of a run whose first hidden line is given.
unfoldable pub hidden_row : ℕ → Option DiffLine → DisplayRow
hidden_row count (some first) =
    collapsed count (number_or_zero first.old_number) (number_or_zero first.new_number)
hidden_row count none = collapsed count 0 0

-- `flush` on the lines of the current run.
unfoldable pub flush : ℕ → List DiffLine → List DisplayRow
unfolding hidden_row
flush context run =
    if leb (length run) (context * 2 + 1)
    then map line run
    else map line (take context run)
      ++ hidden_row (length run - context * 2) (get_elem? run context)
        ∷ map line (drop (length run - context) run)

-- The loop of `collapseUnchanged`, with the lines of the current run.
unfoldable pub collapse_loop : ℕ → List DiffLine → List DiffLine → List DisplayRow
unfolding flush
collapse_loop context run [] = flush context run
collapse_loop context run (l ∷ lines) =
    let longer = collapse_loop context (run ++ l ∷ []) lines in
    let broken = flush context run ++ line l ∷ collapse_loop context [] lines in
    if is_same l.type then longer else broken

unfoldable pub collapse_unchanged : List DiffLine → ℕ → List DisplayRow
unfolding collapse_loop
collapse_unchanged lines context = collapse_loop context [] lines

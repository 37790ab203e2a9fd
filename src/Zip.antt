-- ===== src/Zip.antt =====
-- packages/core/src/utils/zip.ts: archives without compression.
--
-- An entry's date is given by its parts. The output buffer is the list of the bytes written, in the
-- order of the offsets; an integer that is written into 16 or 32 bits is taken modulo 2 ^ 16 or
-- 2 ^ 32.
pub mod Names
pub mod Safe
pub mod Inside
pub mod Layout
use Prim.Native.Nat.{bit_xor, bit_or}
use tactile.Base.{
  ℕ, zero, suc, ◌+◌, ◌-◌, ◌*◌, ◌/◌, ◌%◌, ◌^◌, Bool, true, false, not, ◌||◌, Option, some, none,
  List, [], ◌∷◌, ◌++◌, map, Text, codes, text_eq, length, take, drop, get_or, ◌==◌, ltb,
  if◌then◌else◌, split, join, filter, to_decimal, includes, first_free,
}
use tactile.Paths.{slash, last_index_of}
use tactile.IdbFs.{utf8_encode}

-- The parts of a `Date` in local time; `month` counts from 1.
pub record DateParts : Type 0 where
  pub year : ℕ
  pub month : ℕ
  pub day : ℕ
  pub hours : ℕ
  pub minutes : ℕ
  pub seconds : ℕ

pub record ZipEntry : Type 0 where
  pub name : Text
  pub contents : List ℕ
  pub modified : Option DateParts

-- Eight rounds for one entry of the table.
unfoldable pub crc_rounds : ℕ → ℕ → ℕ
crc_rounds zero c = c
crc_rounds (suc k) c = crc_rounds k (if c % 2 == 1 then bit_xor 0xedb88320 (c / 2) else c / 2)

unfoldable pub crc_rows : ℕ → ℕ → List ℕ
unfolding crc_rounds
crc_rows n zero = []
crc_rows n (suc k) = crc_rounds 8 n ∷ crc_rows (suc n) k

unfoldable pub crc_table : List ℕ
unfolding crc_rows
crc_table = crc_rows 0 256

unfoldable pub crc_loop : List ℕ → ℕ → ℕ
unfolding crc_table
crc_loop [] crc = crc
crc_loop (b ∷ bs) crc = crc_loop bs (bit_xor (get_or crc_table (bit_xor crc b % 256) 0) (crc / 256))

unfoldable pub crc32 : List ℕ → ℕ
unfolding crc_loop
crc32 bytes = bit_xor (crc_loop bytes 0xffffffff) 0xffffffff

-- `segment !== '' && segment !== '.' && segment !== '..'`
unfoldable pub is_kept : Text → Bool
is_kept segment =
    not (text_eq segment [] || text_eq segment (codes ".") || text_eq segment (codes ".."))

unfoldable pub sanitize_name : Text → Text
unfolding is_kept
sanitize_name name =
    join slash (filter is_kept (split slash (map (λ c. if c == b'\\' then slash else c) name)))

-- `time` and `date` of `dosDateTime`.
unfoldable pub dos_time : DateParts → ℕ
dos_time d = bit_or (bit_or (d.hours * 2 ^ 11) (d.minutes * 2 ^ 5)) (d.seconds / 2)

unfoldable pub dos_date : DateParts → ℕ
dos_date d = bit_or (bit_or ((d.year - 1980) * 2 ^ 9) (d.month * 2 ^ 5)) d.day

-- The end of the stem: the last dot, unless it is the first character or there is none.
unfoldable pub stem_end : Text → ℕ
unfolding last_index_of
stem_end name = elim (last_index_of b'.' name) [
  | none ↦ length name
  | some zero ↦ length name
  | some (suc i) ↦ suc i
]

-- `${stem} (${i})${ext}`
unfoldable pub numbered : Text → ℕ → Text
unfolding stem_end to_decimal
numbered name i =
    take (stem_end name) name
    ++ (codes " (" ++ (to_decimal i ++ (codes ")" ++ drop (stem_end name) name)))

-- More rounds than there are names in use are enough.
unfoldable pub unique_name : List Text → Text → Text
unfolding numbered first_free
unique_name used name =
    if includes used name
    then numbered name (first_free (suc (length used)) (λ i. includes used (numbered name i)) 1)
    else name

-- `sanitizeName(entry.name) || 'untitled'`
unfoldable pub or_untitled : Text → Text
or_untitled [] = codes "untitled"
or_untitled (c ∷ cs) = c ∷ cs

-- The names that the entries get, one after the other.
unfoldable pub assign_names : List Text → List ZipEntry → List Text
unfolding unique_name sanitize_name or_untitled
assign_names used [] = []
assign_names used (e ∷ es) =
    let name = unique_name used (or_untitled (sanitize_name e.name)) in
    name ∷ assign_names (name ∷ used) es

pub record Prepared : Type 0 where
  pub name_bytes : List ℕ
  pub contents : List ℕ
  pub crc : ℕ
  pub time : ℕ
  pub date : ℕ

-- `entry.modified ?? new Date()`
abbrev pub or_now : DateParts → Option DateParts → DateParts
or_now now none = now
or_now now (some d) = d

unfoldable pub prepare_entry : DateParts → Text → ZipEntry → Prepared
unfolding utf8_encode crc32 dos_time dos_date
prepare_entry now name e = record {
  name_bytes = utf8_encode name;
  contents = e.contents;
  crc = crc32 e.contents;
  time = dos_time (or_now now e.modified);
  date = dos_date (or_now now e.modified);
}

unfoldable pub prepare : DateParts → List Text → List ZipEntry → List Prepared
unfolding prepare_entry
prepare now [] es = []
prepare now (name ∷ names) [] = []
prepare now (name ∷ names) (e ∷ es) = prepare_entry now name e ∷ prepare now names es

unfoldable pub write16 : ℕ → List ℕ
write16 v = (v % 256) ∷ (v / 256 % 256) ∷ []

unfoldable pub write32 : ℕ → List ℕ
write32 v = (v % 256) ∷ (v / 256 % 256) ∷ (v / 65536 % 256) ∷ (v / 16777216 % 256) ∷ []

unfoldable pub local_header : Prepared → List ℕ
unfolding write16 write32
local_header e =
    write32 0x04034b50
    ++ (write16 20
        ++ (write16 0x0800
            ++ (write16 0
                ++ (write16 e.time
                    ++ (write16 e.date
                        ++ (write32 e.crc
                            ++ (write32 (length e.contents)
                                ++ (write32 (length e.contents)
                                    ++ (write16 (length e.name_bytes) ++ write16 0)))))))))

unfoldable pub local_entry : Prepared → List ℕ
unfolding local_header
local_entry e = local_header e ++ (e.name_bytes ++ e.contents)

unfoldable pub local_part : List Prepared → List ℕ
unfolding local_entry
local_part [] = []
local_part (e ∷ es) = local_entry e ++ local_part es

-- `centralOffsets`, where the first entry stands at `offset`.
unfoldable pub central_offsets : ℕ → List Prepared → List ℕ
unfolding local_entry
central_offsets offset [] = []
central_offsets offset (e ∷ es) = offset ∷ central_offsets (offset + length (local_entry e)) es

unfoldable pub central_entry : Prepared → ℕ → List ℕ
unfolding write16 write32
central_entry e offset =
    write32 0x02014b50
    ++ (write16 20
        ++ (write16 20
            ++ (write16 0x0800
                ++ (write16 0
                    ++ (write16 e.time
                        ++ (write16 e.date
                            ++ (write32 e.crc
                                ++ (write32 (length e.contents)
                                    ++ (write32 (length e.contents)
                                        ++ (write16 (length e.name_bytes)
                                            ++ (write16 0
                                                ++ (write16 0
                                                    ++ (write16 0
                                                        ++ (write16 0
                                                            ++ (write32 0
                                                            ++ (write32 offset
                                                            ++ e.name_bytes))))))))))))))))

unfoldable pub central_part : List Prepared → List ℕ → List ℕ
unfolding central_entry
central_part [] offsets = []
central_part (e ∷ es) [] = []
central_part (e ∷ es) (o ∷ offsets) = central_entry e o ++ central_part es offsets

unfoldable pub end_record : ℕ → ℕ → ℕ → List ℕ
unfolding write16 write32
end_record count size start =
    write32 0x06054b50
    ++ (write16 0
        ++ (write16 0
            ++ (write16 count
                ++ (write16 count ++ (write32 size ++ (write32 start ++ write16 0))))))

unfoldable pub archive : List Prepared → List ℕ
unfolding local_part central_offsets central_part end_record
archive es =
    let locals = local_part es in
    let central = central_part es (central_offsets 0 es) in
    locals ++ (central ++ end_record (length es) (length central) (length locals))

-- `total`, the size of the buffer.
unfoldable pub total_size : List Prepared → ℕ
total_size [] = 22
total_size (e ∷ es) =
    30 + length e.name_bytes + length e.contents + (46 + length e.name_bytes) + total_size es

unfoldable pub create_zip : DateParts → List ZipEntry → List ℕ
unfolding assign_names prepare archive
create_zip now entries = archive (prepare now (assign_names [] entries) entries)

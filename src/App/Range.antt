-- ===== src/App/Range.antt =====
-- The Range header, and the chunks of `FileDownContext`.
pub mod Chunks
pub mod Header
use cloud_storge_system.Common.{
  ℕ, zero, suc, ◌+◌, ◌-◌, ◌*◌, ◌^◌, ◌%◌, min, Bool, true, false, not, ◌&&◌, Bytes, bytes, Option,
  none, some, List, [], ◌∷◌, ◌++◌, if◌then◌else◌, ltb, leb, ◌==◌, is_empty, is_digit, is_prefix,
  drop, take, length, find, to_string,
}
use cloud_storge_system.App.Number.{stoull}
use cloud_storge_system.App.World.{Download}

-- The digits at the front, and the rest.
unfoldable pub span_digits : Bytes → Bytes × Bytes
span_digits [] = ([], [])
span_digits (c ∷ cs) =
    let (ds, rest) = span_digits cs in if is_digit c then (c ∷ ds, rest) else ([], c ∷ cs)

abbrev range_end : Bytes → Bytes × Bytes → Option (Bytes × Bytes)
range_end first ([], rest) = none
range_end first (d ∷ ds, []) = none
range_end first (d ∷ ds, c ∷ rest) = if c == b'-' then some (d ∷ ds, (span_digits rest).0) else none

-- A match of `bytes=(\d+)-(\d*)` at the front of a text: its two groups.
unfoldable pub match_range : Bytes → Option (Bytes × Bytes)
unfolding is_prefix span_digits
match_range text =
    if is_prefix (bytes "bytes=") text then range_end [] (span_digits (drop 6 text)) else none

-- std::regex_search: the first position with a match.
unfoldable pub search_range : Bytes → Option (Bytes × Bytes)
unfolding match_range
search_range [] = none
search_range (c ∷ cs) = elim (match_range (c ∷ cs)) [
  | none ↦ search_range cs
  | some groups ↦ some groups
]

-- What the handler makes of the Range header.
pub data Range : Type 0 where
  -- No header, or none that matches: the whole file.
  whole : Range
  -- startPos and endPos.
  part : ℕ → ℕ → Range
  -- The answer 416.
  unsatisfiable : Range
  -- std::out_of_range of std::stoull.
  overflow : Range

abbrev clamp_end : ℕ → ℕ → ℕ
clamp_end size last = if leb size last then size - 1 else last

abbrev checked : ℕ → ℕ → ℕ → Range
checked size first last = if leb size first then unsatisfiable else part first (clamp_end size last)

-- The first position, the text of the last one, and its value.
abbrev range_of : ℕ → Option ℕ → Bytes → Option ℕ → Range
range_of size none last_text last = overflow
range_of size (some first) [] last = checked size first ((size + 2 ^ 64 - 1) % 2 ^ 64)
range_of size (some first) (_ ∷ _) none = overflow
range_of size (some first) (_ ∷ _) (some last) = checked size first last

abbrev pub range_groups : ℕ → Option (Bytes × Bytes) → Range
range_groups size none = whole
range_groups size (some (first, last)) = range_of size (stoull first) last (stoull last)

-- The Range header against the size of the file. Without an end the last position is
-- `fileSize - 1`, which wraps round in an empty file.
unfoldable pub parse_range : Bytes → ℕ → Range
unfolding search_range stoull
parse_range header size = if is_empty header then whole else range_groups size (search_range header)

-- 1 MB.
abbrev pub chunk_size : ℕ
chunk_size = 1024 * 1024

-- `seekTo`.
abbrev pub seek_to : ℕ → Download → Download
seek_to position d = record d { position = position; is_complete = false }

-- `readNextChunk` on the contents of the file; `none` is the result false.
unfoldable pub read_next_chunk : Bytes → Download → Option Bytes × Download
read_next_chunk content d =
    let n = min chunk_size ((d.file_size + 2 ^ 64 - d.position) % 2 ^ 64) in
    if d.is_complete
    then (none, d)
    else if n == 0
    then (none, record d { is_complete = true })
    else (some (take n (drop d.position content)), record d { position = d.position + n })

-- What the write-complete callback sends, call after call, until it closes the connection: the
-- chunks in order, and whether the connection was closed within the calls that it gets.
unfoldable pub send_all : ℕ → Bytes → Download → List Bytes × Bool
send_all zero content d = ([], false)
send_all (suc calls) content d =
    let (chunk, d') = read_next_chunk content d in
    elim chunk [
      | none ↦ ([], true)
      | some bs ↦ let (rest, closed) = send_all calls content d' in (bs ∷ rest, closed)
    ]

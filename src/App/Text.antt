-- ===== src/App/Text.antt =====
-- Text helpers of application/http_upload.cc: `urlDecode`, `getFileType`, `escapeRegex`.
pub mod FileType
use cloud_storge_system.Common.{
  ℕ, zero, suc, ◌+◌, ◌-◌, ◌<◌, Bool, true, false, ◌&&◌, ◌||◌, Bytes, bytes, Option, none, some,
  List, [], ◌∷◌, ◌++◌, map, length, ltb, ◌==◌, if◌then◌else◌, eqb, to_lower, is_empty,
}
use cloud_storge_system.Net.Request.{scan_hex, or_junk}

abbrev pub plus_to_space : ℕ → ℕ
plus_to_space c = if c == b'+' then 32 else c

-- The loop of `urlDecode`. The variable that sscanf sets is declared before the loop: it keeps its
-- last value where nothing is converted; `last` is that byte. An escape that is cut off at the end
-- of the text is decoded from what there is.
unfoldable pub decode_from : ℕ → Bytes → Bytes
unfolding scan_hex
decode_from last [] = []
decode_from last (c ∷ []) =
    if c == b'%' then or_junk last (scan_hex []) ∷ [] else plus_to_space c ∷ []
decode_from last (c ∷ a ∷ []) =
    let plain = plus_to_space c ∷ decode_from last (a ∷ []) in
    if c == b'%' then or_junk last (scan_hex (a ∷ [])) ∷ [] else plain
decode_from last (c ∷ a ∷ b ∷ cs) =
    let byte = or_junk last (scan_hex (a ∷ b ∷ [])) in
    let escaped = byte ∷ decode_from byte cs in
    let plain = plus_to_space c ∷ decode_from last (a ∷ b ∷ cs) in
    if c == b'%' then escaped else plain

-- `urlDecode`; `junk 0` is the byte of the variable before it is set.
unfoldable pub url_decode : (ℕ → ℕ) → Bytes → Bytes
unfolding decode_from
url_decode junk text = decode_from (junk 0) text

abbrev later_or : Bytes → Option Bytes → Option Bytes
later_or here none = some here
later_or here (some e) = some e

-- The text behind the last dot; `none` without a dot.
unfoldable pub extension : Bytes → Option Bytes
extension [] = none
extension (c ∷ cs) = let rest = extension cs in if c == b'.' then later_or cs rest else rest

unfoldable pub one_of : Bytes → List Bytes → Bool
unfolding eqb
one_of e [] = false
one_of e (x ∷ xs) = eqb e x || one_of e xs

-- The type of an extension in lower case.
unfoldable pub type_of_extension : Bytes → Bytes
unfolding one_of
type_of_extension e =
    if one_of e (bytes "jpg" ∷ bytes "jpeg" ∷ bytes "png" ∷ bytes "gif" ∷ [])
    then bytes "image"
    else if one_of e (bytes "mp4" ∷ bytes "avi" ∷ bytes "mov" ∷ bytes "wmv" ∷ [])
    then bytes "video"
    else if one_of e (bytes "pdf" ∷ [])
    then bytes "pdf"
    else if one_of e (bytes "doc" ∷ bytes "docx" ∷ [])
    then bytes "word"
    else if one_of e (bytes "xls" ∷ bytes "xlsx" ∷ [])
    then bytes "excel"
    else if one_of e (bytes "ppt" ∷ bytes "pptx" ∷ [])
    then bytes "powerpoint"
    else if one_of e (bytes "txt" ∷ bytes "csv" ∷ [])
    then bytes "text"
    else bytes "other"

abbrev type_of : Option Bytes → Bytes
type_of none = bytes "unknown"
type_of (some []) = bytes "unknown"
type_of (some (c ∷ e)) = type_of_extension (map to_lower (c ∷ e))

-- `getFileType`: a dot at the very end is no extension.
unfoldable pub get_file_type : Bytes → Bytes
unfolding extension type_of_extension
get_file_type filename = type_of (extension filename)

-- The characters that `escapeRegex` escapes.
abbrev pub is_special : ℕ → Bool
is_special c =
    c == b'.'
    || c == b'+'
    || c == b'*'
    || c == b'?'
    || c == b'^'
    || c == b'$'
    || c == b'('
    || c == b')'
    || c == b'['
    || c == b']'
    || c == 123
    || c == 125
    || c == b'|'
    || c == 92

-- `escapeRegex`.
unfoldable pub escape_regex : Bytes → Bytes
escape_regex [] = []
escape_regex (c ∷ cs) =
    let rest = escape_regex cs in if is_special c then 92 ∷ c ∷ rest else c ∷ rest

-- ===== src/Net/Context/Headers.antt =====
-- The header block: what the loop of `processHeaders` makes of complete and of cut header lines.
use cloud_storge_system.Common.{
  ℕ, zero, suc, ◌+◌, ◌-◌, ◌≤◌, ◌<◌, ◌≡◌, refl, ap, ◌∙◌, inl, inr, Bytes, Option, none, some, List,
  [], ◌∷◌, ◌++◌, length, drop, arith, Option-cases, ◌⊎◌, split_at, find, All, NoByte, NoByte-append,
  split_at-append, find-crlf, find-crlf-le, length-append, length-drop, take-append_left,
  drop-append_left, drop-append_add,
}
use cloud_storge_system.Net.Context.{
  Context, expect_body, header_split, headers_loop, process_headers, process_header, note_header,
}

abbrev pub Header : Type 0
Header = Bytes × Bytes

-- A header line can be printed: no colon in its name, no carriage return in either part.
abbrev pub IsHeader : Header → Type 0
IsHeader (field, value) = NoByte 58 field × NoByte 13 field × NoByte 13 value

-- Header lines, each ended by CR LF, and what follows them.
abbrev pub header_lines : List Header → Bytes → Bytes
header_lines [] rest = rest
header_lines ((field, value) ∷ hs) rest =
    (field ++ 58 ∷ 32 ∷ value) ++ 13 ∷ 10 ∷ header_lines hs rest

-- A whole header block, which an empty line ends.
abbrev pub header_block : List Header → Bytes → Bytes
header_block hs rest = header_lines hs (13 ∷ 10 ∷ rest)

-- The context after the lines of a header block before `rest`.
unfoldable pub apply_headers : List Header → Bytes → Context → Context
apply_headers [] rest c = c
apply_headers ((field, value) ∷ hs) rest c =
    apply_headers hs rest (process_header field (32 ∷ value) (13 ∷ 10 ∷ header_lines hs rest) c)

pub process_header-state :
    (field text beyond : Bytes) (c : Context) → (process_header field text beyond c).state ≡ c.state
unfolding process_header note_header
process_header-state field text beyond c = ground arith

pub apply_headers-state :
    (hs : List Header) (rest : Bytes) (c : Context) → (apply_headers hs rest c).state ≡ c.state
unfolding apply_headers
apply_headers-state [] rest c = refl
apply_headers-state ((field, value) ∷ hs) rest c =
    apply_headers-state hs rest _ ∙ process_header-state field (32 ∷ value) _ c

line_NoByte : (field value : Bytes) → IsHeader (field, value) → NoByte 13 (field ++ 58 ∷ 32 ∷ value)
line_NoByte field value (_, h, k) =
    NoByte-append 13 field (58 ∷ 32 ∷ value) h (omega arith, (omega arith, k))

drop_line : (line rest : Bytes) → drop (length line + 2) (line ++ 13 ∷ 10 ∷ rest) ≡ rest
drop_line line rest = drop-append_add 2 line (13 ∷ 10 ∷ rest)

-- One round on a line with a colon.
headers_loop-line :
    (f : ℕ) (field value rest : Bytes) (c : Context)
    → IsHeader (field, value)
    → headers_loop (suc f) c ((field ++ 58 ∷ 32 ∷ value) ++ 13 ∷ 10 ∷ rest)
      ≡ headers_loop f (process_header field (32 ∷ value) (13 ∷ 10 ∷ rest) c) rest
unfolding headers_loop
headers_loop-line f field value rest c h =
    let line = field ++ 58 ∷ 32 ∷ value in
    rw (
      find-crlf line rest (line_NoByte field value h),
      take-append_left line (13 ∷ 10 ∷ rest),
      split_at-append 58 field (32 ∷ value) h.0,
      drop-append_left line (13 ∷ 10 ∷ rest),
      drop_line line rest,
      headers_loop,
    )

-- Lines are taken off one by one.
headers_loop-lines :
    (f : ℕ) (hs : List Header) (rest : Bytes) (c : Context)
    → All IsHeader hs
    → headers_loop (length hs + f) c (header_lines hs rest)
      ≡ headers_loop f (apply_headers hs rest c) rest
unfolding apply_headers
headers_loop-lines f [] rest c h =
    let e : 0 + f ≡ f = omega arith in ap (λ k. headers_loop k c rest) e
headers_loop-lines f ((field, value) ∷ hs) rest c h =
    let e : suc (length hs) + f ≡ suc (length hs + f) = omega arith in
    ap (λ k. headers_loop k c (header_lines ((field, value) ∷ hs) rest)) e
    ∙ headers_loop-line (length hs + f) field value (header_lines hs rest) c h.0
    ∙ headers_loop-lines f hs rest _ h.1

headers_loop-end :
    (f : ℕ) (rest : Bytes) (c : Context)
    → headers_loop (suc f) c (13 ∷ 10 ∷ rest) ≡ some (record c { state = expect_body }, rest)
unfolding headers_loop split_at
headers_loop-end f rest c = rw (find-crlf [] rest tt, headers_loop)

headers_loop-wait :
    (f : ℕ) (rest : Bytes) (c : Context)
    → find (13 ∷ 10 ∷ []) rest ≡ none
    → headers_loop (suc f) c rest ≡ some (c, rest)
unfolding headers_loop
headers_loop-wait f rest c h = rw (h, headers_loop)

length-header_lines :
    (hs : List Header) (rest : Bytes) → length hs + length rest ≤ length (header_lines hs rest)
length-header_lines [] rest = omega arith
length-header_lines ((field, value) ∷ hs) rest = omega (
  arith,
  length-append (field ++ 58 ∷ 32 ∷ value) (13 ∷ 10 ∷ header_lines hs rest),
  length-header_lines hs rest,
)

-- Fuel beyond the number of lines makes no difference.
with_fuel :
    (hs : List Header) (rest : Bytes) (c : Context)
    → All IsHeader hs
    → (g : ℕ) × (process_headers c (header_lines hs rest)
        ≡ headers_loop (suc g) (apply_headers hs rest c) rest)
unfolding process_headers
with_fuel hs rest c h =
    let l = length (header_lines hs rest) in
    let e : suc l ≡ length hs + suc (l - length hs) = omega (arith, length-header_lines hs rest) in
    (
      l - length hs,
      ap (λ k. headers_loop k c (header_lines hs rest)) e
          ∙ headers_loop-lines (suc (l - length hs)) hs rest c h,
    )

-- A whole header block, whose names have no colon and no CR and whose values have no CR, is
-- consumed in one call: all its headers are applied, and the body is expected next.
pub process_headers-block :
    (hs : List Header) (rest : Bytes) (c : Context)
    → All IsHeader hs
    → process_headers c (header_block hs rest)
      ≡ some (record (apply_headers hs (13 ∷ 10 ∷ rest) c) { state = expect_body }, rest)
process_headers-block hs rest c h =
    let (g, e) = with_fuel hs (13 ∷ 10 ∷ rest) c h in e ∙ headers_loop-end g rest _

-- Header lines without the end of the block are consumed, and the state stays.
pub process_headers-cut :
    (hs : List Header) (rest : Bytes) (c : Context)
    → All IsHeader hs
    → find (13 ∷ 10 ∷ []) rest ≡ none
    → process_headers c (header_lines hs rest) ≡ some (apply_headers hs rest c, rest)
process_headers-cut hs rest c h none_left =
    let (g, e) = with_fuel hs rest c h in e ∙ headers_loop-wait g rest _ none_left

-- What the loop leaves in a state that is not the end of the headers: nothing that a further
-- call would consume.
abbrev pub Settled : Context → Option (Context × Bytes) → Type 0
Settled c o =
    (c' : Context) × (buf : Bytes) × (o ≡ some (c', buf))
    × ((c'.state ≡ expect_body) ⊎ ((c'.state ≡ c.state) × (find (13 ∷ 10 ∷ []) buf ≡ none)))

headers_loop-Settled :
    (f : ℕ) (c : Context) (buf : Bytes) → length buf < f → Settled c (headers_loop f c buf)
unfolding headers_loop
headers_loop-Settled zero c buf h = elim h [ ]
headers_loop-Settled (suc f) c buf h = elim (Option-cases (find (13 ∷ 10 ∷ []) buf)) [
  | inl e ↦ (c, buf, rw (e, headers_loop) refl, inr (refl, e))
  | inr (i, e) ↦ elim (Option-cases (header_split buf i)) [
    | inl last ↦ (
      record c { state = expect_body },
      drop (i + 2) buf,
      rw (e, headers_loop, last) refl,
      inl refl,
    )
    | inr ((field, text), split) ↦
        let next = process_header field (drop 1 text) (drop i buf) c in
        let shorter : length (drop (i + 2) buf) < f =
          omega (arith, length-drop (i + 2) buf, find-crlf-le buf i e) in
        let (c', buf', same, how) = headers_loop-Settled f next (drop (i + 2) buf) shorter in
        (
          c',
          buf',
          rw (e, headers_loop, split) same,
          elim how [
            | inl done ↦ inl done
            | inr (state, left) ↦
                inr (state ∙ process_header-state field (drop 1 text) (drop i buf) c, left)
          ],
        )
  ]
]

-- The fuel of `process_headers` is enough, and it leaves a settled buffer.
pub process_headers-Settled : (c : Context) (buf : Bytes) → Settled c (process_headers c buf)
unfolding process_headers
process_headers-Settled c buf = headers_loop-Settled (suc (length buf)) c buf (omega arith)

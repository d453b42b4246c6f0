-- ===== src/Net/Context/Body.antt =====
-- The body that the parser keeps: its length, its counter and the announced length.
use mathlib.Core.Path.{subst}
use cloud_storge_system.Common.{
  ℕ, zero, suc, ◌+◌, ◌≤◌, min, ◌≡◌, refl, sym, ◌∙◌, inl, inr, Bytes, Option, none, some, [], ◌∷◌,
  ◌++◌, length, take, drop, arith, Bool, Option-cases, not, ◌&&◌, true, false, if◌then◌else◌, ltb,
  leb, ◌==◌, find, length-append, length-take,
}
use cloud_storge_system.Net.Request.{Request, add_header, set_method}
use cloud_storge_system.Net.Context.{
  Context, ParseState, expect_request_line, expect_headers, expect_body, got_all, ParseResult,
  headers_complete, got_request, Run, returns, Parsed, process_request_line, process_headers,
  headers_loop, header_split, process_body, process_header, note_header, after_body, headers_done,
  remaining_length,
}

-- How far the body is in each state of the parser.
abbrev pub Progress : ParseState → ℕ → ℕ → Type 0
Progress expect_request_line received total = received ≡ 0
Progress expect_headers received total = received ≡ 0
Progress expect_body received total = received ≤ total
Progress got_all received total = received ≡ total

-- The body that is kept is as long as the counter says, and as the state allows.
pub record BodyInv (c : Context) : Type 0 where
  pub counted : length c.request.body ≡ c.body_received
  pub progress : Progress c.state c.body_received c.content_length

-- The body and its counter are those of `c`.
abbrev pub SameBody : Context → Context → Type 0
SameBody c c' = (c'.request.body ≡ c.request.body) × (c'.body_received ≡ c.body_received)

process_header-SameBody :
    (field text beyond : Bytes) (c : Context) → SameBody c (process_header field text beyond c)
unfolding process_header note_header add_header
process_header-SameBody field text beyond c = ground arith

Kept : Context → Option (Context × Bytes) → Type 0
Kept c none = Unit
Kept c (some (c', buf)) = SameBody c c'

Kept-none : (c : Context) → Kept c none
unfolding Kept
Kept-none c = tt

headers_loop-Kept : (f : ℕ) (c : Context) (buf : Bytes) → Kept c (headers_loop f c buf)
unfolding headers_loop Kept
headers_loop-Kept zero c buf = tt
headers_loop-Kept (suc f) c buf = elim (Option-cases (find (13 ∷ 10 ∷ []) buf)) [
  | inl e ↦ rw (e, headers_loop) (refl, refl)
  | inr (i, e) ↦ elim (Option-cases (header_split buf i)) [
    | inl last ↦ rw (e, headers_loop, last) (refl, refl)
    | inr ((field, text), split) ↦
        let next = process_header field (drop 1 text) (drop i buf) c in
        rw (e, headers_loop, split)
          (through next (process_header-SameBody field (drop 1 text) (drop i buf) c)
            (headers_loop f next (drop (i + 2) buf)) (headers_loop-Kept f next (drop (i + 2) buf)))
  ]
]
  where
    through : (c' : Context) → SameBody c c' → (o : Option (Context × Bytes)) → Kept c' o → Kept c o
    through c' h none k = tt
    through c' h (some (d, b)) k = (k.0 ∙ h.0, k.1 ∙ h.1)

pub process_headers-SameBody :
    (c c' : Context) (buf buf' : Bytes) → process_headers c buf ≡ some (c', buf') → SameBody c c'
unfolding process_headers Kept
process_headers-SameBody c c' buf buf' e = rw e at (headers_loop-Kept (suc (length buf)) c buf)

pub process_request_line-body :
    (line : Bytes) (r r' : Request) (b : Bool)
    → process_request_line line r ≡ some (b, r')
    → r'.body ≡ r.body
unfolding process_request_line set_method
process_request_line-body line r r' b e = ground arith

-- What holds of the context of a call that returns.
abbrev pub Keeps : Run Parsed → Type 0
Keeps (returns (result, c, buf)) = BodyInv c
Keeps _ = Unit

within : (c : Context) → BodyInv c → c.state ≡ expect_body → c.body_received ≤ c.content_length
within c v e = subst (λ s. Progress s c.body_received c.content_length) e v.progress

pub process_body-Keeps :
    (result : ParseResult) (c : Context) (buf : Bytes)
    → BodyInv c
    → c.state ≡ expect_body
    → Keeps (after_body result (process_body c buf))
unfolding process_body
process_body-Keeps result c buf v e = by_flag c.chunked
  where
    n : ℕ
    n = min (length buf) (remaining_length c)

    fits : c.body_received ≤ c.content_length
    fits = within c v e

    counted : length (c.request.body ++ take n buf) ≡ c.body_received + n
    counted = omega (arith, v.counted, length-append c.request.body (take n buf), length-take n buf)

    taken : Context
    taken = record c {
      request = record (c.request) { body = c.request.body ++ take n buf };
      body_received = c.body_received + n;
    }

    by_whole :
        (w : Bool)
        → leb c.content_length (c.body_received + n) ≡ w
        → Keeps (after_body result (w, taken, drop n buf))
    by_whole true h = record { counted = counted; progress = ground (arith, fits) }
    by_whole false h = record {
      counted = counted;
      progress =
          subst (λ s. Progress s (c.body_received + n) c.content_length) (sym e)
            (omega (arith, fits));
    }

    by_flag :
        (b : Bool)
        → Keeps (
            after_body result (
              if b
              then (false, c, buf)
              else (leb c.content_length (c.body_received + n), taken, drop n buf)))
    by_flag true = v
    by_flag false = by_whole (leb c.content_length (c.body_received + n)) refl

pub headers_done-Keeps :
    (again : Context → Bytes → Run Parsed) (c : Context) (buf : Bytes)
    → BodyInv c
    → c.body_received ≡ 0
    → c.state ≡ expect_body
    → Keeps (again c buf)
    → Keeps (headers_done again c buf)
headers_done-Keeps again c buf v z e k = by_flag (c.content_length == 0 && not c.chunked) refl
  where
    by_more : (b : Bool) → Keeps (if b then again c buf else returns (headers_complete, c, buf))
    by_more true = k
    by_more false = v

    by_flag :
        (b : Bool)
        → (c.content_length == 0 && not c.chunked) ≡ b
        → Keeps (
            if b
            then returns (got_request, record c { state = got_all }, buf)
            else if ltb 0 (length buf)
            then again c buf
            else returns (headers_complete, c, buf))
    by_flag true h = record { counted = v.counted; progress = ground (arith, z) }
    by_flag false h = by_more (ltb 0 (length buf))

-- ===== src/Net/Context/Told.antt =====
-- Which results of the parser come with the state kGotAll.
use cloud_storge_system.Common.{
  ℕ, zero, suc, ◌+◌, ◌≡◌, refl, inl, inr, Bytes, Option, none, some, [], ◌∷◌, length, ltb, take,
  drop, arith, Bool, Bool-cases, true, false, find, not, ◌&&◌, ◌==◌,
}
use cloud_storge_system.Net.Request.{Request}
use cloud_storge_system.Net.Context.{
  Context, ParseState, expect_request_line, expect_headers, expect_body, got_all, ParseResult,
  need_more, headers_complete, got_request, Run, returns, Parsed, Again, process_request_line,
  process_headers, process_body, parse_loop, parse_request, round, line_round, headers_round,
  after_headers, after_line, after_body, headers_done,
}

process_body-state :
    (c : Context) (buf : Bytes) → c.state ≡ expect_body → (process_body c buf).1.state ≡ expect_body
unfolding process_body
process_body-state c buf e = elim (Bool-cases c.chunked) [ inl h ↦ rw h e | inr h ↦ rw h e ]

-- Only the result kGotRequest comes with the state kGotAll.
abbrev pub Told : Run Parsed → Type 0
Told (returns (r, c, buf)) = c.state ≡ got_all → r ≡ got_request
Told _ = Unit

module _ (again : Again)
    (ih : (result : ParseResult) (c : Context) (buf : Bytes) → Told (again result c buf)) where
  line-Told :
      (result : ParseResult) (time : ℕ) (c : Context) (buf : Bytes) (o : Option ℕ)
      → c.state ≡ expect_request_line
      → Told (line_round again result time c buf o)
  line-Told result time c buf none e = λ g. ground arith
  line-Told result time c buf (some i) e = by_request (process_request_line (take i buf) c.request)
    where
      by_request :
          (o : Option (Bool × Request)) → Told (after_line (again result) result time c buf i o)
      by_request none = tt
      by_request (some (false, r)) = λ g. ground arith
      by_request (some (true, r)) = ih result _ (drop (i + 2) buf)

  headers_done-Told :
      (c : Context) (buf : Bytes)
      → c.state ≡ expect_body
      → Told (headers_done (again headers_complete) c buf)
  headers_done-Told c buf e = elim (Bool-cases (c.content_length == 0 && not c.chunked)) [
    | inl empty ↦ rw empty (λ g. refl)
    | inr full ↦ elim (Bool-cases (ltb 0 (length buf))) [
      | inl more ↦ rw (full, more) (ih headers_complete c buf)
      | inr less ↦ rw (full, less) (λ g. ground arith)
    ]
  ]

  headers-Told :
      (result : ParseResult) (c : Context) (buf : Bytes) (s : ParseState)
      → c.state ≡ s
      → Told (after_headers s (again headers_complete) (again result) c buf)
  headers-Told result c buf expect_body e = headers_done-Told c buf e
  headers-Told result c buf expect_request_line e = ih result c buf
  headers-Told result c buf expect_headers e = ih result c buf
  headers-Told result c buf got_all e = ih result c buf

  headers_round-Told :
      (result : ParseResult) (o : Option (Context × Bytes)) → Told (headers_round again result o)
  headers_round-Told result none = tt
  headers_round-Told result (some (c, buf)) = headers-Told result c buf c.state refl

  after_body-Told :
      (result : ParseResult) (o : Bool × Context × Bytes)
      → o.1.state ≡ expect_body
      → Told (after_body result o)
  after_body-Told result (true, c, buf) e = λ g. refl
  after_body-Told result (false, c, buf) e = λ g. ground arith

  round-Told :
      (s : ParseState) (result : ParseResult) (time : ℕ) (c : Context) (buf : Bytes)
      → c.state ≡ s
      → Told (round s again result time c buf)
  round-Told expect_request_line result time c buf e =
      line-Told result time c buf (find (13 ∷ 10 ∷ []) buf) e
  round-Told expect_headers result time c buf e = headers_round-Told result (process_headers c buf)
  round-Told expect_body result time c buf e =
      after_body-Told result (process_body c buf) (process_body-state c buf e)
  round-Told got_all result time c buf e = ih result c buf

parse_loop-Told :
    (n time : ℕ) (result : ParseResult) (c : Context) (buf : Bytes)
    → Told (parse_loop n time result c buf)
unfolding parse_loop
parse_loop-Told zero time result c buf = tt
parse_loop-Told (suc n) time result c buf =
    round-Told (parse_loop n time) (parse_loop-Told n time) c.state result time c buf refl

pub parse_request-Told :
    (n time : ℕ) (c : Context) (buf : Bytes) → Told (parse_request n time c buf)
unfolding parse_request
parse_request-Told n time c buf = parse_loop-Told n time need_more c buf

-- ===== src/Net/Context/Keeps.antt =====
-- The body invariant through the loop of `parseRequest`.
use mathlib.Core.Path.{subst}
use cloud_storge_system.Common.{
  ℕ, zero, suc, ◌+◌, ◌≡◌, refl, sym, ap, ◌∙◌, inl, inr, Bytes, Option, none, some, [], ◌∷◌, length,
  take, drop, arith, Bool, ◌⊎◌, true, false, find,
}
use cloud_storge_system.Net.Request.{Request}
use cloud_storge_system.Net.Context.{
  Context, fresh, ParseState, expect_request_line, expect_headers, expect_body, got_all,
  ParseResult, need_more, headers_complete, Again, process_request_line, process_headers,
  parse_loop, parse_request, round, line_round, headers_round, after_headers, after_line,
}
use cloud_storge_system.Net.Context.Headers.{process_headers-Settled}
use cloud_storge_system.Net.Context.Body.{
  Progress, BodyInv, SameBody, Keeps, process_headers-SameBody, process_request_line-body,
  process_body-Keeps, headers_done-Keeps,
}

-- One round keeps the invariant, if the rounds behind it do.
module _ (again : Again)
    (ih : (result : ParseResult) (c : Context) (buf : Bytes)
      → BodyInv c
      → Keeps (again result c buf)) where
  line-Keeps :
      (result : ParseResult) (time i : ℕ) (c : Context) (buf : Bytes) (o : Option (Bool × Request))
      → process_request_line (take i buf) c.request ≡ o
      → BodyInv c
      → c.state ≡ expect_request_line
      → Keeps (after_line (again result) result time c buf i o)
  line-Keeps result time i c buf none h v e = tt
  line-Keeps result time i c buf (some (ok, r)) h v e =
      let same = process_request_line-body (take i buf) c.request r ok h in
      let counted : length r.body ≡ c.body_received = ap length same ∙ v.counted in
      let start : c.body_received ≡ 0 =
        subst (λ s. Progress s c.body_received c.content_length) e v.progress in
      by_flag counted start ok
    where
      by_flag :
          length r.body ≡ c.body_received
          → c.body_received ≡ 0
          → (ok : Bool) → Keeps (after_line (again result) result time c buf i (some (ok, r)))
      by_flag counted start false = record { counted = counted; progress = v.progress }
      by_flag counted start true =
          ih result _ (drop (i + 2) buf) (record { counted = counted; progress = start })

  headers-Keeps :
      (result : ParseResult) (c c' : Context) (buf' : Bytes) (s : ParseState)
      → SameBody c c'
      → BodyInv c
      → c.body_received ≡ 0
      → c'.state ≡ s
      → (s ≡ expect_body) ⊎ (s ≡ expect_headers)
      → Keeps (after_headers s (again headers_complete) (again result) c' buf')
  headers-Keeps result c c' buf' expect_request_line same v z e how = ground arith
  headers-Keeps result c c' buf' got_all same v z e how = ground arith
  headers-Keeps result c c' buf' expect_body same v z e how =
      let v' : BodyInv c' = record {
        counted = ap length same.0 ∙ v.counted ∙ sym same.1;
        progress =
            subst (λ s. Progress s c'.body_received c'.content_length) (sym e)
              (omega (arith, z, same.1));
      } in
      headers_done-Keeps (again headers_complete) c' buf' v' (same.1 ∙ z) e
        (ih headers_complete c' buf' v')
  headers-Keeps result c c' buf' expect_headers same v z e how = ih result c' buf' (record {
    counted = ap length same.0 ∙ v.counted ∙ sym same.1;
    progress = subst (λ s. Progress s c'.body_received c'.content_length) (sym e) (same.1 ∙ z);
  })

  headers_state-Keeps :
      (result : ParseResult) (c : Context) (buf : Bytes)
      → BodyInv c
      → c.state ≡ expect_headers
      → Keeps (headers_round again result (process_headers c buf))
  headers_state-Keeps result c buf v e =
      let (c', buf', h, how) = process_headers-Settled c buf in
      let zero : c.body_received ≡ 0 =
        subst (λ s. Progress s c.body_received c.content_length) e v.progress in
      rw h (
        headers-Keeps result c c' buf' c'.state (process_headers-SameBody c c' buf buf' h) v zero
          refl (elim how [ inl done ↦ inl done | inr (kept, _) ↦ inr (kept ∙ e) ]))

  line_state-Keeps :
      (result : ParseResult) (time : ℕ) (c : Context) (buf : Bytes) (o : Option ℕ)
      → BodyInv c
      → c.state ≡ expect_request_line
      → Keeps (line_round again result time c buf o)
  line_state-Keeps result time c buf none v e = v
  line_state-Keeps result time c buf (some i) v e =
      line-Keeps result time i c buf (process_request_line (take i buf) c.request) refl v e

  round-Keeps :
      (s : ParseState) (result : ParseResult) (time : ℕ) (c : Context) (buf : Bytes)
      → BodyInv c
      → c.state ≡ s
      → Keeps (round s again result time c buf)
  round-Keeps expect_request_line result time c buf v e =
      line_state-Keeps result time c buf (find (13 ∷ 10 ∷ []) buf) v e
  round-Keeps expect_headers result time c buf v e = headers_state-Keeps result c buf v e
  round-Keeps expect_body result time c buf v e = process_body-Keeps result c buf v e
  round-Keeps got_all result time c buf v e = ih result c buf v

parse_loop-Keeps :
    (n time : ℕ) (result : ParseResult) (c : Context) (buf : Bytes)
    → BodyInv c
    → Keeps (parse_loop n time result c buf)
unfolding parse_loop
parse_loop-Keeps zero time result c buf v = tt
parse_loop-Keeps (suc n) time result c buf v =
    round-Keeps (parse_loop n time) (parse_loop-Keeps n time) c.state result time c buf v refl

-- From a context whose body counter is right, whatever bytes arrive, a call that returns leaves
-- one whose body is as long as its counter says, never longer than the announced length, and of
-- exactly that length in the state kGotAll.
pub parse_request-Keeps :
    (n time : ℕ) (c : Context) (buf : Bytes) → BodyInv c → Keeps (parse_request n time c buf)
unfolding parse_request
parse_request-Keeps n time c buf v = parse_loop-Keeps n time need_more c buf v

pub fresh-BodyInv : BodyInv fresh
fresh-BodyInv = record { counted = refl; progress = refl }

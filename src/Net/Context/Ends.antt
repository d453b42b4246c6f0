-- ===== src/Net/Context/Ends.antt =====
-- `parseRequest`: when its loop ends, how much body it keeps, and what a second try does.
use cloud_storge_system.Common.{
  ℕ, zero, suc, ◌+◌, ◌≡◌, refl, ap, ◌∙◌, inl, inr, Bytes, Option, none, some, [], ◌∷◌, length, take,
  drop, Bool, Bool-cases, ◌⊎◌, not, ◌&&◌, true, false, ltb, ◌==◌, find,
}
use cloud_storge_system.Net.Request.{Request}
use cloud_storge_system.Net.Context.{
  Context, ParseState, expect_request_line, expect_headers, expect_body, got_all, ParseResult,
  need_more, headers_complete, Run, spins, Parsed, process_request_line, process_headers,
  process_body, parse_loop, parse_request, line_round, after_body, after_line, headers_done,
}
use cloud_storge_system.Net.Context.Headers.{process_headers-Settled}
use cloud_storge_system.Net.Context.Parse.{step, parse_loop-wait, round_headers}

-- The loop returns, or an assert fails: it does not run on.
abbrev pub Ends : Run Parsed → Type 0
Ends spins = ⊥
Ends _ = Unit

after_body-Ends : (result : ParseResult) (o : Bool × Context × Bytes) → Ends (after_body result o)
after_body-Ends result (true, c, buf) = tt
after_body-Ends result (false, c, buf) = tt

body-Ends :
    (f time : ℕ) (result : ParseResult) (c : Context) (buf : Bytes)
    → c.state ≡ expect_body
    → Ends (parse_loop (suc f) time result c buf)
body-Ends f time result c buf e =
    rw (step f time result c buf expect_body e) (after_body-Ends result (process_body c buf))

headers_done-Ends :
    (f time : ℕ) (c : Context) (buf : Bytes)
    → c.state ≡ expect_body
    → Ends (headers_done (parse_loop (suc f) time headers_complete) c buf)
headers_done-Ends f time c buf e = elim (Bool-cases (c.content_length == 0 && not c.chunked)) [
  | inl empty ↦ rw empty tt
  | inr full ↦ elim (Bool-cases (ltb 0 (length buf))) [
    | inl more ↦ rw (full, more) (body-Ends f time headers_complete c buf e)
    | inr less ↦ rw (full, less) tt
  ]
]

settled-spins :
    (n time : ℕ) (result : ParseResult) (c c' : Context) (buf buf' : Bytes)
    → c.state ≡ expect_headers
    → process_headers c buf ≡ some (c', buf')
    → c'.state ≡ expect_headers
    → find (13 ∷ 10 ∷ []) buf' ≡ none
    → parse_loop n time result c buf ≡ spins
unfolding parse_loop
settled-spins zero time result c c' buf buf' e h g left = refl
settled-spins (suc n) time result c c' buf buf' e h g left =
    round_headers n time result c buf c' buf' expect_headers e h g
    ∙ parse_loop-wait n time result c' buf' g left

-- For ever, or over within the rounds `r + n`, for every `n`.
abbrev pub Decides : (ℕ → Run Parsed) → (ℕ → Run Parsed) → Type 0
Decides all enough = ((n : ℕ) → all n ≡ spins) ⊎ ((n : ℕ) → Ends (enough n))

headers-Decides :
    (time : ℕ) (result : ParseResult) (c : Context) (buf : Bytes)
    → c.state ≡ expect_headers
    → Decides
        (λ n. parse_loop n time result c buf)
        (λ n. parse_loop (suc (suc n)) time result c buf)
headers-Decides time result c buf e =
    let (c', buf', h, how) = process_headers-Settled c buf in
    elim how [
      | inl done ↦ inr λ n.
          rw (round_headers (suc n) time result c buf c' buf' expect_body e h done)
            (headers_done-Ends n time c' buf' done)
      | inr (kept, left) ↦ inl λ n. settled-spins n time result c c' buf buf' e h (kept ∙ e) left
    ]

line-Decides :
    (time : ℕ) (result : ParseResult) (c : Context) (buf : Bytes) (i : ℕ)
    (o : Option (Bool × Request))
    → Decides
        (λ n. after_line (parse_loop n time result) result time c buf i o)
        (λ n. after_line (parse_loop (suc (suc n)) time result) result time c buf i o)
line-Decides time result c buf i none = inr λ n. tt
line-Decides time result c buf i (some (false, r)) = inr λ n. tt
line-Decides time result c buf i (some (true, r)) =
    headers-Decides time result
      (record c { request = record r { receive_time = time }; state = expect_headers })
      (drop (i + 2) buf) refl

-- The same, where the loop has its first round before.
Decides-suc :
    (all after : ℕ → Run Parsed) (enough : ℕ → Run Parsed)
    → all 0 ≡ spins
    → ((n : ℕ) → all (suc n) ≡ after n)
    → Decides after (λ n. enough n)
    → ((n : ℕ) → all (suc (suc (suc n))) ≡ enough n)
    → Decides all (λ n. all (suc (suc (suc n))))
Decides-suc all after enough z e (inl forever) g = inl λ n. shift n
  where
    shift : (n : ℕ) → all n ≡ spins
    shift zero = z
    shift (suc n) = e n ∙ forever n
Decides-suc all after enough z e (inr over) g = inr λ n. rw (g n) (over n)

line_state-Decides :
    (time : ℕ) (result : ParseResult) (c : Context) (buf : Bytes) (o : Option ℕ)
    → c.state ≡ expect_request_line
    → find (13 ∷ 10 ∷ []) buf ≡ o
    → Decides
        (λ n. parse_loop n time result c buf)
        (λ n. parse_loop (suc (suc (suc n))) time result c buf)
line_state-Decides time result c buf none e h =
    inr λ n. rw (step (suc (suc n)) time result c buf expect_request_line e, h) tt
line_state-Decides time result c buf (some i) e h =
    let first = λ (n : ℕ).
      step n time result c buf expect_request_line e
      ∙ ap (line_round (parse_loop n time) result time c buf) h in
    Decides-suc (λ n. parse_loop n time result c buf) _ _ (unfold parse_loop in refl) first
      (line-Decides time result c buf i (process_request_line (take i buf) c.request))
      (λ n. first (suc (suc n)))

headers_state-Decides :
    (time : ℕ) (result : ParseResult) (c : Context) (buf : Bytes)
    → c.state ≡ expect_headers
    → Decides
        (λ n. parse_loop n time result c buf)
        (λ n. parse_loop (suc (suc (suc n))) time result c buf)
headers_state-Decides time result c buf e = elim (headers-Decides time result c buf e) [
  | inl forever ↦ inl forever
  | inr over ↦ inr λ n. over (suc n)
]

-- No branch of the loop does anything in the state kGotAll.
got_all-spins :
    (n time : ℕ) (result : ParseResult) (c : Context) (buf : Bytes)
    → c.state ≡ got_all
    → parse_loop n time result c buf ≡ spins
unfolding parse_loop
got_all-spins zero time result c buf e = refl
got_all-spins (suc n) time result c buf e =
    step n time result c buf got_all e ∙ got_all-spins n time result c buf e

-- Termination of the loop from any state and on any bytes: either it never ends, whatever the
-- number of rounds, or three rounds are enough for a result or a failed assert.
pub parse_request-Decides :
    (time : ℕ) (c : Context) (buf : Bytes)
    → Decides (λ n. parse_request n time c buf) (λ n. parse_request (suc (suc (suc n))) time c buf)
unfolding parse_request
parse_request-Decides time c buf = by_state c.state refl
  where
    by_state :
        (s : ParseState)
        → c.state ≡ s
        → Decides
            (λ n. parse_loop n time need_more c buf)
            (λ n. parse_loop (suc (suc (suc n))) time need_more c buf)
    by_state expect_request_line e =
        line_state-Decides time need_more c buf (find (13 ∷ 10 ∷ []) buf) e refl
    by_state expect_headers e = headers_state-Decides time need_more c buf e
    by_state expect_body e = inr λ n. body-Ends (suc (suc n)) time need_more c buf e
    by_state got_all e = inl λ n. got_all-spins n time need_more c buf e

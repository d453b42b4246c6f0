-- ===== src/Net/Server/Ready.antt =====
-- What a message leaves in the context of the connection, when every answer is synchronous.
use cloud_storge_system.Common.{
  ℕ, suc, ◌≡◌, ◌≢◌, refl, ap, inl, inr, Bytes, Option, none, some, Bool-cases, ◌⊎◌, true, arith,
}
use cloud_storge_system.Net.Response.{Response}
use cloud_storge_system.Net.Context.{
  Context, got_all, ParseResult, error, need_more, headers_complete, got_request, Run, returns,
  aborts, spins, Parsed, parse_request,
}
use cloud_storge_system.Net.Context.Ends.{Ends, parse_request-Decides}
use cloud_storge_system.Net.Context.Told.{Told, parse_request-Told}
use cloud_storge_system.Net.Server.{
  Answer, Conn, reply, on_request, on_headers, with_context, on_message, on_parsed, on_result,
  is_upload_chunk,
}
use cloud_storge_system.Net.Server.Answers.{on_request-sync}

-- The next message meets no context that is in the state kGotAll.
abbrev pub IsReady : Option Context → Type 0
IsReady none = Unit
IsReady (some c) = c.state ≢ got_all

-- The handler returns with such a context, or an assert fails.
abbrev pub LeavesReady : {S : Type 0} → Run (Conn S) → Type 0
LeavesReady (returns k) = IsReady k.context
LeavesReady aborts = Unit
LeavesReady spins = ⊥

module _ {S : Type 0} (callback : S → Context → Response → Answer S)
    (sync : (s : S) (c : Context) (r : Response) → (callback s c r).sync ≡ true) where
  on_headers-Ready :
      (c : Context) (k : Conn S) → c.state ≢ got_all → IsReady (on_headers callback c k).context
  unfolding on_headers
  on_headers-Ready c k h = elim (Bool-cases (is_upload_chunk c)) [ inl e ↦ rw e h | inr e ↦ rw e h ]

  on_request-Ready : (c : Context) (k : Conn S) → LeavesReady (on_request callback c k)
  unfolding reply
  on_request-Ready c k = rw (on_request-sync callback c k (sync _ _ _)) (λ g. ground arith)

  on_result-Ready :
      (r : ParseResult) (c : Context) (buf : Bytes) (k : Conn S)
      → (c.state ≡ got_all → r ≡ got_request)
      → LeavesReady (on_result callback (r, c, buf) k)
  on_result-Ready error c buf k t = λ g. ground (arith, t g)
  on_result-Ready need_more c buf k t = λ g. ground (arith, t g)
  on_result-Ready headers_complete c buf k t =
      on_headers-Ready c (record k { input = buf }) (λ g. ground (arith, t g))
  on_result-Ready got_request c buf k t = on_request-Ready c (record k { input = buf })

  on_parsed-Ready :
      (o : Run Parsed) (k : Conn S) → Ends o → Told o → LeavesReady (on_parsed callback o k)
  on_parsed-Ready (returns (r, c, buf)) k e t = on_result-Ready r c buf k t
  on_parsed-Ready aborts k e t = tt
  on_parsed-Ready spins k e t = elim e [ ]

  -- If every answer of the callback is synchronous, a call on any connection either never ends,
  -- whatever the number of rounds, or three rounds are enough for it to return or to fail an assert,
  -- and when it returns the connection has no context or one that is not in the state kGotAll.
  pub on_message-Decides :
      (time : ℕ) (k : Conn S)
      → ((n : ℕ) → on_message callback n time k ≡ spins)
        ⊎ ((n : ℕ) → LeavesReady (on_message callback (suc (suc (suc n))) time k))
  unfolding on_message
  on_message-Decides time k = by_context k.context refl
    where
      by_context :
          (o : Option Context)
          → k.context ≡ o
          → ((n : ℕ) → with_context callback n time o k ≡ spins)
            ⊎ ((n : ℕ) → LeavesReady (with_context callback (suc (suc (suc n))) time o k))
      by_context none e = inr λ n. rw e tt
      by_context (some c) e = elim (parse_request-Decides time c k.input) [
        | inl forever ↦ inl λ n. ap (λ o. on_parsed callback o k) (forever n)
        | inr over ↦ inr λ n.
            on_parsed-Ready (parse_request (suc (suc (suc n))) time c k.input) k (over n)
              (parse_request-Told (suc (suc (suc n))) time c k.input)
      ]

-- ===== src/Net/Context/Retry.antt =====
-- A second call of `parseRequest` behind an error.
use cloud_storge_system.Common.{
  ℕ, suc, ◌≡◌, refl, sym, ap, ◌∙◌, ◌≢◌, Bytes, Option, none, some, ◌∷◌, ◌++◌, length, arith, false,
  NoByte, NoByte-append, find-crlf, split_at-append, split_at, append_assoc, take-append_left,
}
use cloud_storge_system.Net.Request.{
  Request, Method, invalid, get, post, head, put, delete, set_method, method_string, empty_request,
}
use cloud_storge_system.Net.Context.{
  Context, fresh, expect_request_line, error, need_more, returns, aborts, process_request_line,
  request_target, request_rest, request_parts, parse_loop, parse_request, after_line,
}
use cloud_storge_system.Net.Context.Lines.{set_method-method_string, method_string-NoByte}
use cloud_storge_system.Net.Context.Parse.{round_line}

request_target-method :
    (o : Option (Bytes × Bytes)) (r : Request) → (request_target o r).1.method ≡ r.method
request_target-method o r = ground arith

set_method-again :
    (m : Method) (text : Bytes) (r : Request)
    → r.method ≡ m
    → m ≢ invalid
    → set_method text r ≡ none
unfolding set_method
set_method-again m text r e h = ground arith

method_string-NoCr : (m : Method) → NoByte 13 (method_string m)
method_string-NoCr invalid = omega arith
method_string-NoCr get = omega arith
method_string-NoCr post = omega arith
method_string-NoCr head = omega arith
method_string-NoCr put = omega arith
method_string-NoCr delete = omega arith

module _ (m : Method) (text : Bytes) (known : m ≢ invalid) (cr : NoByte 13 text) where
  unfoldable pub line : Bytes
  line = method_string m ++ 32 ∷ text

  line_split : split_at 32 line ≡ some (method_string m, 32 ∷ text)
  unfolding line
  line_split = split_at-append 32 (method_string m) text (method_string-NoByte m)

  line_cr : NoByte 13 line
  unfolding line
  line_cr = NoByte-append 13 (method_string m) (32 ∷ text) (method_string-NoCr m) (omega arith, cr)

  -- The method stays set when the rest of the line is refused.
  failed_method :
      (r : Request) → process_request_line line empty_request ≡ some (false, r) → r.method ≡ m
  unfolding process_request_line
  failed_method r e =
      let reached : some (request_target (split_at 32 text) (record empty_request { method = m }))
          ≡ some (false, r) =
        sym (ap (request_rest (32 ∷ text)) (set_method-method_string m empty_request known refl))
        ∙ sym (ap (request_parts empty_request) line_split)
        ∙ e in
      ground (
        arith,
        reached,
        request_target-method (split_at 32 text) (record empty_request { method = m }),
      )

  line_round-first :
      (n time : ℕ) (c : Context) (rest : Bytes)
      → c.state ≡ expect_request_line
      → parse_request (suc n) time c (line ++ 13 ∷ 10 ∷ rest)
        ≡ after_line
            (parse_loop n time need_more)
            need_more
            time
            c
            (line ++ 13 ∷ 10 ∷ rest)
            (length line)
            (process_request_line line c.request)
  unfolding parse_request
  line_round-first n time c rest e =
      let buf = line ++ 13 ∷ 10 ∷ rest in
      round_line n time need_more c buf (length line) e (find-crlf line rest line_cr)
      ∙ ap
          (λ l.
            after_line (parse_loop n time need_more) need_more time c buf (length line)
              (process_request_line l c.request))
          (take-append_left line (13 ∷ 10 ∷ rest))

  -- A request line with a known method that is refused for what follows the method is reported
  -- once: the bytes stay in the buffer and the method stays set, so that the next call, when more
  -- bytes have arrived, fails the assert of `setMethod`.
  pub parse_request-again :
      (n k time later : ℕ) (r : Request) (rest more : Bytes)
      → process_request_line line empty_request ≡ some (false, r)
      → (parse_request (suc n) time fresh (line ++ 13 ∷ 10 ∷ rest)
          ≡ returns (error, record fresh { request = r }, line ++ 13 ∷ 10 ∷ rest))
        × (parse_request
              (suc k)
              later
              (record fresh { request = r })
              ((line ++ 13 ∷ 10 ∷ rest) ++ more)
            ≡ aborts)
  parse_request-again n k time later r rest more e = (first, second)
    where
      failed : Context
      failed = record fresh { request = r }

      first :
          parse_request (suc n) time fresh (line ++ 13 ∷ 10 ∷ rest)
          ≡ returns (error, failed, line ++ 13 ∷ 10 ∷ rest)
      first =
          line_round-first n time fresh rest refl
          ∙ ap
              (after_line (parse_loop n time need_more) need_more time fresh
                (line ++ 13 ∷ 10 ∷ rest) (length line))
              e

      refused : process_request_line line r ≡ none
      refused =
          unfold process_request_line in
          ap (request_parts r) line_split
          ∙ ap (request_rest (32 ∷ text))
              (set_method-again m (method_string m) r (failed_method r e) known)

      second : parse_request (suc k) later failed ((line ++ 13 ∷ 10 ∷ rest) ++ more) ≡ aborts
      second =
          ap (parse_request (suc k) later failed) (append_assoc line (13 ∷ 10 ∷ rest) more)
          ∙ line_round-first k later failed (rest ++ more) refl
          ∙ ap
              (after_line (parse_loop k later need_more) need_more later failed
                (line ++ 13 ∷ 10 ∷ (rest ++ more)) (length line))
              refused

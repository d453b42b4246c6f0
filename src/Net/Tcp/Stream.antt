-- ===== src/Net/Tcp/Stream.antt =====
-- The bytes that a connection takes, call by call.
use cloud_storge_system.Common.{
  ℕ, ◌==◌, ◌≡◌, ◌≢◌, ◌∙◌, sym, ap, refl, Bool, true, false, not, ◌&&◌, Bytes, some, [], ◌∷◌, ◌++◌,
  length, take, drop, arith, append_assoc, append-nil, take-append-drop, if-cases, if◌then◌else◌,
}
use cloud_storge_system.Net.Tcp.{
  State, connecting, Outcome, wrote, blocked, broken, failed, Conn, is_open, is_disconnected, warn,
  crosses, complete, direct, enqueue, idle, send_in_loop,
}
use cloud_storge_system.Net.Tcp.Shape.{
  Inv, Takes, Moves, same-Takes, Takes-trans, Takes-as, later-Takes, complete-Takes,
  handle_write-Moves, open-≢,
}

abbrev pub is_broken : Outcome → Bool
is_broken broken = true
is_broken _ = false

-- What a send takes: nothing on a closed connection, and nothing when the direct write, which only
-- an idle connection tries, meets EPIPE or ECONNRESET.
abbrev pub taken : Outcome → Bytes → Conn → Bytes
taken o text c = if is_disconnected c.state then [] else if idle c && is_broken o then [] else text

warn-Takes : (n : ℕ) (c : Conn) → Inv c → c.state ≢ connecting → Takes [] c (warn n c)
warn-Takes n c v h =
    if-cases (Takes [] c) (crosses n c) _ _ (λ e. later-Takes _ c v h) (λ e. same-Takes c v)

pub warn-state : (n : ℕ) (c : Conn) → (warn n c).state ≡ c.state
warn-state n c =
    if-cases (λ (d : Conn). d.state ≡ c.state) (crosses n c) _ _ (λ e. refl) (λ e. refl)

-- What remains goes behind the output.
behind-Takes :
    (x : ℕ) (rest : Bytes) (c : Conn)
    → Inv c
    → is_open c.state ≡ true
    → Takes (x ∷ rest) c (record c { output = c.output ++ (x ∷ rest); writing = true })
behind-Takes x rest c v o = record {
  valid = record {
    silent = λ h. ground (arith, h, o);
    listens = v.listens;
    waits = λ h. ap not (sym (length-behind c.output));
    quiet = λ h. elim (open-≢ c.state o h) [ ];
    story = v.story;
  };
  bytes = sym (append_assoc c.sent c.output (x ∷ rest));
}
  where
    length-behind : (xs : Bytes) → (length (xs ++ (x ∷ rest)) == 0) ≡ false
    length-behind [] = ground arith
    length-behind (y ∷ ys) = ground arith

enqueue-Moves :
    (p : Outcome) (rest : Bytes) (c : Conn)
    → Inv c
    → is_open c.state ≡ true
    → Moves (enqueue p (false, rest, c)) rest c
enqueue-Moves p [] c v o = (c, refl, same-Takes c v)
enqueue-Moves p (x ∷ rest) c v o =
    let n = length (x ∷ rest) in
    let t = warn-Takes n c v (open-≢ c.state o) in
    let u = behind-Takes x rest (warn n c) t.valid (ap is_open (warn-state n c) ∙ o) in
    let full : Conn = record (warn n c) {
      output = (warn n c).output ++ (x ∷ rest);
      writing = true;
    } in
    let (d, e, w) = handle_write-Moves p full u.valid in
    (
      d,
      e,
      Takes-as ((x ∷ rest) ++ []) (x ∷ rest) c d (append-nil _)
          (Takes-trans (x ∷ rest) [] c full d (Takes-trans [] (x ∷ rest) c (warn n c) full t u) w),
    )

idle-output : (c : Conn) → idle c ≡ true → c.output ≡ []
idle-output c e = by_output c.output e
  where
    by_output : (xs : Bytes) → (not c.writing && length xs == 0) ≡ true → xs ≡ []
    by_output [] h = refl
    by_output (x ∷ xs) h = ground arith

direct-Moves :
    (o p : Outcome) (text : Bytes) (c : Conn)
    → Inv c
    → is_open c.state ≡ true
    → c.output ≡ []
    → Moves (enqueue p (direct o text c)) (if is_broken o then [] else text) c
direct-Moves broken p text c v h e = (c, refl, same-Takes c v)
direct-Moves blocked p text c v h e = enqueue-Moves p text c v h
direct-Moves failed p text c v h e = enqueue-Moves p text c v h
direct-Moves (wrote n) p text c v h e =
    let c' : Conn = record c { sent = c.sent ++ take n text } in
    let t : Takes (take n text) c c' = record {
      valid = record {
        silent = v.silent;
        listens = v.listens;
        waits = v.waits;
        quiet = v.quiet;
        story = v.story;
      };
      bytes = rw (e, append-nil (c.sent ++ take n text), append-nil c.sent) refl;
    } in
    let d : Conn = if length (drop n text) == 0 then complete c' else c' in
    let u : Takes [] c' d =
      if-cases (Takes [] c') (length (drop n text) == 0) _ _
        (λ e. complete-Takes c' t.valid (open-≢ c.state h)) (λ e. same-Takes c' t.valid) in
    let up : is_open d.state ≡ true =
      if-cases (λ (k : Conn). is_open k.state ≡ true) (length (drop n text) == 0) (complete c') c'
        (λ e. if-cases (λ (k : Conn). is_open k.state ≡ true) c.on_complete _ c' (λ e. h) (λ e. h))
        (λ e. h) in
    let (f, g, w) = enqueue-Moves p (drop n text) d u.valid up in
    let all =
      Takes-trans (take n text) (drop n text) c d f
        (Takes-as (take n text ++ []) (take n text) c d (append-nil _)
          (Takes-trans (take n text) [] c c' d t u))
        w in
    (f, g, Takes-as (take n text ++ drop n text) text c f (take-append-drop n text) all)

going : (s : State) → is_disconnected s ≡ false → s ≢ connecting → is_open s ≡ true
going s e h = ground (arith, e, h)

-- `sendInLoop` on a connection that is established.
pub send_in_loop-Moves :
    (o p : Outcome) (text : Bytes) (c : Conn)
    → Inv c
    → c.state ≢ connecting
    → Moves (send_in_loop o p text c) (taken o text c) c
unfolding send_in_loop
send_in_loop-Moves o p text c v h = by_state (is_disconnected c.state) refl
  where
    by_idle :
        (i : Bool)
        → idle c ≡ i
        → is_open c.state ≡ true
        → Moves
            (enqueue p (if i then direct o text c else (false, text, c)))
            (if i && is_broken o then [] else text)
            c
    by_idle true e q = direct-Moves o p text c v q (idle-output c e)
    by_idle false e q = enqueue-Moves p text c v q

    by_state :
        (d : Bool)
        → is_disconnected c.state ≡ d
        → Moves
            (if d then some c else enqueue p (if idle c then direct o text c else (false, text, c)))
            (if d then [] else if idle c && is_broken o then [] else text)
            c
    by_state true e = (c, refl, same-Takes c v)
    by_state false e = by_idle (idle c) refl (going c.state e h)

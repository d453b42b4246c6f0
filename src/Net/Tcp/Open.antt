-- ===== src/Net/Tcp/Open.antt =====
-- The state of a connection while no write meets EPIPE or ECONNRESET.
use mathlib.Core.Path.{subst}
use cloud_storge_system.Common.{
  ℕ, ◌≡◌, ◌∙◌, refl, Bool, true, false, Bytes, Option, none, some, [], ◌∷◌, ◌++◌, length, drop,
  take, ltb, ◌==◌, arith, if-cases,
}
use cloud_storge_system.Net.Tcp.{
  State, Outcome, wrote, blocked, broken, failed, Conn, is_disconnecting, is_disconnected, complete,
  drained, written, write_result, shutdown_in_loop, handle_write, direct, warn, enqueue, idle,
  send_in_loop,
}
use cloud_storge_system.Net.Tcp.Stream.{is_broken, warn-state}

-- If the call succeeds, the state is the given one.
abbrev pub Stays : State → Option Conn → Type 0
Stays s none = Unit
Stays s (some d) = d.state ≡ s

shutdown_in_loop-state : (c : Conn) → (shutdown_in_loop c).state ≡ c.state
unfolding shutdown_in_loop
shutdown_in_loop-state c =
    if-cases (λ (d : Conn). d.state ≡ c.state) c.writing _ _ (λ e. refl) (λ e. refl)

complete-state : (c : Conn) → (complete c).state ≡ c.state
complete-state c =
    if-cases (λ (d : Conn). d.state ≡ c.state) c.on_complete _ _ (λ e. refl) (λ e. refl)

drained-state : (c : Conn) → (drained c).state ≡ c.state
drained-state c =
    if-cases (λ (d : Conn). d.state ≡ c.state) (is_disconnecting c.state) _ _
      (λ e. shutdown_in_loop-state (complete c) ∙ complete-state c) (λ e. complete-state c)

written-state : (n : ℕ) (c : Conn) → (written n c).state ≡ c.state
written-state n c =
    if-cases (λ (d : Conn). d.state ≡ c.state) (length (drop n c.output) == 0) _ _
      (λ e.
        drained-state (record c {
          sent = c.sent ++ take n c.output;
          output = drop n c.output;
          writing = false;
        }))
      (λ e. refl)

handle_write-Stays :
    (o : Outcome) (c : Conn) → is_broken o ≡ false → Stays c.state (handle_write o c)
unfolding handle_write
handle_write-Stays o c h = if-cases (Stays c.state) c.writing _ _ (λ w. by_outcome o h) (λ w. refl)
  where
    by_outcome : (o : Outcome) → is_broken o ≡ false → Stays c.state (write_result o c)
    by_outcome (wrote n) h =
        if-cases (λ (d : Conn). d.state ≡ c.state) (ltb 0 n) _ _ (λ e. written-state n c)
          (λ e. refl)
    by_outcome blocked h = refl
    by_outcome failed h = refl
    by_outcome broken h = ground (arith, h)

enqueue-Stays :
    (p : Outcome) (b : Bool) (rest : Bytes) (c : Conn)
    → is_broken p ≡ false
    → Stays c.state (enqueue p (b, rest, c))
enqueue-Stays p true rest c h = refl
enqueue-Stays p false [] c h = refl
enqueue-Stays p false (x ∷ rest) c h =
    let w : Conn = warn (length (x ∷ rest)) c in
    subst
      (λ s. Stays s (handle_write p (record w { output = w.output ++ (x ∷ rest); writing = true })))
      (warn-state (length (x ∷ rest)) c)
      (handle_write-Stays p (record w { output = w.output ++ (x ∷ rest); writing = true }) h)

direct-state : (o : Outcome) (text : Bytes) (c : Conn) → (direct o text c).2.state ≡ c.state
direct-state (wrote n) text c =
    if-cases (λ (d : Conn). d.state ≡ c.state) (length (drop n text) == 0) _ _
      (λ e. complete-state (record c { sent = c.sent ++ take n text })) (λ e. refl)
direct-state blocked text c = refl
direct-state broken text c = refl
direct-state failed text c = refl

pub send_in_loop-Stays :
    (o p : Outcome) (text : Bytes) (c : Conn)
    → is_broken p ≡ false
    → Stays c.state (send_in_loop o p text c)
unfolding send_in_loop
send_in_loop-Stays o p text c h =
    if-cases (Stays c.state) (is_disconnected c.state) _ _ (λ e. refl)
      (λ e.
        if-cases (λ (z : Bool × Bytes × Conn). Stays c.state (enqueue p z)) (idle c)
          (direct o text c) (false, text, c)
          (λ i.
            subst (λ s. Stays s (enqueue p (direct o text c))) (direct-state o text c)
              (enqueue-Stays p (direct o text c).0 (direct o text c).1 (direct o text c).2 h))
          (λ i. enqueue-Stays p false text c h))

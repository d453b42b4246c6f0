-- ===== src/Net/Tcp/Shape.antt =====
-- The invariant of a connection, and what each part of an operation does to it and to its bytes.
use cloud_storge_system.Common.{
  ℕ, ◌==◌, ◌≡◌, ◌∙◌, sym, ap, refl, inl, inr, Bool-cases, true, false, not, Bytes, Option, some,
  List, [], ◌∷◌, ◌++◌, length, take, drop, ltb, arith, append_assoc, append-nil, take-append-drop,
  if-cases, ◌≢◌, ◌⊎◌,
}
use cloud_storge_system.Net.Tcp.{
  State, disconnected, connecting, connected, disconnecting, Outcome, wrote, blocked, broken,
  failed, Task, Call, came_up, went_down, closed, message, Conn, is_open, is_disconnecting, later,
  complete, drained, written, write_result, handle_close, shutdown_in_loop, handle_write,
}

-- The calls that tell of the connection itself.
abbrev pub notices : List Call → List Call
notices [] = []
notices (message ∷ ks) = notices ks
notices (came_up ∷ ks) = came_up ∷ notices ks
notices (went_down ∷ ks) = went_down ∷ notices ks
notices (closed ∷ ks) = closed ∷ notices ks

-- Which of them have been made in each state: the connection callback once when the connection came
-- up and once when it went down, and then the close callback at most once.
abbrev pub Story : State → List Call → Type 0
Story connecting ks = ks ≡ []
Story connected ks = ks ≡ came_up ∷ []
Story disconnecting ks = ks ≡ came_up ∷ []
Story disconnected ks = (ks ≡ came_up ∷ went_down ∷ []) ⊎ (ks ≡ came_up ∷ went_down ∷ closed ∷ [])

pub notices-append : (ks js : List Call) → notices (ks ++ js) ≡ notices ks ++ notices js
notices-append [] js = refl
notices-append (message ∷ ks) js = notices-append ks js
notices-append (came_up ∷ ks) js = ap (λ l. came_up ∷ l) (notices-append ks js)
notices-append (went_down ∷ ks) js = ap (λ l. went_down ∷ l) (notices-append ks js)
notices-append (closed ∷ ks) js = ap (λ l. closed ∷ l) (notices-append ks js)

pub open-Story : (s : State) (ks : List Call) → is_open s ≡ true → Story s ks → ks ≡ came_up ∷ []
open-Story connected ks e t = t
open-Story disconnecting ks e t = t
open-Story connecting ks e t = ground arith
open-Story disconnected ks e t = ground arith

-- The channel is silent unless the connection is open; while it is open, it reads, and it waits to
-- write exactly when output is left; and nothing happens before it is established.
pub record Inv (c : Conn) : Type 0 where
  pub silent : is_open c.state ≡ false → (c.reading ≡ false) × (c.writing ≡ false)
  pub listens : is_open c.state ≡ true → c.reading ≡ true
  pub waits : is_open c.state ≡ true → c.writing ≡ not (length c.output == 0)
  pub quiet : c.state ≡ connecting → (c.output ≡ []) × (c.queue ≡ [])
  pub story : Story c.state (notices c.calls)

-- A connection with the invariant, which has taken `text` behind the bytes of `c`.
pub record Takes (text : Bytes) (c c' : Conn) : Type 0 where
  pub valid : Inv c'
  pub bytes : c'.sent ++ c'.output ≡ (c.sent ++ c.output) ++ text

-- The call succeeds with such a connection.
abbrev pub Moves : Option Conn → Bytes → Conn → Type 0
Moves o text c = (c' : Conn) × (o ≡ some c') × Takes text c c'

pub handle_close-Moves : (c : Conn) → Inv c → is_open c.state ≡ true → Moves (handle_close c) [] c
unfolding handle_close
handle_close-Moves c v e = rw e (
  _,
  refl,
  record {
    valid = record {
      silent = λ h. (refl, refl);
      listens = λ h. ground arith;
      waits = λ h. ground arith;
      quiet = λ h. ground arith;
      story = inr (
          notices-append c.calls _
          ∙ ap (λ l. l ++ (went_down ∷ closed ∷ []))
              (open-Story c.state (notices c.calls) e v.story));
    };
    bytes = sym (append-nil _);
  },
)

-- Nothing that the invariant and the bytes depend on is changed.
pub same-Takes : (c : Conn) → Inv c → Takes [] c c
same-Takes c v = record { valid = v; bytes = sym (append-nil _) }

pub Takes-trans : (a b : Bytes) (c d e : Conn) → Takes a c d → Takes b d e → Takes (a ++ b) c e
Takes-trans a b c d e s t = record {
  valid = t.valid;
  bytes = t.bytes ∙ ap (λ u. u ++ b) s.bytes ∙ append_assoc (c.sent ++ c.output) a b;
}

pub Takes-as : (a b : Bytes) (c d : Conn) → a ≡ b → Takes a c d → Takes b c d
Takes-as a b c d e t = record {
  valid = t.valid;
  bytes = t.bytes ∙ ap (λ u. (c.sent ++ c.output) ++ u) e;
}

pub shutdown_in_loop-Takes : (c : Conn) → Inv c → Takes [] c (shutdown_in_loop c)
unfolding shutdown_in_loop
shutdown_in_loop-Takes c v =
    if-cases (Takes [] c) c.writing _ _ (λ e. same-Takes c v)
      (λ e. record {
        valid = record {
          silent = v.silent;
          listens = v.listens;
          waits = v.waits;
          quiet = v.quiet;
          story = v.story;
        };
        bytes = sym (append-nil _);
      })

pub later-Takes : (t : Task) (c : Conn) → Inv c → c.state ≢ connecting → Takes [] c (later t c)
later-Takes t c v h = record {
  valid = record {
    silent = v.silent;
    listens = v.listens;
    waits = v.waits;
    quiet = λ e. elim (h e) [ ];
    story = v.story;
  };
  bytes = sym (append-nil _);
}

pub complete-Takes : (c : Conn) → Inv c → c.state ≢ connecting → Takes [] c (complete c)
complete-Takes c v h =
    if-cases (Takes [] c) c.on_complete _ _ (λ e. later-Takes _ c v h) (λ e. same-Takes c v)

drained-Takes : (c : Conn) → Inv c → c.state ≢ connecting → Takes [] c (drained c)
drained-Takes c v h =
    let t = complete-Takes c v h in
    if-cases (Takes [] c) (is_disconnecting c.state) _ _
      (λ e. Takes-trans [] [] c (complete c) _ t (shutdown_in_loop-Takes (complete c) t.valid))
      (λ e. t)

pub open-≢ : (s : State) → is_open s ≡ true → s ≢ connecting
open-≢ s e h = ground (arith, e, h)

-- A write that took bytes from the output.
taken-bytes :
    (n : ℕ) (c : Conn) → (c.sent ++ take n c.output) ++ drop n c.output ≡ (c.sent ++ c.output) ++ []
taken-bytes n c =
    append_assoc c.sent (take n c.output) (drop n c.output)
    ∙ ap (λ t. c.sent ++ t) (take-append-drop n c.output)
    ∙ sym (append-nil _)

written-Takes :
    (n : ℕ) (c : Conn)
    → Inv c
    → is_open c.state ≡ true
    → c.writing ≡ true
    → Takes [] c (written n c)
written-Takes n c v o w =
    if-cases (Takes [] c) (length (drop n c.output) == 0) _ _
      (λ e.
        let c' : Conn = record c {
          sent = c.sent ++ take n c.output;
          output = drop n c.output;
          writing = false;
        } in
        let t : Takes [] c c' = record {
          valid = record {
            silent = λ h. ground (arith, h, o);
            listens = v.listens;
            waits = λ h. sym (ap not e);
            quiet = λ h. elim (open-≢ c.state o h) [ ];
            story = v.story;
          };
          bytes = taken-bytes n c;
        } in
        Takes-trans [] [] c c' _ t (drained-Takes c' t.valid (open-≢ c.state o)))
      (λ e.
        let c' : Conn = record c { sent = c.sent ++ take n c.output; output = drop n c.output } in
        let t : Takes [] c c' = record {
          valid = record {
            silent = λ h. ground (arith, h, o);
            listens = v.listens;
            waits = λ h. w ∙ sym (ap not e);
            quiet = λ h. elim (open-≢ c.state o h) [ ];
            story = v.story;
          };
          bytes = taken-bytes n c;
        } in
        Takes-trans [] [] c c' _ t (later-Takes _ c' t.valid (open-≢ c.state o)))

writing-open : (c : Conn) → Inv c → c.writing ≡ true → is_open c.state ≡ true
writing-open c v w = elim (Bool-cases (is_open c.state)) [
  | inl e ↦ e
  | inr e ↦ let q : c.writing ≡ false = (v.silent e).1 in ground (arith, q, w)
]

pub handle_write-Moves : (o : Outcome) (c : Conn) → Inv c → Moves (handle_write o c) [] c
unfolding handle_write
handle_write-Moves o c v =
    if-cases (λ x. Moves x [] c) c.writing _ _ (λ w. by_outcome o w)
      (λ e. (c, refl, same-Takes c v))
  where
    by_outcome : (o : Outcome) → c.writing ≡ true → Moves (write_result o c) [] c
    by_outcome (wrote n) w = (
      _,
      refl,
      if-cases (Takes [] c) (ltb 0 n) _ _ (λ e. written-Takes n c v (writing-open c v w) w)
          (λ e. same-Takes c v),
    )
    by_outcome broken w = handle_close-Moves c v (writing-open c v w)
    by_outcome blocked w = (c, refl, same-Takes c v)
    by_outcome failed w = (c, refl, same-Takes c v)

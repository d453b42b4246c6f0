-- ===== src/Net/Tcp/Lifecycle.antt =====
-- The operations on the state of a connection: it comes up, is closed and is destroyed.
use mathlib.Core.Path.{subst}
use cloud_storge_system.Common.{
  ◌==◌, ◌≡◌, ◌≢◌, ◌∙◌, sym, ap, refl, inl, inr, Bool, Bool-cases, true, false, not, ◌||◌, Bytes,
  none, some, [], ◌∷◌, ◌++◌, length, arith, append-nil, if-cases, if◌then◌else◌,
}
use cloud_storge_system.Net.Tcp.{
  State, connecting, connected, disconnecting, Conn, shutdown_later, force_close_later, is_open,
  is_connected, is_disconnecting, disconnected, call, came_up, went_down,
}
use cloud_storge_system.Net.Tcp.Life.{
  Input, remove, received, ended, refused, shutdown, half_close, is_connecting, force_close,
  connect_established, connect_destroyed, force_close_in_loop, handle_read,
}
use cloud_storge_system.Net.Tcp.Shape.{
  Inv, Takes, Moves, same-Takes, Takes-trans, later-Takes, Story, open-Story, notices,
  notices-append, shutdown_in_loop-Takes, handle_close-Moves,
}

pub connected-≢ : (s : State) → is_connected s ≡ true → s ≢ connecting
connected-≢ s e h = ground (arith, e, h)

pub reading-open : (c : Conn) → Inv c → c.reading ≡ true → is_open c.state ≡ true
reading-open c v r = elim (Bool-cases (is_open c.state)) [
  | inl e ↦ e
  | inr e ↦ let q : c.reading ≡ false = (v.silent e).0 in ground (arith, q, r)
]

-- A new state that is open, of a connection that was.
half-Takes :
    (c : Conn) → Inv c → is_open c.state ≡ true → Takes [] c (record c { state = disconnecting })
half-Takes c v o = record {
  valid = record {
    silent = λ h. ground arith;
    listens = λ h. v.listens o;
    waits = λ h. v.waits o;
    quiet = λ h. ground arith;
    story = open-Story c.state (notices c.calls) o v.story;
  };
  bytes = sym (append-nil _);
}

pub shutdown-Takes : (here : Bool) (c : Conn) → Inv c → Takes [] c (shutdown here c)
unfolding shutdown
shutdown-Takes here c v =
    if-cases (Takes [] c) (is_connected c.state) _ _
      (λ e. by_thread here (half-Takes c v (ground (arith, e)))) (λ e. same-Takes c v)
  where
    by_thread :
        (b : Bool)
        → Takes [] c (record c { state = disconnecting })
        → Takes [] c (half_close b (record c { state = disconnecting }))
    by_thread true t = Takes-trans [] [] c _ _ t (shutdown_in_loop-Takes _ t.valid)
    by_thread false t =
        Takes-trans [] [] c _ _ t (later-Takes shutdown_later _ t.valid (λ h. ground arith))

pub force_close-Takes : (c : Conn) → Inv c → Takes [] c (force_close c)
unfolding force_close
force_close-Takes c v =
    if-cases (Takes [] c) (is_open c.state) _ _
      (λ e.
        let t = half-Takes c v e in
        Takes-trans [] [] c _ _ t (later-Takes force_close_later _ t.valid (λ h. ground arith)))
      (λ e. same-Takes c v)

pub connect_established-Moves :
    (c : Conn) → Inv c → c.state ≡ connecting → Moves (connect_established c) [] c
unfolding connect_established
connect_established-Moves c v e =
    let (silent, mute) = v.silent (ap is_open e) in
    let up : Conn = call (came_up ∷ []) (record c { state = connected; reading = true }) in
    (
      up,
      ap (λ s. if is_connecting s then some up else none) e,
      record {
        valid = record {
          silent = λ h. ground arith;
          listens = λ h. refl;
          waits = λ h. mute ∙ sym (ap (λ (o : Bytes). not (length o == 0)) (v.quiet e).0);
          quiet = λ h. ground arith;
          story =
              notices-append c.calls _
              ∙ ap (λ l. l ++ (came_up ∷ [])) (subst (λ s. Story s (notices c.calls)) e v.story);
        };
        bytes = sym (append-nil _);
      },
    )

closed-state : (s : State) → is_connected s ≡ false → is_disconnecting s ≡ false → is_open s ≡ false
closed-state s e h = ground (arith, e, h)

-- A half-closed connection is still read, so that it cannot leave its loop.
pub connect_destroyed-half :
    (c : Conn) → Inv c → is_disconnecting c.state ≡ true → connect_destroyed c ≡ none
unfolding connect_destroyed
connect_destroyed-half c v h =
    let e : is_connected c.state ≡ false = ground (arith, h) in
    let r : c.reading ≡ true = v.listens (ground (arith, h)) in
    ap
      (λ b.
        if b
        then remove (
            call (went_down ∷ [])
              (record c { state = disconnected; reading = false; writing = false }))
        else remove c)
      e
    ∙ ap (λ b. if b || c.writing then none else some (record c { removed = true })) r

pub connect_destroyed-Moves :
    (c : Conn) → Inv c → is_disconnecting c.state ≡ false → Moves (connect_destroyed c) [] c
unfolding connect_destroyed
connect_destroyed-Moves c v h =
    if-cases (λ o. Moves o [] c) (is_connected c.state) _ _
      (λ e. (
        _,
        refl,
        record {
          valid = record {
            silent = λ q. (refl, refl);
            listens = λ h. ground arith;
            waits = λ q. ground arith;
            quiet = λ q. ground arith;
            story = inl (
                notices-append c.calls _
                ∙ ap (λ l. l ++ (went_down ∷ []))
                    (open-Story c.state (notices c.calls) (ground (arith, e)) v.story));
          };
          bytes = sym (append-nil _);
        },
      ))
      (λ e.
        let (silent, mute) = v.silent (closed-state c.state e h) in
        let off : (c.reading || c.writing) ≡ false = ap (λ b. b || c.writing) silent ∙ mute in
        (
          record c { removed = true },
          ap (λ b. if b then none else some (record c { removed = true })) off,
          record {
            valid = record {
              silent = v.silent;
              listens = v.listens;
              waits = v.waits;
              quiet = v.quiet;
              story = v.story;
            };
            bytes = sym (append-nil _);
          },
        ))

pub handle_read-Moves :
    (i : Input) (c : Conn) → Inv c → c.reading ≡ true → Moves (handle_read i c) [] c
unfolding handle_read
handle_read-Moves (received text) c v r = (
  _,
  refl,
  record {
    valid = record {
      silent = v.silent;
      listens = v.listens;
      waits = v.waits;
      quiet = v.quiet;
      story = subst (Story c.state) (sym (notices-append c.calls _ ∙ append-nil _)) v.story;
    };
    bytes = sym (append-nil _);
  },
)
handle_read-Moves ended c v r = handle_close-Moves c v (reading-open c v r)
handle_read-Moves refused c v r = (c, refl, same-Takes c v)

pub force_close_in_loop-Moves : (c : Conn) → Inv c → Moves (force_close_in_loop c) [] c
unfolding force_close_in_loop
force_close_in_loop-Moves c v =
    if-cases (λ o. Moves o [] c) (is_open c.state) _ _ (handle_close-Moves c v)
      (λ e. (c, refl, same-Takes c v))

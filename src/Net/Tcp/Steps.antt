-- ===== src/Net/Tcp/Steps.antt =====
-- Each event on a connection, as the server and the loop deliver it.
use cloud_storge_system.Common.{
  ◌≡◌, ◌≢◌, ◌∙◌, sym, ap, refl, Bool, true, false, ◌&&◌, Bytes, none, some, List, [], ◌∷◌, ◌++◌,
  arith, append-nil, if◌then◌else◌,
}
use cloud_storge_system.Net.Tcp.{
  connecting, is_disconnecting, Outcome, Conn, Task, send_later, shutdown_later, force_close_later,
  write_later, complete_later, high_water_later, is_connected, later, send, send_in_loop,
}
use cloud_storge_system.Net.Tcp.Life.{
  Event, established, destroyed, force_closed, hung_up, sets_complete, sets_high_water, sends,
  shuts, reads, writes, runs_task, run_task, run_queue, step,
}
use cloud_storge_system.Net.Tcp.Shape.{
  Inv, Moves, same-Takes, later-Takes, shutdown_in_loop-Takes, handle_close-Moves,
  handle_write-Moves,
}
use cloud_storge_system.Net.Tcp.Stream.{taken, send_in_loop-Moves}
use cloud_storge_system.Net.Tcp.Lifecycle.{
  connected-≢, reading-open, shutdown-Takes, force_close-Takes, connect_established-Moves,
  connect_destroyed-Moves, connect_destroyed-half, handle_read-Moves, force_close_in_loop-Moves,
}

-- When the server and the loop deliver an event: a connection is established once, and only an
-- enabled channel reads or hangs up.
abbrev pub Allowed : Event → Conn → Type 0
Allowed established c = c.state ≡ connecting
Allowed hung_up c = c.reading ≡ true
Allowed (reads i) c = c.reading ≡ true
Allowed _ c = Unit

-- The connection is destroyed while it is half closed.
abbrev pub is_cut_short : Event → Conn → Bool
is_cut_short destroyed c = is_disconnecting c.state
is_cut_short _ c = false

abbrev took_task : Outcome → List Task → Conn → Bytes
took_task o (send_later text ∷ ts) c = taken o text c
took_task o _ c = []

-- The text that the connection takes in an event.
abbrev pub took : Event → Conn → Bytes
took (sends here o p text) c = if is_connected c.state && here then taken o text c else []
took (runs_task o p) c = took_task o c.queue c
took _ c = []

run_task-Moves :
    (o p : Outcome) (t : Task) (ts : List Task) (c : Conn)
    → Inv c
    → c.state ≢ connecting
    → Moves (run_task o p t c) (took_task o (t ∷ ts) c) c
unfolding run_task
run_task-Moves o p (send_later text) ts c v h = send_in_loop-Moves o p text c v h
run_task-Moves o p shutdown_later ts c v h = (_, refl, shutdown_in_loop-Takes c v)
run_task-Moves o p force_close_later ts c v h = force_close_in_loop-Moves c v
run_task-Moves o p write_later ts c v h = handle_write-Moves o c v
run_task-Moves o p complete_later ts c v h = (c, refl, same-Takes c v)
run_task-Moves o p (high_water_later n) ts c v h = (c, refl, same-Takes c v)

-- What a task takes depends on no queue.
took-queue :
    (o : Outcome) (t : Task) (ts : List Task) (c : Conn)
    → took_task o (t ∷ ts) (record c { queue = ts }) ≡ took_task o (t ∷ ts) c
took-queue o (send_later text) ts c = refl
took-queue o shutdown_later ts c = refl
took-queue o force_close_later ts c = refl
took-queue o write_later ts c = refl
took-queue o complete_later ts c = refl
took-queue o (high_water_later n) ts c = refl

run_queue-Moves :
    (o p : Outcome) (q : List Task) (c : Conn)
    → Inv c
    → c.queue ≡ q
    → Moves (run_queue o p q c) (took_task o q c) c
run_queue-Moves o p [] c v e = (c, refl, same-Takes c v)
run_queue-Moves o p (t ∷ ts) c v e =
    let up : c.state ≢ connecting =
      λ s. let q : c.queue ≡ [] = (v.quiet s).1 in ground (arith, q, e) in
    let (d, r, w) =
      run_task-Moves o p t ts (record c { queue = ts })
        (record {
          silent = v.silent;
          listens = v.listens;
          waits = v.waits;
          quiet = λ s. elim (up s) [ ];
          story = v.story;
        })
        up in
    (
      d,
      r,
      record {
        valid = w.valid;
        bytes = w.bytes ∙ ap (λ u. (c.sent ++ c.output) ++ u) (took-queue o t ts c);
      },
    )

send-Moves :
    (here : Bool) (o p : Outcome) (text : Bytes) (c : Conn)
    → Inv c
    → Moves (send here o p text c) (if is_connected c.state && here then taken o text c else []) c
unfolding send
send-Moves here o p text c v = by_state (is_connected c.state) refl here
  where
    by_state :
        (b : Bool)
        → is_connected c.state ≡ b
        → (here : Bool)
        → Moves
            (if b
              then if here then send_in_loop o p text c else some (later (send_later text) c)
              else some c)
            (if b && here then taken o text c else [])
            c
    by_state false e here = (c, refl, same-Takes c v)
    by_state true e true = send_in_loop-Moves o p text c v (connected-≢ c.state e)
    by_state true e false = (_, refl, later-Takes (send_later text) c v (connected-≢ c.state e))

pub step-Moves :
    (e : Event) (c : Conn)
    → Inv c
    → Allowed e c
    → is_cut_short e c ≡ false
    → Moves (step e c) (took e c) c
unfolding step
step-Moves established c v a k = connect_established-Moves c v a
step-Moves destroyed c v a k = connect_destroyed-Moves c v k
step-Moves sets_complete c v a k = (
  _,
  refl,
  record {
    valid = record {
      silent = v.silent;
      listens = v.listens;
      waits = v.waits;
      quiet = v.quiet;
      story = v.story;
    };
    bytes = sym (append-nil _);
  },
)
step-Moves (sets_high_water n) c v a k = (
  _,
  refl,
  record {
    valid = record {
      silent = v.silent;
      listens = v.listens;
      waits = v.waits;
      quiet = v.quiet;
      story = v.story;
    };
    bytes = sym (append-nil _);
  },
)
step-Moves force_closed c v a k = (_, refl, force_close-Takes c v)
step-Moves hung_up c v a k = handle_close-Moves c v (reading-open c v a)
step-Moves (sends here o p text) c v a k = send-Moves here o p text c v
step-Moves (shuts here) c v a k = (_, refl, shutdown-Takes here c v)
step-Moves (reads i) c v a k = handle_read-Moves i c v a
step-Moves (writes o) c v a k = handle_write-Moves o c v
step-Moves (runs_task o p) c v a k = run_queue-Moves o p c.queue c v refl

-- Then an assert fails.
pub step-none : (e : Event) (c : Conn) → Inv c → is_cut_short e c ≡ true → step e c ≡ none
unfolding step
step-none destroyed c v k = connect_destroyed-half c v k
step-none established c v k = ground (arith, k)
step-none sets_complete c v k = ground (arith, k)
step-none (sets_high_water n) c v k = ground (arith, k)
step-none force_closed c v k = ground (arith, k)
step-none hung_up c v k = ground (arith, k)
step-none (sends here o p text) c v k = ground (arith, k)
step-none (shuts here) c v k = ground (arith, k)
step-none (reads i) c v k = ground (arith, k)
step-none (writes o) c v k = ground (arith, k)
step-none (runs_task o p) c v k = ground (arith, k)

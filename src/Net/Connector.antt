-- ===== src/Net/Connector.antt =====
-- net/Connector.h and net/Connector.cc: a client's connector. A socket is its number and the errno of
-- the calls comes with the event; a failed assert or a null channel is `none`. The lists of opened,
-- closed and handed sockets record what was done to each.
pub mod Sound
pub mod Removes
pub mod Runs
use cloud_storge_system.Common.{
  ℕ, zero, suc, ◌*◌, ◌==◌, min, Bool, true, false, not, Option, none, some, List, [], ◌∷◌, ◌++◌,
  if◌then◌else◌,
}

pub data State : Type 0 where
  disconnected connecting connected : State

-- What the connector gives to `queueInLoop`.
pub data Task : Type 0 where
  stop_in_loop reset_channel : Task

pub data Errno : Type 0 where
  success einprogress eintr eisconn : Errno
  eagain eaddrinuse eaddrnotavail econnrefused enetunreach : Errno
  eacces eperm eafnosupport ealready ebadf efault enotsock other : Errno

pub record Connector : Type 0 where
  pub connect : Bool
  pub state : State
  pub retry_delay_ms : ℕ
  pub channel : Option ℕ
  pub registered : Bool
  pub timers : ℕ
  pub tasks : List Task
  pub opened : List ℕ
  pub closed : List ℕ
  pub handed : List ℕ

abbrev pub init_retry_delay_ms : ℕ
init_retry_delay_ms = 500

abbrev pub max_retry_delay_ms : ℕ
max_retry_delay_ms = 30000

abbrev pub make_connector : Connector
make_connector = record {
  connect = false;
  state = disconnected;
  retry_delay_ms = init_retry_delay_ms;
  channel = none;
  registered = false;
  timers = 0;
  tasks = [];
  opened = [];
  closed = [];
  handed = [];
}

abbrev pub assert : {A : Type 0} → Bool → Option A → Option A
assert true o = o
assert false o = none

abbrev pub is_null : Option ℕ → Bool
is_null none = true
is_null (some fd) = false

abbrev pub is_disconnected : State → Bool
is_disconnected disconnected = true
is_disconnected _ = false

-- `sockets::close`.
abbrev pub close : ℕ → Connector → Connector
close fd s = record s { closed = fd ∷ s.closed }

-- `retry`.
abbrev pub retry : ℕ → Connector → Connector
retry fd s =
    if s.connect
    then record s {
      closed = fd ∷ s.closed;
      state = disconnected;
      timers = suc s.timers;
      retry_delay_ms = min (s.retry_delay_ms * 2) max_retry_delay_ms;
    }
    else record s { closed = fd ∷ s.closed; state = disconnected }

-- `connecting`.
abbrev pub connecting_to : ℕ → Connector → Option Connector
connecting_to fd s =
    assert (is_null s.channel)
      (some (record s { state = connecting; channel = some fd; registered = true }))

-- The switch of `connect`.
abbrev pub connect_at : Errno → ℕ → Connector → Option Connector
connect_at success fd s = connecting_to fd s
connect_at einprogress fd s = connecting_to fd s
connect_at eintr fd s = connecting_to fd s
connect_at eisconn fd s = connecting_to fd s
connect_at eagain fd s = some (retry fd s)
connect_at eaddrinuse fd s = some (retry fd s)
connect_at eaddrnotavail fd s = some (retry fd s)
connect_at econnrefused fd s = some (retry fd s)
connect_at enetunreach fd s = some (retry fd s)
connect_at _ fd s = some (close fd s)

-- `connect`, with a new socket.
abbrev pub connect_now : Errno → ℕ → Connector → Option Connector
connect_now e fd s = connect_at e fd (record s { opened = fd ∷ s.opened })

-- `startInLoop`.
abbrev pub start_in_loop : Errno → ℕ → Connector → Option Connector
start_in_loop e fd s =
    assert (is_disconnected s.state) (if s.connect then connect_now e fd s else some s)

-- `start`, in the thread of the loop.
unfoldable pub start : Errno → ℕ → Connector → Option Connector
start e fd s = start_in_loop e fd (record s { connect = true })

-- `restart`.
unfoldable pub restart : Errno → ℕ → Connector → Option Connector
restart e fd s =
    start_in_loop e fd
      (record s { state = disconnected; retry_delay_ms = init_retry_delay_ms; connect = true })

-- `stop`.
abbrev pub stop : Connector → Connector
stop s = record s { connect = false; tasks = s.tasks ++ (stop_in_loop ∷ []) }

-- `removeAndResetChannel`, and what follows it with the socket.
abbrev pub without_channel : Option ℕ → Connector → (ℕ → Connector → Connector) → Option Connector
without_channel none s f = none
without_channel (some fd) s f =
    some (f fd (record s { registered = false; tasks = s.tasks ++ (reset_channel ∷ []) }))

-- `stopInLoop`.
abbrev pub stop_at : State → Connector → Option Connector
stop_at connecting s = without_channel s.channel (record s { state = disconnected }) retry
stop_at _ s = some s

-- The socket is connected.
abbrev pub hand_over : ℕ → Connector → Connector
hand_over fd s =
    if s.connect
    then record s { state = connected; handed = fd ∷ s.handed }
    else record s { state = connected; closed = fd ∷ s.closed }

-- `handleWrite`, with whether the socket has an error and whether it is connected to itself.
abbrev pub write_at : State → Bool → Bool → Connector → Option Connector
write_at connecting err self_connect s =
    without_channel s.channel s
      (λ fd t. if err then retry fd t else if self_connect then retry fd t else hand_over fd t)
write_at disconnected err self_connect s = some s
write_at connected err self_connect s = none

unfoldable pub handle_write : Bool → Bool → Connector → Option Connector
handle_write err self_connect s = write_at s.state err self_connect s

-- `handleError`.
abbrev pub error_at : State → Connector → Option Connector
error_at connecting s = without_channel s.channel s retry
error_at _ s = some s

unfoldable pub handle_error : Connector → Option Connector
handle_error s = error_at s.state s

-- The timer of `retry` expires.
abbrev pub expire_at : ℕ → Errno → ℕ → Connector → Option Connector
expire_at zero e fd s = some s
expire_at (suc n) e fd s = start_in_loop e fd (record s { timers = n })

-- The loop calls the first task.
abbrev pub run_task : List Task → Connector → Option Connector
run_task [] s = some s
run_task (stop_in_loop ∷ ts) s = stop_at s.state (record s { tasks = ts })
run_task (reset_channel ∷ ts) s = some (record s { tasks = ts; channel = none })

pub data Event : Type 0 where
  starts restarts expires : Errno → ℕ → Event
  stops errors tasks_run : Event
  writes : Bool → Bool → Event

unfoldable pub step : Event → Connector → Option Connector
unfolding start restart handle_write handle_error
step (starts e fd) s = start e fd s
step (restarts e fd) s = restart e fd s
step (expires e fd) s = expire_at s.timers e fd s
step stops s = some (stop s)
step errors s = handle_error s
step tasks_run s = run_task s.tasks s
step (writes err self_connect) s = handle_write err self_connect s

abbrev pub run_on : (Connector → Option Connector) → Option Connector → Option Connector
run_on f none = none
run_on f (some s) = f s

unfoldable pub run : List Event → Connector → Option Connector
unfolding step
run [] s = some s
run (e ∷ es) s = run_on (run es) (step e s)

-- ===== src/Net/Tcp/Life.antt =====
-- net/TcpConnection.cc: the life of a connection, and the events that its loop delivers.
use cloud_storge_system.Common.{
  ℕ, Bool, true, false, ◌||◌, Bytes, Option, none, some, List, [], ◌∷◌, ◌++◌, if◌then◌else◌,
}
use cloud_storge_system.Net.Tcp.{
  State, disconnected, connecting, connected, disconnecting, Outcome, Task, send_later,
  shutdown_later, force_close_later, write_later, complete_later, high_water_later, came_up,
  went_down, message, Conn, is_connected, is_open, later, call, handle_close, shutdown_in_loop,
  handle_write, send_in_loop, send,
}

-- What `readFd` gives: bytes, the end of the stream, or an error.
pub data Input : Type 0 where
  received : Bytes → Input
  ended refused : Input

abbrev pub half_close : Bool → Conn → Conn
half_close true c = shutdown_in_loop c
half_close false c = later shutdown_later c

-- `shutdown`.
unfoldable pub shutdown : Bool → Conn → Conn
unfolding shutdown_in_loop
shutdown here c =
    if is_connected c.state then half_close here (record c { state = disconnecting }) else c

-- `forceClose`.
unfoldable pub force_close : Conn → Conn
force_close c =
    if is_open c.state then later force_close_later (record c { state = disconnecting }) else c

-- `forceCloseInLoop`.
unfoldable pub force_close_in_loop : Conn → Option Conn
unfolding handle_close
force_close_in_loop c = if is_open c.state then handle_close c else some c

abbrev pub is_connecting : State → Bool
is_connecting connecting = true
is_connecting _ = false

-- `connectEstablished`.
unfoldable pub connect_established : Conn → Option Conn
connect_established c =
    if is_connecting c.state
    then some (call (came_up ∷ []) (record c { state = connected; reading = true }))
    else none

-- `Channel::remove`, which asserts that no event is enabled.
abbrev pub remove : Conn → Option Conn
remove c = if c.reading || c.writing then none else some (record c { removed = true })

-- `connectDestroyed`.
unfoldable pub connect_destroyed : Conn → Option Conn
connect_destroyed c =
    if is_connected c.state
    then remove (
        call (went_down ∷ []) (record c { state = disconnected; reading = false; writing = false }))
    else remove c

-- `handleRead`; `handleError` only logs.
unfoldable pub handle_read : Input → Conn → Option Conn
unfolding handle_close
handle_read (received text) c = some (call (message ∷ []) (record c { input = c.input ++ text }))
handle_read ended c = handle_close c
handle_read refused c = some c

-- One task of the queue. The tasks for the application do nothing here.
unfoldable pub run_task : Outcome → Outcome → Task → Conn → Option Conn
unfolding send_in_loop shutdown_in_loop force_close_in_loop handle_write
run_task o p (send_later text) c = send_in_loop o p text c
run_task o p shutdown_later c = some (shutdown_in_loop c)
run_task o p force_close_later c = force_close_in_loop c
run_task o p write_later c = handle_write o c
run_task o p complete_later c = some c
run_task o p (high_water_later n) c = some c

abbrev pub run_queue : Outcome → Outcome → List Task → Conn → Option Conn
run_queue o p [] c = some c
run_queue o p (t ∷ ts) c = run_task o p t (record c { queue = ts })

-- `setWriteCompleteCallback`, with a callback.
abbrev pub set_write_complete : Conn → Conn
set_write_complete c = record c { on_complete = true }

-- `setHighWaterMarkCallback`, with a callback.
abbrev pub set_high_water : ℕ → Conn → Conn
set_high_water n c = record c { on_high_water = true; high_water = n }

-- What happens to a connection: a call of its owner, or an event of its channel or its loop.
pub data Event : Type 0 where
  established destroyed force_closed hung_up sets_complete : Event
  sets_high_water : ℕ → Event
  sends : Bool → Outcome → Outcome → Bytes → Event
  shuts : Bool → Event
  reads : Input → Event
  writes : Outcome → Event
  runs_task : Outcome → Outcome → Event

unfoldable pub step : Event → Conn → Option Conn
unfolding connect_established connect_destroyed force_close handle_close send shutdown handle_read
    handle_write run_task
step established c = connect_established c
step destroyed c = connect_destroyed c
step sets_complete c = some (set_write_complete c)
step (sets_high_water n) c = some (set_high_water n c)
step force_closed c = some (force_close c)
step hung_up c = handle_close c
step (sends here o p text) c = send here o p text c
step (shuts here) c = some (shutdown here c)
step (reads i) c = handle_read i c
step (writes o) c = handle_write o c
step (runs_task o p) c = run_queue o p c.queue c

abbrev pub run_on : (Conn → Option Conn) → Option Conn → Option Conn
run_on f none = none
run_on f (some c) = f c

unfoldable pub run : List Event → Conn → Option Conn
unfolding step
run [] c = some c
run (e ∷ es) c = run_on (run es) (step e c)

-- ===== src/Net/Tcp.antt =====
-- net/TcpConnection.h and net/TcpConnection.cc: one connection, as its event loop sees it.
-- The result of `write` and `read` comes from outside: each call of the source is given the one that
-- it meets. What is asked of the loop, of the channel's poller and of the callbacks is a list, oldest
-- first; a callback that calls the connection again is a later step.
pub mod Life
pub mod Shape
pub mod Stream
pub mod Open
pub mod Lifecycle
pub mod Steps
pub mod Runs
use cloud_storge_system.Common.{
  ℕ, ◌+◌, ◌*◌, ◌==◌, Bool, true, false, not, ◌&&◌, ◌||◌, Bytes, Option, none, some, List, [], ◌∷◌,
  ◌++◌, length, take, drop, ltb, leb, if◌then◌else◌,
}

pub data State : Type 0 where
  disconnected connecting connected disconnecting : State

-- How a `write` ends: with a count, with EWOULDBLOCK or EAGAIN, with EPIPE or ECONNRESET, or with
-- another error.
pub data Outcome : Type 0 where
  wrote : ℕ → Outcome
  blocked broken failed : Outcome

-- What is put in the queue of the loop.
pub data Task : Type 0 where
  send_later : Bytes → Task
  shutdown_later force_close_later write_later complete_later : Task
  high_water_later : ℕ → Task

-- The callbacks that run at once.
pub data Call : Type 0 where
  came_up went_down closed message : Call

pub record Conn : Type 0 where
  pub state : State
  pub input : Bytes
  pub output : Bytes
  pub reading : Bool
  pub writing : Bool
  pub shut : Bool
  pub removed : Bool
  pub high_water : ℕ
  pub on_complete : Bool
  pub on_high_water : Bool
  pub sent : Bytes
  pub queue : List Task
  pub calls : List Call

-- The constructor; the high water mark is 64 MB.
abbrev pub make : Conn
make = record {
  state = connecting;
  input = [];
  output = [];
  reading = false;
  writing = false;
  shut = false;
  removed = false;
  high_water = 64 * 1024 * 1024;
  on_complete = false;
  on_high_water = false;
  sent = [];
  queue = [];
  calls = [];
}

abbrev pub is_connected : State → Bool
is_connected connected = true
is_connected _ = false

abbrev pub is_disconnecting : State → Bool
is_disconnecting disconnecting = true
is_disconnecting _ = false

abbrev pub is_disconnected : State → Bool
is_disconnected disconnected = true
is_disconnected _ = false

abbrev pub is_open : State → Bool
is_open s = is_connected s || is_disconnecting s

abbrev pub later : Task → Conn → Conn
later t c = record c { queue = c.queue ++ (t ∷ []) }

abbrev pub call : List Call → Conn → Conn
call ks c = record c { calls = c.calls ++ ks }

-- `handleClose`; `none` is its failed assert.
unfoldable pub handle_close : Conn → Option Conn
handle_close c =
    if is_open c.state
    then some (record c {
      state = disconnected;
      reading = false;
      writing = false;
      calls = c.calls ++ (went_down ∷ closed ∷ []);
    })
    else none

-- `shutdownInLoop`.
unfoldable pub shutdown_in_loop : Conn → Conn
shutdown_in_loop c = if c.writing then c else record c { shut = true }

abbrev pub complete : Conn → Conn
complete c = if c.on_complete then later complete_later c else c

-- What follows the last byte of the output.
abbrev drained : Conn → Conn
drained c = if is_disconnecting c.state then shutdown_in_loop (complete c) else complete c

-- `handleWrite` behind a positive count; what `write` took counts as sent.
abbrev pub written : ℕ → Conn → Conn
written n c =
    let c' : Conn = record c { sent = c.sent ++ take n c.output; output = drop n c.output } in
    if length (drop n c.output) == 0
    then drained (record c' { writing = false })
    else later write_later c'

abbrev pub write_result : Outcome → Conn → Option Conn
write_result (wrote n) c = some (if ltb 0 n then written n c else c)
write_result broken c = handle_close c
write_result _ c = some c

-- `handleWrite`. A count of zero is an error with whatever errno is left: none of those that close.
unfoldable pub handle_write : Outcome → Conn → Option Conn
unfolding handle_close shutdown_in_loop
handle_write o c = if c.writing then write_result o c else some c

-- The direct `write` of `sendInLoop`: whether the connection is lost, the bytes that remain, and the
-- connection. A count is never larger than the text.
abbrev pub direct : Outcome → Bytes → Conn → Bool × Bytes × Conn
direct (wrote n) text c =
    let c' : Conn = record c { sent = c.sent ++ take n text } in
    (false, drop n text, if length (drop n text) == 0 then complete c' else c')
direct broken text c = (true, text, c)
direct _ text c = (false, text, c)

-- The high water mark is crossed by `n` more bytes.
abbrev pub crosses : ℕ → Conn → Bool
crosses n c =
    (leb c.high_water (length c.output + n) && ltb (length c.output) c.high_water)
    && c.on_high_water

abbrev pub warn : ℕ → Conn → Conn
warn n c = if crosses n c then later (high_water_later (length c.output + n)) c else c

-- The rest of `sendInLoop`: what remains goes behind the output, and is tried at once.
abbrev pub enqueue : Outcome → Bool × Bytes × Conn → Option Conn
enqueue o (true, rest, c) = some c
enqueue o (false, [], c) = some c
enqueue o (false, x ∷ rest, c) =
    let w : Conn = warn (length (x ∷ rest)) c in
    handle_write o (record w { output = w.output ++ (x ∷ rest); writing = true })

abbrev pub idle : Conn → Bool
idle c = not c.writing && length c.output == 0

-- `sendInLoop`, with the outcomes of its own `write` and of the one in `handleWrite`.
unfoldable pub send_in_loop : Outcome → Outcome → Bytes → Conn → Option Conn
unfolding handle_write
send_in_loop o p text c =
    if is_disconnected c.state
    then some c
    else enqueue p (if idle c then direct o text c else (false, text, c))

-- `send`, from the thread of the loop or from another; the text is taken as it is.
unfoldable pub send : Bool → Outcome → Outcome → Bytes → Conn → Option Conn
unfolding send_in_loop
send here o p text c =
    if is_connected c.state
    then if here then send_in_loop o p text c else some (later (send_later text) c)
    else some c

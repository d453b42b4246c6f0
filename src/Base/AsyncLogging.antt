-- ===== src/Base/AsyncLogging.antt =====
-- base/AsyncLogging.h, base/AsyncLogging.cc and the FixedBuffer of base/LogStream.h: the front end
-- that any thread calls under the lock, and the thread that writes the file. A buffer is its bytes,
-- a unique_ptr an Option, and a failed assert is `none`. The thread's work is cut where it takes or
-- leaves the lock, so that any sequence of calls between is an interleaving.
pub mod Supply
pub mod Stored
pub mod Runs
use cloud_storge_system.Common.{
  ℕ, ◌-◌, ◌≡◌, Bool, true, false, Bytes, Option, none, some, List, [], ◌∷◌, ◌++◌, length, take, ltb,
  leb, if◌then◌else◌,
}

-- kLargeBuffer.
abbrev pub large_buffer : ℕ
large_buffer = 4000000

-- Where the thread stands: before the test of the loop, before the lock, or before it writes.
pub data Phase : Type 0 where
  checking collecting writing stopped : Phase

pub record Logging : Type 0 where
  pub current : Bytes
  pub next : Option Bytes
  pub buffers : List Bytes
  pub new1 : Option Bytes
  pub new2 : Option Bytes
  pub to_write : List Bytes
  pub output : List Bytes
  pub phase : Phase
  pub running : Bool

-- After `start`, when the thread has counted down the latch.
abbrev pub started : Logging
started = record {
  current = [];
  next = some [];
  buffers = [];
  new1 = some [];
  new2 = some [];
  to_write = [];
  output = [];
  phase = checking;
  running = true;
}

-- `FixedBuffer::append` of a buffer of `size` bytes.
abbrev pub append_to : ℕ → Bytes → Bytes → Bytes
append_to size line b = if ltb (length line) (size - length b) then b ++ line else b

-- `nextBuffer_`, or a new buffer.
abbrev pub or_new : Option Bytes → Bytes
or_new none = []
or_new (some b) = b

-- The branch of `append` for a buffer that has no room.
abbrev pub rotate : ℕ → Bytes → Logging → Logging
rotate size line s = record s {
  current = append_to size line (or_new s.next);
  next = none;
  buffers = s.buffers ++ (s.current ∷ []);
}

-- `append`.
unfoldable pub append : ℕ → Bytes → Logging → Logging
append size line s =
    if ltb (length line) (size - length s.current)
    then record s { current = append_to size line s.current }
    else rotate size line s

-- `while (running_)`.
abbrev pub check : Logging → Logging
check s = record s { phase = if s.running then collecting else stopped }

-- `newBuffer && newBuffer->length() == 0`.
abbrev pub is_clear : Option Bytes → Bool
is_clear none = false
is_clear (some []) = true
is_clear (some (c ∷ cs)) = false

abbrev pub is_empty : List Bytes → Bool
is_empty [] = true
is_empty (b ∷ bs) = false

abbrev pub assert : {A : Type 0} → Bool → Option A → Option A
assert true o = o
assert false o = none

-- `nextBuffer_` is refilled, where it has been taken.
abbrev pub next_after : Option Bytes → Option Bytes → Option Bytes
next_after none new2 = new2
next_after (some b) new2 = some b

abbrev pub new2_after : Option Bytes → Option Bytes → Option Bytes
new2_after none new2 = none
new2_after (some b) new2 = new2

-- The section that holds the lock, after its wait.
abbrev pub swap_buffers : Logging → Logging
swap_buffers s = record s {
  current = or_new s.new1;
  new1 = none;
  to_write = s.buffers ++ (s.current ∷ []);
  buffers = s.to_write;
  next = next_after s.next s.new2;
  new2 = new2_after s.next s.new2;
  phase = writing;
}

unfoldable pub collect : Logging → Option Logging
collect s =
    assert (is_clear s.new1)
      (assert (is_clear s.new2) (assert (is_empty s.to_write) (some (swap_buffers s))))

-- What is written: all buffers, or a notice and the first two when there are more than 25.
abbrev pub pieces : Bytes → List Bytes → List Bytes
pieces notice bs = if ltb 25 (length bs) then notice ∷ take 2 bs else bs

abbrev pub but_last : List Bytes → List Bytes
but_last [] = []
but_last (b ∷ []) = []
but_last (b ∷ c ∷ bs) = b ∷ but_last (c ∷ bs)

-- A new buffer that was handed over is replaced by the last one that was written, reset.
abbrev pub refill : Option Bytes → List Bytes → Option (Option Bytes × List Bytes)
refill (some b) bs = some (some b, bs)
refill none [] = none
refill none (b ∷ bs) = some (some [], but_last (b ∷ bs))

abbrev pub finish : Logging → Option Bytes → Option (Option Bytes × List Bytes) → Option Logging
finish s n1 none = none
finish s n1 (some (n2, bs)) =
    some (record s { new1 = n1; new2 = n2; to_write = []; phase = checking })

abbrev pub refill_both : Logging → Option (Option Bytes × List Bytes) → Option Logging
refill_both s none = none
refill_both s (some (n1, bs)) = finish s n1 (refill s.new2 bs)

abbrev pub not_empty : List Bytes → Bool
not_empty [] = false
not_empty (b ∷ bs) = true

-- What follows the lock: the file is written, and two of the buffers are kept.
unfoldable pub write_out : Bytes → Logging → Option Logging
write_out notice s = assert (not_empty s.to_write) (
    refill_both (record s { output = s.output ++ pieces notice s.to_write })
      (refill s.new1 (take 2 s.to_write)))

-- One piece of the work of the thread, with the text of a notice.
unfoldable pub advance_at : Phase → Bytes → Logging → Option Logging
unfolding collect write_out
advance_at checking notice s = some (check s)
advance_at collecting notice s = collect s
advance_at writing notice s = write_out notice s
advance_at stopped notice s = some s

-- `stop`.
abbrev pub stop : Logging → Logging
stop s = record s { running = false }

-- A call of the front end, a piece of the thread's work, or `stop`.
pub data Event : Type 0 where
  appends advances : Bytes → Event
  stops : Event

unfoldable pub step : ℕ → Event → Logging → Option Logging
unfolding append advance_at
step size (appends line) s = some (append size line s)
step size (advances notice) s = advance_at s.phase notice s
step size stops s = some (stop s)

abbrev pub run_on : (Logging → Option Logging) → Option Logging → Option Logging
run_on f none = none
run_on f (some s) = f s

unfoldable pub run : ℕ → List Event → Logging → Option Logging
unfolding step
run size [] s = some s
run size (e ∷ es) s = run_on (run size es) (step size e s)

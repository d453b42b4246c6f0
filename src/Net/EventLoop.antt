-- ===== src/Net/EventLoop.antt =====
-- net/EventLoop.h and net/EventLoop.cc: the loop of one thread and the functors that are given to it.
-- A functor is a name; `body` says which functors it queues when it is called. The calls of other
-- threads are cut where `queueInLoop` leaves the lock. The eventfd is a parameter: a written one is
-- readable.
pub mod Fifo
pub mod Wakeup
pub mod Rounds
use cloud_storge_system.Common.{
  ℕ, zero, suc, ◌≡◌, Bool, true, false, List, [], ◌∷◌, ◌++◌, if◌then◌else◌,
}

pub record Eventfd (K : Type 0) : Type 0 where
  pub readable : K → Bool
  pub write : K → K
  pub read : K → K
  pub write-readable : (k : K) → readable (write k) ≡ true

-- Before the test of the loop, in the callbacks of the active channels, in `doPendingFunctors`, or
-- after the loop.
pub data Phase : Type 0 where
  testing handling calling finished : Phase

pub record Loop (K : Type 0) : Type 0 where
  pub pending : List ℕ
  pub functors : List ℕ
  pub calling_pending : Bool
  pub quit : Bool
  pub wakeup_fd : K
  pub owed : ℕ
  pub executed : List ℕ
  pub phase : Phase

-- A callback of a channel calls `queueInLoop` or `runInLoop`.
pub data Call : Type 0 where
  queues runs : ℕ → Call

-- Another thread queues a functor, and then wakes the loop up; `quit` is called, in the thread of
-- the loop or in another; a callback makes a call; or the loop goes on.
pub data Event : Type 0 where
  posts : ℕ → Event
  wakes advances : Event
  quits : Bool → Event
  calls : Call → Event

module _ {K : Type 0} (E : Eventfd K) (body : ℕ → List ℕ) where
  abbrev pub wakeup : Loop K → Loop K
  wakeup s = record s { wakeup_fd = E.write s.wakeup_fd }

  -- `queueInLoop` in the thread of the loop.
  abbrev pub queue_in_loop : ℕ → Loop K → Loop K
  queue_in_loop f s = record s {
    pending = s.pending ++ (f ∷ []);
    wakeup_fd = if s.calling_pending then E.write s.wakeup_fd else s.wakeup_fd;
  }

  abbrev pub queue_all : List ℕ → Loop K → Loop K
  queue_all [] s = s
  queue_all (f ∷ fs) s = queue_all fs (queue_in_loop f s)

  -- A functor is called.
  abbrev pub call : ℕ → Loop K → Loop K
  call f s = queue_all (body f) (record s { executed = s.executed ++ (f ∷ []) })

  -- `runInLoop` in the thread of the loop.
  abbrev pub run_in_loop : ℕ → Loop K → Loop K
  run_in_loop f s = call f s

  -- `queueInLoop` in another thread: what it does under the lock, and after it.
  abbrev pub post : ℕ → Loop K → Loop K
  post f s = record s { pending = s.pending ++ (f ∷ []); owed = suc s.owed }

  abbrev pub wake_at : ℕ → Loop K → Loop K
  wake_at zero s = s
  wake_at (suc n) s = wakeup (record s { owed = n })

  abbrev pub make_call : Call → Loop K → Loop K
  make_call (queues f) s = queue_in_loop f s
  make_call (runs f) s = run_in_loop f s

  -- Callbacks run only while events are handled.
  abbrev pub call_at : Phase → Call → Loop K → Loop K
  call_at handling c s = make_call c s
  call_at _ c s = s

  -- The test of `loop`, and the poll, after which `handleRead` reads the eventfd if it is readable.
  abbrev pub test : Loop K → Loop K
  test s = if s.quit then record s { phase = finished } else record s {
    phase = handling;
    wakeup_fd = if E.readable s.wakeup_fd then E.read s.wakeup_fd else s.wakeup_fd;
  }

  -- The start of `doPendingFunctors`, its loop, and its end.
  abbrev pub swap_functors : Loop K → Loop K
  swap_functors s = record s {
    calling_pending = true;
    functors = s.pending;
    pending = [];
    phase = calling;
  }

  abbrev pub call_next : List ℕ → Loop K → Loop K
  call_next [] s = record s { calling_pending = false; phase = testing }
  call_next (f ∷ fs) s = call f (record s { functors = fs })

  abbrev pub advance_at : Phase → Loop K → Loop K
  advance_at testing s = test s
  advance_at handling s = swap_functors s
  advance_at calling s = call_next s.functors s
  advance_at finished s = s

  -- `quit`, by whether the thread of the loop calls it.
  abbrev pub stop : Bool → Loop K → Loop K
  stop true s = s
  stop false s = wakeup s

  unfoldable pub step : Event → Loop K → Loop K
  step (posts f) s = post f s
  step wakes s = wake_at s.owed s
  step (quits here) s = stop here (record s { quit = true })
  step advances s = advance_at s.phase s
  step (calls c) s = call_at s.phase c s

  unfoldable pub run : List Event → Loop K → Loop K
  unfolding step
  run [] s = s
  run (e ∷ es) s = run es (step e s)

  -- `loop` is called.
  abbrev pub start : K → Loop K
  start k = record {
    pending = [];
    functors = [];
    calling_pending = false;
    quit = false;
    wakeup_fd = k;
    owed = 0;
    executed = [];
    phase = testing;
  }

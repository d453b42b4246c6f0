-- ===== src/Net/EventLoopExamples.antt =====
-- A loop whose eventfd is a counter, with a functor that queues two others.
use cloud_storge_system.Common.{ℕ, zero, suc, ◌≡◌, refl, Bool, true, false, arith, List, [], ◌∷◌}
use cloud_storge_system.Net.EventLoop.{
  Eventfd, testing, Loop, Event, posts, wakes, advances, calls, queues, runs, run, start,
}
use cloud_storge_system.Net.EventLoop.Fifo.{queue_of, replay, acts, run-acts}
use cloud_storge_system.Net.EventLoop.Wakeup.{Woken, run-Woken}
use cloud_storge_system.Net.EventLoop.Rounds.{drain, queued_by, round-Called}

abbrev is_positive : ℕ → Bool
is_positive zero = false
is_positive (suc n) = true

abbrev counter : Eventfd ℕ
counter = record { readable = is_positive; write = suc; read = λ k. 0; write-readable = λ k. refl }

abbrev body : ℕ → List ℕ
body zero = []
body (suc n) = n ∷ n ∷ []

abbrev events : List Event
events =
    posts 1
    ∷ advances
    ∷ calls (queues 2)
    ∷ calls (runs 0)
    ∷ wakes
    ∷ advances
    ∷ advances
    ∷ advances
    ∷ advances
    ∷ []

run-acts_example :
    queue_of counter body (run counter body events (start counter body 0))
    ≡ replay body (acts counter body events (start counter body 0)) ([], [])
run-acts_example = run-acts counter body events 0

run-Woken_example :
    Woken
      (run counter body events (start counter body 0)).pending
      (is_positive (run counter body events (start counter body 0)).wakeup_fd)
      (run counter body events (start counter body 0)).owed
unfolding run
run-Woken_example = run-Woken counter body events 0 (λ e. ground (arith, e))

abbrev waiting : Loop ℕ
waiting = record {
  pending = 2 ∷ 1 ∷ [];
  functors = [];
  calling_pending = false;
  quit = false;
  wakeup_fd = 1;
  owed = 0;
  executed = 7 ∷ [];
  phase = testing;
}

round-Called_example :
    let t = run counter body (advances ∷ advances ∷ drain (2 ∷ 1 ∷ [])) waiting in
    (t.executed ≡ 7 ∷ 2 ∷ 1 ∷ []) × (t.pending ≡ queued_by body (2 ∷ 1 ∷ [])) × (t.phase ≡ testing)
round-Called_example = round-Called counter body waiting refl refl

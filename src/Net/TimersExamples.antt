-- ===== src/Net/TimersExamples.antt =====
-- The theorem on timers, at a concrete run.
use cloud_storge_system.Common.{ℕ, ◌≡◌, refl, true, false, Option, some, List, [], ◌∷◌, arith}
use cloud_storge_system.Net.Timers.{Queue, empty_queue}
use cloud_storge_system.Net.Timers.Firing.{adds, cancels}
use cloud_storge_system.Net.Timers.Keeps.{Inv}
use cloud_storge_system.Net.Timers.Expiry.{Expires}
use cloud_storge_system.Net.Timers.Runs.{Event, asks, fires, run, Admits, run-Expires}

-- A repeated timer and a single one; then the first is cancelled by its own callback, which adds a
-- third.
abbrev three_timers : List Event
three_timers =
    asks (adds 5 100 50 true)
    ∷ asks (adds 6 200 0 false)
    ∷ fires [] 110
    ∷ fires (cancels 5 0 ∷ adds 7 300 0 false ∷ []) 170
    ∷ asks (cancels 6 1)
    ∷ []

three_timers-Admits : Admits three_timers empty_queue
unfolding Admits
three_timers-Admits =
    ((omega arith, refl), ((omega arith, refl), (tt, ((tt, ((omega arith, refl), tt)), (tt, tt)))))

run-Expires_example :
    (q : Queue) × (run three_timers empty_queue ≡ some q) × Inv q × ((now : ℕ) → Expires now q)
run-Expires_example = run-Expires three_timers three_timers-Admits

-- What is left in the queue.
timers_of : Option Queue → List (ℕ × ℕ)
timers_of (some q) = q.timers
timers_of _ = []

third_left : timers_of (run three_timers empty_queue) ≡ (300, 7) ∷ []
unfolding run timers_of
third_left = refl

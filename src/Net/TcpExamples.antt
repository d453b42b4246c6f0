-- ===== src/Net/TcpExamples.antt =====
-- The theorems on connections, at concrete runs.
use cloud_storge_system.Common.{◌≡◌, refl, true, false, bytes, none, List, [], ◌∷◌}
use cloud_storge_system.Net.Tcp.{make, wrote, blocked}
use cloud_storge_system.Net.Tcp.Life.{
  Event, established, destroyed, sends, shuts, reads, writes, runs_task, received, ended, run,
}
use cloud_storge_system.Net.Tcp.Runs.{took_all}

-- A connection that sends in two parts, sends from another thread, is shut down, and sees the end of
-- the stream.
abbrev one_life : List Event
one_life =
    established
    ∷ reads (received (bytes "GET"))
    ∷ sends true (wrote 2) blocked (bytes "hello")
    ∷ sends false blocked blocked (bytes "!")
    ∷ shuts true
    ∷ writes (wrote 3)
    ∷ runs_task (wrote 1) blocked
    ∷ reads ended
    ∷ destroyed
    ∷ []

-- The destructor of the server meets a connection that is shut down, but not closed by its peer yet.
half_closed : run (established ∷ shuts true ∷ destroyed ∷ []) make ≡ none
unfolding run
half_closed = refl

-- What it takes is what it was given.
took_one_life : took_all one_life make ≡ bytes "hello!"
unfolding took_all
took_one_life = refl

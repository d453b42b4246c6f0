-- ===== src/Net/ConnectorExamples.antt =====
-- A connector that is refused, connects at the second attempt, and is stopped and restarted.
use cloud_storge_system.Common.{◌≡◌, ◌≤◌, refl, false, none, some, List, [], ◌∷◌}
use cloud_storge_system.Net.Connector.{
  Connector, make_connector, init_retry_delay_ms, max_retry_delay_ms, econnrefused, einprogress,
  Event, starts, restarts, expires, stops, tasks_run, writes, run,
}
use cloud_storge_system.Net.Connector.Sound.{Ledger, held}
use cloud_storge_system.Net.Connector.Runs.{AllowedAll, run-Sound}

abbrev attempts : List Event
attempts =
    starts econnrefused 5
    ∷ expires einprogress 6
    ∷ writes false false
    ∷ tasks_run
    ∷ stops
    ∷ tasks_run
    ∷ restarts einprogress 7
    ∷ stops
    ∷ tasks_run
    ∷ tasks_run
    ∷ []

attempts-AllowedAll : AllowedAll attempts make_connector
unfolding AllowedAll
attempts-AllowedAll =
    ((refl, refl, refl), (refl, (refl, (tt, (tt, (tt, ((refl, refl), (tt, (tt, (tt, tt))))))))))

run-Sound_example :
    (t : Connector) × (run attempts make_connector ≡ some t)
    × (init_retry_delay_ms ≤ t.retry_delay_ms)
    × (t.retry_delay_ms ≤ max_retry_delay_ms)
    × Ledger t.opened t.closed t.handed (held t.channel t.registered)
run-Sound_example = run-Sound attempts attempts-AllowedAll

-- `start` while a retry is planned: the retry then finds the connector connecting.
start_twice :
    run (starts econnrefused 5 ∷ starts einprogress 6 ∷ expires einprogress 7 ∷ []) make_connector
    ≡ none
unfolding run
start_twice = refl

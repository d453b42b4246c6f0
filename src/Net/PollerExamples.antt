-- ===== src/Net/PollerExamples.antt =====
-- An interest list as a map, and a run of the poller on it.
use cloud_storge_system.Common.{
  ℕ, ◌+◌, ◌≡◌, ap, refl, Bool, true, false, Option, none, some, arith, List, [], ◌∷◌, set,
}
use cloud_storge_system.Net.Poller.{Interest, Epoll, Operation, ctl_add, ctl_mod, ctl_del, Poller}
use cloud_storge_system.Net.Poller.Runs.{
  Event, enables_reading, enables_writing, disables_all, removes, start, run, AllowedAll, Serves,
  run-Serves,
}

abbrev Watching : Type 0
Watching = ℕ → Option (Interest × ℕ)

-- EEXIST and ENOENT.
abbrev ctl_at : Operation → ℕ → Interest × ℕ → Watching → Option (Interest × ℕ) → Bool × Watching
ctl_at ctl_add fd e k none = (true, set fd (some e) k)
ctl_at ctl_add fd e k (some d) = (false, k)
ctl_at ctl_mod fd e k none = (false, k)
ctl_at ctl_mod fd e k (some d) = (true, set fd (some e) k)
ctl_at ctl_del fd e k none = (false, k)
ctl_at ctl_del fd e k (some d) = (true, set fd none k)

abbrev epoll : Epoll Watching
epoll = record {
  empty = λ fd. none;
  watched = λ k fd. k fd;
  ctl = λ o fd e k. ctl_at o fd e k (k fd);
  empty-watched = λ fd. refl;
  add-ok = λ fd e k h. ap (λ o. (ctl_at ctl_add fd e k o).0) h;
  mod-ok = λ fd e d k h. ap (λ o. (ctl_at ctl_mod fd e k o).0) h;
  add-watched = λ fd i e k h. ap (λ o. (ctl_at ctl_add fd e k o).1 i) h;
  mod-watched = λ fd i e d k h. ap (λ o. (ctl_at ctl_mod fd e k o).1 i) h;
  del-watched = λ fd i e d k h. ap (λ o. (ctl_at ctl_del fd e k o).1 i) h;
}

-- A channel is enabled, disabled, and removed after another one is enabled.
abbrev events : List Event
events = enables_reading 0 ∷ disables_all 0 ∷ enables_writing 1 ∷ removes 0 ∷ []

events-AllowedAll : AllowedAll epoll events (start epoll (λ p. p + 10))
unfolding AllowedAll
events-AllowedAll =
    (λ e. refl, (λ e. ground (arith, e), (λ e. refl, ((λ e. ground (arith, e), refl), tt))))

run-Serves_example :
    (t : Poller Watching) × (run epoll events (start epoll (λ p. p + 10)) ≡ some t) × Serves epoll t
run-Serves_example = run-Serves epoll events (λ p. p + 10) events-AllowedAll

-- ===== src/Net/Timers/Firing.antt =====
-- net/TimerQueue.cc: `handleRead`, with what the callbacks of the timers do to the queue.
use cloud_storge_system.Common.{
  ℕ, ◌+◌, Bool, true, false, not, ◌&&◌, Option, none, some, List, [], ◌∷◌, ltb, if◌then◌else◌,
}
use cloud_storge_system.Net.Timers.{
  Timer, Pair, Queue, member, put, with_timer, insert, add_timer, cancel_in_loop, get_expired,
}

abbrev pub kept : Option (Bool × Queue) → Option Queue
kept none = none
kept (some (earliest, q)) = some q

-- One round of the loop of `reset`; `Timer::restart` sets the next time of a repeated timer.
abbrev pub renew : ℕ → ℕ → Queue → Timer → Option Queue
renew now p q t =
    if t.repeat && not (member (p, t.sequence) q.canceling)
    then kept (
        insert p
          (record q { heap = put p (some (record t { expiration = now + t.interval })) q.heap }))
    else some (record q { heap = put p none q.heap })

abbrev pub and_then : (Queue → Option Queue) → Option Queue → Option Queue
and_then f none = none
and_then f (some q) = f q

abbrev pub renew_all : ℕ → List Pair → Queue → Option Queue
renew_all now [] q = some q
renew_all now ((w, p) ∷ es) q = and_then (renew_all now es) (with_timer (q.heap p) (renew now p q))

-- The end of `reset`: a next time of zero is not valid.
abbrev pub rearm : List Pair → Queue → Option Queue
rearm [] q = some q
rearm ((w, p) ∷ es) q =
    with_timer (q.heap p)
      (λ t. some (if ltb 0 t.expiration then record q { armed = some t.expiration } else q))

abbrev pub rearmed : Queue → Option Queue
rearmed q = rearm q.timers q

-- `reset`.
unfoldable pub reset : List Pair → ℕ → Queue → Option Queue
unfolding insert
reset expired now q = and_then rearmed (renew_all now expired q)

-- What the thread of the loop asks of the queue.
pub data Request : Type 0 where
  adds : ℕ → ℕ → ℕ → Bool → Request
  cancels : ℕ → ℕ → Request

unfoldable pub ask : Request → Queue → Option Queue
unfolding add_timer cancel_in_loop
ask (adds p when interval repeat) q = add_timer p when interval repeat q
ask (cancels p s) q = cancel_in_loop p s q

unfoldable pub ask_all : List Request → Queue → Option Queue
unfolding ask
ask_all [] q = some q
ask_all (r ∷ rs) q = and_then (ask_all rs) (ask r q)

abbrev pub called_back : List Request → Queue → Option Queue
called_back rs q = ask_all rs (record q { calling = true; canceling = [] })

abbrev pub fire : List Request → ℕ → Option (List Pair × Queue) → Option Queue
fire rs now none = none
fire rs now (some (expired, q)) =
    and_then (λ r. reset expired now (record r { calling = false })) (called_back rs q)

-- `handleRead` at the time `now`, where `rs` is what the callbacks ask for, in their order.
unfoldable pub handle_read : List Request → ℕ → Queue → Option Queue
unfolding get_expired ask_all reset
handle_read rs now q = fire rs now (get_expired now q)

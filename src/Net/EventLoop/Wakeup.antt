-- ===== src/Net/EventLoop/Wakeup.antt =====
-- The states of a loop: no functor waits without a wakeup.
use mathlib.Core.Path.{subst}
use cloud_storge_system.Common.{
  ℕ, zero, suc, ◌≤◌, ◌≡◌, ◌≢◌, ◌∙◌, ◌⊎◌, inl, inr, sym, ap, refl, Bool, true, false, List, [], ◌∷◌,
  ◌++◌, if◌then◌else◌, if-cases, arith,
}
use cloud_storge_system.Net.EventLoop.{
  Eventfd, Phase, testing, handling, calling, finished, Loop, Call, queues, runs, Event, posts,
  wakes, quits, advances, calls, wakeup, queue_in_loop, queue_all, call, make_call, call_at,
  wake_at, test, call_next, advance_at, step, run, start,
}

-- Functors are left to call only in `doPendingFunctors`, which sets callingPendingFunctors_.
abbrev pub Idle : Phase → List ℕ → Bool → Type 0
Idle calling fs b = b ≡ true
Idle _ fs b = (fs ≡ []) × (b ≡ false)

-- Where functors wait, the eventfd is readable or a thread is about to write it; the callbacks of
-- channels need no wakeup, since `doPendingFunctors` follows.
abbrev pub Woken : List ℕ → Bool → ℕ → Type 0
Woken fs r owed = (fs ≡ []) ⊎ ((r ≡ true) ⊎ (1 ≤ owed))

abbrev pub Awake : Phase → List ℕ → Bool → ℕ → Type 0
Awake handling fs r owed = Unit
Awake _ fs r owed = Woken fs r owed

Awake-owed : (p : Phase) (fs : List ℕ) (r : Bool) (n : ℕ) → 1 ≤ n → Awake p fs r n
Awake-owed testing fs r n h = inr (inr h)
Awake-owed handling fs r n h = tt
Awake-owed calling fs r n h = inr (inr h)
Awake-owed finished fs r n h = inr (inr h)

Awake-readable : (p : Phase) (fs : List ℕ) (r : Bool) (n : ℕ) → r ≡ true → Awake p fs r n
Awake-readable testing fs r n h = inr (inl h)
Awake-readable handling fs r n h = tt
Awake-readable calling fs r n h = inr (inl h)
Awake-readable finished fs r n h = inr (inl h)

module _ {K : Type 0} (E : Eventfd K) (body : ℕ → List ℕ) where
  pub record Inv (s : Loop K) : Type 0 where
    pub idle : Idle s.phase s.functors s.calling_pending
    pub awake : Awake s.phase s.pending (E.readable s.wakeup_fd) s.owed

  pub start-Inv : (k : K) → Inv (start E body k)
  start-Inv k = record { idle = (refl, refl); awake = inl refl }

  -- Where the thread of the loop queues functors: in a callback, or in a functor.
  abbrev pub Inside : Phase → Type 0
  Inside p = (p ≡ handling) ⊎ (p ≡ calling)

  queue_in_loop-Inv : (f : ℕ) (s : Loop K) → Inside s.phase → Inv s → Inv (queue_in_loop E body f s)
  queue_in_loop-Inv f s (inl e) v = record {
    idle = v.idle;
    awake =
        subst
          (λ p.
            Awake p (s.pending ++ (f ∷ []))
              (E.readable (if s.calling_pending then E.write s.wakeup_fd else s.wakeup_fd)) s.owed)
          (sym e) tt;
  }
  queue_in_loop-Inv f s (inr e) v = record {
    idle = v.idle;
    awake =
        let b = subst (λ p. Idle p s.functors s.calling_pending) e v.idle in
        Awake-readable s.phase _ _ s.owed (
          ap (λ b. E.readable (if b then E.write s.wakeup_fd else s.wakeup_fd)) b
          ∙ E.write-readable s.wakeup_fd);
  }

  queue_all-Inv : (fs : List ℕ) (s : Loop K) → Inside s.phase → Inv s → Inv (queue_all E body fs s)
  queue_all-Inv [] s i v = v
  queue_all-Inv (f ∷ fs) s i v =
      queue_all-Inv fs (queue_in_loop E body f s) i (queue_in_loop-Inv f s i v)

  call-Inv : (f : ℕ) (s : Loop K) → Inside s.phase → Inv s → Inv (call E body f s)
  call-Inv f s i v =
      queue_all-Inv (body f) (record s { executed = s.executed ++ (f ∷ []) }) i
        (record { idle = v.idle; awake = v.awake })

  make_call-Inv : (c : Call) (s : Loop K) → Inside s.phase → Inv s → Inv (make_call E body c s)
  make_call-Inv (queues f) s i v = queue_in_loop-Inv f s i v
  make_call-Inv (runs f) s i v = call-Inv f s i v

  call_at-Inv :
      (p : Phase) (c : Call) (s : Loop K) → s.phase ≡ p → Inv s → Inv (call_at E body p c s)
  call_at-Inv handling c s e v = make_call-Inv c s (inl e) v
  call_at-Inv testing c s e v = v
  call_at-Inv calling c s e v = v
  call_at-Inv finished c s e v = v

  wakeup-Inv : (s t : Loop K) → Idle s.phase s.functors s.calling_pending → Inv (wakeup E body s)
  wakeup-Inv s t i = record {
    idle = i;
    awake = Awake-readable s.phase _ _ s.owed (E.write-readable s.wakeup_fd);
  }

  wake_at-Inv : (n : ℕ) (s : Loop K) → Inv s → Inv (wake_at E body n s)
  wake_at-Inv zero s v = v
  wake_at-Inv (suc n) s v = wakeup-Inv (record s { owed = n }) s v.idle

  test-Inv : (s : Loop K) → s.phase ≡ testing → Inv s → Inv (test E body s)
  test-Inv s e v =
      let i = subst (λ p. Idle p s.functors s.calling_pending) e v.idle in
      let a = subst (λ p. Awake p s.pending (E.readable s.wakeup_fd) s.owed) e v.awake in
      if-cases Inv s.quit _ _ (λ q. record { idle = i; awake = a })
        (λ q. record { idle = i; awake = tt })

  call_next-Inv :
      (fs : List ℕ) (s : Loop K)
      → s.functors ≡ fs
      → s.phase ≡ calling
      → Inv s
      → Inv (call_next E body fs s)
  call_next-Inv [] s f e v = record {
    idle = (f, refl);
    awake = subst (λ p. Awake p s.pending (E.readable s.wakeup_fd) s.owed) e v.awake;
  }
  call_next-Inv (f ∷ fs) s g e v =
      call-Inv f (record s { functors = fs }) (inr e)
        (record {
          idle =
              let b = subst (λ p. Idle p s.functors s.calling_pending) e v.idle in
              subst (λ p. Idle p fs s.calling_pending) (sym e) b;
          awake = v.awake;
        })

  advance_at-Inv : (p : Phase) (s : Loop K) → s.phase ≡ p → Inv s → Inv (advance_at E body p s)
  advance_at-Inv testing s e v = test-Inv s e v
  advance_at-Inv handling s e v = record { idle = refl; awake = inl refl }
  advance_at-Inv calling s e v = call_next-Inv s.functors s refl e v
  advance_at-Inv finished s e v = v

  pub step-Inv : (e : Event) (s : Loop K) → Inv s → Inv (step E body e s)
  unfolding step
  step-Inv (posts f) s v = record {
    idle = v.idle;
    awake = Awake-owed s.phase _ _ (suc s.owed) (omega arith);
  }
  step-Inv wakes s v = wake_at-Inv s.owed s v
  step-Inv (quits true) s v = record { idle = v.idle; awake = v.awake }
  step-Inv (quits false) s v = wakeup-Inv (record s { quit = true }) s v.idle
  step-Inv advances s v = advance_at-Inv s.phase s refl v
  step-Inv (calls c) s v = call_at-Inv s.phase c s refl v

  run-Inv : (es : List Event) (s : Loop K) → Inv s → Inv (run E body es s)
  unfolding run
  run-Inv [] s v = v
  run-Inv (e ∷ es) s v = run-Inv es (step E body e s) (step-Inv e s v)

  Awake-Woken :
      (p : Phase) (fs : List ℕ) (r : Bool) (n : ℕ) → p ≢ handling → Awake p fs r n → Woken fs r n
  Awake-Woken testing fs r n h a = a
  Awake-Woken handling fs r n h a = elim (h refl) [ ]
  Awake-Woken calling fs r n h a = a
  Awake-Woken finished fs r n h a = a

  -- After any events on a fresh loop, outside the callbacks of channels: where a functor waits, the
  -- eventfd is readable, so that the next poll returns at once, or another thread that has queued a
  -- functor has yet to write the eventfd.
  pub run-Woken :
      (es : List Event) (k : K)
      → (run E body es (start E body k)).phase ≢ handling
      → let t = run E body es (start E body k) in Woken t.pending (E.readable t.wakeup_fd) t.owed
  run-Woken es k h =
      let t = run E body es (start E body k) in
      Awake-Woken t.phase t.pending (E.readable t.wakeup_fd) t.owed h
        (run-Inv es (start E body k) (start-Inv k)).awake

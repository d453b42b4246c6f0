-- ===== src/Net/EventLoop/Fifo.antt =====
-- The functors of a loop as one queue.
use cloud_storge_system.Common.{
  false, true, ℕ, zero, suc, ◌≡◌, ◌∙◌, sym, ap, refl, List, [], ◌∷◌, ◌++◌, if-cases, append_assoc,
  append-nil,
}
use cloud_storge_system.Net.EventLoop.Wakeup.{Idle, Inv, start-Inv, step-Inv}
use cloud_storge_system.Net.EventLoop.{
  Eventfd, Phase, testing, handling, calling, finished, Loop, Call, queues, runs, Event, posts,
  wakes, quits, advances, calls, queue_in_loop, queue_all, call, call_at, wake_at, test, call_next,
  advance_at, step, run, start,
}

-- What has been called, and the queue.
abbrev pub Queue : Type 0
Queue = List ℕ × List ℕ

-- A functor is queued; the first one is called; one is called at once.
pub data Act : Type 0 where
  enqueue immediate : ℕ → Act
  execute : Act

module _ (body : ℕ → List ℕ) where
  abbrev pub execute_first : List ℕ → List ℕ → Queue
  execute_first done [] = (done, [])
  execute_first done (f ∷ fs) = (done ++ (f ∷ []), fs ++ body f)

  abbrev pub act : Act → Queue → Queue
  act (enqueue f) (done, fs) = (done, fs ++ (f ∷ []))
  act (immediate f) (done, fs) = (done ++ (f ∷ []), fs ++ body f)
  act execute (done, fs) = execute_first done fs

  abbrev pub replay : List Act → Queue → Queue
  replay [] q = q
  replay (a ∷ rest) q = replay rest (act a q)

module _ {K : Type 0} (E : Eventfd K) (body : ℕ → List ℕ) where
  -- The functors that are being called stand before those that are pending.
  abbrev pub queue_of : Loop K → Queue
  queue_of s = (s.executed, s.functors ++ s.pending)

  -- What an event is on the queue.
  abbrev act_of_call : Phase → Call → List Act
  act_of_call handling (queues f) = enqueue f ∷ []
  act_of_call handling (runs f) = immediate f ∷ []
  act_of_call _ c = []

  abbrev act_of_advance : Phase → List ℕ → List Act
  act_of_advance calling (f ∷ fs) = execute ∷ []
  act_of_advance _ fs = []

  abbrev pub acts_of : Event → Loop K → List Act
  acts_of (posts f) s = enqueue f ∷ []
  acts_of (calls c) s = act_of_call s.phase c
  acts_of advances s = act_of_advance s.phase s.functors
  acts_of _ s = []

  unfoldable pub acts : List Event → Loop K → List Act
  unfolding step
  acts [] s = []
  acts (e ∷ es) s = acts_of e s ++ acts es (step E body e s)

  queue_all-queue :
      (fs : List ℕ) (s : Loop K)
      → queue_of (queue_all E body fs s) ≡ (s.executed, s.functors ++ (s.pending ++ fs))
  queue_all-queue [] s = ap (λ l. (s.executed, s.functors ++ l)) (sym (append-nil s.pending))
  queue_all-queue (f ∷ fs) s =
      queue_all-queue fs (queue_in_loop E body f s)
      ∙ ap (λ l. (s.executed, s.functors ++ l)) (append_assoc s.pending (f ∷ []) fs)

  -- A functor is called while these wait.
  call-queue :
      (f : ℕ) (s : Loop K)
      → queue_of (call E body f s) ≡ (s.executed ++ (f ∷ []), (s.functors ++ s.pending) ++ body f)
  call-queue f s =
      queue_all-queue (body f) (record s { executed = s.executed ++ (f ∷ []) })
      ∙ ap (λ l. (s.executed ++ (f ∷ []), l)) (sym (append_assoc s.functors s.pending (body f)))

  snoc-queue :
      (f : ℕ) (s : Loop K)
      → (s.executed, s.functors ++ (s.pending ++ (f ∷ []))) ≡ act body (enqueue f) (queue_of s)
  snoc-queue f s = ap (λ l. (s.executed, l)) (sym (append_assoc s.functors s.pending (f ∷ [])))

  call_at-queue :
      (p : Phase) (c : Call) (s : Loop K)
      → queue_of (call_at E body p c s) ≡ replay body (act_of_call p c) (queue_of s)
  call_at-queue handling (queues f) s = snoc-queue f s
  call_at-queue handling (runs f) s = call-queue f s
  call_at-queue testing c s = refl
  call_at-queue calling c s = refl
  call_at-queue finished c s = refl

  wake_at-queue : (n : ℕ) (s : Loop K) → queue_of (wake_at E body n s) ≡ queue_of s
  wake_at-queue zero s = refl
  wake_at-queue (suc n) s = refl

  test-queue : (s : Loop K) → queue_of (test E body s) ≡ queue_of s
  test-queue s =
      if-cases (λ (t : Loop K). queue_of t ≡ queue_of s) s.quit _ _ (λ e. refl) (λ e. refl)

  -- The functors that are being called are known.
  call_next-queue :
      (fs : List ℕ) (s : Loop K)
      → s.functors ≡ fs
      → queue_of (call_next E body fs s) ≡ replay body (act_of_advance calling fs) (queue_of s)
  call_next-queue [] s e = refl
  call_next-queue (f ∷ fs) s e =
      call-queue f (record s { functors = fs })
      ∙ ap (λ l. execute_first body s.executed (l ++ s.pending)) (sym e)

  advance_at-queue :
      (p : Phase) (s : Loop K)
      → Idle p s.functors s.calling_pending
      → queue_of (advance_at E body p s) ≡ replay body (act_of_advance p s.functors) (queue_of s)
  advance_at-queue testing s i = test-queue s
  advance_at-queue handling s i =
      ap (λ l. (s.executed, l)) (append-nil s.pending)
      ∙ ap (λ l. (s.executed, l ++ s.pending)) (sym i.0)
  advance_at-queue calling s i = call_next-queue s.functors s refl
  advance_at-queue finished s i = refl

  step-queue :
      (e : Event) (s : Loop K)
      → Inv E body s
      → queue_of (step E body e s) ≡ replay body (acts_of e s) (queue_of s)
  unfolding step
  step-queue (posts f) s v = snoc-queue f s
  step-queue wakes s v = wake_at-queue s.owed s
  step-queue (quits true) s v = refl
  step-queue (quits false) s v = refl
  step-queue advances s v = advance_at-queue s.phase s v.idle
  step-queue (calls c) s v = call_at-queue s.phase c s

  replay-append :
      (as1 as2 : List Act) (q : Queue)
      → replay body (as1 ++ as2) q ≡ replay body as2 (replay body as1 q)
  replay-append [] as2 q = refl
  replay-append (a ∷ as1) as2 q = replay-append as1 as2 (act body a q)

  run-queue :
      (es : List Event) (s : Loop K)
      → Inv E body s
      → queue_of (run E body es s) ≡ replay body (acts es s) (queue_of s)
  unfolding run acts
  run-queue [] s v = refl
  run-queue (e ∷ es) s v =
      let t = step E body e s in
      run-queue es t (step-Inv E body e s v)
      ∙ ap (replay body (acts es t)) (step-queue e s v)
      ∙ sym (replay-append (acts_of e s) (acts es t) (queue_of s))

  -- Any events on a fresh loop are, on what has been called and what still waits, those on one queue
  -- from which each functor is called once, in the order in which they were queued, with what a
  -- called functor queues at the end; only `runInLoop` of the loop's own thread calls past the queue.
  pub run-acts :
      (es : List Event) (k : K)
      → let s = start E body k in queue_of (run E body es s) ≡ replay body (acts es s) ([], [])
  run-acts es k = run-queue es (start E body k) (start-Inv E body k)

-- ===== src/Net/EventLoop/Rounds.antt =====
-- One round of the loop.
use mathlib.Core.Path.{subst}
use cloud_storge_system.Common.{
  ℕ, ◌≡◌, ◌∙◌, sym, ap, refl, false, List, [], ◌∷◌, ◌++◌, if◌then◌else◌, append_assoc, append-nil,
}
use cloud_storge_system.Net.EventLoop.{
  Eventfd, Phase, testing, handling, calling, finished, Loop, Event, advances, queue_in_loop,
  queue_all, swap_functors, call_next, advance_at, step, run,
}

-- What these functors queue.
abbrev pub queued_by : (ℕ → List ℕ) → List ℕ → List ℕ
queued_by body [] = []
queued_by body (f ∷ fs) = body f ++ queued_by body fs

-- A step for each functor, and one for the end.
abbrev pub drain : List ℕ → List Event
drain [] = advances ∷ []
drain (f ∷ fs) = advances ∷ drain fs

module _ {K : Type 0} (E : Eventfd K) (body : ℕ → List ℕ) where
  -- A state in which the functors have been called, after others.
  pub record Called (s t : Loop K) (fs : List ℕ) : Type 0 where
    pub executed : t.executed ≡ s.executed ++ fs
    pub pending : t.pending ≡ s.pending ++ queued_by body fs
    pub phase : t.phase ≡ testing
    pub quit : t.quit ≡ s.quit

  record Same (s t : Loop K) (fs : List ℕ) : Type 0 where
    executed : t.executed ≡ s.executed
    pending : t.pending ≡ s.pending ++ fs
    phase : t.phase ≡ s.phase
    functors : t.functors ≡ s.functors
    quit : t.quit ≡ s.quit

  queue_all-Same : (fs : List ℕ) (s : Loop K) → Same s (queue_all E body fs s) fs
  queue_all-Same [] s = record {
    executed = refl;
    pending = sym (append-nil s.pending);
    phase = refl;
    functors = refl;
    quit = refl;
  }
  queue_all-Same (f ∷ fs) s =
      let v = queue_all-Same fs (queue_in_loop E body f s) in
      record {
        executed = v.executed;
        pending = v.pending ∙ append_assoc s.pending (f ∷ []) fs;
        phase = v.phase;
        functors = v.functors;
        quit = v.quit;
      }

  advance-at :
      (p : Phase) (s : Loop K) → s.phase ≡ p → step E body advances s ≡ advance_at E body p s
  unfolding step
  advance-at p s e = ap (λ p. advance_at E body p s) e

  drain-Called :
      (fs : List ℕ) (s : Loop K)
      → s.functors ≡ fs
      → s.phase ≡ calling
      → Called s (run E body (drain fs) s) fs
  unfolding run
  drain-Called [] s f p =
      subst (λ t. Called s t []) (sym (advance-at calling s p ∙ ap (λ fs. call_next E body fs s) f))
        (record {
          executed = sym (append-nil s.executed);
          pending = sym (append-nil s.pending);
          phase = refl;
          quit = refl;
        })
  drain-Called (f ∷ fs) s g p =
      let s1 : Loop K = record s { functors = fs; executed = s.executed ++ (f ∷ []) } in
      let t = queue_all E body (body f) s1 in
      let k = queue_all-Same (body f) s1 in
      let v = drain-Called fs t k.functors (k.phase ∙ p) in
      subst (λ t. Called s (run E body (drain fs) t) (f ∷ fs))
        (sym (advance-at calling s p ∙ ap (λ fs. call_next E body fs s) g))
        (record {
          executed =
              v.executed ∙ ap (λ l. l ++ fs) k.executed ∙ append_assoc s.executed (f ∷ []) fs;
          pending =
              v.pending
              ∙ ap (λ l. l ++ queued_by body fs) k.pending
              ∙ append_assoc s.pending (body f) (queued_by body fs);
          phase = v.phase;
          quit = v.quit ∙ k.quit;
        })

  -- One round of a loop that has not been told to quit, with no other event, calls all functors that
  -- waited, in order, and ends before the next test; what these queue waits for the next round.
  pub round-Called :
      (s : Loop K)
      → s.phase ≡ testing
      → s.quit ≡ false
      → let t = run E body (advances ∷ advances ∷ drain s.pending) s in
        (t.executed ≡ s.executed ++ s.pending)
        × (t.pending ≡ queued_by body s.pending)
        × (t.phase ≡ testing)
  unfolding run
  round-Called s p q =
      let fd = if E.readable s.wakeup_fd then E.read s.wakeup_fd else s.wakeup_fd in
      let s1 : Loop K = record s { phase = handling; wakeup_fd = fd } in
      let s2 = swap_functors E body s1 in
      let rest = run E body (drain s.pending) in
      let v = drain-Called s.pending s2 refl refl in
      let e1 : step E body advances s ≡ s1 =
        advance-at testing s p
        ∙ ap
            (λ b.
              if b
              then record s { phase = finished }
              else record s { phase = handling; wakeup_fd = fd })
            q in
      let e2 : step E body advances s1 ≡ s2 = advance-at handling s1 refl in
      let e = ap (λ t. rest (step E body advances t)) e1 ∙ ap rest e2 in
      subst
        (λ (t : Loop K).
          (t.executed ≡ s.executed ++ s.pending)
          × (t.pending ≡ queued_by body s.pending)
          × (t.phase ≡ testing))
        (sym e) (v.executed, v.pending, v.phase)

-- ===== src/Net/Poller/Runs.antt =====
-- Runs of the poller: changes and removals of channels, from a loop that has no channel yet.
use mathlib.Core.Path.{subst}
use cloud_storge_system.Common.{
  ℕ, ◌≡◌, ◌≢◌, ◌∙◌, sym, ap, refl, true, false, Option, none, some, arith, List, [], ◌∷◌,
}
use cloud_storge_system.Net.Poller.{
  Interest, is_none, Index, new, added, deleted, make_channel, Epoll, Poller, assert, is_at,
  has_channel, fill_active_channels, remove_channel, enable_reading, disable_reading,
  enable_writing, disable_writing, disable_all,
}
use cloud_storge_system.Net.Poller.Agree.{Owned, Owned-at, Entry, Inv}
use cloud_storge_system.Net.Poller.Steps.{Goes, CanUpdate, is_at_refl}
use cloud_storge_system.Net.Poller.Moves.{change-Goes, remove-Goes}

-- What a client does to a channel, by its address.
pub data Event : Type 0 where
  enables_reading disables_reading enables_writing disables_writing disables_all : ℕ → Event
  removes : ℕ → Event

module _ {K : Type 0} (E : Epoll K) where
  -- No channel is known; the channel at an address has the descriptor it was made with.
  abbrev pub start : (ℕ → ℕ) → Poller K
  start fds = record { channel = λ p. make_channel (fds p); channels = λ i. none; kernel = E.empty }

  unfoldable pub step : Event → Poller K → Option (Poller K)
  unfolding enable_reading disable_reading enable_writing disable_writing disable_all remove_channel
  step (enables_reading p) s = enable_reading E p s
  step (disables_reading p) s = disable_reading E p s
  step (enables_writing p) s = enable_writing E p s
  step (disables_writing p) s = disable_writing E p s
  step (disables_all p) s = disable_all E p s
  step (removes p) s = remove_channel E p s

  abbrev pub on_state : (Poller K → Option (Poller K)) → Option (Poller K) → Option (Poller K)
  on_state f none = none
  on_state f (some s) = f s

  unfoldable pub run : List Event → Poller K → Option (Poller K)
  unfolding step
  run [] s = some s
  run (e ∷ es) s = on_state (run es) (step e s)

  -- A channel that is new has a descriptor that no known channel has; one that is removed is known
  -- and wants no event.
  abbrev pub Allowed : Event → Poller K → Type 0
  Allowed (enables_reading p) s = CanUpdate E p s
  Allowed (disables_reading p) s = CanUpdate E p s
  Allowed (enables_writing p) s = CanUpdate E p s
  Allowed (disables_writing p) s = CanUpdate E p s
  Allowed (disables_all p) s = CanUpdate E p s
  Allowed (removes p) s = ((s.channel p).index ≢ new) × (is_none (s.channel p).events ≡ true)

  abbrev AllowedOn : (Poller K → Type 0) → Option (Poller K) → Type 0
  AllowedOn f none = Unit
  AllowedOn f (some s) = f s

  unfoldable pub AllowedAll : List Event → Poller K → Type 0
  unfolding step
  AllowedAll [] s = Unit
  AllowedAll (e ∷ es) s = Allowed e s × AllowedOn (AllowedAll es) (step e s)

  step-Goes : (e : Event) (s : Poller K) → Inv E s → Allowed e s → Goes E (step e s)
  unfolding step enable_reading disable_reading enable_writing disable_writing disable_all
  step-Goes (enables_reading p) s v a = change-Goes E (λ e. record e { reads = true }) p s v a
  step-Goes (disables_reading p) s v a = change-Goes E (λ e. record e { reads = false }) p s v a
  step-Goes (enables_writing p) s v a = change-Goes E (λ e. record e { writes = true }) p s v a
  step-Goes (disables_writing p) s v a = change-Goes E (λ e. record e { writes = false }) p s v a
  step-Goes (disables_all p) s v a =
      change-Goes E (λ e. record { reads = false; writes = false }) p s v a
  step-Goes (removes p) s v (n, e) = remove-Goes E p s v n e

  run-Goes : (es : List Event) (s : Poller K) → Inv E s → AllowedAll es s → Goes E (run es s)
  unfolding run AllowedAll
  run-Goes [] s v a = (s, refl, v)
  run-Goes (e ∷ es) s v (a, b) =
      let (t, g, w) = step-Goes e s v a in
      let (u, h, x) = run-Goes es t w (subst (AllowedOn (AllowedAll es)) g b) in
      (u, ap (on_state (run es)) g ∙ h, x)

  start-Inv : (fds : ℕ → ℕ) → Inv E (start fds)
  start-Inv fds = record { own = λ p. tt; entry = λ fd. E.empty-watched fd }

  -- The kernel watches the channel at an address for these events.
  abbrev pub Watches : Poller K → Interest → ℕ → Type 0
  Watches s e p = E.watched s.kernel (s.channel p).fd ≡ some (e, p)

  -- What epoll_wait gives names channels that are watched.
  abbrev pub AllWatched : List (Interest × ℕ) → Poller K → Type 0
  AllWatched [] s = Unit
  AllWatched ((e, p) ∷ es) s = ((w : Interest) × Watches s w p) × AllWatched es s

  abbrev pub addresses : List (Interest × ℕ) → List ℕ
  addresses [] = []
  addresses ((e, p) ∷ es) = p ∷ addresses es

  -- The interest list, the map and the channels say the same.
  pub record Serves (s : Poller K) : Type 0 where
    pub watched : (p : ℕ) → (s.channel p).index ≡ added → Watches s (s.channel p).events p
    pub idle :
        (p : ℕ)
        → (s.channel p).index ≡ deleted
        → (E.watched s.kernel (s.channel p).fd ≡ none) × (is_none (s.channel p).events ≡ true)
    pub known : (p : ℕ) → (s.channel p).index ≢ new → has_channel E p s ≡ true
    pub owner :
        (fd p : ℕ) (e : Interest)
        → E.watched s.kernel fd ≡ some (e, p)
        → ((s.channel p).fd ≡ fd) × ((s.channel p).index ≡ added) × ((s.channel p).events ≡ e)
    pub dispatches :
        (es : List (Interest × ℕ))
        → AllWatched es s
        → fill_active_channels E es s ≡ some (addresses es)

  interest_of : Interest → Option (Interest × ℕ) → Interest
  interest_of e none = e
  interest_of e (some (d, p)) = d

  owner-at :
      (i : Index) (e d : Interest) (p q : ℕ) (c : Option ℕ) (w : Option (Interest × ℕ))
      → i ≢ new
      → Owned i e q c w
      → w ≡ some (d, p)
      → (q ≡ p) × (i ≡ added) × (e ≡ d)
  unfolding interest_of
  owner-at new e d p q c w n o h = elim (n refl) [ ]
  owner-at added e d p q c w n (a, b) h =
      let z : some (e, q) ≡ some (d, p) = sym b ∙ h in
      (ground (arith, z), refl, ap (interest_of e) z)
  owner-at deleted e d p q c w n (a, b, f) h =
      let z : none ≡ some (d, p) = sym b ∙ h in ground (arith, z)

  owner-in :
      (s : Poller K) (fd p : ℕ) (e : Interest) (o : Option ℕ)
      → Inv E s
      → Entry s.channel fd o (E.watched s.kernel fd)
      → E.watched s.kernel fd ≡ some (e, p)
      → ((s.channel p).fd ≡ fd) × ((s.channel p).index ≡ added) × ((s.channel p).events ≡ e)
  owner-in s fd p e none v n h = let z : none ≡ some (e, p) = sym n ∙ h in ground (arith, z)
  owner-in s fd p e (some q) v (f, n) h =
      let (same, i, x) =
        owner-at (s.channel q).index (s.channel q).events e p q _ _ n (v.own q)
          (ap (E.watched s.kernel) f ∙ h) in
      subst
        (λ p. ((s.channel p).fd ≡ fd) × ((s.channel p).index ≡ added) × ((s.channel p).events ≡ e))
        same (f, i, x)

  known-in : (s : Poller K) (p : ℕ) → Inv E s → (s.channel p).index ≢ new → has_channel E p s ≡ true
  unfolding has_channel
  known-in s p v n =
      is_at_refl (s.channels (s.channel p).fd) p
        (Owned-at E (s.channel p).index (s.channel p).events p _ _ n (v.own p))

  added-not-new : (i : Index) → i ≡ added → i ≢ new
  added-not-new i e n = let z : added ≡ new = sym e ∙ n in ground (arith, z)

  dispatches-in :
      (s : Poller K) (es : List (Interest × ℕ))
      → Inv E s
      → AllWatched es s
      → fill_active_channels E es s ≡ some (addresses es)
  unfolding fill_active_channels has_channel
  dispatches-in s [] v a = refl
  dispatches-in s ((e, p) ∷ es) v ((w, h), a) =
      let (f, i, x) = owner-in s (s.channel p).fd p w _ v (v.entry (s.channel p).fd) h in
      let here = known-in s p v (added-not-new (s.channel p).index i) in
      let rest = dispatches-in s es v a in
      ap
        (λ o. elim o [
          | none ↦ none
          | some ps ↦ assert (is_at (s.channels (s.channel p).fd) p) (some (p ∷ ps))
        ])
        rest
      ∙ ap (λ b. assert b (some (p ∷ addresses es))) here

  own_at :
      (s : Poller K) (p : ℕ) (i : Index)
      → (s.channel p).index ≡ i
      → Inv E s
      → Owned i
          (s.channel p).events
          p
          (s.channels (s.channel p).fd)
          (E.watched s.kernel (s.channel p).fd)
  own_at s p i e v =
      subst
        (λ i.
          Owned i (s.channel p).events p (s.channels (s.channel p).fd)
            (E.watched s.kernel (s.channel p).fd))
        e (v.own p)

  Inv-Serves : (s : Poller K) → Inv E s → Serves s
  Inv-Serves s v = record {
    watched = λ p e. (own_at s p added e v).1;
    idle = λ p e. let (a, w, n) = own_at s p deleted e v in (w, n);
    known = λ p n. known-in s p v n;
    owner = λ fd p e h. owner-in s fd p e (s.channels fd) v (v.entry fd) h;
    dispatches = λ es a. dispatches-in s es v a;
  }

  -- A run of changes and removals that starts with no channel known, gives a new channel only a
  -- descriptor that no known channel has, and removes only known channels that want no event,
  -- succeeds: no assert fails and no epoll_ctl fails. Then a channel that is added is watched for
  -- just its events, one that is deleted is not watched and wants none, a channel that is not new
  -- is had, the kernel watches nothing else, and every list of watched channels is dispatched.
  pub run-Serves :
      (es : List Event) (fds : ℕ → ℕ)
      → AllowedAll es (start fds)
      → (t : Poller K) × (run es (start fds) ≡ some t) × Serves t
  run-Serves es fds a =
      let (t, e, v) = run-Goes es (start fds) (start-Inv fds) a in (t, e, Inv-Serves t v)

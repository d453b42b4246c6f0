-- ===== src/Net/Poller.antt =====
-- net/Channel.h, net/Channel.cc, net/Poller.h, net/Poller.cc, net/poller/EPollPoller.h and
-- net/poller/EPollPoller.cc: the channels of one loop and the interest list of epoll. A channel is
-- named by its address, a std::map is a function, and a failed assert or a fatal error of epoll_ctl
-- is `none`. The kernel is a parameter: what epoll_ctl does, with its documented behaviour as laws.
pub mod Agree
pub mod Steps
pub mod Moves
pub mod Runs
use cloud_storge_system.Common.{
  ℕ, ◌≡◌, ◌≢◌, ◌==◌, Bool, true, false, not, ◌&&◌, ◌||◌, Option, none, some, List, [], ◌∷◌, ◌++◌,
  if◌then◌else◌, set,
}

-- The bits of `events_`.
pub record Interest : Type 0 where
  pub reads : Bool
  pub writes : Bool

abbrev pub is_none : Interest → Bool
is_none e = not e.reads && not e.writes

-- kNew, kAdded and kDeleted.
pub data Index : Type 0 where
  new added deleted : Index

pub record Channel : Type 0 where
  pub fd : ℕ
  pub events : Interest
  pub index : Index

abbrev pub make_channel : ℕ → Channel
make_channel fd = record { fd = fd; events = record { reads = false; writes = false }; index = new }

pub data Operation : Type 0 where
  ctl_add ctl_mod ctl_del : Operation

-- epoll_ctl on the interest list: whether it succeeds, and what is watched for each descriptor.
pub record Epoll (K : Type 0) : Type 0 where
  pub empty : K
  pub watched : K → ℕ → Option (Interest × ℕ)
  pub ctl : Operation → ℕ → Interest × ℕ → K → Bool × K
  pub empty-watched : (fd : ℕ) → watched empty fd ≡ none
  pub add-ok :
      (fd : ℕ) (e : Interest × ℕ) (k : K) → watched k fd ≡ none → (ctl ctl_add fd e k).0 ≡ true
  pub mod-ok :
      (fd : ℕ) (e d : Interest × ℕ) (k : K) → watched k fd ≡ some d → (ctl ctl_mod fd e k).0 ≡ true
  pub add-watched :
      (fd i : ℕ) (e : Interest × ℕ) (k : K)
      → watched k fd ≡ none
      → watched (ctl ctl_add fd e k).1 i ≡ set fd (some e) (watched k) i
  pub mod-watched :
      (fd i : ℕ) (e d : Interest × ℕ) (k : K)
      → watched k fd ≡ some d
      → watched (ctl ctl_mod fd e k).1 i ≡ set fd (some e) (watched k) i
  pub del-watched :
      (fd i : ℕ) (e d : Interest × ℕ) (k : K)
      → watched k fd ≡ some d
      → watched (ctl ctl_del fd e k).1 i ≡ set fd none (watched k) i

pub record Poller (K : Type 0) : Type 0 where
  pub channel : ℕ → Channel
  pub channels : ℕ → Option ℕ
  pub kernel : K

abbrev pub assert : {A : Type 0} → Bool → Option A → Option A
assert true o = o
assert false o = none

abbrev pub is_at : Option ℕ → ℕ → Bool
is_at none p = false
is_at (some q) p = q == p

abbrev pub is_absent : Option ℕ → Bool
is_absent none = true
is_absent (some q) = false

-- A channel with another index.
abbrev pub with_index : Index → Channel → Channel
with_index i c = record c { index = i }

module _ {K : Type 0} (E : Epoll K) where
  -- `update` for EPOLL_CTL_ADD and EPOLL_CTL_MOD, whose failure is fatal.
  abbrev pub checked : Bool × K → Poller K → Option (Poller K)
  checked (true, k) s = some (record s { kernel = k })
  checked (false, k) s = none

  abbrev pub update : Operation → Channel → ℕ → Poller K → Option (Poller K)
  update o c p s = checked (E.ctl o c.fd (c.events, p) s.kernel) s

  -- `update` for EPOLL_CTL_DEL, whose failure is logged.
  abbrev pub forget : Channel → ℕ → Poller K → Poller K
  forget c p s = record s { kernel = (E.ctl ctl_del c.fd (c.events, p) s.kernel).1 }

  abbrev pub index_as : Index → Channel → ℕ → Poller K → Poller K
  index_as i c p s = record s { channel = set p (with_index i c) s.channel }

  -- The branches of `EPollPoller::updateChannel`, with what stands at the address.
  abbrev pub update_at : Index → Channel → ℕ → Poller K → Option (Poller K)
  update_at new c p s = assert (is_absent (s.channels c.fd)) (
      update ctl_add c p
        (index_as added c p (record s { channels = set c.fd (some p) s.channels })))
  update_at deleted c p s =
      assert (is_at (s.channels c.fd) p) (update ctl_add c p (index_as added c p s))
  update_at added c p s = assert (is_at (s.channels c.fd) p) (
      if is_none c.events then some (index_as deleted c p (forget c p s)) else update ctl_mod c p s)

  -- `EPollPoller::updateChannel`.
  unfoldable pub update_channel : ℕ → Poller K → Option (Poller K)
  update_channel p s = let c = s.channel p in update_at c.index c p s

  abbrev pub remove_at : Index → Channel → ℕ → Poller K → Option (Poller K)
  remove_at new c p s = none
  remove_at added c p s = some (index_as new c p (forget c p s))
  remove_at deleted c p s = some (index_as new c p s)

  -- `EPollPoller::removeChannel`.
  unfoldable pub remove_channel : ℕ → Poller K → Option (Poller K)
  remove_channel p s =
      let c = s.channel p in
      assert (is_at (s.channels c.fd) p) (
        assert (is_none c.events)
          (remove_at c.index c p (record s { channels = set c.fd none s.channels })))

  -- `Poller::hasChannel`.
  unfoldable pub has_channel : ℕ → Poller K → Bool
  has_channel p s = is_at (s.channels (s.channel p).fd) p

  -- `events_` is changed, and `Channel::update` follows.
  unfoldable pub change : (Interest → Interest) → ℕ → Poller K → Option (Poller K)
  unfolding update_channel
  change f p s =
      let c = s.channel p in
      update_channel p (record s { channel = set p (record c { events = f c.events }) s.channel })

  unfoldable pub enable_reading : ℕ → Poller K → Option (Poller K)
  unfolding change
  enable_reading p s = change (λ e. record e { reads = true }) p s

  unfoldable pub disable_reading : ℕ → Poller K → Option (Poller K)
  unfolding change
  disable_reading p s = change (λ e. record e { reads = false }) p s

  unfoldable pub enable_writing : ℕ → Poller K → Option (Poller K)
  unfolding change
  enable_writing p s = change (λ e. record e { writes = true }) p s

  unfoldable pub disable_writing : ℕ → Poller K → Option (Poller K)
  unfolding change
  disable_writing p s = change (λ e. record e { writes = false }) p s

  unfoldable pub disable_all : ℕ → Poller K → Option (Poller K)
  unfolding change
  disable_all p s = change (λ e. record { reads = false; writes = false }) p s

  -- The loop of `fillActiveChannels`, over the events that epoll_wait gave.
  unfoldable pub fill_active_channels : List (Interest × ℕ) → Poller K → Option (List ℕ)
  fill_active_channels [] s = some []
  fill_active_channels ((e, p) ∷ es) s = elim (fill_active_channels es s) [
    | none ↦ none
    | some ps ↦ assert (is_at (s.channels (s.channel p).fd) p) (some (p ∷ ps))
  ]

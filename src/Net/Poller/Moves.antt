-- ===== src/Net/Poller/Moves.antt =====
-- A change of the events of a channel, and its removal, from a valid state.
use mathlib.Core.Path.{subst}
use cloud_storge_system.Common.{
  ℕ, ◌≡◌, ◌≢◌, ◌∙◌, sym, refl, inr, true, none, some, set, set-same, set-other,
}
use cloud_storge_system.Net.Poller.{
  Interest, is_none, Index, new, added, deleted, Channel, ctl_del, Epoll, Poller, assert,
  with_index, index_as, forget, update_at, update_channel, remove_at, remove_channel, change,
}
use cloud_storge_system.Net.Poller.Agree.{Owned, Owned-at, Inv}
use cloud_storge_system.Net.Poller.Steps.{
  Goes, CanUpdate, made-Inv, is_at_refl, update-new, update-deleted, update-added,
}

module _ {K : Type 0} (E : Epoll K) where
  update_at-Goes :
      (i : Index) (s : Poller K) (p : ℕ) (c : Channel) (e : Interest)
      → Inv E s
      → c.fd ≡ (s.channel p).fd
      → c.index ≡ i
      → (i ≡ new → s.channels c.fd ≡ none)
      → Owned i e p (s.channels c.fd) (E.watched s.kernel c.fd)
      → Goes E (update_at E i c p (record s { channel = set p c s.channel }))
  update_at-Goes new s p c e v f i free o = update-new E s p c v f (free refl)
  update_at-Goes added s p c e v f i free (here, old) = update-added E s p c (e, p) v f i here old
  update_at-Goes deleted s p c e v f i free (here, absent, n) =
      update-deleted E s p c v f here absent

  pub change-Goes :
      (g : Interest → Interest) (p : ℕ) (s : Poller K)
      → Inv E s
      → CanUpdate E p s
      → Goes E (change E g p s)
  unfolding change update_channel
  change-Goes g p s v free =
      let old = s.channel p in
      let c : Channel = record old { events = g old.events } in
      let s1 : Poller K = record s { channel = set p c s.channel } in
      subst (λ (d : Channel). Goes E (update_at E d.index d p s1)) (sym (set-same p c s.channel))
        (update_at-Goes old.index s p c old.events v refl refl free (v.own p))

  -- The state after a removal, with what was done to the kernel.
  removed-Inv :
      (s : Poller K) (p : ℕ) (k : K)
      → Inv E s
      → s.channels (s.channel p).fd ≡ some p
      → E.watched k (s.channel p).fd ≡ none
      → ((i : ℕ) → i ≢ (s.channel p).fd → E.watched k i ≡ E.watched s.kernel i)
      → Inv E (record {
        channel = set p (with_index new (s.channel p)) s.channel;
        channels = set (s.channel p).fd none s.channels;
        kernel = k;
      })
  removed-Inv s p k v here w o =
      let c = with_index new (s.channel p) in
      made-Inv E s p c (set p c s.channel) (set c.fd none s.channels) k v refl
        (set-same p c s.channel) (λ q. set-other p q c s.channel)
        (λ i. set-other c.fd i none s.channels) o (inr here) (set-same c.fd none s.channels, w)

  remove_at-Goes :
      (i : Index) (s : Poller K) (p : ℕ)
      → Inv E s
      → i ≢ new
      → s.channels (s.channel p).fd ≡ some p
      → Owned i
          (s.channel p).events
          p
          (s.channels (s.channel p).fd)
          (E.watched s.kernel (s.channel p).fd)
      → Goes E (
          remove_at E i
            (s.channel p)
            p
            (record s { channels = set (s.channel p).fd none s.channels }))
  remove_at-Goes new s p v n here o = elim (n refl) [ ]
  remove_at-Goes added s p v n here (a, w) =
      let c = s.channel p in
      let d : Interest × ℕ = (c.events, p) in
      let k = (E.ctl ctl_del c.fd d s.kernel).1 in
      (
        index_as E new c p (forget E c p (record s { channels = set c.fd none s.channels })),
        refl,
        removed-Inv s p k v here
            (E.del-watched c.fd c.fd d d s.kernel w ∙ set-same c.fd none (E.watched s.kernel))
            (λ i m.
              E.del-watched c.fd i d d s.kernel w ∙ set-other c.fd i none (E.watched s.kernel) m),
      )
  remove_at-Goes deleted s p v n here (a, w, e) =
      let c = s.channel p in
      (
        index_as E new c p (record s { channels = set c.fd none s.channels }),
        refl,
        removed-Inv s p s.kernel v here w (λ i m. refl),
      )

  pub remove-Goes :
      (p : ℕ) (s : Poller K)
      → Inv E s
      → (s.channel p).index ≢ new
      → is_none (s.channel p).events ≡ true
      → Goes E (remove_channel E p s)
  unfolding remove_channel
  remove-Goes p s v n e =
      let c = s.channel p in
      let here = Owned-at E c.index c.events p _ _ n (v.own p) in
      let rest = remove_at E c.index c p (record s { channels = set c.fd none s.channels }) in
      subst (λ b. Goes E (assert b (assert (is_none c.events) rest)))
        (sym (is_at_refl (s.channels c.fd) p here))
        (subst (λ b. Goes E (assert b rest)) (sym e)
          (remove_at-Goes c.index s p v n here (v.own p)))

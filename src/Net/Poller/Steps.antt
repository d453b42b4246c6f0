-- ===== src/Net/Poller/Steps.antt =====
-- Each operation of the poller from a valid state.
use mathlib.Core.Path.{subst}
use cloud_storge_system.Common.{
  ℕ, ◌≡◌, ◌≢◌, ◌==◌, ◌∙◌, ◌⊎◌, sym, ap, refl, inl, inr, true, Option, none, some, arith, set,
  set-same, set-other, if-cases, if◌then◌else◌,
}
use cloud_storge_system.Net.Poller.{
  Interest, is_none, new, added, deleted, Channel, ctl_add, ctl_mod, ctl_del, Epoll, Poller, assert,
  is_at, is_absent, with_index, checked, update, forget, index_as, update_at,
}
use cloud_storge_system.Net.Poller.Agree.{Entry, Local, Inv, Differs-Inv, alone_at}

pub is_at_refl : (o : Option ℕ) (p : ℕ) → o ≡ some p → is_at o p ≡ true
is_at_refl o p e = ap (λ o. is_at o p) e ∙ same p
  where
    same : (p : ℕ) → (p == p) ≡ true
    same p = ground arith

module _ {K : Type 0} (E : Epoll K) where
  -- The call succeeds with a valid state.
  abbrev pub Goes : Option (Poller K) → Type 0
  Goes o = (t : Poller K) × (o ≡ some t) × Inv E t

  -- A state made from a valid one by writing one channel, its map entry and the kernel.
  pub made-Inv :
      (s : Poller K) (p : ℕ) (d : Channel) (ch : ℕ → Channel) (m : ℕ → Option ℕ) (k : K)
      → Inv E s
      → d.fd ≡ (s.channel p).fd
      → ch p ≡ d
      → ((q : ℕ) → q ≢ p → ch q ≡ s.channel q)
      → ((i : ℕ) → i ≢ d.fd → m i ≡ s.channels i)
      → ((i : ℕ) → i ≢ d.fd → E.watched k i ≡ E.watched s.kernel i)
      → (s.channels d.fd ≡ none) ⊎ (s.channels d.fd ≡ some p)
      → Local d.index d.events p (m d.fd) (E.watched k d.fd)
      → Inv E (record { channel = ch; channels = m; kernel = k })
  made-Inv s p d ch m k v f e o n w free l =
      Differs-Inv E s (record { channel = ch; channels = m; kernel = k }) p d.fd v
        (record {
          before = sym f;
          after = ap (λ c. c.fd) e;
          other_channels = o;
          other_entries = n;
          other_watched = w;
          alone = λ q. alone_at E s p d.fd q v free;
          here =
              subst (λ (c : Channel). Local c.index c.events p (m d.fd) (E.watched k d.fd)) (sym e)
                l;
        })

  -- A channel written twice.
  twice : (p q : ℕ) (c d : Channel) (ch : ℕ → Channel) → q ≢ p → set p d (set p c ch) q ≡ ch q
  twice p q c d ch n = set-other p q d (set p c ch) n ∙ set-other p q c ch n

  -- The channel is new with a free descriptor, or it is known.
  abbrev pub CanUpdate : ℕ → Poller K → Type 0
  CanUpdate p s = (s.channel p).index ≡ new → s.channels (s.channel p).fd ≡ none

  unwatched :
      (s : Poller K) (fd : ℕ) → Inv E s → s.channels fd ≡ none → E.watched s.kernel fd ≡ none
  unwatched s fd v free =
      subst (λ o. Entry s.channel fd o (E.watched s.kernel fd)) free (v.entry fd)

  pub update-new :
      (s : Poller K) (p : ℕ) (c : Channel)
      → Inv E s
      → c.fd ≡ (s.channel p).fd
      → s.channels c.fd ≡ none
      → Goes (update_at E new c p (record s { channel = set p c s.channel }))
  update-new s p c v f free =
      let absent = unwatched s c.fd v free in
      let k = (E.ctl ctl_add c.fd (c.events, p) s.kernel).1 in
      let t : Poller K = record {
        channel = set p (with_index added c) (set p c s.channel);
        channels = set c.fd (some p) s.channels;
        kernel = k;
      } in
      (
        t,
        ap
              (λ o. assert (is_absent o) (
                checked E (E.ctl ctl_add c.fd (c.events, p) s.kernel)
                  (record t { kernel = s.kernel })))
              free
            ∙ ap (λ b. checked E (b, k) (record t { kernel = s.kernel }))
                (E.add-ok c.fd (c.events, p) s.kernel absent),
        made-Inv s p (with_index added c) t.channel t.channels k v f
            (set-same p (with_index added c) (set p c s.channel))
            (λ q. twice p q c (with_index added c) s.channel)
            (λ i. set-other c.fd i (some p) s.channels)
            (λ i n.
              E.add-watched c.fd i (c.events, p) s.kernel absent
              ∙ set-other c.fd i (some (c.events, p)) (E.watched s.kernel) n)
            (inl free)
            (
              set-same c.fd (some p) s.channels,
              E.add-watched c.fd c.fd (c.events, p) s.kernel absent
                  ∙ set-same c.fd (some (c.events, p)) (E.watched s.kernel),
            ),
      )

  pub update-deleted :
      (s : Poller K) (p : ℕ) (c : Channel)
      → Inv E s
      → c.fd ≡ (s.channel p).fd
      → s.channels c.fd ≡ some p
      → E.watched s.kernel c.fd ≡ none
      → Goes (update_at E deleted c p (record s { channel = set p c s.channel }))
  update-deleted s p c v f here absent =
      let k = (E.ctl ctl_add c.fd (c.events, p) s.kernel).1 in
      let t : Poller K = record {
        channel = set p (with_index added c) (set p c s.channel);
        channels = s.channels;
        kernel = k;
      } in
      (
        t,
        ap
              (λ b. assert b (
                checked E (E.ctl ctl_add c.fd (c.events, p) s.kernel)
                  (record t { kernel = s.kernel })))
              (is_at_refl (s.channels c.fd) p here)
            ∙ ap (λ b. checked E (b, k) (record t { kernel = s.kernel }))
                (E.add-ok c.fd (c.events, p) s.kernel absent),
        made-Inv s p (with_index added c) t.channel t.channels k v f
            (set-same p (with_index added c) (set p c s.channel))
            (λ q. twice p q c (with_index added c) s.channel) (λ i n. refl)
            (λ i n.
              E.add-watched c.fd i (c.events, p) s.kernel absent
              ∙ set-other c.fd i (some (c.events, p)) (E.watched s.kernel) n)
            (inr here)
            (
              here,
              E.add-watched c.fd c.fd (c.events, p) s.kernel absent
                  ∙ set-same c.fd (some (c.events, p)) (E.watched s.kernel),
            ),
      )

  -- The last event of a channel is taken away.
  update-none :
      (s : Poller K) (p : ℕ) (c : Channel) (d : Interest × ℕ)
      → Inv E s
      → c.fd ≡ (s.channel p).fd
      → s.channels c.fd ≡ some p
      → E.watched s.kernel c.fd ≡ some d
      → is_none c.events ≡ true
      → Inv E (index_as E deleted c p (forget E c p (record s { channel = set p c s.channel })))
  update-none s p c d v f here old e =
      let k = (E.ctl ctl_del c.fd (c.events, p) s.kernel).1 in
      made-Inv s p (with_index deleted c) (set p (with_index deleted c) (set p c s.channel))
        s.channels k v f (set-same p (with_index deleted c) (set p c s.channel))
        (λ q. twice p q c (with_index deleted c) s.channel) (λ i n. refl)
        (λ i n.
          E.del-watched c.fd i (c.events, p) d s.kernel old
          ∙ set-other c.fd i none (E.watched s.kernel) n)
        (inr here)
        (
          here,
          E.del-watched c.fd c.fd (c.events, p) d s.kernel old
              ∙ set-same c.fd none (E.watched s.kernel),
          e,
        )

  update-mod :
      (s : Poller K) (p : ℕ) (c : Channel) (d : Interest × ℕ)
      → Inv E s
      → c.fd ≡ (s.channel p).fd
      → c.index ≡ added
      → s.channels c.fd ≡ some p
      → E.watched s.kernel c.fd ≡ some d
      → Goes (update E ctl_mod c p (record s { channel = set p c s.channel }))
  update-mod s p c d v f i here old =
      let k = (E.ctl ctl_mod c.fd (c.events, p) s.kernel).1 in
      let t : Poller K = record {
        channel = set p c s.channel;
        channels = s.channels;
        kernel = k;
      } in
      (
        t,
        ap (λ b. checked E (b, k) (record t { kernel = s.kernel }))
            (E.mod-ok c.fd (c.events, p) d s.kernel old),
        made-Inv s p c t.channel t.channels k v f (set-same p c s.channel)
            (λ q. set-other p q c s.channel) (λ i n. refl)
            (λ i n.
              E.mod-watched c.fd i (c.events, p) d s.kernel old
              ∙ set-other c.fd i (some (c.events, p)) (E.watched s.kernel) n)
            (inr here)
            (subst (λ i. Local i c.events p (s.channels c.fd) (E.watched k c.fd)) (sym i)
              (
                here,
                E.mod-watched c.fd c.fd (c.events, p) d s.kernel old
                    ∙ set-same c.fd (some (c.events, p)) (E.watched s.kernel),
              )),
      )

  pub update-added :
      (s : Poller K) (p : ℕ) (c : Channel) (d : Interest × ℕ)
      → Inv E s
      → c.fd ≡ (s.channel p).fd
      → c.index ≡ added
      → s.channels c.fd ≡ some p
      → E.watched s.kernel c.fd ≡ some d
      → Goes (update_at E added c p (record s { channel = set p c s.channel }))
  update-added s p c d v f i here old =
      let s1 : Poller K = record s { channel = set p c s.channel } in
      let gone = index_as E deleted c p (forget E c p s1) in
      subst (λ b. Goes (assert b (if is_none c.events then some gone else update E ctl_mod c p s1)))
        (sym (is_at_refl (s.channels c.fd) p here))
        (if-cases Goes (is_none c.events) (some gone) (update E ctl_mod c p s1)
          (λ e. (gone, refl, update-none s p c d v f here old e))
          (λ e. update-mod s p c d v f i here old))

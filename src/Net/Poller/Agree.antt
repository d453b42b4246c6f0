-- ===== src/Net/Poller/Agree.antt =====
-- The agreement of the channels, the map of the poller and the interest list.
use mathlib.Core.Path.{subst}
use cloud_storge_system.Common.{
  ℕ, ◌≡◌, ◌≢◌, ◌∙◌, sym, ap, refl, inl, inr, true, Option, ◌⊎◌, none, some, arith, nat-cases,
}
use cloud_storge_system.Net.Poller.{
  Interest, is_none, Index, new, added, deleted, Channel, Epoll, Poller,
}

-- A channel that is added stands in the map and is watched for its own events; one that is deleted
-- stands in the map, is not watched and wants no event.
abbrev pub Owned : Index → Interest → ℕ → Option ℕ → Option (Interest × ℕ) → Type 0
Owned new e p c w = Unit
Owned added e p c w = (c ≡ some p) × (w ≡ some (e, p))
Owned deleted e p c w = (c ≡ some p) × (w ≡ none) × (is_none e ≡ true)

-- The same for a channel whose descriptor no other channel has.
abbrev pub Local : Index → Interest → ℕ → Option ℕ → Option (Interest × ℕ) → Type 0
Local new e p c w = (c ≡ none) × (w ≡ none)
Local added e p c w = Owned added e p c w
Local deleted e p c w = Owned deleted e p c w

Local-Owned :
    (i : Index) (e : Interest) (p : ℕ) (c : Option ℕ) (w : Option (Interest × ℕ))
    → Local i e p c w
    → Owned i e p c w
Local-Owned new e p c w l = tt
Local-Owned added e p c w l = l
Local-Owned deleted e p c w l = l

new-cases : (i : Index) → (i ≡ new) ⊎ (i ≢ new)
new-cases new = inl refl
new-cases added = inr λ e. ground arith
new-cases deleted = inr λ e. ground arith

-- What a map and an interest list say of one descriptor agrees.
abbrev pub Entry : (ℕ → Channel) → ℕ → Option ℕ → Option (Interest × ℕ) → Type 0
Entry ch fd none w = w ≡ none
Entry ch fd (some p) w = ((ch p).fd ≡ fd) × ((ch p).index ≢ new)

Local-Entry :
    (ch : ℕ → Channel) (i : Index) (e : Interest) (p fd : ℕ) (c : Option ℕ)
    (w : Option (Interest × ℕ))
    → (ch p).fd ≡ fd
    → (ch p).index ≡ i
    → Local i e p c w
    → Entry ch fd c w
Local-Entry ch new e p fd c w f n (l, m) = subst (λ c. Entry ch fd c w) (sym l) m
Local-Entry ch added e p fd c w f n (l, m) =
    subst (λ c. Entry ch fd c w) (sym l) (f, λ h. let z = sym n ∙ h in ground (arith, z))
Local-Entry ch deleted e p fd c w f n (l, m, o) =
    subst (λ c. Entry ch fd c w) (sym l) (f, λ h. let z = sym n ∙ h in ground (arith, z))

module _ {K : Type 0} (E : Epoll K) where
  pub record Inv (s : Poller K) : Type 0 where
    pub own :
        (p : ℕ)
        → Owned
            (s.channel p).index
            (s.channel p).events
            p
            (s.channels (s.channel p).fd)
            (E.watched s.kernel (s.channel p).fd)
    pub entry : (fd : ℕ) → Entry s.channel fd (s.channels fd) (E.watched s.kernel fd)

  -- A state that differs from a valid one at one channel and its descriptor only.
  pub record Differs (s t : Poller K) (p fd : ℕ) : Type 0 where
    pub before : (s.channel p).fd ≡ fd
    pub after : (t.channel p).fd ≡ fd
    pub other_channels : (q : ℕ) → q ≢ p → t.channel q ≡ s.channel q
    pub other_entries : (i : ℕ) → i ≢ fd → t.channels i ≡ s.channels i
    pub other_watched : (i : ℕ) → i ≢ fd → E.watched t.kernel i ≡ E.watched s.kernel i
    pub alone : (q : ℕ) → q ≢ p → (s.channel q).index ≢ new → (s.channel q).fd ≢ fd
    pub here :
        Local (t.channel p).index (t.channel p).events p (t.channels fd) (E.watched t.kernel fd)

  -- What the map says of a channel that is not new names that channel.
  pub Owned-at :
      (i : Index) (e : Interest) (p : ℕ) (c : Option ℕ) (w : Option (Interest × ℕ))
      → i ≢ new
      → Owned i e p c w
      → c ≡ some p
  Owned-at new e p c w n o = elim (n refl) [ ]
  Owned-at added e p c w n o = o.0
  Owned-at deleted e p c w n o = o.0

  own-other :
      (s t : Poller K) (p fd q : ℕ)
      → Inv s
      → Differs s t p fd
      → q ≢ p
      → Owned
          (s.channel q).index
          (s.channel q).events
          q
          (t.channels (s.channel q).fd)
          (E.watched t.kernel (s.channel q).fd)
  own-other s t p fd q v d n = elim (new-cases (s.channel q).index) [
    | inl e ↦
        subst
          (λ i.
            Owned i (s.channel q).events q (t.channels (s.channel q).fd)
              (E.watched t.kernel (s.channel q).fd))
          (sym e) tt
    | inr h ↦
        let c = s.channel q in
        let m = d.alone q n h in
        subst (λ o. Owned c.index c.events q o (E.watched t.kernel c.fd))
          (sym (d.other_entries c.fd m))
          (subst (λ w. Owned c.index c.events q (s.channels c.fd) w) (sym (d.other_watched c.fd m))
            (v.own q))
  ]

  entry-other :
      (s t : Poller K) (p fd i : ℕ) (o : Option ℕ)
      → Differs s t p fd
      → i ≢ fd
      → Entry s.channel i o (E.watched s.kernel i)
      → Entry t.channel i o (E.watched t.kernel i)
  entry-other s t p fd i none d n e = d.other_watched i n ∙ e
  entry-other s t p fd i (some q) d n (e, h) =
      let m : q ≢ p = λ r. n (sym e ∙ ap (λ j. (s.channel j).fd) r ∙ d.before) in
      subst (λ c. (c.fd ≡ i) × (c.index ≢ new)) (sym (d.other_channels q m)) (e, h)

  -- Such a state is valid too.
  pub Differs-Inv : (s t : Poller K) (p fd : ℕ) → Inv s → Differs s t p fd → Inv t
  Differs-Inv s t p fd v d = record {
    own = λ q. elim (nat-cases q p) [
      | inl e ↦
          subst
            (λ q.
              Owned (t.channel q).index (t.channel q).events q (t.channels (t.channel q).fd)
                (E.watched t.kernel (t.channel q).fd))
            (sym e)
            (subst
              (λ f.
                Owned (t.channel p).index (t.channel p).events p (t.channels f)
                  (E.watched t.kernel f))
              (sym d.after) (Local-Owned (t.channel p).index (t.channel p).events p _ _ d.here))
      | inr n ↦
          subst (λ c. Owned c.index c.events q (t.channels c.fd) (E.watched t.kernel c.fd))
            (sym (d.other_channels q n)) (own-other s t p fd q v d n)
    ];
    entry = λ i. elim (nat-cases i fd) [
      | inl e ↦
          subst (λ i. Entry t.channel i (t.channels i) (E.watched t.kernel i)) (sym e)
            (Local-Entry t.channel (t.channel p).index (t.channel p).events p fd _ _ d.after refl
              d.here)
      | inr n ↦
          subst (λ o. Entry t.channel i o (E.watched t.kernel i)) (sym (d.other_entries i n))
            (entry-other s t p fd i (s.channels i) d n (v.entry i))
    ];
  }

  -- Another channel that is not new has another descriptor than one that the map has, or could have.
  pub alone_at :
      (s : Poller K) (p fd q : ℕ)
      → Inv s
      → (s.channels fd ≡ none) ⊎ (s.channels fd ≡ some p)
      → q ≢ p
      → (s.channel q).index ≢ new
      → (s.channel q).fd ≢ fd
  alone_at s p fd q v free n h e =
      let at : s.channels fd ≡ some q =
        ap s.channels (sym e)
        ∙ Owned-at (s.channel q).index (s.channel q).events q _ _ h (v.own q) in
      elim free [
        | inl a ↦ let z = sym a ∙ at in ground (arith, z)
        | inr a ↦ let z = sym a ∙ at in ground (arith, z, n)
      ]

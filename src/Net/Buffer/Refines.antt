-- ===== src/Net/Buffer/Refines.antt =====
-- net/Buffer.h as a byte queue: no operation below trips an assert on a well-formed buffer, each
-- keeps it well formed, and the readable bytes change as in a plain string.
use cloud_storge_system.Common.{
  ℕ, ◌+◌, ◌-◌, ◌≤◌, ◌<◌, ◌≡◌, refl, sym, ap, ◌∙◌, inl, inr, true, false, Bytes, Option, some, [],
  ◌++◌, length, take, drop, replicate, ltb, arith, Bool-cases, append_assoc, length-append,
  take-append-drop, length-take, length-drop, length-replicate, take_all, drop_all,
}
use cloud_storge_system.Net.Buffer.{
  Buffer, cheap_prepend, content, write_at, resize, make, retrieve, make_space,
  ensure_writable_bytes, append,
}
use cloud_storge_system.Net.Buffer.Regions.{
  Inv, Regions, Regions-content, before, after, Inv-Regions, length-content, write_at-back,
  length-write_at,
}

-- The operation succeeds, on a well-formed buffer whose readable bytes are `c`.
abbrev pub Yields : Option Buffer → Bytes → Type 0
Yields o c = (b : Buffer) × (o ≡ some b) × Inv b × (content b ≡ c)

pub make-Inv : (n : ℕ) → Inv (make n)
unfolding make
make-Inv n =
    let e = length-replicate {A = ℕ} (cheap_prepend + n) 0 in
    record { ordered = omega arith; inside = omega (arith, e); roomy = omega (arith, e) }

pub content-make : (n : ℕ) → content (make n) ≡ []
unfolding make content
content-make n = refl

-- `retrieve(len)` drops the first `len` readable bytes.
pub retrieve-Yields :
    (n : ℕ) (b : Buffer)
    → Inv b
    → n ≤ length (content b)
    → Yields (retrieve n b) (drop n (content b))
retrieve-Yields n b v h = elim (Bool-cases (ltb n (b.writer - b.reader))) [
  | inl less ↦ partial less
  | inr all ↦ whole all
]
  where
    len : length (content b) ≡ b.writer - b.reader
    len = length-content b v

    r : Regions b (before b) (content b) (after b)
    r = Inv-Regions b v

    moved : Buffer
    moved = record b { reader = b.reader + n }

    parts :
        n ≤ b.writer - b.reader
        → Regions moved (before b ++ take n (content b)) (drop n (content b)) (after b)
    parts h' = record {
      split =
          r.split
          ∙ ap (λ c. before b ++ (c ++ after b)) (sym (take-append-drop n (content b)))
          ∙ simp append_assoc;
      front = omega (
        arith,
        r.front,
        length-append (before b) (take n (content b)),
        length-take n (content b),
        len,
      );
      back = omega (
        arith,
        r.front,
        r.back,
        length-append (before b) (take n (content b)),
        length-take n (content b),
        length-drop n (content b),
        len,
      );
    }

    partial : ltb n (b.writer - b.reader) ≡ true → Yields (retrieve n b) (drop n (content b))
    partial less = (
      moved,
      unfold retrieve in ground (arith, len),
      record { ordered = ground (arith, v.ordered); inside = v.inside; roomy = v.roomy },
      Regions-content _ _ _ (parts (ground arith)),
    )

    whole : ltb n (b.writer - b.reader) ≡ false → Yields (retrieve n b) (drop n (content b))
    whole all = (
      record b { reader = cheap_prepend; writer = cheap_prepend },
      unfold retrieve in ground (arith, len),
      record { ordered = omega arith; inside = v.roomy; roomy = v.roomy },
      unfold content in sym (drop_all n (content b) (ground (arith, len))),
    )

length-resize : (n : ℕ) (s : Bytes) → length s ≤ n → length (resize n s) ≡ n
unfolding resize
length-resize n s h = omega (
  arith,
  length-append (take n s) (replicate (n - length s) 0),
  length-take n s,
  length-replicate {A = ℕ} (n - length s) 0,
)

-- The vector grows at its end: the readable bytes stay.
grow-Regions :
    (n : ℕ) (b : Buffer) (p c t : Bytes)
    → Regions b p c t
    → length b.storage ≤ n
    → Regions
        (record b { storage = resize n b.storage })
        p
        c
        (t ++ replicate (n - length b.storage) 0)
unfolding resize
grow-Regions n b p c t r h = record {
  split =
      rw (take_all n b.storage h)
        (ap (λ s. s ++ replicate (n - length b.storage) 0) r.split ∙ simp append_assoc);
  front = r.front;
  back = r.back;
}

-- The readable bytes move to the front.
compact-Regions :
    (b : Buffer)
    → Inv b
    → Regions
        (record {
          storage = write_at cheap_prepend (content b) b.storage;
          reader = cheap_prepend;
          writer = cheap_prepend + (b.writer - b.reader);
        })
        (take cheap_prepend b.storage)
        (content b)
        (drop (cheap_prepend + length (content b)) b.storage)
unfolding write_at
compact-Regions b v = record {
  split = refl;
  front = omega (arith, v.roomy, length-take cheap_prepend b.storage);
  back = omega (arith, v.roomy, length-take cheap_prepend b.storage, length-content b v);
}

-- The buffer has room for `n` more bytes, and reads as before.
abbrev pub Room : Option Buffer → ℕ → Bytes → Type 0
Room o n c =
    (b : Buffer) × (o ≡ some b) × Inv b × (content b ≡ c) × (n ≤ length b.storage - b.writer)

compact-length :
    (b : Buffer)
    → Inv b
    → cheap_prepend + (b.writer - b.reader) ≤ length b.storage
    → length (write_at cheap_prepend (content b) b.storage) ≡ length b.storage
compact-length b v h =
    length-write_at cheap_prepend (content b) b.storage (omega (arith, length-content b v))

make_space-Room :
    (n : ℕ) (b : Buffer)
    → Inv b
    → length b.storage - b.writer < n
    → Room (make_space n b) n (content b)
make_space-Room n b v h =
    elim (Bool-cases (ltb ((length b.storage - b.writer) + b.reader) (n + cheap_prepend))) [
      | inl full ↦ (
        record b { storage = resize (b.writer + n) b.storage },
        unfold make_space in ground arith,
        record {
          ordered = v.ordered;
          inside = omega (arith, grown, v.inside);
          roomy = omega (arith, grown, v.inside, v.roomy);
        },
        Regions-content _ _ _ (grow-Regions (b.writer + n) b _ _ _ (Inv-Regions b v) (omega arith)),
        omega (arith, grown, v.inside),
      )
      | inr spare ↦
          let kept = compact-length b v (ground (arith, v.ordered, v.inside)) in
          (
            record {
              storage = write_at cheap_prepend (content b) b.storage;
              reader = cheap_prepend;
              writer = cheap_prepend + (b.writer - b.reader);
            },
            unfold make_space in ground (arith, v.ordered, v.inside),
            record {
              ordered = omega arith;
              inside = ground (arith, kept, v.ordered, v.inside);
              roomy = omega (arith, kept, v.roomy);
            },
            Regions-content _ _ _ (compact-Regions b v),
            ground (arith, kept, v.ordered, v.inside),
          )
    ]
  where
    grown : length (resize (b.writer + n) b.storage) ≡ b.writer + n
    grown = length-resize (b.writer + n) b.storage (omega arith)

-- `ensureWritableBytes(len)` on a well-formed buffer gives room for `len` bytes, trips no assert,
-- and leaves the readable bytes as they were.
pub ensure-Room : (n : ℕ) (b : Buffer) → Inv b → Room (ensure_writable_bytes n b) n (content b)
ensure-Room n b v = elim (Bool-cases (ltb (length b.storage - b.writer) n)) [
  | inl short ↦
      let (b', made, v', same, room) = make_space-Room n b v (ground arith) in
      (b', unfold ensure_writable_bytes in ground (arith, made, room), v', same, room)
  | inr enough ↦ (b, unfold ensure_writable_bytes in ground arith, v, refl, ground arith)
]

-- Writing behind the readable bytes, where there is room.
pub written-Regions :
    (b : Buffer) (text p c t : Bytes)
    → Regions b p c t
    → Regions
        (record b { storage = write_at b.writer text b.storage; writer = b.writer + length text })
        p
        (c ++ text)
        (drop (length text) t)
written-Regions b text p c t r = record {
  split =
      ap (λ s. write_at b.writer text s) r.split
      ∙ ap (λ i. write_at i text (p ++ (c ++ t))) r.back
      ∙ write_at-back p c t text;
  front = r.front;
  back = omega (arith, r.back, length-append c text);
}

pub written-Inv :
    (b : Buffer) (text : Bytes)
    → Inv b
    → length text ≤ length b.storage - b.writer
    → Inv (record b { storage = write_at b.writer text b.storage; writer = b.writer + length text })
written-Inv b text v h =
    let e = length-write_at b.writer text b.storage (omega (arith, v.inside)) in
    record {
      ordered = omega (arith, v.ordered);
      inside = omega (arith, e, v.inside);
      roomy = omega (arith, e, v.roomy);
    }

-- `append` on a well-formed buffer adds its bytes behind the readable ones, whatever their number,
-- and leaves the buffer well-formed.
pub append-Yields : (text : Bytes) (b : Buffer) → Inv b → Yields (append text b) (content b ++ text)
append-Yields text b v =
    let (b', made, v', same, room) = ensure-Room (length text) b v in
    let e = length-write_at b'.writer text b'.storage (omega (arith, v'.inside)) in
    (
      record b' { storage = write_at b'.writer text b'.storage; writer = b'.writer + length text },
      unfold append in ground (arith, made, e, room),
      written-Inv b' text v' room,
      Regions-content _ _ _ (written-Regions b' text _ _ _ (Inv-Regions b' v'))
          ∙ ap (λ c. c ++ text) same,
    )

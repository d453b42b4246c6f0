-- ===== src/Net/Buffer/Whole.antt =====
-- net/Buffer.h as a byte queue, continued: taking text out, prepending, shrinking, readv.
use mathlib.Core.Path.{subst}
use cloud_storge_system.Common.{
  ℕ, ◌+◌, ◌-◌, ◌≤◌, ◌<◌, ◌≡◌, sym, ap, ◌∙◌, inl, inr, Bytes, some, ◌++◌, length, take, drop, leb,
  arith, Bool-cases, append_assoc, length-append, take-append-drop, length-take, length-drop,
  take-append_left, drop-append_left, take_all, drop-append_add,
}
use cloud_storge_system.Net.Buffer.{
  Buffer, initial_size, content, write_at, make, retrieve_as_string, unwrite, prepend, shrink,
  received, read_fd, offered,
}
use cloud_storge_system.Net.Buffer.Regions.{
  Inv, Regions, Regions-content, before, after, Inv-Regions, length-content, length-before,
  length-write_at,
}
use cloud_storge_system.Net.Buffer.Refines.{
  Yields, make-Inv, content-make, retrieve-Yields, ensure-Room, append-Yields, written-Regions,
  written-Inv,
}

-- `retrieveAsString(len)` on a well-formed buffer with at least `len` readable bytes gives the
-- first `len` of them and drops them.
pub retrieve_as_string-Yields :
    (n : ℕ) (b : Buffer)
    → Inv b
    → n ≤ length (content b)
    → (b' : Buffer) × (retrieve_as_string n b ≡ some (take n (content b), b'))
      × Inv b'
      × (content b' ≡ drop n (content b))
retrieve_as_string-Yields n b v h =
    let (b', taken, v', e) = retrieve-Yields n b v h in
    (b', unfold retrieve_as_string in ground (arith, taken, length-content b v), v', e)

-- `unwrite(len)` on a well-formed buffer with at least `len` readable bytes drops the last `len` of
-- them.
pub unwrite-Yields :
    (n : ℕ) (b : Buffer)
    → Inv b
    → n ≤ length (content b)
    → Yields (unwrite n b) (take (length (content b) - n) (content b))
unwrite-Yields n b v h =
    let r = Inv-Regions b v in
    let len = length-content b v in
    let m = length (content b) - n in
    let r' : Regions (record b { writer = b.writer - n }) (before b) (take m (content b))
        (drop m (content b) ++ after b) =
      record {
        split =
            r.split
            ∙ ap (λ c. before b ++ (c ++ after b)) (sym (take-append-drop m (content b)))
            ∙ simp append_assoc;
        front = r.front;
        back = omega (arith, r.front, r.back, length-take m (content b), h);
      } in
    (
      record b { writer = b.writer - n },
      unfold unwrite in ground (arith, len),
      record {
        ordered = omega (arith, len, v.ordered, h);
        inside = omega (arith, v.inside);
        roomy = v.roomy;
      },
      Regions-content _ _ _ r',
    )

-- A copy over the bytes `q`, which are as many.
write_at-over :
    (p q s text : Bytes)
    → length q ≡ length text
    → write_at (length p) text (p ++ (q ++ s)) ≡ p ++ (text ++ s)
unfolding write_at
write_at-over p q s text h = rw (
  take-append_left p (q ++ s),
  drop-append_add (length text) p (q ++ s),
  ← h,
  drop-append_left q s,
)

prepended-Regions :
    (b : Buffer) (text p q c t : Bytes)
    → Regions b (p ++ q) c t
    → length q ≡ length text
    → Regions
        (record b {
          storage = write_at (b.reader - length text) text b.storage;
          reader = b.reader - length text;
        })
        p
        (text ++ c)
        t
prepended-Regions b text p q c t r h =
    let start : b.reader - length text ≡ length p = omega (arith, r.front, length-append p q, h) in
    record {
      split =
          ap (λ i. write_at i text b.storage) start
          ∙ ap (λ s. write_at (length p) text s) (r.split ∙ append_assoc p q (c ++ t))
          ∙ write_at-over p q (c ++ t) text h
          ∙ ap (λ s. p ++ s) (sym (append_assoc text c t));
      front = start;
      back = omega (arith, r.back, length-append p q, length-append text c, h);
    }

-- `prepend` on a well-formed buffer puts its bytes before the readable ones, if they fit before
-- `readerIndex`.
pub prepend-Yields :
    (text : Bytes) (b : Buffer)
    → Inv b
    → length text ≤ b.reader
    → Yields (prepend text b) (text ++ content b)
prepend-Yields text b v h =
    let r = Inv-Regions b v in
    let k = b.reader - length text in
    let len = length-before b v in
    let r' =
      prepended-Regions b text (take k (before b)) (drop k (before b)) (content b) (after b)
        (record {
          split =
              r.split ∙ ap (λ p. p ++ (content b ++ after b)) (sym (take-append-drop k (before b)));
          front = r.front ∙ ap length (sym (take-append-drop k (before b)));
          back =
              r.back
              ∙ ap (λ p. length p + length (content b)) (sym (take-append-drop k (before b)));
        })
        (omega (arith, len, h, length-drop k (before b))) in
    (
      record b { storage = write_at k text b.storage; reader = k },
      unfold prepend in ground arith,
      record {
        ordered = omega (arith, v.ordered);
        inside = omega (arith, length-write_at k text b.storage, v.ordered, v.inside, h);
        roomy = omega (arith, length-write_at k text b.storage, v.ordered, v.inside, v.roomy, h);
      },
      Regions-content _ _ _ r',
    )

-- `shrink` on a well-formed buffer copies the readable bytes into a fresh well-formed buffer.
pub shrink-Yields : (reserve : ℕ) (b : Buffer) → Inv b → Yields (shrink reserve b) (content b)
shrink-Yields reserve b v =
    let (o, made, v', e, room) =
      ensure-Room ((b.writer - b.reader) + reserve) (make initial_size) (make-Inv initial_size) in
    let (b', added, v'', e') = append-Yields (content b) o v' in
    (
      b',
      unfold shrink in ground (arith, made, added),
      v'',
      e' ∙ ap (λ c. c ++ content b) (e ∙ content-make initial_size),
    )

-- `readFd` on a well-formed buffer adds what readv read behind the readable bytes, also when it
-- overflows into the second block, provided that readv fills no more than it was offered.
pub read_fd-Yields :
    (text : Bytes) (b : Buffer)
    → Inv b
    → length text ≤ offered b
    → Yields (read_fd (received text) b) (content b ++ text)
read_fd-Yields text b v h = elim (Bool-cases (leb (length text) (length b.storage - b.writer))) [
  | inl fits ↦
      let all : take (length b.storage - b.writer) text ≡ text = take_all _ text (ground arith) in
      (
        record b { storage = write_at b.writer text b.storage; writer = b.writer + length text },
        unfold read_fd in ground (arith, all),
        written-Inv b text v (ground arith),
        Regions-content _ _ _ (written-Regions b text _ _ _ (Inv-Regions b v)),
      )
  | inr over ↦ spilt (ground arith)
]
  where
    w : ℕ
    w = length b.storage - b.writer

    full : Buffer
    full = record b {
      storage = write_at b.writer (take w text) b.storage;
      writer = length b.storage;
    }

    spilt : w < length text → Yields (read_fd (received text) b) (content b ++ text)
    spilt more =
        let len : length (take w text) ≡ w = omega (arith, length-take w text) in
        let e : b.writer + length (take w text) ≡ length b.storage = omega (arith, v.inside, len) in
        let same : record b {
          storage = write_at b.writer (take w text) b.storage;
          writer = b.writer + length (take w text);
        }
            ≡ full =
          ap (λ i. record b { storage = write_at b.writer (take w text) b.storage; writer = i })
            e in
        let v' = subst Inv same (written-Inv b (take w text) v (omega (arith, len))) in
        let c' : content full ≡ content b ++ take w text =
          ap content (sym same)
          ∙ Regions-content _ _ _ (written-Regions b (take w text) _ _ _ (Inv-Regions b v)) in
        let (b', added, v'', e') = append-Yields (drop w text) full v' in
        (
          b',
          unfold read_fd in ground (arith, added),
          v'',
          e'
              ∙ ap (λ c. c ++ drop w text) c'
              ∙ append_assoc (content b) (take w text) (drop w text)
              ∙ ap (λ s. content b ++ s) (take-append-drop w text),
        )

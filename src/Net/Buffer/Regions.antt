-- ===== src/Net/Buffer/Regions.antt =====
-- The three regions of net/Buffer.h (prependable, readable, writable), as a relation between a
-- buffer and three byte strings, and the well-formedness that makes them exist.
use cloud_storge_system.Common.{
  ℕ, ◌+◌, ◌-◌, ◌≤◌, ◌≡◌, sym, ap, ◌∙◌, Bytes, ◌++◌, length, take, drop, arith, append_assoc,
  length-append, take-append-drop, length-take, length-drop, take-append_left, drop-append_left,
  take-append_add, drop-append_add,
}
use native.Mathlib.Nat.{add_assoc}
use cloud_storge_system.Net.Buffer.{Buffer, cheap_prepend, content, write_at}

-- readerIndex <= writerIndex <= size, and room for the cheap prepend.
pub record Inv (b : Buffer) : Type 0 where
  pub ordered : b.reader ≤ b.writer
  pub inside : b.writer ≤ length b.storage
  pub roomy : cheap_prepend ≤ length b.storage

-- The prependable bytes are `p`, the readable ones `c`, the writable ones `t`.
pub record Regions (b : Buffer) (p c t : Bytes) : Type 0 where
  pub split : b.storage ≡ p ++ (c ++ t)
  pub front : b.reader ≡ length p
  pub back : b.writer ≡ length p + length c

pub length_split : (p c t : Bytes) → length (p ++ (c ++ t)) ≡ length p + (length c + length t)
length_split p c t = omega (arith, length-append p (c ++ t), length-append c t)

pub Regions-content : {b : Buffer} (p c t : Bytes) → Regions b p c t → content b ≡ c
unfolding content
Regions-content {b} p c t r =
    let e : b.writer - b.reader ≡ length c = omega (arith, r.front, r.back) in
    rw (e, r.front, r.split, drop-append_left p (c ++ t)) (take-append_left c t)

pub Regions-Inv :
    {b : Buffer} (p c t : Bytes)
    → Regions b p c t
    → cheap_prepend ≤ length p + (length c + length t)
    → Inv b
Regions-Inv {b} p c t r h = record {
  ordered = omega (arith, r.front, r.back);
  inside = omega (arith, r.back, ap length r.split, length_split p c t);
  roomy = omega (arith, ap length r.split, length_split p c t);
}

abbrev pub before : Buffer → Bytes
before b = take b.reader b.storage

abbrev pub after : Buffer → Bytes
after b = drop (b.writer - b.reader) (drop b.reader b.storage)

pub Inv-Regions : (b : Buffer) → Inv b → Regions b (before b) (content b) (after b)
unfolding content
Inv-Regions b v = record {
  split =
      sym (take-append-drop b.reader b.storage)
      ∙ ap (λ s. before b ++ s)
          (sym (take-append-drop (b.writer - b.reader) (drop b.reader b.storage)));
  front = omega (arith, v.ordered, v.inside, length-take b.reader b.storage);
  back = omega (
    arith,
    v.ordered,
    v.inside,
    length-take b.reader b.storage,
    length-take (b.writer - b.reader) (drop b.reader b.storage),
    length-drop b.reader b.storage,
  );
}

pub length-content : (b : Buffer) → Inv b → length (content b) ≡ b.writer - b.reader
length-content b v = let r = Inv-Regions b v in omega (arith, r.front, r.back)

pub length-after : (b : Buffer) → Inv b → length (after b) ≡ length b.storage - b.writer
length-after b v =
    let r = Inv-Regions b v in
    omega (arith, r.front, r.back, ap length r.split, length_split (before b) (content b) (after b))

pub length-before : (b : Buffer) → Inv b → length (before b) ≡ b.reader
length-before b v = sym (Inv-Regions b v).front

-- A copy to the place behind `p` and `c`.
pub write_at-back :
    (p c t text : Bytes)
    → write_at (length p + length c) text (p ++ (c ++ t))
      ≡ p ++ ((c ++ text) ++ drop (length text) t)
unfolding write_at
write_at-back p c t text =
    rw
      (
        take-append_add (length c) p (c ++ t),
        take-append_left c t,
        add_assoc (length p) (length c) (length text),
        drop-append_add (length c + length text) p (c ++ t),
        drop-append_add (length text) c t,
      )
      (simp append_assoc)

pub length-write_at :
    (i : ℕ) (text s : Bytes) → i + length text ≤ length s → length (write_at i text s) ≡ length s
unfolding write_at
length-write_at i text s h = omega (
  arith,
  length-append (take i s) (text ++ drop (i + length text) s),
  length-append text (drop (i + length text) s),
  length-take i s,
  length-drop (i + length text) s,
)

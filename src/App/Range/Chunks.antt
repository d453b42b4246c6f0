-- ===== src/App/Range/Chunks.antt =====
-- The chunks of a download: `readNextChunk`, called until the file ends.
use cloud_storge_system.Common.{
  ℕ, zero, suc, ◌+◌, ◌-◌, ◌^◌, ◌%◌, ◌≤◌, ◌<◌, ◌≡◌, ◌≢◌, refl, sym, ap, ◌∙◌, min, true, false, Bytes,
  Option, none, some, List, [], ◌∷◌, ◌++◌, ltb, ◌==◌, length, take, drop, All, arith, inl, inr,
  Bool-cases, length-take, length-drop, take-append-drop, drop_all, drop-drop,
}
use cloud_storge_system.App.World.{Download}
use cloud_storge_system.App.Range.{chunk_size, read_next_chunk, send_all}

-- The bytes of the chunks, one after another.
pub joined : List Bytes → Bytes
joined [] = []
joined (c ∷ cs) = c ++ joined cs

left_over :
    (size pos : ℕ) → pos ≤ size → size < 2 ^ 64 → (size + 2 ^ 64 - pos) % 2 ^ 64 ≡ size - pos
left_over size pos h b = omega arith

-- A download of the file `content` from a position within it.
pub record Opened (content : Bytes) (d : Download) : Type 0 where
  pub sized : length content ≡ d.file_size
  pub small : d.file_size < 2 ^ 64
  pub inside : d.position ≤ d.file_size
  pub running : d.is_complete ≡ false

-- How many bytes the next chunk has.
next_size : Download → ℕ
next_size d = min chunk_size (d.file_size - d.position)

advanced : Download → Download
advanced d = record d { position = d.position + next_size d }

read-end :
    (content : Bytes) (d : Download)
    → Opened content d
    → d.file_size ≡ d.position
    → read_next_chunk content d ≡ (none, record d { is_complete = true })
unfolding read_next_chunk next_size
read-end content d o e =
    let z : (next_size d == 0) ≡ true = ground (arith, e) in
    rw (left_over d.file_size d.position o.inside o.small, o.running, z) refl

read-more :
    (content : Bytes) (d : Download)
    → Opened content d
    → d.position < d.file_size
    → read_next_chunk content d ≡ (some (take (next_size d) (drop d.position content)), advanced d)
unfolding read_next_chunk next_size advanced
read-more content d o h =
    let z : (next_size d == 0) ≡ false = ground (arith, h) in
    rw (left_over d.file_size d.position o.inside o.small, o.running, z) refl

-- What one call reads: not empty, and at most 1 MB.
abbrev pub IsChunk : Bytes → Type 0
IsChunk c = (c ≢ []) × (length c ≤ chunk_size)

advanced-Opened :
    (content : Bytes) (d : Download)
    → Opened content d
    → d.position < d.file_size
    → Opened content (advanced d)
unfolding advanced next_size
advanced-Opened content d o h = record {
  sized = o.sized;
  small = o.small;
  inside = omega (arith, h);
  running = o.running;
}

take-IsChunk :
    (content : Bytes) (d : Download)
    → Opened content d
    → d.position < d.file_size
    → IsChunk (take (next_size d) (drop d.position content))
unfolding next_size
take-IsChunk content d o h =
    let a = length-take (next_size d) (drop d.position content) in
    let b = length-drop d.position content in
    (λ e. omega (arith, a, b, o.sized, h, ap length e), omega (arith, a))

fewer :
    (calls : ℕ) (d : Download)
    → d.file_size - d.position < suc calls
    → d.position < d.file_size
    → (advanced d).file_size - (advanced d).position < calls
unfolding advanced next_size
fewer calls d h m = omega (arith, m, h)

-- One chunk, and the rest behind it.
chunk-rest :
    (content : Bytes) (d : Download)
    → take (next_size d) (drop d.position content) ++ drop (advanced d).position content
      ≡ drop d.position content
unfolding advanced
chunk-rest content d =
    ap (λ t. take (next_size d) (drop d.position content) ++ t)
      (sym (drop-drop (next_size d) d.position content))
    ∙ take-append-drop (next_size d) (drop d.position content)

-- A call that reads, and one that does not.
send_all-some :
    (calls : ℕ) (content : Bytes) (d : Download) (bs : Bytes) (d' : Download)
    → read_next_chunk content d ≡ (some bs, d')
    → send_all (suc calls) content d
      ≡ (bs ∷ (send_all calls content d').0, (send_all calls content d').1)
unfolding send_all
send_all-some calls content d bs d' e =
    ap
      (λ (r : Option Bytes × Download). elim r.0 [
        | none ↦ ([], true)
        | some c ↦ (c ∷ (send_all calls content r.1).0, (send_all calls content r.1).1)
      ])
      e

send_all-none :
    (calls : ℕ) (content : Bytes) (d d' : Download)
    → read_next_chunk content d ≡ (none, d')
    → send_all (suc calls) content d ≡ ([], true)
unfolding send_all
send_all-none calls content d d' e =
    ap
      (λ (r : Option Bytes × Download). elim r.0 [
        | none ↦ ([], true)
        | some c ↦ (c ∷ (send_all calls content r.1).0, (send_all calls content r.1).1)
      ])
      e

-- The write-complete callback on an open download of a file below 2 ^ 64 bytes, called more often
-- than bytes are left: the chunks, each not empty and at most 1 MB long, are together the file from
-- the position on to its end, and the connection is closed behind them.
pub send_all-joined :
    (calls : ℕ) (content : Bytes) (d : Download)
    → Opened content d
    → d.file_size - d.position < calls
    → (joined (send_all calls content d).0 ≡ drop d.position content)
      × ((send_all calls content d).1 ≡ true)
      × All IsChunk (send_all calls content d).0
unfolding send_all joined
send_all-joined zero content d o h = absurd (omega (arith, h))
send_all-joined (suc calls) content d o h = elim (Bool-cases (ltb d.position d.file_size)) [
  | inl more ↦
      let m : d.position < d.file_size = ground (arith, more) in
      rw (send_all-some calls content d _ (advanced d) (read-more content d o m)) (
        let ih =
          send_all-joined calls content (advanced d) (advanced-Opened content d o m)
            (fewer calls d h m) in
        (
          ap (λ t. take (next_size d) (drop d.position content) ++ t) ih.0 ∙ chunk-rest content d,
          ih.1,
          (take-IsChunk content d o m, ih.2),
        ))
  | inr less ↦
      let same : d.file_size ≡ d.position = ground (arith, less, o.inside) in
      rw (send_all-none calls content d _ (read-end content d o same))
        (sym (drop_all d.position content (omega (arith, o.sized, same))), refl, tt)
]

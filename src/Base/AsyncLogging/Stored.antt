-- ===== src/Base/AsyncLogging/Stored.antt =====
-- What each piece of the work does to the file and what waits for it.
use mathlib.Core.Path.{subst}
use cloud_storge_system.Common.{
  ℕ, ◌-◌, ◌≤◌, ◌≡◌, ◌∙◌, sym, ap, refl, true, false, Bytes, Option, none, some, List, [], ◌∷◌, ◌++◌,
  length, take, ltb, arith, if◌then◌else◌, if-cases, append_assoc, append-nil,
}
use cloud_storge_system.Base.AsyncLogging.{
  collecting, Logging, append_to, or_new, rotate, append, swap_buffers, pieces,
}
use cloud_storge_system.Base.AsyncLogging.Supply.{Spare, Back, Inv, written}

abbrev pub flat : List Bytes → Bytes
flat [] = []
flat (b ∷ bs) = b ++ flat bs

pub flat-append : (bs cs : List Bytes) → flat (bs ++ cs) ≡ flat bs ++ flat cs
flat-append [] cs = refl
flat-append (b ∷ bs) cs =
    ap (λ t. b ++ t) (flat-append bs cs) ∙ sym (append_assoc b (flat bs) (flat cs))

-- The file, and after it what waits for the file.
abbrev pub stored : Logging → Bytes
stored s = flat s.output ++ (flat s.to_write ++ (flat s.buffers ++ s.current))

pub flat-snoc : (bs : List Bytes) (b : Bytes) → flat (bs ++ (b ∷ [])) ≡ flat bs ++ b
flat-snoc bs b = flat-append bs (b ∷ []) ∙ ap (λ t. flat bs ++ t) (append-nil b)

or_new-clear : (next : Option Bytes) (bs : List Bytes) → Spare next 1 bs → or_new next ≡ []
or_new-clear none bs f = refl
or_new-clear (some b) bs f = f

append_to-kept :
    (size : ℕ) (line : Bytes)
    → append_to size line [] ≡ (if ltb (length line) size then line else [])
append_to-kept size line =
    let e : size - 0 ≡ size = omega arith in ap (λ n. if ltb (length line) n then line else []) e

-- Text at the end of what is stored.
stored-more :
    (s : Logging) (c line : Bytes)
    → flat s.output ++ (flat s.to_write ++ (flat s.buffers ++ (c ++ line)))
      ≡ (flat s.output ++ (flat s.to_write ++ (flat s.buffers ++ c))) ++ line
stored-more s c line =
    ap (λ t. flat s.output ++ (flat s.to_write ++ t)) (sym (append_assoc (flat s.buffers) c line))
    ∙ ap (λ t. flat s.output ++ t) (sym (append_assoc (flat s.to_write) (flat s.buffers ++ c) line))
    ∙ sym (append_assoc (flat s.output) (flat s.to_write ++ (flat s.buffers ++ c)) line)

rotate-stored :
    (size : ℕ) (line : Bytes) (s : Logging)
    → Inv s
    → stored (rotate size line s) ≡ stored s ++ (if ltb (length line) size then line else [])
rotate-stored size line s v =
    let k = if ltb (length line) size then line else [] in
    ap
      (λ b.
        flat s.output
        ++ (flat s.to_write ++ (flat (s.buffers ++ (s.current ∷ [])) ++ append_to size line b)))
      (or_new-clear s.next s.buffers v.front)
    ∙ ap (λ t. flat s.output ++ (flat s.to_write ++ (flat (s.buffers ++ (s.current ∷ [])) ++ t)))
        (append_to-kept size line)
    ∙ ap (λ t. flat s.output ++ (flat s.to_write ++ (t ++ k))) (flat-snoc s.buffers s.current)
    ∙ ap (λ t. flat s.output ++ (flat s.to_write ++ t)) (append_assoc (flat s.buffers) s.current k)
    ∙ stored-more s s.current k

pub append-stored :
    (size : ℕ) (line : Bytes) (s : Logging)
    → Inv s
    → stored (append size line s) ≡ stored s ++ (if ltb (length line) size then line else [])
unfolding append
append-stored size line s v =
    let k = if ltb (length line) size then line else [] in
    if-cases (λ (t : Logging). stored t ≡ stored s ++ k)
      (ltb (length line) (size - length s.current))
      (record s { current = append_to size line s.current }) (rotate size line s)
      (λ e.
        let fits : ltb (length line) size ≡ true = ground (arith, e) in
        ap
          (λ b.
            flat s.output
            ++ (flat s.to_write
                ++ (flat s.buffers ++ (if b then s.current ++ line else s.current))))
          e
        ∙ stored-more s s.current line
        ∙ ap (λ b. stored s ++ (if b then line else [])) (sym fits))
      (λ e. rotate-stored size line s v)

pub swap-stored : (s : Logging) → s.phase ≡ collecting → Inv s → stored (swap_buffers s) ≡ stored s
swap-stored s p v =
    let (a, b, c) = subst (λ p. Back p s.new1 s.new2 s.to_write) p v.back in
    ap
      (λ o.
        flat s.output ++ (flat (s.buffers ++ (s.current ∷ [])) ++ (flat s.to_write ++ or_new o)))
      a
    ∙ ap (λ l. flat s.output ++ (flat (s.buffers ++ (s.current ∷ [])) ++ (flat l ++ []))) c
    ∙ ap (λ t. flat s.output ++ t)
        (append-nil (flat (s.buffers ++ (s.current ∷ []))) ∙ flat-snoc s.buffers s.current)
    ∙ ap (λ l. flat s.output ++ (flat l ++ (flat s.buffers ++ s.current))) (sym c)

pub pieces-all : (notice : Bytes) (bs : List Bytes) → length bs ≤ 25 → pieces notice bs ≡ bs
pieces-all notice bs h =
    let e : ltb 25 (length bs) ≡ false = ground (arith, h) in
    ap (λ b. if b then notice ∷ take 2 bs else bs) e

pub written-stored :
    (notice : Bytes) (s : Logging) → length s.to_write ≤ 25 → stored (written notice s) ≡ stored s
written-stored notice s h =
    ap (λ l. flat (s.output ++ l) ++ (flat s.buffers ++ s.current)) (pieces-all notice s.to_write h)
    ∙ ap (λ t. t ++ (flat s.buffers ++ s.current)) (flat-append s.output s.to_write)
    ∙ append_assoc (flat s.output) (flat s.to_write) (flat s.buffers ++ s.current)

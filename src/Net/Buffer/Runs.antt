-- ===== src/Net/Buffer/Runs.antt =====
-- Runs of operations on net/Buffer.h, and the same on a plain string of bytes.
use mathlib.Core.Path.{subst}
use cloud_storge_system.Common.{
  ℕ, ◌+◌, ◌-◌, ◌≤◌, ◌≡◌, refl, sym, ap, ◌∙◌, Bytes, Option, none, some, List, [], ◌∷◌, ◌++◌, length,
  take, drop, arith, take_all, drop_all,
}
use cloud_storge_system.Net.Buffer.{
  Buffer, content, retrieve, retrieve_all, retrieve_until, retrieve_as_string,
  retrieve_all_as_string, readable_bytes, prependable_bytes, ensure_writable_bytes, append, unwrite,
  prepend, shrink, received, offered, read_fd,
}
use cloud_storge_system.Net.Buffer.Regions.{Inv, length-content}
use cloud_storge_system.Net.Buffer.Refines.{Yields, retrieve-Yields, append-Yields, ensure-Room}
use cloud_storge_system.Net.Buffer.Whole.{
  retrieve_as_string-Yields, unwrite-Yields, prepend-Yields, shrink-Yields, read_fd-Yields,
}

-- The operations that change a buffer.
pub data Op : Type 0 where
  appends prepends reads : Bytes → Op
  retrieves retrieves_until takes unwrites shrinks ensures : ℕ → Op
  clears takes_all : Op

-- What is handed out, and the buffer.
abbrev pub quiet : Option Buffer → Option (Bytes × Buffer)
quiet none = none
quiet (some b) = some ([], b)

unfoldable pub step : Op → Buffer → Option (Bytes × Buffer)
unfolding retrieve retrieve_all retrieve_until retrieve_as_string retrieve_all_as_string
    ensure_writable_bytes append unwrite prepend shrink read_fd
step (appends t) b = quiet (append t b)
step (prepends t) b = quiet (prepend t b)
step (reads t) b = quiet (read_fd (received t) b)
step (retrieves n) b = quiet (retrieve n b)
step (retrieves_until i) b = quiet (retrieve_until i b)
step (takes n) b = retrieve_as_string n b
step (unwrites n) b = quiet (unwrite n b)
step (shrinks n) b = quiet (shrink n b)
step (ensures n) b = quiet (ensure_writable_bytes n b)
step clears b = quiet (some (retrieve_all b))
step takes_all b = retrieve_all_as_string b

-- The same operations on a string.
abbrev pub effect : Op → Bytes → Bytes × Bytes
effect (appends t) c = ([], c ++ t)
effect (prepends t) c = ([], t ++ c)
effect (reads t) c = ([], c ++ t)
effect (retrieves n) c = ([], drop n c)
effect (retrieves_until i) c = ([], drop i c)
effect (takes n) c = (take n c, drop n c)
effect (unwrites n) c = ([], take (length c - n) c)
effect (shrinks n) c = ([], c)
effect (ensures n) c = ([], c)
effect clears c = ([], [])
effect takes_all c = (c, [])

-- What the caller may ask for: no more bytes than there are, a prefix that fits before the readable
-- bytes, and no more bytes from readv than it was offered.
abbrev pub Fits : Op → Buffer → Type 0
unfolding content offered prependable_bytes
Fits (prepends t) b = length t ≤ prependable_bytes b
Fits (reads t) b = length t ≤ offered b
Fits (retrieves n) b = n ≤ length (content b)
Fits (retrieves_until n) b = n ≤ length (content b)
Fits (takes n) b = n ≤ length (content b)
Fits (unwrites n) b = n ≤ length (content b)
Fits _ b = Unit

-- The call succeeds with a well-formed buffer, and hands out and leaves what the string does.
abbrev pub Does : Option (Bytes × Buffer) → Bytes × Bytes → Type 0
Does o (out, c) = (b : Buffer) × (o ≡ some (out, b)) × Inv b × (content b ≡ c)

quiet-Does : (o : Option Buffer) (c : Bytes) → Yields o c → Does (quiet o) ([], c)
quiet-Does o c (b, e, v, r) = (b, ap quiet e, v, r)

retrieve_until-Yields :
    (i : ℕ) (b : Buffer)
    → Inv b
    → i ≤ length (content b)
    → Yields (retrieve_until i b) (drop i (content b))
retrieve_until-Yields i b v h =
    let (b', e, w, c) = retrieve-Yields i b v h in
    let same : retrieve (b.reader + i - b.reader) b ≡ retrieve i b =
      ap (λ k. retrieve k b) (omega arith) in
    (b', unfold retrieve_until in ground (arith, same, e, v.ordered, length-content b v), w, c)

clears-Does : (b : Buffer) → Inv b → Yields (some (retrieve_all b)) []
unfolding retrieve_all content
clears-Does b v =
    (_, refl, record { ordered = omega arith; inside = v.roomy; roomy = v.roomy }, refl)

takes_all-Does : (b : Buffer) → Inv b → Does (retrieve_all_as_string b) (content b, [])
unfolding retrieve_all_as_string readable_bytes
takes_all-Does b v =
    let n = b.writer - b.reader in
    let len = length-content b v in
    let (b', e, w, c) = retrieve_as_string-Yields n b v (omega (arith, len)) in
    let all : take n (content b) ≡ content b = take_all n (content b) (omega (arith, len)) in
    let none_left : drop n (content b) ≡ [] = drop_all n (content b) (omega (arith, len)) in
    (b', e ∙ ap (λ t. some (t, b')) all, w, c ∙ none_left)

step-Does : (o : Op) (b : Buffer) → Inv b → Fits o b → Does (step o b) (effect o (content b))
unfolding step Fits
step-Does (appends t) b v f = quiet-Does _ _ (append-Yields t b v)
step-Does (prepends t) b v f = quiet-Does _ _ (prepend-Yields t b v f)
step-Does (reads t) b v f = quiet-Does _ _ (read_fd-Yields t b v f)
step-Does (retrieves n) b v f = quiet-Does _ _ (retrieve-Yields n b v f)
step-Does (retrieves_until i) b v f = quiet-Does _ _ (retrieve_until-Yields i b v f)
step-Does (takes n) b v f = retrieve_as_string-Yields n b v f
step-Does (unwrites n) b v f = quiet-Does _ _ (unwrite-Yields n b v f)
step-Does (shrinks n) b v f = quiet-Does _ _ (shrink-Yields n b v)
step-Does (ensures n) b v f =
    let (b', e, v', r, room) = ensure-Room n b v in quiet-Does _ _ (b', e, v', r)
step-Does clears b v f = quiet-Does _ _ (clears-Does b v)
step-Does takes_all b v f = takes_all-Does b v

abbrev pub after_run : Bytes → Option (List Bytes × Buffer) → Option (List Bytes × Buffer)
after_run out none = none
after_run out (some (outs, b)) = some (out ∷ outs, b)

abbrev pub run_on :
    (Buffer → Option (List Bytes × Buffer)) → Option (Bytes × Buffer) → Option (List Bytes × Buffer)
run_on f none = none
run_on f (some (out, b)) = after_run out (f b)

unfoldable pub run : List Op → Buffer → Option (List Bytes × Buffer)
unfolding step
run [] b = some ([], b)
run (o ∷ os) b = run_on (run os) (step o b)

-- The run on a string: what is handed out, and what is left.
abbrev pub replay : List Op → Bytes → List Bytes × Bytes
replay [] c = ([], c)
replay (o ∷ os) c =
    let (out, rest) = effect o c in let (outs, last) = replay os rest in (out ∷ outs, last)

abbrev FitsOn : (Buffer → Type 0) → Option (Bytes × Buffer) → Type 0
FitsOn f none = Unit
FitsOn f (some (out, b)) = f b

-- Every operation of a run fits.
unfoldable pub FitsAll : List Op → Buffer → Type 0
unfolding step Fits
FitsAll [] b = Unit
FitsAll (o ∷ os) b = Fits o b × FitsOn (FitsAll os) (step o b)

-- A run from a well-formed buffer, in which every operation asks for no more bytes than there are,
-- prepends no more than fits before the readable bytes, and reads no more than it offered, trips no
-- assert and leaves a well-formed buffer; what it hands out and the readable bytes that it leaves are
-- those of the same run on a plain string.
pub run-replay :
    (os : List Op) (b : Buffer)
    → Inv b
    → FitsAll os b
    → (outs : List Bytes) × (b' : Buffer) × (run os b ≡ some (outs, b'))
      × Inv b'
      × (replay os (content b) ≡ (outs, content b'))
unfolding run FitsAll
run-replay [] b v f = ([], b, refl, v, refl)
run-replay (o ∷ os) b v (f, g) =
    let (c, e, w, r) = step-Does o b v f in
    let out = (effect o (content b)).0 in
    let (outs, d, h, x, y) = run-replay os c w (subst (FitsOn (FitsAll os)) e g) in
    (
      out ∷ outs,
      d,
      ap (run_on (run os)) e ∙ ap (after_run out) h,
      x,
      ap (λ t. (out ∷ (replay os t).0, (replay os t).1)) (sym r) ∙ ap (λ p. (out ∷ p.0, p.1)) y,
    )

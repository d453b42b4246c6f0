-- ===== src/App/ListFiles/Private.antt =====
-- The list of files shows the shares of a file, with their codes, to nobody but its owner.
use cloud_storge_system.Common.{
  ◌≡◌, refl, sym, Bytes, bytes, Option, none, some, List, [], ◌∷◌, get_elem?, All, eqb, ℕ,
}
use mathlib.Core.Path.{subst}
use cloud_storge_system.App.Number.{stoi, stoull, int_eqb}
use cloud_storge_system.App.Json.{Json, Items, nil, cons, push_back, get_member}
use cloud_storge_system.App.World.{
  Env, World, Row, M, Outcome, done, thrown, undefined, ◌>>=◌, bind_outcome, column, text_of,
  int_of, stoi_what,
}
use cloud_storge_system.App.ListFiles.{size_of, file_info, list_rows}

-- What holds of a result where the code goes on with it.
abbrev pub Holds : {A : Type 0} → (A → Type 0) → Outcome A → Type 0
Holds q (done a) = q a
Holds q _ = Unit

-- Nothing happens, however the code ends, and what it gives has the property.
abbrev pub Quiet : {A : Type 0} → (A → Type 0) → World → Outcome A × World → Type 0
Quiet q w p = (p.1 ≡ w) × Holds q p.0

Quiet-then :
    {A B : Type 0} (r : A → Type 0) (q : B → Type 0) (w : World) (p : Outcome A × World)
    (k : A → M B)
    → Quiet r w p
    → ((a : A) → r a → Quiet q w (k a w))
    → Quiet q w (bind_outcome p k)
Quiet-then r q w (done a, x) k (e, ok) h = subst (λ x. Quiet q w (k a x)) (sym e) (h a ok)
Quiet-then r q w (thrown t, x) k (e, ok) h = (e, tt)
Quiet-then r q w (undefined, x) k (e, ok) h = (e, tt)

Quiet-bind :
    {A B : Type 0} (q : B → Type 0) (w : World) (p : Outcome A × World) (k : A → M B)
    → p.1 ≡ w
    → ((a : A) → Quiet q w (k a w))
    → Quiet q w (bind_outcome p k)
Quiet-bind q w (done a, x) k e h = subst (λ x. Quiet q w (k a x)) (sym e) (h a)
Quiet-bind q w (thrown t, x) k e h = (e, tt)
Quiet-bind q w (undefined, x) k e h = (e, tt)

-- Reading an optional value changes nothing.
optional-same :
    {A : Type 0} (o : Option A) (x : Outcome A) (w : World)
    → let p : Outcome A × World = elim o [ none ↦ (x, w) | some a ↦ (done a, w) ] in p.1 ≡ w
optional-same none x w = refl
optional-same (some a) x w = refl

text_of-same : (v : Option Bytes) (w : World) → (text_of v w).1 ≡ w
text_of-same none w = refl
text_of-same (some t) w = refl

text-Quiet :
    {B : Type 0} (q : B → Type 0) (i : ℕ) (row : Row) (w : World) (k : Bytes → M B)
    → ((t : Bytes) → Quiet q w (k t w))
    → Quiet q w ((column i row >>= λ c. (text_of c >>= k)) w)
text-Quiet q i row w k h =
    Quiet-bind q w (column i row w) (λ c. (text_of c >>= k))
      (optional-same (get_elem? row i) undefined w)
      (λ c. Quiet-bind q w (text_of c w) k (text_of-same c w) h)

-- An entry without the member with the shares.
abbrev pub Hides : Json → Type 0
Hides j = get_member (bytes "shareInfo") j ≡ none

abbrev pub AllHide : Items → Type 0
AllHide nil = Unit
AllHide (cons j js) = Hides j × AllHide js

AllHide-push_back : (js : Items) (j : Json) → AllHide js → Hides j → AllHide (push_back js j)
unfolding push_back
AllHide-push_back nil j h k = (k, tt)
AllHide-push_back (cons x xs) j (h, hs) k = (h, AllHide-push_back xs j hs k)

-- A row of a file of another user, which the three statements mark with 0.
abbrev pub Foreign : Row → Type 0
Foreign row = get_elem? row 6 ≡ some (some (bytes "0"))

module _ (env : Env) where
  file_info-Quiet : (row : Row) (w : World) → Foreign row → Quiet Hides w (file_info env row w)
  unfolding file_info stoi int_eqb get_member eqb
  file_info-Quiet row w f = text-Quiet Hides 0 row w _ (λ t0.
      Quiet-bind Hides w (int_of t0 w) _ (optional-same (stoi t0) (thrown stoi_what) w) (λ id.
        text-Quiet Hides 1 row w _ (λ name. text-Quiet Hides 2 row w _ (λ original.
          text-Quiet Hides 3 row w _ (λ t3.
            Quiet-bind Hides w (size_of t3 w) _
              (optional-same (stoull t3) (thrown (bytes "stoull")) w)
              (λ size.
                text-Quiet Hides 4 row w _ (λ type.
                  text-Quiet Hides 5 row w _ (λ created. rw (column, f) (refl, refl)))))))))

  -- On rows whose seventh column is 0, which marks the files of other users, whatever the other
  -- columns are, the loop of `handleListFiles` sends no statement and changes nothing, also where it
  -- ends with an exception; and where it adds entries to a list of which none has a member with the
  -- shares of a file, none of the result has one.
  pub list_rows-Quiet :
      (rs : List Row) (files : Items) (w : World)
      → All Foreign rs
      → AllHide files
      → Quiet AllHide w (list_rows env rs files w)
  unfolding list_rows
  list_rows-Quiet [] files w f h = (refl, h)
  list_rows-Quiet (row ∷ rs) files w (f, fs) h =
      Quiet-then Hides AllHide w (file_info env row w) (λ j. list_rows env rs (push_back files j))
        (file_info-Quiet row w f)
        (λ j k. list_rows-Quiet rs (push_back files j) w fs (AllHide-push_back files j h k))

-- ===== src/Net/Buffer.antt =====
-- net/Buffer.h and net/Buffer.cc: the byte buffer under every connection.
-- The vector is a list, and an index that may move before its start is never used: each assert of
-- the source is a test, and `none` is its failure. A copy past the end of the vector cannot
-- happen where the asserts hold.
pub mod Refines
pub mod Regions
pub mod Whole
pub mod Runs
use cloud_storge_system.Common.{
  Bool, ℕ, zero, suc, ◌+◌, ◌-◌, ◌<◌, Bytes, Option, none, some, List, [], ◌∷◌, ◌++◌, length, take,
  drop, replicate, ltb, leb, if◌then◌else◌, find,
}

-- kCheapPrepend and kInitialSize.
abbrev pub cheap_prepend : ℕ
cheap_prepend = 8

abbrev pub initial_size : ℕ
initial_size = 1024

pub record Buffer : Type 0 where
  pub storage : Bytes
  pub reader : ℕ
  pub writer : ℕ

infixl 5 ◌>>=◌
abbrev pub ◌>>=◌ {ℓ κ} : {A : Type ℓ} {B : Type κ} → Option A → (A → Option B) → Option B
none >>= f = none
some a >>= f = f a

-- `assert(condition)` before the rest.
abbrev assert {ℓ} : {A : Type ℓ} → Bool → Option A → Option A
assert condition rest = if condition then rest else none

-- The constructor.
unfoldable pub make : ℕ → Buffer
make size = record {
  storage = replicate (cheap_prepend + size) 0;
  reader = cheap_prepend;
  writer = cheap_prepend;
}

unfoldable pub readable_bytes : Buffer → ℕ
readable_bytes b = b.writer - b.reader

unfoldable pub writable_bytes : Buffer → ℕ
writable_bytes b = length b.storage - b.writer

unfoldable pub prependable_bytes : Buffer → ℕ
prependable_bytes b = b.reader

-- The bytes from `peek()` to `beginWrite()`.
unfoldable pub content : Buffer → Bytes
content b = take (b.writer - b.reader) (drop b.reader b.storage)

-- `findCRLF()`, as an offset from `peek()`; `none` is a null pointer.
unfoldable pub find_crlf : Buffer → Option ℕ
unfolding content
find_crlf b = find (13 ∷ 10 ∷ []) (content b)

-- `findEOL()`, likewise.
unfoldable pub find_eol : Buffer → Option ℕ
unfolding content
find_eol b = find (10 ∷ []) (content b)

unfoldable pub retrieve_all : Buffer → Buffer
retrieve_all b = record b { reader = cheap_prepend; writer = cheap_prepend }

unfoldable pub retrieve : ℕ → Buffer → Option Buffer
unfolding readable_bytes retrieve_all
retrieve n b =
    assert (leb n (readable_bytes b)) (
      some
        (if ltb n (readable_bytes b) then record b { reader = b.reader + n } else retrieve_all b))

-- `retrieveUntil(end)`, with the offset of `end` from `peek()`.
unfoldable pub retrieve_until : ℕ → Buffer → Option Buffer
unfolding retrieve
retrieve_until i b =
    assert (leb b.reader (b.reader + i))
      (assert (leb (b.reader + i) b.writer) (retrieve (b.reader + i - b.reader) b))

-- `std::string(peek(), len)` and what is left.
unfoldable pub retrieve_as_string : ℕ → Buffer → Option (Bytes × Buffer)
unfolding readable_bytes content retrieve
retrieve_as_string n b =
    assert (leb n (readable_bytes b)) do b' ← retrieve n b; some (take n (content b), b')

unfoldable pub retrieve_all_as_string : Buffer → Option (Bytes × Buffer)
unfolding readable_bytes retrieve_as_string
retrieve_all_as_string b = retrieve_as_string (readable_bytes b) b

-- `std::copy` of `text` to the position `i` of a vector that is long enough.
unfoldable pub write_at : ℕ → Bytes → Bytes → Bytes
write_at i text s = take i s ++ (text ++ drop (i + length text) s)

-- `resize(n)`.
unfoldable pub resize : ℕ → Bytes → Bytes
resize n s = take n s ++ replicate (n - length s) 0

unfoldable pub make_space : ℕ → Buffer → Option Buffer
unfolding readable_bytes writable_bytes prependable_bytes content write_at resize
make_space n b =
    if ltb (writable_bytes b + prependable_bytes b) (n + cheap_prepend)
    then some (record b { storage = resize (b.writer + n) b.storage })
    else assert (ltb cheap_prepend b.reader) (
        some (record {
          storage = write_at cheap_prepend (content b) b.storage;
          reader = cheap_prepend;
          writer = cheap_prepend + readable_bytes b;
        }))

unfoldable pub ensure_writable_bytes : ℕ → Buffer → Option Buffer
unfolding writable_bytes make_space
ensure_writable_bytes n b = do
  b' ← if ltb (writable_bytes b) n then make_space n b else some b
  assert (leb n (writable_bytes b')) (some b')

unfoldable pub has_written : ℕ → Buffer → Option Buffer
unfolding writable_bytes
has_written n b = assert (leb n (writable_bytes b)) (some (record b { writer = b.writer + n }))

unfoldable pub append : Bytes → Buffer → Option Buffer
unfolding ensure_writable_bytes write_at has_written
append text b = do
  b' ← ensure_writable_bytes (length text) b
  has_written (length text) (record b' { storage = write_at b'.writer text b'.storage })

unfoldable pub unwrite : ℕ → Buffer → Option Buffer
unfolding readable_bytes
unwrite n b = assert (leb n (readable_bytes b)) (some (record b { writer = b.writer - n }))

-- `swap`, of both buffers.
abbrev pub swap : Buffer × Buffer → Buffer × Buffer
swap (a, b) = (b, a)

unfoldable pub prepend : Bytes → Buffer → Option Buffer
unfolding prependable_bytes write_at
prepend text b = assert (leb (length text) (prependable_bytes b)) (
    some (record b {
      storage = write_at (b.reader - length text) text b.storage;
      reader = b.reader - length text;
    }))

unfoldable pub shrink : ℕ → Buffer → Option Buffer
unfolding make readable_bytes content ensure_writable_bytes append
shrink reserve b = do
  other ← ensure_writable_bytes (readable_bytes b + reserve) (make initial_size)
  append (content b) other

-- What readv answers: an errno, or the bytes that it put into the two blocks, in order.
pub data Readv : Type 0 where
  failed : ℕ → Readv
  received : Bytes → Readv

-- sizeof extrabuf.
abbrev pub extra_size : ℕ
extra_size = 65536

-- The room that `readFd` offers to readv.
unfoldable pub offered : Buffer → ℕ
unfolding writable_bytes
offered b =
    if ltb (writable_bytes b) extra_size then writable_bytes b + extra_size else writable_bytes b

-- The buffer after `readFd`; on an error the code keeps it, and reports the errno.
unfoldable pub read_fd : Readv → Buffer → Option Buffer
unfolding writable_bytes write_at append
read_fd (failed e) b = some b
read_fd (received text) b =
    let n = length text in
    let w = writable_bytes b in
    let filled = write_at b.writer (take w text) b.storage in
    if leb n w
    then some (record b { storage = filled; writer = b.writer + n })
    else append (drop w text) (record b { storage = filled; writer = length b.storage })

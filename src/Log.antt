-- ===== src/Log.antt =====
-- The files that src/session_log.rs and src/app_log.rs keep: a file is its bytes and a cursor.
-- The call of `read` takes an answer, as one `read(2)` may give fewer bytes than asked for, or fail.
-- The other calls on an open file succeed; the program ignores their errors.
pub mod Session
pub mod App
mod Tests
use zatch.Common.{
  ℕ, ◌+◌, ◌-◌, ◌≡◌, ◌≤◌, List, [], ◌++◌, Option, none, some, length, take, drop, replicate, refl,
  arith, append-nil, length-append, take_all, drop_all, ap, min, ltb, lt→ltb, if◌then◌else◌,
  length-drop, ◌≢◌, ◌<◌,
}

pub record File : Type 0 where
  pub bytes : List ℕ
  pub pos : ℕ

abbrev pub seek_start : ℕ → File → File
seek_start n f = record f { pos = n }

abbrev pub seek_end : File → File
seek_end f = record f { pos = length f.bytes }

-- The bytes that a read of at most `n` gives; `answer` bounds their number.
abbrev pub read : ℕ → Option ℕ → File → List ℕ
read n none f = []
read n (some k) f = take (min n k) (drop f.pos f.bytes)

-- `set_len(0)` leaves the cursor where it is.
abbrev pub clear : File → File
clear f = record f { bytes = [] }

-- `write_all` at the cursor; a gap behind the end is filled with zeros.
unfoldable pub write_all : List ℕ → File → File
write_all bs f = record {
  bytes =
      (take f.pos f.bytes ++ replicate (f.pos - length f.bytes) 0)
      ++ (bs ++ drop (f.pos + length bs) f.bytes);
  pos = f.pos + length bs;
}

-- The file ends at the cursor, so that a write appends.
abbrev pub AtEnd : File → Type 0
AtEnd f = f.pos ≡ length f.bytes

pub write_all-AtEnd :
    (bs : List ℕ) (f : File)
    → AtEnd f
    → ((write_all bs f).bytes ≡ f.bytes ++ bs) × AtEnd (write_all bs f)
unfolding write_all
write_all-AtEnd bs f e =
    let none_before : f.pos - length f.bytes ≡ 0 = omega arith in
    let before : take f.pos f.bytes ≡ f.bytes = take_all f.pos f.bytes (omega arith) in
    let behind : drop (f.pos + length bs) f.bytes ≡ [] =
      drop_all (f.pos + length bs) f.bytes (omega arith) in
    let whole : (take f.pos f.bytes ++ replicate (f.pos - length f.bytes) 0)
          ++ (bs ++ drop (f.pos + length bs) f.bytes)
        ≡ f.bytes ++ bs =
      rw (none_before, before, behind, append-nil f.bytes, append-nil bs) refl in
    (whole, omega (arith, ap length whole, length-append f.bytes bs))

-- What both logs do to a file that is too large: they read from `max_size` bytes before its end on,
-- clear it, and write what they read.
unfoldable pub keep_tail : ℕ → Option ℕ → File → File
unfolding write_all
keep_tail max_size answer file =
    let buf = read max_size answer (seek_start (length file.bytes - max_size) file) in
    let written = write_all buf (seek_start 0 (clear file)) in
    seek_end (if ltb 0 (length buf) then written else file)

pub keep_tail_lem :
    (max_size k : ℕ) (file : File)
    → max_size ≢ 0
    → max_size < length file.bytes
    → max_size ≤ k
    → keep_tail max_size (some k) file
      ≡ record { bytes = drop (length file.bytes - max_size) file.bytes; pos = max_size }
unfolding keep_tail
keep_tail_lem max_size k file some_room large enough =
    let tail : List ℕ = drop (length file.bytes - max_size) file.bytes in
    let size : length tail ≡ max_size =
      omega (arith, length-drop (length file.bytes - max_size) file.bytes) in
    let whole : take (min max_size k) tail ≡ tail = take_all (min max_size k) tail (omega arith) in
    let the_empty : List ℕ = [] in
    let nothing : drop (0 + max_size) the_empty ≡ [] = drop_all (0 + max_size) [] (omega arith) in
    rw (whole, size, lt→ltb 0 max_size (omega arith), nothing, append-nil tail, size) refl

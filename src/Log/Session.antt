-- ===== src/Log/Session.antt =====
-- `SessionLog` of src/session_log.rs: the log of a session's output, pruned when it is opened.
use zatch.Common.{
  ℕ, ◌-◌, ◌≡◌, ◌≢◌, ◌<◌, ◌≤◌, List, [], ◌∷◌, ◌++◌, Option, none, some, length, drop, leb,
  if◌then◌else◌, Bool-cases, inl, inr, refl, arith, ap, sym, ◌∙◌, length-drop, append_assoc,
  append-nil, leb→le,
}
use zatch.Log.{File, seek_end, write_all, AtEnd, write_all-AtEnd, keep_tail, keep_tail_lem}

-- `SessionLog::rotate`; `answer` is the kernel's to the read.
unfoldable pub rotate : ℕ → Option ℕ → File → File
rotate max_size answer file =
    if leb (length file.bytes) max_size then seek_end file else keep_tail max_size answer file

pub record SessionLog : Type 0 where
  pub file : File
  pub max_size : ℕ

-- `opened` is the file that the kernel opened or created, if it could.
unfoldable pub open_log : Option File → ℕ → Option ℕ → Option SessionLog
unfolding rotate
open_log none max_size answer = none
open_log (some file) max_size answer =
    some (record { file = rotate max_size answer file; max_size = max_size })

unfoldable pub write : SessionLog → List ℕ → SessionLog
unfolding write_all
write log bytes = record log { file = write_all bytes log.file }

unfoldable pub close_log : SessionLog → List ℕ → File
unfolding write_all
close_log log marker = write_all marker log.file

-- A session's writes, one after another.
abbrev pub write_each : SessionLog → List (List ℕ) → SessionLog
write_each log [] = log
write_each log (bs ∷ rest) = write_each (write log bs) rest

abbrev pub concat : List (List ℕ) → List ℕ
concat [] = []
concat (bs ∷ rest) = bs ++ concat rest

-- The pruned file consists of the last `max_size` bytes, in order, and the next write appends, if the
-- kernel gives as many bytes as it is asked for.
pub rotate_lem :
    (max_size k : ℕ) (file : File)
    → max_size ≢ 0
    → max_size ≤ k
    → ((rotate max_size (some k) file).bytes ≡ drop (length file.bytes - max_size) file.bytes)
      × AtEnd (rotate max_size (some k) file)
unfolding rotate
rotate_lem max_size k file some_room enough = elim (Bool-cases (leb (length file.bytes) max_size)) [
  | inl e ↦
      let none_over : length file.bytes - max_size ≡ 0 =
        omega (arith, leb→le (length file.bytes) max_size e) in
      rw (e, none_over) (refl, refl)
  | inr e ↦
      let large : max_size < length file.bytes = ground (arith) in
      rw (e, keep_tail_lem max_size k file some_room large enough)
        (refl, omega (arith, length-drop (length file.bytes - max_size) file.bytes))
]

write_each-AtEnd :
    (log : SessionLog) (writes : List (List ℕ))
    → AtEnd log.file
    → ((write_each log writes).file.bytes ≡ log.file.bytes ++ concat writes)
      × AtEnd (write_each log writes).file
unfolding write
write_each-AtEnd log [] e = (sym (append-nil log.file.bytes), e)
write_each-AtEnd log (bs ∷ rest) e =
    let one = write_all-AtEnd bs log.file e in
    let later = write_each-AtEnd (write log bs) rest one.1 in
    (
      later.0 ∙ ap (λ t. t ++ concat rest) one.0 ∙ append_assoc log.file.bytes bs (concat rest),
      later.1,
    )

-- From an opening of the log to its closing, if its limit is not 0 and the read on opening gives
-- all that it asks for: the file ends up with the last `max_size` bytes that it had when it was
-- opened, then all that the session wrote, in order, then the marker.
pub close_log-write_each :
    (max_size k : ℕ) (file : File) (log : SessionLog) (writes : List (List ℕ)) (marker : List ℕ)
    → max_size ≢ 0
    → max_size ≤ k
    → open_log (some file) max_size (some k) ≡ some log
    → (close_log (write_each log writes) marker).bytes
      ≡ drop (length file.bytes - max_size) file.bytes ++ (concat writes ++ marker)
unfolding open_log close_log
close_log-write_each max_size k file log writes marker some_room enough opened =
    let pruned = rotate_lem max_size k file some_room enough in
    let same : log.file ≡ rotate max_size (some k) file = cc in
    let ready : AtEnd log.file = rw same pruned.1 in
    let whole = write_each-AtEnd log writes ready in
    let closed = write_all-AtEnd marker (write_each log writes).file whole.1 in
    closed.0
    ∙ ap (λ t. t ++ marker) (whole.0 ∙ ap (λ f. f.bytes ++ concat writes) same)
    ∙ append_assoc (rotate max_size (some k) file).bytes (concat writes) marker
    ∙ ap (λ t. t ++ (concat writes ++ marker)) pruned.0

-- ===== src/Log/App.antt =====
-- `AppLog` of src/app_log.rs: the program's own messages, one line for each.
use zatch.Common.{
  All-append, ℕ, ◌-◌, ◌*◌, ◌≡◌, ◌≢◌, ◌<◌, ◌≤◌, List, [], ◌∷◌, ◌++◌, Option, some, Bool, true, false,
  All, length, drop, leb, leb→le, ◌==◌, if◌then◌else◌, Bool-cases, inl, inr, refl, arith, ap, ◌∙◌,
  codes, decimal, IsDigit, decimal-IsDigit,
}
use zatch.Log.{File, seek_end, clear, write_all, write_all-AtEnd, keep_tail, keep_tail_lem}

-- APP_LOG_MAX_SIZE is the argument `max_size`; this is its value.
abbrev pub app_log_max_size : ℕ
app_log_max_size = 256 * 1024

pub data LogLevel : Type 0 where
  info warn error : LogLevel

unfoldable pub as_str : LogLevel → List ℕ
as_str LogLevel.info = codes "INFO"
as_str LogLevel.warn = codes "WARN"
as_str LogLevel.error = codes "ERROR"

-- `\r` becomes a backslash and an `r`, and `\n` a backslash and an `n`. The two replacements are one
-- after the other in the code; neither makes what the other looks for.
unfoldable pub replace : ℕ → List ℕ → List ℕ → List ℕ
replace c by [] = []
replace c by (x ∷ s) = let rest = replace c by s in if x == c then by ++ rest else x ∷ rest

unfoldable pub escape_line : List ℕ → List ℕ
unfolding replace
escape_line message = replace 10 (codes "\\n") (replace 13 (codes "\\r") message)

unfoldable pub rotate_file : ℕ → Option ℕ → File → File
rotate_file max_size answer file =
    let pruned = if max_size == 0 then clear file else keep_tail max_size answer file in
    if leb (length file.bytes) max_size then seek_end file else pruned

-- A line without its end.
unfoldable pub entry : ℕ → LogLevel → List ℕ → List ℕ
entry timestamp level message =
    decimal timestamp ++ (codes " " ++ (as_str level ++ (codes " " ++ escape_line message)))

-- `AppLog::record`: whether the file can be opened to append, and again to be pruned.
unfoldable pub record_line : ℕ → ℕ → LogLevel → List ℕ → Bool → Bool → Option ℕ → File → File
record_line max_size timestamp level message opened reopened answer file =
    let line = entry timestamp level message ++ 10 ∷ [] in
    let written = write_all line (seek_end file) in
    if opened then (if reopened then rotate_file max_size answer written else written) else file

abbrev NoBreak : ℕ → Type 0
NoBreak c = (c ≢ 10) × (c ≢ 13)

replace-All :
    (P : ℕ → Type 0) (c : ℕ) (by s : List ℕ)
    → All P by
    → All (λ x. (x ≢ c) → P x) s
    → All P (replace c by s)
unfolding replace
replace-All P c by [] h k = tt
replace-All P c by (x ∷ s) h k = elim (Bool-cases (x == c)) [
  | inl e ↦ rw e (All-append P by (replace c by s) h (replace-All P c by s h k.1))
  | inr e ↦ let other : x ≢ c = ground arith in rw e (k.0 other, replace-All P c by s h k.1)
]

every : (P : ℕ → Type 0) (s : List ℕ) → ((x : ℕ) → P x) → All P s
every P [] f = tt
every P (x ∷ s) f = (f x, every P s f)

All-imp : (P Q : ℕ → Type 0) (s : List ℕ) → ((x : ℕ) → P x → Q x) → All P s → All Q s
All-imp P Q [] f h = tt
All-imp P Q (x ∷ s) f h = (f x h.0, All-imp P Q s f h.1)

escape_line-NoBreak : (message : List ℕ) → All NoBreak (escape_line message)
unfolding escape_line
escape_line-NoBreak message =
    let no_return : All (λ x. x ≢ 13) (replace 13 (codes "\\r") message) =
      replace-All (λ x. x ≢ 13) 13 (codes "\\r") message (omega arith, (omega arith, tt))
        (every _ message (λ x h. h)) in
    replace-All NoBreak 10 (codes "\\n") (replace 13 (codes "\\r") message)
      ((omega arith, omega arith), ((omega arith, omega arith), tt))
      (All-imp _ _ _ (λ x h k. (k, h)) no_return)

as_str-NoBreak : (level : LogLevel) → All NoBreak (as_str level)
unfolding as_str
as_str-NoBreak LogLevel.info = (
  (omega arith, omega arith),
  ((omega arith, omega arith), ((omega arith, omega arith), ((omega arith, omega arith), tt))),
)
as_str-NoBreak LogLevel.warn = (
  (omega arith, omega arith),
  ((omega arith, omega arith), ((omega arith, omega arith), ((omega arith, omega arith), tt))),
)
as_str-NoBreak LogLevel.error = (
  (omega arith, omega arith),
  (
    (omega arith, omega arith),
    ((omega arith, omega arith), ((omega arith, omega arith), ((omega arith, omega arith), tt))),
  ),
)

entry-NoBreak :
    (timestamp : ℕ) (level : LogLevel) (message : List ℕ)
    → All NoBreak (entry timestamp level message)
unfolding entry
entry-NoBreak timestamp level message =
    let digits = All-imp _ _ (decimal timestamp) digit (decimal-IsDigit timestamp) in
    All-append _ (decimal timestamp) _ digits (
      space,
      All-append _ (as_str level) _ (as_str-NoBreak level) (space, escape_line-NoBreak message),
    )
  where
    space : NoBreak 32
    space = (omega arith, omega arith)

    digit : (c : ℕ) → IsDigit c → NoBreak c
    digit c h = (omega arith, omega arith)

-- A record of a message is one line, however many line ends the message has. If the file can be
-- opened both times, the limit is not 0 and the read gives all that it asks for, the log is then
-- what it was, followed by the entry and one line end, cut at the front to its last `max_size`
-- bytes.
pub record_line_lem :
    (max_size k timestamp : ℕ) (level : LogLevel) (message : List ℕ) (file : File)
    → max_size ≢ 0
    → max_size ≤ k
    → let log = file.bytes ++ (entry timestamp level message ++ 10 ∷ []) in
      ((record_line max_size timestamp level message true true (some k) file).bytes
        ≡ drop (length log - max_size) log)
      × All NoBreak (entry timestamp level message)
unfolding record_line rotate_file
record_line_lem max_size k timestamp level message file some_room enough =
    let line : List ℕ = entry timestamp level message ++ 10 ∷ [] in
    let written : File = write_all line (seek_end file) in
    let whole = write_all-AtEnd line (seek_end file) refl in
    (
      pruned written ∙ ap (λ t. drop (length t - max_size) t) whole.0,
      entry-NoBreak timestamp level message,
    )
  where
    pruned :
        (f : File)
        → (rotate_file max_size (some k) f).bytes ≡ drop (length f.bytes - max_size) f.bytes
    pruned f = elim (Bool-cases (leb (length f.bytes) max_size)) [
      | inl e ↦
          let none_over : length f.bytes - max_size ≡ 0 =
            omega (arith, leb→le (length f.bytes) max_size e) in
          rw (e, none_over) refl
      | inr e ↦
          let large : max_size < length f.bytes = ground arith in
          let limit : (max_size == 0) ≡ false = ground arith in
          rw (e, limit, keep_tail_lem max_size k f some_room large enough) refl
    ]

-- ===== src/Log/Tests.antt =====
-- The theorems on the logs at small files.
use zatch.Common.{
  ◌-◌, ◌≡◌, ◌≢◌, [], ◌∷◌, ◌++◌, some, true, All, length, drop, codes, decimal, refl, arith,
}
use zatch.Log.{File, AtEnd, keep_tail}
use zatch.Log.Session.{
  SessionLog, rotate, rotate_lem, open_log, write_each, close_log, close_log-write_each,
}
use zatch.Log.App.{LogLevel, as_str, escape_line, entry, record_line, record_line_lem}

abbrev old : File
old = record { bytes = 1 ∷ 2 ∷ 3 ∷ 4 ∷ 5 ∷ []; pos = 0 }

abbrev opened : SessionLog
opened = record { file = record { bytes = 3 ∷ 4 ∷ 5 ∷ []; pos = 3 }; max_size = 3 }

run_open : open_log (some old) 3 (some 3) ≡ some opened
unfolding open_log rotate keep_tail
run_open = refl

rotate_lem_example :
    ((rotate 3 (some 9) old).bytes ≡ 3 ∷ 4 ∷ 5 ∷ []) × AtEnd (rotate 3 (some 9) old)
rotate_lem_example = rotate_lem 3 9 old (omega arith) (omega arith)

close_log-write_each_example :
    (close_log (write_each opened ((6 ∷ 7 ∷ []) ∷ (8 ∷ []) ∷ [])) (9 ∷ [])).bytes
    ≡ 3 ∷ 4 ∷ 5 ∷ 6 ∷ 7 ∷ 8 ∷ 9 ∷ []
close_log-write_each_example =
    close_log-write_each 3 3 old opened ((6 ∷ 7 ∷ []) ∷ (8 ∷ []) ∷ []) (9 ∷ []) (omega arith)
      (omega arith) run_open

run_entry : entry 12 LogLevel.warn (65 ∷ 10 ∷ []) ≡ codes "12 WARN A\\n"
unfolding entry escape_line as_str decimal
run_entry = refl

record_line_lem_example :
    (let log = old.bytes ++ (entry 12 LogLevel.warn (65 ∷ 10 ∷ []) ++ 10 ∷ []) in
      ((record_line 8 12 LogLevel.warn (65 ∷ 10 ∷ []) true true (some 8) old).bytes
        ≡ drop (length log - 8) log)
      × All (λ c. (c ≢ 10) × (c ≢ 13)) (entry 12 LogLevel.warn (65 ∷ 10 ∷ [])))
record_line_lem_example =
    record_line_lem 8 8 12 LogLevel.warn (65 ∷ 10 ∷ []) old (omega arith) (omega arith)

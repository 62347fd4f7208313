-- ===== src/Session/Terminal/Tests.antt =====
-- A terminal in its usual mode, suspended, resumed and stopped by a signal.
use zatch.Common.{◌≡◌, none, true, false, refl}
use zatch.Session.Terminal.{
  Termios, cleared, raw_attributes, Tty, raw_terminal, restore_term, handle_die, handle_winch,
  set_attributes,
}
use zatch.Session.Terminal.Restores.{begins, enters, resumes, winches, restore_term-Reaches}

abbrev cooked : Termios
cooked = record {
  c_iflag = 0o2400;
  c_oflag = 5;
  c_lflag = 0o105073;
  c_cflag = 0o277;
  vmin = 1;
  vtime = 0;
}

abbrev shell : Tty
shell = record {
  attributes = cooked;
  term_backup = none;
  term_backed_up = false;
  hook_set = false;
  should_die = false;
  win_changed = false;
}

-- ISIG, ICANON and ECHO are off.
run_raw : (raw_attributes cooked).c_lflag ≡ 0o5060
unfolding raw_attributes cleared
run_raw = refl

entered_on : (handle_winch (raw_terminal cooked shell)).term_backed_up ≡ true
unfolding handle_winch raw_terminal
entered_on = refl

restore_term-Reaches_example :
    (let t = set_attributes (raw_attributes cooked) (handle_winch (raw_terminal cooked shell)) in
      ((restore_term t).attributes ≡ cooked) × ((handle_die t).attributes ≡ cooked))
restore_term-Reaches_example =
    restore_term-Reaches cooked _
      (resumes _ (winches _ (enters _ (begins false false false))) entered_on)

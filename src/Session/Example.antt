-- ===== src/Session/Example.antt =====
-- A configuration for the tests.
use zatch.Common.{some, false, codes}
use zatch.Wire.Methods.{RedrawMethod, ClearMethod}
use zatch.Session.{Session}

abbrev pub sess : Session
sess = record {
  progname = codes "ztch";
  session_envvar = codes "ZTCH_SESSION";
  sockname = codes "/d/s";
  detach_char = some 28;
  no_suspend = false;
  redraw_method = RedrawMethod.winch;
  clear_method = ClearMethod.move;
  no_ansiterm = false;
  quiet = false;
  log_max_size = 1024;
  dont_have_tty = false;
}

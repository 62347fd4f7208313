-- ===== src/Session/Directory/Attached.antt =====
-- `list` and the daemon: the execute bit of the socket file tells whether a client is attached.
use zatch.Common.{ℕ, List, [], ◌∷◌, some, Bool, if◌then◌else◌, same}
use zatch.Daemon.{Client, Effect, chmod}
use zatch.Daemon.Run.{any_attached}
use zatch.Session.{fmt_age}
use zatch.Session.Directory.{Entry, meta_secs}
use zatch.Session.Directory.Listing.{Status, attached, detached, Row}

-- The mode of the file at `path` behind these effects.
abbrev pub mode_after : List ℕ → List Effect → ℕ → ℕ
mode_after path [] mode = mode
mode_after path (chmod p new_mode ∷ es) mode =
    mode_after path es (if same p path then new_mode else mode)
mode_after path (_ ∷ es) mode = mode_after path es mode

-- What `list` says of a session with these clients.
abbrev pub status_of : List Client → Status
status_of cs = if any_attached cs then attached else detached

-- The row of a session that answers.
abbrev row_of : ℕ → List ℕ → Entry → Bool → List Row
row_of now name e exec =
    record {
      name = name;
      age = some (fmt_age now (meta_secs e now));
      status = if exec then attached else detached;
    }
    ∷ []

-- ===== src/Adapter/Directory.antt =====
-- `_open_control_directory` and what `fstat` says of a path.
use postgres_migration_rehea.Adapter.Faults.{
  runtime_error, os_error, file_not_found, Attempt, done, fault,
}
use postgres_migration_rehea.Base.{leb, ◌==◌, if◌then◌else◌, ℕ, Bool, true, false, ◌&&◌}

pub record Metadata : Type 0 where
  pub is_regular : Bool
  pub is_directory : Bool
  pub is_owned : Bool
  pub mode : ℕ
  pub links : ℕ

-- `open` with O_NOFOLLOW on a path: the descriptor's metadata, nothing there, or another OSError.
pub data Opened : Type 0 where
  opened : Metadata → Opened
  missing : Opened
  refused : Opened

-- 0o700
abbrev pub directory_mode : ℕ
directory_mode = 448

-- 0o600
abbrev pub file_mode : ℕ
file_mode = 384

-- The directory that `os.mkdir` makes.
abbrev pub made : Metadata
made = record {
  is_regular = false;
  is_directory = true;
  is_owned = true;
  mode = directory_mode;
  links = 2;
}

abbrev pub is_private_directory : Metadata → Bool
is_private_directory m =
    m.is_directory && (m.is_owned && (m.mode == directory_mode && leb 1 m.links))

abbrev pub is_private_file : Metadata → Bool
is_private_file m = m.is_regular && (m.is_owned && (m.mode == file_mode && m.links == 1))

-- `mkdir` finds the path free, finds something there, or fails.
pub data Mkdir : Type 0 where
  created already_exists mkdir_fails : Mkdir

abbrev checked_directory : Opened → Attempt Metadata
checked_directory missing = fault file_not_found
checked_directory refused = fault (runtime_error "control-room receipt directory is unsafe")
checked_directory (opened m) =
    if is_private_directory m
    then done m
    else fault (runtime_error "control-room receipt directory is unsafe")

abbrev make_directory : Mkdir → Opened → Attempt Metadata
make_directory created found = checked_directory (opened made)
make_directory already_exists found = checked_directory found
make_directory mkdir_fails found = fault os_error

-- `root_opens` is the first `open`; `found` is what stands at the path before the call.
unfoldable pub open_control_directory : Bool → Bool → Mkdir → Opened → Attempt Metadata
open_control_directory false create m found =
    fault (runtime_error "control-room project root is unsafe")
open_control_directory true true m found = make_directory m found
open_control_directory true false m found = checked_directory found

-- ===== src/Adapter/Receipts.antt =====
-- `_cleanup_receipt` and `record_delivery_failure`, on the control directory.
-- The values of the payload; `schema_version` is always 1.
use postgres_migration_rehea.Adapter.Directory.{
  Metadata, Opened, opened, missing, refused, file_mode, is_private_file,
}
use postgres_migration_rehea.Adapter.Faults.{
  runtime_error, Fault, os_error, Attempt, done, fault, is_one_of,
}
use postgres_migration_rehea.Base.{
  leb, ◌==◌, if◌then◌else◌, same_text, ℕ, Bool, true, false, not, ◌&&◌, Option, none, some, List,
  [], ◌∷◌, String,
}
use postgres_migration_rehea.Final.{fullmatch_hex}

pub record Receipt : Type 0 where
  pub run_nonce : String
  pub cleanup_state : String
  pub reason : String
  pub remaining : ℕ
  pub child_exit : String

-- What `json.loads` makes of a file: one of the receipts, another document, or its error.
pub data Loaded : Type 0 where
  loaded_receipt : Receipt → Loaded
  loaded_other : Loaded
  not_loaded : Loaded

pub record File (Raw : Type 0) : Type 0 where
  pub metadata : Metadata
  pub raw : Raw

-- `last-cleanup.json`, `last-cleanup.tmp`, which is only tested for being there, and `engine.lock`.
pub record ControlDir (Raw : Type 0) : Type 0 where
  pub receipt : Option (File Raw)
  pub temp : Option Metadata
  pub lock : Opened

-- How the writes end: `write_fails` is an error up to `os.replace`, and `directory_sync_fails` one of
-- the `os.fsync` after it.
pub data Writes : Type 0 where
  writes_succeed write_fails directory_sync_fails : Writes

-- How the system calls end: the exclusive creation of the temporary file, the writes, `os.close` of the
-- file and `os.unlink` of its path, for which a path that is gone is no error.
pub record Io : Type 0 where
  pub creates : Bool
  pub writes : Writes
  pub closes : Bool
  pub unlinks : Bool

abbrev pub io_fine : Io
io_fine = record { creates = true; writes = writes_succeed; closes = true; unlinks = true }

-- `_whole_number` with its default bounds
abbrev is_whole : ℕ → Bool
is_whole n = leb n 2147483647

abbrev pub cleanup_states : List String
cleanup_states = "complete" ∷ "not_needed" ∷ "blocked_identity_drift" ∷ []

abbrev pub reasons : List String
reasons =
    "success" ∷ "validation_rejected" ∷ "preflight_rejected" ∷ "spawn_failed" ∷ "engine_error"
    ∷ "engine_timeout" ∷ "client_disconnected" ∷ "response_write_failed" ∷ "identity_drift" ∷ []

abbrev pub child_exits : List String
child_exits = "not_started" ∷ "success" ∷ "error" ∷ "timeout" ∷ "signal" ∷ []

abbrev pub is_valid_receipt : Receipt → Bool
is_valid_receipt r =
    fullmatch_hex 16 r.run_nonce
    && (is_one_of r.cleanup_state cleanup_states
        && (is_one_of r.reason reasons
            && (is_whole r.remaining && is_one_of r.child_exit child_exits)))

-- `receipt != {...}`
abbrev pub same_receipt : Receipt → Receipt → Bool
same_receipt r q =
    same_text r.run_nonce q.run_nonce
    && (same_text r.cleanup_state q.cleanup_state
        && (same_text r.reason q.reason
            && (r.remaining == q.remaining && same_text r.child_exit q.child_exit)))

abbrev pub private_metadata : Metadata
private_metadata = record {
  is_regular = true;
  is_directory = false;
  is_owned = true;
  mode = file_mode;
  links = 1;
}

abbrev pub private_file : {Raw : Type 0} → Raw → File Raw
private_file raw = record { metadata = private_metadata; raw = raw }

abbrev pub success_receipt : String → Receipt
success_receipt nonce = record {
  run_nonce = nonce;
  cleanup_state = "complete";
  reason = "success";
  remaining = 0;
  child_exit = "success";
}

abbrev pub undelivered : String → String → Receipt
undelivered nonce reason = record {
  run_nonce = nonce;
  cleanup_state = "complete";
  reason = reason;
  remaining = 0;
  child_exit = "success";
}

abbrev unsafe_path : Fault
unsafe_path = runtime_error "control-room receipt path is unsafe"

abbrev pub is_safe_target : {Raw : Type 0} → Option (File Raw) → Bool
is_safe_target none = true
is_safe_target (some f) = is_private_file f.metadata

-- `dumps` encodes a payload, `loads` decodes a file's bytes, `size` is `st_size`.
module _ {Raw : Type 0} (dumps : Receipt → Raw) (loads : Raw → Loaded) (size : Raw → ℕ) where
  -- The directory after the writes: the temporary file stands, or has been moved over the receipt.
  abbrev pub after_writes : Writes → Receipt → ControlDir Raw → ControlDir Raw
  after_writes writes_succeed r d = record d {
    receipt = some (private_file (dumps r));
    temp = none;
  }
  after_writes write_fails r d = record d { temp = some private_metadata }
  after_writes directory_sync_fails r d = record d {
    receipt = some (private_file (dumps r));
    temp = none;
  }

  abbrev pub unlink_temp : Bool → ControlDir Raw → Attempt (Unit {0}) × ControlDir Raw
  unlink_temp true d = (fault os_error, record d { temp = none })
  unlink_temp false d = (fault os_error, d)

  -- The `finally`: the file is closed, and then, unless it was moved, its path is removed. Where the
  -- close fails, the removal is skipped.
  abbrev pub release_temp :
      Writes → Bool → Bool → ControlDir Raw → Attempt (Unit {0}) × ControlDir Raw
  release_temp writes_succeed true unlinks d = (done tt, d)
  release_temp writes_succeed false unlinks d = (fault os_error, d)
  release_temp write_fails true unlinks d = unlink_temp unlinks d
  release_temp write_fails false unlinks d = (fault os_error, d)
  release_temp directory_sync_fails closes unlinks d = (fault os_error, d)

  abbrev pub replace_receipt : Io → Receipt → ControlDir Raw → Attempt (Unit {0}) × ControlDir Raw
  replace_receipt io r d = release_temp io.writes io.closes io.unlinks (after_writes io.writes r d)

  abbrev pub exclusive_temp :
      Io → Receipt → Option Metadata → ControlDir Raw → Attempt (Unit {0}) × ControlDir Raw
  exclusive_temp io r (some f) d = (fault unsafe_path, d)
  exclusive_temp io r none d = if io.creates then replace_receipt io r d else (fault unsafe_path, d)

  unfoldable pub cleanup_receipt :
      Io → Receipt → ControlDir Raw → Attempt (Unit {0}) × ControlDir Raw
  cleanup_receipt io r d =
      if not (is_valid_receipt r)
      then (fault (runtime_error "control-room cleanup receipt value is invalid"), d)
      else if not (is_safe_target d.receipt)
      then (fault unsafe_path, d)
      else exclusive_temp io r d.temp d

  abbrev pub matching :
      Io → String → String → Loaded → ControlDir Raw → Attempt (Unit {0}) × ControlDir Raw
  matching io nonce reason not_loaded d =
      (fault (runtime_error "delivery failure receipt identity is invalid"), d)
  matching io nonce reason loaded_other d =
      (fault (runtime_error "delivery failure receipt identity changed"), d)
  matching io nonce reason (loaded_receipt r) d =
      if same_receipt r (success_receipt nonce)
      then cleanup_receipt io (undelivered nonce reason) d
      else (fault (runtime_error "delivery failure receipt identity changed"), d)

  abbrev pub with_receipt :
      Io
      → String
      → String
      → Option (File Raw)
      → ControlDir Raw
      → Attempt (Unit {0}) × ControlDir Raw
  with_receipt io nonce reason none d =
      (fault (runtime_error "delivery failure receipt identity is unavailable"), d)
  with_receipt io nonce reason (some f) d =
      if is_private_file f.metadata && (leb 1 (size f.raw) && leb (size f.raw) 4096)
      then matching io nonce reason (loads f.raw) d
      else (fault (runtime_error "delivery failure receipt identity is unsafe"), d)

  abbrev pub with_lock_file :
      Io → String → String → Opened → ControlDir Raw → Attempt (Unit {0}) × ControlDir Raw
  with_lock_file io nonce reason missing d =
      (fault (runtime_error "delivery failure identity is unavailable"), d)
  with_lock_file io nonce reason refused d =
      (fault (runtime_error "delivery failure identity is unavailable"), d)
  with_lock_file io nonce reason (opened m) d =
      if is_private_file m
      then with_receipt io nonce reason d.receipt d
      else (fault (runtime_error "delivery failure identity is unsafe"), d)

  -- The control directory is open. The lock is awaited, so a run that holds it ends first.
  unfoldable pub record_delivery_failure :
      Io → String → String → ControlDir Raw → Attempt (Unit {0}) × ControlDir Raw
  unfolding cleanup_receipt
  record_delivery_failure io nonce reason d =
      if fullmatch_hex 16 nonce
        && is_one_of reason ("client_disconnected" ∷ "response_write_failed" ∷ [])
      then with_lock_file io nonce reason d.lock d
      else (fault (runtime_error "invalid delivery failure identity"), d)

-- ===== src/Adapter/Writes.antt =====
-- What the writes of the cleanup receipt leave in the control directory.
use postgres_migration_rehea.Adapter.Directory.{
  Metadata, Opened, opened, missing, refused, is_private_file,
}
use postgres_migration_rehea.Adapter.Faults.{Attempt, done, fault, is_one_of}
use postgres_migration_rehea.Adapter.Receipts.{
  Receipt, Loaded, loaded_receipt, loaded_other, not_loaded, File, ControlDir, Writes,
  writes_succeed, write_fails, directory_sync_fails, Io, is_valid_receipt, same_receipt,
  private_metadata, private_file, success_receipt, undelivered, is_safe_target, after_writes,
  release_temp, exclusive_temp, cleanup_receipt, matching, with_receipt, with_lock_file,
  record_delivery_failure,
}
use postgres_migration_rehea.Base.{
  leb, ◌==◌, ==→eq, Bool-cases, both, if-cases, same_text, same_text→eq, ℕ, ◌≡◌, refl, sym, ap, ◌∙◌,
  ◌⊎◌, inl, inr, Bool, true, false, not, ◌&&◌, Option, none, some, [], ◌∷◌, String,
}
use postgres_migration_rehea.Final.{fullmatch_hex}

same_receipt→eq : (r q : Receipt) → same_receipt r q ≡ true → r ≡ q
same_receipt→eq r q h =
    let nonce = both (same_text r.run_nonce q.run_nonce) _ h in
    let state = both (same_text r.cleanup_state q.cleanup_state) _ nonce.1 in
    let why = both (same_text r.reason q.reason) _ state.1 in
    let left = both (r.remaining == q.remaining) _ why.1 in
    let same : r.remaining ≡ q.remaining = ==→eq r.remaining q.remaining left.0 in
    λ i. record {
      run_nonce = same_text→eq r.run_nonce q.run_nonce nonce.0 i;
      cleanup_state = same_text→eq r.cleanup_state q.cleanup_state state.0 i;
      reason = same_text→eq r.reason q.reason why.0 i;
      remaining = same i;
      child_exit = same_text→eq r.child_exit q.child_exit left.1 i;
    }

module _ {Raw : Type 0} (dumps : Receipt → Raw) (loads : Raw → Loaded) (size : Raw → ℕ) where
  -- The receipt is the old one or the whole new one, and the other paths are as before, but for a
  -- temporary file that could not be removed.
  abbrev pub IsAtomic :
      Bool → Receipt → ControlDir Raw → Attempt (Unit {0}) × ControlDir Raw → Type 0
  IsAtomic removes r d (done _, after) =
      (after.receipt ≡ some (private_file (dumps r)))
      × ((after.temp ≡ none) × ((d.temp ≡ none) × (after.lock ≡ d.lock)))
  IsAtomic removes r d (fault _, after) =
      ((after.receipt ≡ d.receipt) ⊎ (after.receipt ≡ some (private_file (dumps r))))
      × (((after.temp ≡ d.temp)
            ⊎ ((removes ≡ false)
                × ((d.temp ≡ none)
                    × ((after.temp ≡ some private_metadata) × (after.receipt ≡ d.receipt)))))
          × (after.lock ≡ d.lock))

  replace_receipt-IsAtomic :
      (w : Writes) (closes unlinks : Bool) (r : Receipt) (d : ControlDir Raw)
      → d.temp ≡ none
      → IsAtomic
          (closes && unlinks)
          r
          d
          (release_temp dumps loads size w closes unlinks (after_writes dumps loads size w r d))
  replace_receipt-IsAtomic writes_succeed true u r d h = (refl, (refl, (h, refl)))
  replace_receipt-IsAtomic writes_succeed false u r d h = (inr refl, (inl (sym h), refl))
  replace_receipt-IsAtomic write_fails true true r d h = (inl refl, (inl (sym h), refl))
  replace_receipt-IsAtomic write_fails true false r d h =
      (inl refl, (inr (refl, (h, (refl, refl))), refl))
  replace_receipt-IsAtomic write_fails false u r d h =
      (inl refl, (inr (refl, (h, (refl, refl))), refl))
  replace_receipt-IsAtomic directory_sync_fails c u r d h = (inr refl, (inl (sym h), refl))

  exclusive_temp-IsAtomic :
      (io : Io) (r : Receipt) (d : ControlDir Raw) (t : Option Metadata)
      → d.temp ≡ t
      → IsAtomic (io.closes && io.unlinks) r d (exclusive_temp dumps loads size io r t d)
  exclusive_temp-IsAtomic io r d (some f) h = (inl refl, (inl refl, refl))
  exclusive_temp-IsAtomic io r d none h =
      if-cases (IsAtomic (io.closes && io.unlinks) r d) io.creates _ _
        (replace_receipt-IsAtomic io.writes io.closes io.unlinks r d h) (inl refl, (inl refl, refl))

  -- However the creation of the temporary file, the writes, its close and its removal end,
  -- `_cleanup_receipt` leaves the lock file as it was, and the receipt as it was or replaced by the
  -- whole new private file; where it returns, it is replaced, and there was
  -- no temporary file and is none. Where it raises, the temporary path is as it was, or the close or
  -- the removal of the new file failed: then that file is left, and the receipt is as it was.
  pub cleanup_receipt-IsAtomic :
      (io : Io) (r : Receipt) (d : ControlDir Raw)
      → IsAtomic (io.closes && io.unlinks) r d (cleanup_receipt dumps loads size io r d)
  unfolding cleanup_receipt
  cleanup_receipt-IsAtomic io r d =
      if-cases (IsAtomic (io.closes && io.unlinks) r d) (not (is_valid_receipt r)) _ _
        (inl refl, (inl refl, refl))
        (if-cases (IsAtomic (io.closes && io.unlinks) r d) (not (is_safe_target d.receipt)) _ _
          (inl refl, (inl refl, refl)) (exclusive_temp-IsAtomic io r d d.temp refl))

  -- The receipt was that of the run's success, and is now that of its failed delivery.
  abbrev IsReplaced : String → String → ControlDir Raw → ControlDir Raw → Type 0
  IsReplaced nonce reason d after =
      ((f : File Raw) × ((d.receipt ≡ some f)
          × (loads f.raw ≡ loaded_receipt (success_receipt nonce))))
      × (after.receipt ≡ some (private_file (dumps (undelivered nonce reason))))

  abbrev pub IsMatched :
      String → String → ControlDir Raw → Attempt (Unit {0}) × ControlDir Raw → Type 0
  IsMatched nonce reason d (done _, after) = IsReplaced nonce reason d after
  IsMatched nonce reason d (fault _, after) =
      (after.receipt ≡ d.receipt) ⊎ IsReplaced nonce reason d after

  atomic-IsMatched :
      (removes : Bool) (nonce reason : String) (d : ControlDir Raw)
      → ((f : File Raw) × ((d.receipt ≡ some f)
            × (loads f.raw ≡ loaded_receipt (success_receipt nonce))))
      → (out : Attempt (Unit {0}) × ControlDir Raw)
      → IsAtomic removes (undelivered nonce reason) d out
      → IsMatched nonce reason d out
  atomic-IsMatched removes nonce reason d found (done _, after) h = (found, h.0)
  atomic-IsMatched removes nonce reason d found (fault e, after) (inl same, _) = inl same
  atomic-IsMatched removes nonce reason d found (fault e, after) (inr new, _) = inr (found, new)

  matching-IsMatched :
      (io : Io) (nonce reason : String) (d : ControlDir Raw) (f : File Raw) (l : Loaded)
      → d.receipt ≡ some f
      → loads f.raw ≡ l
      → IsMatched nonce reason d (matching dumps loads size io nonce reason l d)
  unfolding cleanup_receipt
  matching-IsMatched io nonce reason d f not_loaded e l = inl refl
  matching-IsMatched io nonce reason d f loaded_other e l = inl refl
  matching-IsMatched io nonce reason d f (loaded_receipt r) e l =
      elim (Bool-cases (same_receipt r (success_receipt nonce))) [
        | inl h ↦ rw (h) (
            atomic-IsMatched (io.closes && io.unlinks) nonce reason d
              (f, (e, l ∙ ap loaded_receipt (same_receipt→eq r (success_receipt nonce) h))) _
              (cleanup_receipt-IsAtomic io (undelivered nonce reason) d))
        | inr h ↦ rw (h) (inl refl)
      ]

  with_receipt-IsMatched :
      (io : Io) (nonce reason : String) (d : ControlDir Raw) (o : Option (File Raw))
      → d.receipt ≡ o
      → IsMatched nonce reason d (with_receipt dumps loads size io nonce reason o d)
  with_receipt-IsMatched io nonce reason d none e = inl refl
  with_receipt-IsMatched io nonce reason d (some f) e =
      if-cases (IsMatched nonce reason d)
        (is_private_file f.metadata && (leb 1 (size f.raw) && leb (size f.raw) 4096)) _ _
        (matching-IsMatched io nonce reason d f (loads f.raw) e refl) (inl refl)

  with_lock_file-IsMatched :
      (io : Io) (nonce reason : String) (d : ControlDir Raw) (o : Opened)
      → IsMatched nonce reason d (with_lock_file dumps loads size io nonce reason o d)
  with_lock_file-IsMatched io nonce reason d missing = inl refl
  with_lock_file-IsMatched io nonce reason d refused = inl refl
  with_lock_file-IsMatched io nonce reason d (opened m) =
      if-cases (IsMatched nonce reason d) (is_private_file m) _ _
        (with_receipt-IsMatched io nonce reason d d.receipt refl) (inl refl)

  -- Whatever stands in the control directory, `record_delivery_failure` changes the receipt only where
  -- the file decodes to the success receipt of the given run, and then to that run's receipt with the
  -- given reason; where it returns, it has done so.
  pub record_delivery_failure-IsMatched :
      (io : Io) (nonce reason : String) (d : ControlDir Raw)
      → IsMatched nonce reason d (record_delivery_failure dumps loads size io nonce reason d)
  unfolding record_delivery_failure
  record_delivery_failure-IsMatched io nonce reason d =
      if-cases (IsMatched nonce reason d)
        (fullmatch_hex 16 nonce
          && is_one_of reason ("client_disconnected" ∷ "response_write_failed" ∷ []))
        _ _ (with_lock_file-IsMatched io nonce reason d d.lock) (inl refl)

-- ===== src/Adapter/Recovery.antt =====
-- A delivery failure after the receipt of a successful run.
-- What is asked of the codec, of the receipts that `_cleanup_receipt` accepts, whose texts come from
-- closed lists or have 16 digits and whose number is below 2^31: one decodes to itself, and is a file
-- of at most 4096 bytes.
use postgres_migration_rehea.Adapter.Directory.{Metadata, opened, is_private_file}
use postgres_migration_rehea.Adapter.Faults.{done, is_one_of}
use postgres_migration_rehea.Adapter.Receipts.{
  Receipt, Loaded, loaded_receipt, File, ControlDir, io_fine, is_valid_receipt, private_file,
  success_receipt, undelivered, is_safe_target, cleanup_receipt, record_delivery_failure,
}
use postgres_migration_rehea.Base.{
  leb, le→leb, same_text_refl, ℕ, ◌≤◌, ◌≡◌, refl, ◌⊎◌, inl, inr, true, ◌&&◌, Option, none, some, [],
  ◌∷◌, String,
}
use postgres_migration_rehea.Final.{fullmatch_hex}

module _ {Raw : Type 0} (dumps : Receipt → Raw) (loads : Raw → Loaded) (size : Raw → ℕ)
    (decoded : (r : Receipt) → is_valid_receipt r ≡ true → loads (dumps r) ≡ loaded_receipt r)
    (nonempty : (r : Receipt) → is_valid_receipt r ≡ true → 1 ≤ size (dumps r))
    (small : (r : Receipt) → is_valid_receipt r ≡ true → size (dumps r) ≤ 4096) where
  -- Nothing in the way of a receipt.
  abbrev clear : Option (File Raw) → Metadata → ControlDir Raw
  clear before m = record { receipt = before; temp = none; lock = opened m }

  cleanup_receipt_lem :
      (r : Receipt) (m : Metadata) (before : Option (File Raw))
      → is_valid_receipt r ≡ true
      → is_safe_target before ≡ true
      → cleanup_receipt dumps loads size io_fine r (clear before m)
        ≡ (done tt, clear (some (private_file (dumps r))) m)
  unfolding cleanup_receipt
  cleanup_receipt_lem r m before valid safe = rw (valid, safe) refl

  success-is_valid :
      (nonce : String)
      → fullmatch_hex 16 nonce ≡ true
      → is_valid_receipt (success_receipt nonce) ≡ true
  success-is_valid nonce hex = rw (hex) refl

  abbrev IsDelivery : String → Type 0
  IsDelivery reason = (reason ≡ "client_disconnected") ⊎ (reason ≡ "response_write_failed")

  undelivered-is_valid :
      (nonce reason : String)
      → fullmatch_hex 16 nonce ≡ true
      → IsDelivery reason
      → is_valid_receipt (undelivered nonce reason) ≡ true
  undelivered-is_valid nonce reason hex (inl e) = rw (e, hex) refl
  undelivered-is_valid nonce reason hex (inr e) = rw (e, hex) refl

  delivery_reasons :
      (reason : String)
      → IsDelivery reason
      → is_one_of reason ("client_disconnected" ∷ "response_write_failed" ∷ []) ≡ true
  delivery_reasons reason (inl e) = rw (e) refl
  delivery_reasons reason (inr e) = rw (e) refl

  in_bounds :
      (r : Receipt)
      → is_valid_receipt r ≡ true
      → (leb 1 (size (dumps r)) && leb (size (dumps r)) 4096) ≡ true
  in_bounds r valid =
      rw (le→leb 1 (size (dumps r)) (nonempty r valid), le→leb _ 4096 (small r valid)) refl

  -- Where an accepted receipt decodes to itself and makes a file of 1 to 4096 bytes, the lock file is
  -- private, no temporary file stands in the way and the path of the receipt is free or private: the
  -- receipt that a successful run writes is found by a later delivery failure of the same run with one
  -- of the two reasons, and replaced by the receipt with that reason.
  pub record_delivery_failure-recorded :
      (nonce reason : String) (m : Metadata) (before : Option (File Raw))
      → fullmatch_hex 16 nonce ≡ true
      → IsDelivery reason
      → is_private_file m ≡ true
      → is_safe_target before ≡ true
      → record_delivery_failure dumps loads size io_fine nonce reason
          (cleanup_receipt dumps loads size io_fine (success_receipt nonce) (clear before m)).1
        ≡ (done tt, clear (some (private_file (dumps (undelivered nonce reason)))) m)
  unfolding record_delivery_failure
  record_delivery_failure-recorded nonce reason m before hex which private safe =
      rw
        (
          cleanup_receipt_lem (success_receipt nonce) m before (success-is_valid nonce hex) safe,
          delivery_reasons reason which,
          hex,
          private,
          in_bounds (success_receipt nonce) (success-is_valid nonce hex),
          decoded (success_receipt nonce) (success-is_valid nonce hex),
          same_text_refl nonce,
        )
        (cleanup_receipt_lem (undelivered nonce reason) m
          (some (private_file (dumps (success_receipt nonce))))
          (undelivered-is_valid nonce reason hex which) refl)

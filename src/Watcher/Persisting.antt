-- ===== src/Watcher/Persisting.antt =====
-- What `persist_record` of rust/serve/src/watcher.rs leaves behind, on success and on failure.
use pkgre.Prelude.{
  ◌≡◌, ◌⊎◌, inl, inr, refl, Bytes, true, false, ◌&&◌, some, Result, ok, err, arith, Bool-cases,
}
use pkgre.AcceptedRef
use pkgre.Watcher.{Watcher, Publishing, next_counter, persist_bytes}

module _ {Content : Type 0} where
  -- A successful `persist_record` went through every step.
  pub persist_done :
      (printed : Result AcceptedRef.Error Bytes) (p : Publishing) (w : Watcher Content)
      → (persist_bytes printed p w).0 ≡ true
      → (bytes : Bytes) × (printed ≡ ok bytes)
        × (p.sync_directory ≡ true)
        × ((persist_bytes printed p w).1
            ≡ record w { temp_counter = next_counter w.temp_counter; record_file = some bytes })
  unfolding persist_bytes
  persist_done (err e) p w h = absurd (cc)
  persist_done (ok bytes) p w h = (bytes, refl, ground arith, ground arith)

  -- A failed one leaves the record file alone, unless only the last step failed.
  pub persist_failed :
      (printed : Result AcceptedRef.Error Bytes) (p : Publishing) (w : Watcher Content)
      → (persist_bytes printed p w).0 ≡ false
      → ((persist_bytes printed p w).1.accepted ≡ w.accepted)
        × ((persist_bytes printed p w).1.snapshot ≡ w.snapshot)
        × ((persist_bytes printed p w).1.suppressed ≡ w.suppressed)
        × (((persist_bytes printed p w).1.record_file ≡ w.record_file)
            ⊎ ((bytes : Bytes) × (printed ≡ ok bytes)
                × (p.rename ≡ true)
                × (p.sync_directory ≡ false)
                × ((persist_bytes printed p w).1.record_file ≡ some bytes)))
  unfolding persist_bytes
  persist_failed (err e) p w h = (refl, refl, refl, inl refl)
  persist_failed (ok bytes) p w h =
      elim (Bool-cases (p.create && p.write && p.sync_file && p.rename)) [
        | inl reached ↦ (
          ground arith,
          ground arith,
          ground arith,
          inr (bytes, refl, ground arith, ground arith, ground arith),
        )
        | inr stopped ↦ (ground arith, ground arith, ground arith, inl (ground arith))
      ]

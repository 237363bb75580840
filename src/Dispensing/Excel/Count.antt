-- ===== src/Dispensing/Excel/Count.antt =====
-- Every row of an upload is either dispatched or reported.
use fuel_monitoring.Prelude.{ℕ, ◌+◌, ◌≡◌, refl, inl, List, [], ◌∷◌, Text, length, arith, ap}
use fuel_monitoring.Redis.{Redis}
use fuel_monitoring.Security.{Crypto}
use fuel_monitoring.Dispensing.Keys.{Key, Value}
use fuel_monitoring.Dispensing.Excel.{TextOps, Row, error, good}
use fuel_monitoring.Dispensing.Excel.Batch.{
  Tables, RowDraws, Prepared, rejected, issued, IngestOutcome, UploadBatch, RowReport,
  PendingDispatch, row_code, with_hash, with_fp, issue_codes, pending, reports, prepared,
  ingest_excel, load_existing_fingerprints,
}
use fuel_monitoring.Dispensing.Excel.Runs.{ingest_excel-IsRun}

pending-reports :
    (now batch company : ℕ) (draws : ℕ → RowDraws) (rows : List Prepared)
    → length (pending now batch company draws rows) + length (reports rows) ≡ length rows
unfolding pending reports
pending-reports now batch company draws [] = omega arith
pending-reports now batch company draws (rejected e ∷ rows) =
    omega (arith, pending-reports now batch company draws rows)
pending-reports now batch company draws (issued n f g ∷ rows) =
    omega (arith, pending-reports now batch company draws rows)

length-issue_codes :
    (crypto : Crypto) (r : Redis Key Value) (s : r.Store) (draws : ℕ → RowDraws)
    (rows : List (ℕ × Row)) (hashes fps : List Text)
    → length (issue_codes crypto r s draws rows hashes fps) ≡ length rows
unfolding issue_codes
length-issue_codes crypto r s draws [] hashes fps = refl
length-issue_codes crypto r s draws ((n, error id e) ∷ rows) hashes fps =
    omega (arith, length-issue_codes crypto r s draws rows hashes fps)
length-issue_codes crypto r s draws ((n, good f) ∷ rows) hashes fps =
    let made = row_code crypto r s draws n hashes fps in
    omega
      (arith, length-issue_codes crypto r s draws rows (with_hash made hashes) (with_fp made fps))

module _ (ops : TextOps) (crypto : Crypto) (r : Redis Key Value) (draws : ℕ → RowDraws)
    (now batch company : ℕ) where
  length-prepared :
      (parsed : List (ℕ × Row)) (s : r.Store) (t : Tables)
      → length (prepared crypto r draws parsed s t.db) ≡ length parsed
  unfolding prepared
  length-prepared parsed s t =
      length-issue_codes crypto r s draws parsed [] (load_existing_fingerprints t.db)

  -- An answered upload counts every data row once: the rows that got a code, each with a pending
  -- dispatch, and the failed ones, each with a report, make up the total.
  pub ingest_excel-counted :
      (suffix : Text) (xlsx csv : List (ℕ × List Text)) (s : r.Store) (t after : Tables)
      (o : IngestOutcome)
      → ingest_excel crypto r draws ops now batch company suffix xlsx csv s t ≡ (inl o, after)
      → (o.batch.successful_rows + o.batch.failed_rows ≡ o.batch.total_rows)
        × (length o.pending_dispatch ≡ o.batch.successful_rows)
        × (length o.errors ≡ o.batch.failed_rows)
  ingest_excel-counted suffix xlsx csv s t after o h =
      let run =
        ingest_excel-IsRun ops crypto r draws now batch company suffix xlsx csv s t after o h in
      let ready = prepared crypto r draws run.parsed s t.db in
      omega (
        arith,
        pending-reports now batch company draws ready,
        length-prepared run.parsed s t,
        ap (λ (b : UploadBatch). b.total_rows) run.batch_row,
        ap (λ (b : UploadBatch). b.successful_rows) run.batch_row,
        ap (λ (b : UploadBatch). b.failed_rows) run.batch_row,
        ap (λ (l : List RowReport). length l) run.errors,
        ap (λ (l : List PendingDispatch). length l) run.dispatches,
      )

-- ===== src/Dispensing/Excel/Issue.antt =====
-- An upload keeps the tables sound, and every code that it hands out is a code of the tables.
use fuel_monitoring.Prelude.{
  ℕ, ◌≡◌, ◌≢◌, refl, inl, inr, true, none, some, List, [], ◌∷◌, Text, All, arith,
}
use fuel_monitoring.Redis.{Redis}
use fuel_monitoring.Security.{Crypto, HexDigests, code_fingerprint, verify_code}
use fuel_monitoring.Security.Codes.{verify-hash}
use fuel_monitoring.Dispensing.Keys.{Key, Value}
use fuel_monitoring.Dispensing.Models.{Allocation, DispenseCode, CodeStatus, Db, ok, Result-cases}
use fuel_monitoring.Dispensing.Inversion.{lookup_code-some}
use fuel_monitoring.Dispensing.Soundness.{IsSound}
use fuel_monitoring.Dispensing.Generator.{Generated}
use fuel_monitoring.Dispensing.Generator.Laws.{generate_unique_code-ok}
use fuel_monitoring.Dispensing.Engine.Lookup.{lookup_code}
use fuel_monitoring.Dispensing.Excel.Sheet.{Some, IsOfCells, prepared-IsOfCells}
use fuel_monitoring.Dispensing.Excel.{normalise_headers, TextOps, RowFields, Row, error, good}
use fuel_monitoring.Dispensing.Excel.Batch.{
  Tables, RowDraws, Prepared, rejected, issued, PendingDispatch, IngestOutcome, row_code,
  membership, prepared_row, with_hash, with_fp, issue_codes, persist_row, persist, pending,
  pending_of, new_allocation, new_code, prepared, load_existing_fingerprints, ingest_excel,
  read_rows,
}
use fuel_monitoring.Dispensing.Excel.Runs.{ingest_excel-IsRun}
use fuel_monitoring.Dispensing.Excel.Inserts.{
  inserted, persist_row-ok, inserted-IsSound, inserted_keeps, inserted_finds, IsFound-lookup_code,
}

-- A code that was handed out: it is found, active, unused, for its litres.
pub record IsIssued (crypto : Crypto) (db : Db) (p : PendingDispatch) : Type 0 where
  pub code : DispenseCode
  pub allocation : Allocation
  pub found : lookup_code crypto p.code db ≡ ok (some (code, allocation))
  pub active : code.status ≡ CodeStatus.active
  pub unused : code.attempt_count ≡ 0
  pub authorized : code.authorized_liters ≡ p.liters
  pub allocation_id : allocation.id ≡ p.allocation_id
  pub remaining : allocation.remaining_liters ≡ p.liters
  pub company : allocation.company_id ≡ p.company_id

-- The codes of prepared rows verify against what is stored for them.
abbrev Verifies : Crypto → Prepared → Type 0
Verifies crypto (rejected e) = Unit
Verifies crypto (issued n f g) =
    (verify_code crypto g.code g.code_hash ≡ true) × (g.code_fp ≡ code_fingerprint crypto g.code)

module _ (crypto : Crypto) (now batch company : ℕ) (draws : ℕ → RowDraws) where
  persist_row-IsSound :
      (n : ℕ) (f : RowFields) (g : Generated) (t t' : Tables)
      → persist_row now batch company draws n f g t ≡ ok t'
      → IsSound t.db
      → IsSound t'.db
  persist_row-IsSound n f g t t' h sound =
      let (e, did) = persist_row-ok now batch company draws n f g t t' h in
      rw (did.1) (
        inserted-IsSound t.db (new_allocation (draws n).allocation batch company e f)
          (new_code now (draws n).code (draws n).allocation f g) did.0
          (unfold new_allocation in refl) (unfold new_allocation in omega arith)
          (unfold new_code in omega arith) sound)

  persist-IsSound :
      (rows : List Prepared) (t t' : Tables)
      → persist now batch company draws rows t ≡ ok t'
      → IsSound t.db
      → IsSound t'.db
  unfolding persist
  persist-IsSound [] t t' h sound = let same : t ≡ t' = ground arith in rw (← same) sound
  persist-IsSound (rejected e ∷ rows) t t' h sound = persist-IsSound rows t t' h sound
  persist-IsSound (issued n f g ∷ rows) t t' h sound =
      elim (Result-cases (persist_row now batch company draws n f g t)) [
        | inr (e, q) ↦ absurd (ground arith)
        | inl (u, q) ↦ persist-IsSound rows u t' (rw q at h) (persist_row-IsSound n f g t u q sound)
      ]

  persist_row-keeps :
      (n : ℕ) (f : RowFields) (g : Generated) (t t' : Tables) (p : PendingDispatch)
      → persist_row now batch company draws n f g t ≡ ok t'
      → IsIssued crypto t.db p
      → IsIssued crypto t'.db p
  persist_row-keeps n f g t t' p h i =
      let (e, did) = persist_row-ok now batch company draws n f g t t' h in
      let a = new_allocation (draws n).allocation batch company e f in
      let c = new_code now (draws n).code (draws n).allocation f g in
      record {
        code = i.code;
        allocation = i.allocation;
        found = rw (did.1) (
            IsFound-lookup_code crypto p.code (inserted a c t.db) i.code i.allocation (
              inserted_keeps t.db a c did.0 crypto p.code i.code i.allocation
                (lookup_code-some crypto p.code t.db i.code i.allocation i.found)));
        active = i.active;
        unused = i.unused;
        authorized = i.authorized;
        allocation_id = i.allocation_id;
        remaining = i.remaining;
        company = i.company;
      }

  persist-keeps :
      (rows : List Prepared) (t t' : Tables) (p : PendingDispatch)
      → persist now batch company draws rows t ≡ ok t'
      → IsIssued crypto t.db p
      → IsIssued crypto t'.db p
  unfolding persist
  persist-keeps [] t t' p h i = let same : t ≡ t' = ground arith in rw (← same) i
  persist-keeps (rejected e ∷ rows) t t' p h i = persist-keeps rows t t' p h i
  persist-keeps (issued n f g ∷ rows) t t' p h i =
      elim (Result-cases (persist_row now batch company draws n f g t)) [
        | inr (e, q) ↦ absurd (ground arith)
        | inl (u, q) ↦ persist-keeps rows u t' p (rw q at h) (persist_row-keeps n f g t u p q i)
      ]

  persist_row-issues :
      (n : ℕ) (f : RowFields) (g : Generated) (t t' : Tables)
      → Verifies crypto (issued n f g)
      → persist_row now batch company draws n f g t ≡ ok t'
      → IsIssued crypto t'.db (pending_of (draws n).allocation company f g)
  persist_row-issues n f g t t' v h =
      let (e, did) = persist_row-ok now batch company draws n f g t t' h in
      let a = new_allocation (draws n).allocation batch company e f in
      let c = new_code now (draws n).code (draws n).allocation f g in
      record {
        code = c;
        allocation = a;
        found = rw (did.1) (
            IsFound-lookup_code crypto g.code (inserted a c t.db) c a (
              inserted_finds t.db a c did.0 crypto g.code (unfold new_code in v.0)
                (unfold new_code in v.1) (unfold new_code new_allocation in refl)));
        active = unfold new_code in refl;
        unused = unfold new_code in refl;
        authorized = unfold new_code in refl;
        allocation_id = unfold new_allocation in refl;
        remaining = unfold new_allocation in refl;
        company = unfold new_allocation in refl;
      }

  persist-issues :
      (rows : List Prepared) (t t' : Tables)
      → All (Verifies crypto) rows
      → persist now batch company draws rows t ≡ ok t'
      → All (IsIssued crypto t'.db) (pending now batch company draws rows)
  unfolding persist pending
  persist-issues [] t t' v h = tt
  persist-issues (rejected e ∷ rows) t t' v h = persist-issues rows t t' v.1 h
  persist-issues (issued n f g ∷ rows) t t' v h =
      elim (Result-cases (persist_row now batch company draws n f g t)) [
        | inr (e, q) ↦ absurd (ground arith)
        | inl (u, q) ↦ (
          persist-keeps rows u t' (pending_of (draws n).allocation company f g) (rw q at h)
              (persist_row-issues n f g t u v.0 q),
          persist-issues rows u t' v.1 (rw q at h),
        )
      ]

module _ (crypto : Crypto) (r : Redis Key Value) (s : r.Store) (draws : ℕ → RowDraws)
    (hex : HexDigests crypto)
    (salts : (n i : ℕ) → All (λ x. x ≢ b'$') ((draws n).secrets.salt i)) where
  prepared_row-Verifies :
      (n : ℕ) (f : RowFields) (hashes fps : List Text)
      → Verifies crypto (prepared_row n f (row_code crypto r s draws n hashes fps))
  unfolding prepared_row
  prepared_row-Verifies n f hashes fps =
      elim (Result-cases (row_code crypto r s draws n hashes fps)) [
        | inr (e, q) ↦ rw q tt
        | inl (g, q) ↦
            let (k, below, made, fp, hash, unused, new_fp, new_hash) =
              generate_unique_code-ok crypto r s (draws n).secrets (some (membership hashes))
                (some (membership fps)) none g q in
            rw q
              (rw hash (verify-hash crypto ((draws n).secrets.salt k) g.code hex (salts n k)), fp)
      ]

  issue_codes-Verifies :
      (rows : List (ℕ × Row)) (hashes fps : List Text)
      → All (Verifies crypto) (issue_codes crypto r s draws rows hashes fps)
  unfolding issue_codes
  issue_codes-Verifies [] hashes fps = tt
  issue_codes-Verifies ((n, error id e) ∷ rows) hashes fps =
      (tt, issue_codes-Verifies rows hashes fps)
  issue_codes-Verifies ((n, good f) ∷ rows) hashes fps =
      let made = row_code crypto r s draws n hashes fps in
      (
        prepared_row-Verifies n f hashes fps,
        issue_codes-Verifies rows (with_hash made hashes) (with_fp made fps),
      )

module _ (ops : TextOps) (crypto : Crypto) (r : Redis Key Value) (draws : ℕ → RowDraws)
    (now batch company : ℕ) where
  prepared-Verifies :
      HexDigests crypto
      → ((n i : ℕ) → All (λ x. x ≢ b'$') ((draws n).secrets.salt i))
      → (parsed : List (ℕ × Row)) (s : r.Store) (t : Tables)
      → All (Verifies crypto) (prepared crypto r draws parsed s t.db)
  unfolding prepared
  prepared-Verifies hex salts parsed s t =
      issue_codes-Verifies crypto r s draws hex salts parsed [] (load_existing_fingerprints t.db)

  -- An answered upload leaves sound tables sound. Each code that it hands out, when no salt holds a
  -- `$`, is found by the next lookup: active, with no attempt, on an allocation of the uploading company
  -- that still has all of its litres. These are the litres in the cell of a row of the sheet, more than
  -- none, and the employee id is the one in that row.
  pub ingest_excel-issues :
      (suffix : Text) (xlsx csv : List (ℕ × List Text)) (s : r.Store) (t after : Tables)
      (o : IngestOutcome)
      → HexDigests crypto
      → ((n i : ℕ) → All (λ x. x ≢ b'$') ((draws n).secrets.salt i))
      → ingest_excel crypto r draws ops now batch company suffix xlsx csv s t ≡ (inl o, after)
      → IsSound t.db
      → IsSound after.db
        × All (IsIssued crypto after.db) o.pending_dispatch
        × (first : ℕ) × (header : List Text) × (rows : List (ℕ × List Text)) × (read_rows suffix
              xlsx csv
            ≡ some ((first, header) ∷ rows))
        × All
            (λ (p : PendingDispatch).
              Some (IsOfCells ops (normalise_headers ops header) company p) rows)
            o.pending_dispatch
  ingest_excel-issues suffix xlsx csv s t after o hex salts h sound =
      let run =
        ingest_excel-IsRun ops crypto r draws now batch company suffix xlsx csv s t after o h in
      let ready = prepared crypto r draws run.parsed s t.db in
      let verify = prepared-Verifies hex salts run.parsed s t in
      let headers = normalise_headers ops run.header in
      rw (run.tables, run.dispatches)
        (
          persist-IsSound crypto now batch company draws ready t run.stored run.persisted sound,
          persist-issues crypto now batch company draws ready t run.stored verify run.persisted,
          run.first,
          run.header,
          run.rows,
          run.sheet,
          prepared-IsOfCells ops headers run.rows company crypto r draws now batch run.parsed s t
              run.is_parsed,
        )

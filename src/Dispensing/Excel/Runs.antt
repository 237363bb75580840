-- ===== src/Dispensing/Excel/Runs.antt =====
-- What an upload that was answered has done.
use fuel_monitoring.Prelude.{
  Option, some, ℕ, ◌≡◌, refl, inl, inr, List, [], ◌∷◌, Text, length, arith, Bool-cases,
  Option-cases,
}
use fuel_monitoring.Redis.{Redis}
use fuel_monitoring.Security.{Crypto}
use fuel_monitoring.Dispensing.Keys.{Key, Value}
use fuel_monitoring.Dispensing.Models.{Result, ok, err}
use fuel_monitoring.Dispensing.Excel.{TextOps, Row, all_fields, normalise_headers}
use fuel_monitoring.Dispensing.Excel.Batch.{
  Tables, RowDraws, IngestOutcome, persist, pending, reports, all_columns, completed_batch,
  finished, prepared, read_rows, with_headers, with_parsed, parse_rows, ingest_excel,
}

module _ (ops : TextOps) (crypto : Crypto) (r : Redis Key Value) (draws : ℕ → RowDraws)
    (now batch company : ℕ) where
  -- The sheet of an answered upload, its rows after the checks, and those with codes, which it has
  -- persisted.
  pub record IsRun (source : Option (List (ℕ × List Text))) (s : r.Store) (t : Tables)
      (o : IngestOutcome) (after : Tables) : Type 0 where
    pub first : ℕ
    pub header : List Text
    pub rows : List (ℕ × List Text)
    pub sheet : source ≡ some ((first, header) ∷ rows)
    pub parsed : List (ℕ × Row)
    pub is_parsed : parse_rows ops (normalise_headers ops header) rows ≡ ok parsed
    pub stored : Tables
    pub persisted :
        persist now batch company draws (prepared crypto r draws parsed s t.db) t ≡ ok stored
    pub tables : after.db ≡ stored.db
    pub batch_row :
        o.batch
        ≡ completed_batch now batch company draws
            (length parsed)
            (prepared crypto r draws parsed s t.db)
    pub errors : o.errors ≡ reports (prepared crypto r draws parsed s t.db)
    pub dispatches :
        o.pending_dispatch ≡ pending now batch company draws (prepared crypto r draws parsed s t.db)

  module _ (first : ℕ) (header : List Text) (rows : List (ℕ × List Text)) (s : r.Store)
      (t after : Tables) (o : IngestOutcome) where
    finished-IsRun :
        (parsed : List (ℕ × Row)) (m : Result Tables)
        → parse_rows ops (normalise_headers ops header) rows ≡ ok parsed
        → persist now batch company draws (prepared crypto r draws parsed s t.db) t ≡ m
        → finished now batch company draws
            (length parsed)
            (prepared crypto r draws parsed s t.db)
            t
            m
          ≡ (inl o, after)
        → IsRun (some ((first, header) ∷ rows)) s t o after
    unfolding finished
    finished-IsRun parsed (err e) q p h = absurd (ground arith)
    finished-IsRun parsed (ok t') q p h = record {
      first = first;
      header = header;
      rows = rows;
      sheet = refl;
      parsed = parsed;
      is_parsed = q;
      stored = t';
      persisted = p;
      tables = ground arith;
      batch_row = ground arith;
      errors = ground arith;
      dispatches = ground arith;
    }

    parsed-IsRun :
        (m : Result (List (ℕ × Row)))
        → parse_rows ops (normalise_headers ops header) rows ≡ m
        → with_parsed crypto r draws ops now batch company m s t ≡ (inl o, after)
        → IsRun (some ((first, header) ∷ rows)) s t o after
    parsed-IsRun (err e) q h = absurd (cc)
    parsed-IsRun (ok parsed) q h =
        finished-IsRun parsed
          (persist now batch company draws (prepared crypto r draws parsed s t.db) t) q refl h

    rows-IsRun :
        with_headers crypto r draws ops now batch company (normalise_headers ops header) rows s t
          ≡ (inl o, after)
        → IsRun (some ((first, header) ∷ rows)) s t o after
    rows-IsRun h = elim (Bool-cases (all_columns (normalise_headers ops header) all_fields)) [
      | inr f ↦ absurd (ground arith)
      | inl all ↦
          parsed-IsRun (parse_rows ops (normalise_headers ops header) rows) refl (rw all at h)
    ]

  pub ingest_excel-IsRun :
      (suffix : Text) (xlsx csv : List (ℕ × List Text)) (s : r.Store) (t after : Tables)
      (o : IngestOutcome)
      → ingest_excel crypto r draws ops now batch company suffix xlsx csv s t ≡ (inl o, after)
      → IsRun (read_rows suffix xlsx csv) s t o after
  unfolding ingest_excel
  ingest_excel-IsRun suffix xlsx csv s t after o h =
      elim (Option-cases (read_rows suffix xlsx csv)) [
        | inl e ↦ absurd (cc (rw e at h))
        | inr ([], e) ↦ absurd (cc (rw e at h))
        | inr ((n, header) ∷ rows, e) ↦ rw e (rows-IsRun n header rows s t after o (rw e at h))
      ]

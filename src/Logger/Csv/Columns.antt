-- ===== src/Logger/Csv/Columns.antt =====
-- A reader of the file finds in each line the fields that were written, under the header's columns.
use mathlib.Core.List.{append-nil, append_assoc}
use efa_libfabric_bench.Prelude.{
  ℕ, zero, suc, ◌+◌, ◌-◌, ◌<◌, ◌≡◌, ◌≢◌, refl, List, [], ◌∷◌, ◌++◌, some, length, if◌then◌else◌,
  ◌==◌, arith, ap, ◌∙◌, get_elem?, get_or, sym,
}
use efa_libfabric_bench.Context.{Text}
use efa_libfabric_bench.Logger.Csv.{
  BenchmarkContext, CsvStat, header_fields, latency_fields, log_header, log_row, latency_row,
  latency_rows, dump_latency_stats,
}

-- A reader: the fields of a line, up to its end. `field` is what has been read of the present one.
unfoldable pub columns_from : Text → Text → List Text
columns_from field [] = field ∷ []
columns_from field (ch ∷ rest) =
    let next = columns_from [] rest in
    let more = columns_from (field ++ (ch ∷ [])) rest in
    if ch == b'\n' then field ∷ [] else if ch == b',' then field ∷ next else more

unfoldable pub columns : Text → List Text
columns line = columns_from [] line

-- No separator stands in a field.
abbrev pub IsPlain : Text → Type 0
IsPlain [] = Unit
IsPlain (ch ∷ rest) = (ch ≢ b'\n') × (ch ≢ b',') × IsPlain rest

abbrev pub AllPlain : List Text → Type 0
AllPlain [] = Unit
AllPlain (x ∷ rest) = IsPlain x × AllPlain rest

columns_from-plain :
    (field x rest : Text)
    → IsPlain x
    → columns_from field (x ++ rest) ≡ columns_from (field ++ x) rest
unfolding columns_from
columns_from-plain field [] rest h = ap (λ f. columns_from f rest) (sym (append-nil field))
columns_from-plain field (ch ∷ x) rest h =
    step
    ∙ columns_from-plain (field ++ (ch ∷ [])) x rest h.2
    ∙ ap (λ f. columns_from f rest) (append_assoc field (ch ∷ []) x)
  where
    step : columns_from field (ch ∷ (x ++ rest)) ≡ columns_from (field ++ (ch ∷ [])) (x ++ rest)
    step = ground (arith, h.0, h.1)

columns-log_header :
    (x : Text) (fields : List Text)
    → AllPlain (x ∷ fields)
    → columns (log_header (x ∷ fields)) ≡ x ∷ fields
unfolding columns log_header columns_from
columns-log_header x [] h = columns_from-plain [] x (b'\n' ∷ []) h.0
columns-log_header x (y ∷ fields) h =
    columns_from-plain [] x (b',' ∷ log_header (y ∷ fields)) h.0
    ∙ ap (λ l. x ∷ l) (columns-log_header y fields h.1)

get_elem?-get_or : (xs : List ℕ) (i : ℕ) → i < length xs → get_elem? xs i ≡ some (get_or xs i 0)
get_elem?-get_or [] i h = absurd (omega arith)
get_elem?-get_or (x ∷ xs) zero h = refl
get_elem?-get_or (x ∷ xs) (suc i) h = get_elem?-get_or xs i (omega arith)

module _ (to_string : ℕ → Text) (c : BenchmarkContext) where
  -- The fields of a row.
  abbrev pub row_fields : CsvStat → List Text
  row_fields s =
      to_string s.timestamp
      ∷ c.experiment_name
      ∷ c.provider
      ∷ c.endpoint
      ∷ c.node_type
      ∷ to_string c.batch_size
      ∷ to_string c.num_threads
      ∷ c.operation_type
      ∷ to_string c.msg_size
      ∷ s.ops_per_second
      ∷ s.tx_pkts_psec
      ∷ s.rx_pkts_psec
      ∷ s.tx_bw
      ∷ s.rx_bw
      ∷ s.app_bw
      ∷ s.latency
      ∷ []

  abbrev pub latency_row_fields : (usec : ℕ → Text) → ℕ → ℕ → List Text
  latency_row_fields usec i nsec =
      to_string (i + 1)
      ∷ c.experiment_name
      ∷ c.provider
      ∷ c.endpoint
      ∷ c.node_type
      ∷ to_string c.msg_size
      ∷ usec nsec
      ∷ []

  -- Where no field has a comma or an end of line in it, a reader of the header line finds the column
  -- names, a reader of a row its values, and they are equally many; so it is for the lines of
  -- `dumpLatencyStats`.
  pub columns-log_row :
      (s : CsvStat) (usec : ℕ → Text) (i nsec : ℕ)
      → AllPlain (row_fields s)
      → AllPlain (latency_row_fields usec i nsec)
      → (columns (log_header header_fields) ≡ header_fields)
        × (columns (log_row to_string c s) ≡ row_fields s)
        × (length (row_fields s) ≡ length header_fields)
        × (columns (log_header latency_fields) ≡ latency_fields)
        × (columns (latency_row to_string c usec i nsec) ≡ latency_row_fields usec i nsec)
        × (length (latency_row_fields usec i nsec) ≡ length latency_fields)
  unfolding log_row latency_row header_fields latency_fields log_header columns columns_from
  columns-log_row s usec i nsec h g = (
    refl,
    columns-log_header (to_string s.timestamp) _ h,
    refl,
    refl,
    columns-log_header (to_string (i + 1)) _ g,
    refl,
  )

  -- What a line says.
  abbrev pub line : (usec : ℕ → Text) → List ℕ → ℕ → Text
  line usec times k = latency_row to_string c usec k (get_or times (k + 1) 0 - get_or times k 0)

  latency_rows_lem :
      (usec : ℕ → Text) (times : List ℕ) (left i : ℕ)
      → i + left < length times
      → (rows : List Text) × (latency_rows to_string c usec times left i ≡ some rows)
        × (length rows ≡ left)
        × ((k : ℕ) → k < left → get_elem? rows k ≡ some (line usec times (i + k)))
  unfolding latency_rows
  latency_rows_lem usec times zero i h = ([], refl, refl, λ k l. absurd (omega arith))
  latency_rows_lem usec times (suc left) i h =
      let (rows, e, n, each) = latency_rows_lem usec times left (i + 1) (omega arith) in
      (
        line usec times i ∷ rows,
        rw (get_elem?-get_or times (i + 1) (omega arith), get_elem?-get_or times i (omega arith), e)
            refl,
        ap suc n,
        below rows each,
      )
    where
      below :
          (rows : List Text)
          → ((k : ℕ) → k < left → get_elem? rows k ≡ some (line usec times (i + 1 + k)))
          → (k : ℕ) → k < suc left
          → get_elem? (line usec times i ∷ rows) k ≡ some (line usec times (i + k))
      below rows each zero l = ap (λ j. some (line usec times j)) (omega arith)
      below rows each (suc k) l =
          each k (omega arith) ∙ ap (λ j. some (line usec times j)) (omega arith)

  -- With a timestamp before the first transfer and one after each, `dumpLatencyStats` reads none that
  -- is not there, and writes a line for each iteration, line `k` with the difference of
  -- timestamps `k + 1` and `k`.
  pub dump_latency_stats_lem :
      (usec : ℕ → Text) (times : List ℕ)
      → length times ≡ c.iterations + 1
      → (rows : List Text) × (dump_latency_stats to_string c usec times ≡ some rows)
        × (length rows ≡ c.iterations)
        × ((k : ℕ) → k < c.iterations → get_elem? rows k ≡ some (line usec times k))
  unfolding dump_latency_stats
  dump_latency_stats_lem usec times h =
      let (rows, e, n, each) = latency_rows_lem usec times c.iterations 0 (omega (arith, h)) in
      (rows, e, n, λ k l. each k l ∙ ap (λ j. some (line usec times j)) (omega arith))

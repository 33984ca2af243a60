-- ===== src/Logger.antt =====
-- `CsvLogger` of efa-bench/src/CsvLogger.cpp: a thread that samples the workers while all of them
-- are connected. `Protocol` has the thread beside the workers, `Csv` the lines that it writes.
pub mod Protocol
pub mod Stuck
pub mod Csv
use efa_libfabric_bench.Prelude.{
  ℕ, zero, suc, ◌+◌, ◌-◌, ◌<◌, ◌≡◌, Bool, true, false, ◌&&◌, if◌then◌else◌, ◌==◌,
}

-- Where a worker thread is: before it is connected, in its loop, behind it, or after an early
-- `return` from it.
pub data Phase : Type 0 where
  starting running finished returned : Phase

-- Where the logger thread is: in the scans of `getAggregateConnectionStatus` before and during its
-- sampling, with the next worker that it reads and `aggregateState`; or at its end.
pub data Logger : Type 0 where
  waiting : ℕ → Bool → Logger
  sampling : ℕ → Bool → Logger
  stopped : Logger

-- `workerConnectionStatus` and `workerOperationCounter` are shared.
pub record System : Type 0 where
  pub phase : ℕ → Phase
  pub status : ℕ → Bool
  pub ops : ℕ → ℕ
  pub logger : Logger
  pub rows : ℕ

abbrev pub put {ℓ} : {A : Type ℓ} → ℕ → A → (ℕ → A) → ℕ → A
put i v f j = if j == i then v else f j

-- One step of one thread, of `n` workers and the logger.
pub data Step (n : ℕ) (s t : System) : Type 0 where
  connects :
      (i : ℕ)
      → i < n
      → s.phase i ≡ starting
      → t ≡ record s { phase = put i running s.phase; status = put i true s.status }
      → Step n s t
  operates :
      (i : ℕ)
      → i < n
      → s.phase i ≡ running
      → t ≡ record s { ops = put i (s.ops i + 1) s.ops }
      → Step n s t
  ends :
      (i : ℕ)
      → i < n
      → s.phase i ≡ running
      → t ≡ record s { phase = put i finished s.phase; status = put i false s.status }
      → Step n s t
  breaks_off :
      (i : ℕ)
      → i < n
      → s.phase i ≡ running
      → t ≡ record s { phase = put i returned s.phase }
      → Step n s t
  reads :
      (k : ℕ) (acc : Bool)
      → k < n
      → s.logger ≡ waiting k acc
      → t ≡ record s { logger = waiting (suc k) (acc && s.status k) }
      → Step n s t
  retries : s.logger ≡ waiting n false → t ≡ record s { logger = waiting 0 true } → Step n s t
  begins : s.logger ≡ waiting n true → t ≡ record s { logger = sampling 0 true } → Step n s t
  rereads :
      (k : ℕ) (acc : Bool)
      → k < n
      → s.logger ≡ sampling k acc
      → t ≡ record s { logger = sampling (suc k) (acc && s.status k) }
      → Step n s t
  samples :
      s.logger ≡ sampling n true
      → t ≡ record s { logger = sampling 0 true; rows = s.rows + 1 }
      → Step n s t
  stops : s.logger ≡ sampling n false → t ≡ record s { logger = stopped } → Step n s t

pub data Reach (n : ℕ) (s : System) : System → Type 0 where
  here : Reach n s s
  next : {t u : System} → Reach n s t → Step n t u → Reach n s u

-- No thread has begun.
abbrev pub initial : System
initial = record {
  phase = λ i. starting;
  status = λ i. false;
  ops = λ i. 0;
  logger = waiting 0 true;
  rows = 0;
}

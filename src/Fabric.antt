-- ===== src/Fabric.antt =====
-- The interface to libfabric and to the host: return codes, requests, completions, and the calls
-- that libefa makes. The calls are a record of functions on the state `W` of what lies beyond
-- them; nothing is assumed of it here.
pub mod Contract
use efa_libfabric_bench.Prelude.{ℕ, zero, suc, Bool, true, false, Option}

-- The negative return values, `-FI_EAGAIN` and so on; `errno` is any other.
pub data Error : Type 0 where
  eagain eavail enomem eio enodata eother etoosmall enosys enotconn : Error
  errno : ℕ → Error

-- An `int` or `ssize_t` that a call returns: 0 or more, or a negated error code.
pub data Ret : Type 0 where
  val : ℕ → Ret
  fail : Error → Ret

-- `ret == 0`
abbrev pub is_ok : Ret → Bool
is_ok (val zero) = true
is_ok (val (suc n)) = false
is_ok (fail e) = false

-- `ret > 0`
abbrev pub is_positive : Ret → Bool
is_positive (val zero) = false
is_positive (val (suc n)) = true
is_positive (fail e) = false

-- `ret < 0`
abbrev pub is_negative : Ret → Bool
is_negative (val n) = false
is_negative (fail e) = true

-- `ret == -FI_EAGAIN`
abbrev pub is_eagain : Ret → Bool
is_eagain (fail eagain) = true
is_eagain _ = false

-- `ret == -FI_EAVAIL`
abbrev pub is_eavail : Ret → Bool
is_eavail (fail eavail) = true
is_eavail _ = false

abbrev pub exit_failure : Ret
exit_failure = val 1

-- The `context` pointers of requests.
pub data Handle : Type 0 where
  null tx_ctx rx_ctx connection : Handle
  multi_recv_ctx : ℕ → Handle
  other_ctx : ℕ → Handle

-- The operation flags that the library passes, each alone.
pub data Flag : Type 0 where
  plain completion more transmit_complete : Flag

-- What a request transfers: `len` bytes at `base`.
pub record Buffer : Type 0 where
  pub base : ℕ
  pub len : ℕ

-- `struct fi_rma_iov`
pub record RmaIov : Type 0 where
  pub addr : ℕ
  pub len : ℕ
  pub key : ℕ

pub data AtomicCall : Type 0 where
  atomic fetch_atomic compare_atomic : AtomicCall

-- The libfabric calls that post an operation, with the arguments that the library computes.
-- `dest` and `src` are fabric addresses.
pub data Request : Type 0 where
  send : (buf : Buffer) (dest : ℕ) (context : Handle) → Request
  senddata : (buf : Buffer) (cq_data dest : ℕ) (context : Handle) → Request
  tsend : (buf : Buffer) (dest tag : ℕ) (context : Handle) → Request
  tsenddata : (buf : Buffer) (cq_data dest tag : ℕ) (context : Handle) → Request
  sendmsg : (buf : Buffer) (dest : ℕ) (context : Handle) (flags : Flag) → Request
  tsendmsg : (buf : Buffer) (dest tag : ℕ) (context : Handle) (flags : Flag) → Request
  inject : (buf : Buffer) (dest : ℕ) → Request
  tinject : (buf : Buffer) (dest tag : ℕ) → Request
  write : (buf : Buffer) (dest addr key : ℕ) (context : Handle) → Request
  writedata : (buf : Buffer) (cq_data dest addr key : ℕ) (context : Handle) → Request
  read : (buf : Buffer) (dest addr key : ℕ) (context : Handle) → Request
  inject_write : (buf : Buffer) (dest addr key : ℕ) → Request
  inject_writedata : (buf : Buffer) (cq_data dest addr key : ℕ) → Request
  writemsg : (buf : Buffer) (dest : ℕ) (remote : RmaIov) (context : Handle) (flags : Flag) → Request
  readmsg : (buf : Buffer) (dest : ℕ) (remote : RmaIov) (context : Handle) (flags : Flag) → Request
  atomic_op : (call : AtomicCall) (base count dest addr key : ℕ) (context : Handle) → Request
  recv : (buf : Buffer) (src : ℕ) (context : Handle) → Request
  trecv : (buf : Buffer) (src tag : ℕ) (context : Handle) → Request
  recvmsg : (buf : Buffer) (src : ℕ) (context : Handle) (flags : Flag) → Request
  trecvmsg : (buf : Buffer) (src tag : ℕ) (context : Handle) (flags : Flag) → Request

-- What a queue read leaves in its `struct fi_cq_err_entry`.
pub record Completion : Type 0 where
  pub op_context : Handle
  pub tag : ℕ
  pub is_recv : Bool  -- flags & FI_RECV
  pub is_multi_recv : Bool  -- flags & FI_MULTI_RECV
  pub len : ℕ
  pub buf : ℕ

-- Queues and counters are named by numbers; 0 is `NULL`.
pub record Fabric (W : Type 0) : Type 0 where
  pub post : Request → W → record { ret : Ret; next : W }
  -- `fi_cq_read(cq, &comp, n)`, and `fi_cq_sread` with its timeout
  pub cq_read : ℕ → ℕ → W → record { ret : Ret; comp : Completion; next : W }
  pub cq_sread : ℕ → ℕ → Option ℕ → W → record { ret : Ret; comp : Completion; next : W }
  -- `fi_cq_readerr`: what it returns, and `-cq_err.err`
  pub cq_readerr : ℕ → W → record { ret : Ret; err : Ret; next : W }
  pub cntr_read : ℕ → W → record { value : ℕ; next : W }
  pub cntr_wait : ℕ → ℕ → Option ℕ → W → record { ret : Ret; next : W }
  pub trywait : ℕ → W → record { ret : Ret; next : W }
  -- 0 is `NULL`
  pub malloc : ℕ → W → record { ptr : ℕ; next : W }
  -- bytes of the process's memory, which the provider reads and writes too
  pub load : ℕ → W → ℕ
  pub store : ℕ → ℕ → W → W
  -- `poll` on a file descriptor: -1 is a failure with `errno`
  pub poll : ℕ → Option ℕ → W → record { ret : Ret; next : W }
  -- the seconds of `clock_gettime(CLOCK_MONOTONIC, …)`
  pub clock : W → record { seconds : ℕ; next : W }

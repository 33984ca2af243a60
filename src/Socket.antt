-- ===== src/Socket.antt =====
-- The out-of-band socket: `ft_sock_send`, `ft_sock_recv` and `ft_force_progress` of
-- libefa/src/libefa/ftlib/shared.c. The host's socket calls are a record of functions.
pub mod Whole
use efa_libfabric_bench.Prelude.{
  ℕ, zero, suc, ◌+◌, ◌-◌, Bool, true, false, List, [], ◌∷◌, ◌++◌, ltb, ◌==◌, if◌then◌else◌, take,
  drop, length, not,
}
use efa_libfabric_bench.Fabric.{Ret, val, fail, Error, eagain, enotconn, Fabric, is_ok, is_positive}
use efa_libfabric_bench.Context.{Context}
use efa_libfabric_bench.Machine.{State}

-- The result of `send` or `recv` (`accepted k` is `k + 1` bytes, never none): bytes taken or given, the end of the stream, a transient error
-- (EAGAIN, EWOULDBLOCK), or another `errno`.
pub data Sent : Type 0 where
  accepted : ℕ → Sent
  busy : Sent
  broken : Error → Sent

pub data Received : Type 0 where
  bytes : ℕ → List ℕ → Received
  closed : Received
  not_yet : Received
  failed : Error → Received

-- `send` takes more than none of the bytes that it is given; `recv` gives a first byte and others.
pub record Sockets (W : Type 0) : Type 0 where
  pub send : ℕ → List ℕ → W → record { result : Sent; next : W }
  pub recv : ℕ → ℕ → W → record { result : Received; next : W }

-- What a loop over a socket leaves: the error or 0, the bytes received, the state.
pub data Exchange (W : Type 0) : Type 0 where
  ended : Ret → List ℕ → W → Exchange W
  endless : Exchange W

module _ {W : Type 0} (fab : Fabric W) (sk : Sockets W) where
  -- Reads no completion, of each queue that is there, to let the provider run.
  unfoldable pub ft_force_progress : Context → W → W
  ft_force_progress c w =
      let u = if c.txcq == 0 then w else (fab.cq_read c.txcq 0 w).next in
      if c.rxcq == 0 then u else (fab.cq_read c.rxcq 0 u).next

  -- The bytes are those that are still to be sent: `msg + sent`.
  unfoldable pub ft_sock_send : ℕ → Context → ℕ → List ℕ → W → Exchange W
  ft_sock_send n c fd [] w = ended (val 0) [] w
  ft_sock_send zero c fd (x ∷ xs) w = endless
  ft_sock_send (suc n) c fd (x ∷ xs) w =
      let r = sk.send fd (x ∷ xs) w in
      elim r.result [
        | accepted k ↦ ft_sock_send n c fd (drop k xs) r.next
        | busy ↦ ft_sock_send n c fd (x ∷ xs) (ft_force_progress c r.next)
        | broken e ↦ ended (fail e) [] r.next
      ]

  -- `len - rcvd` bytes are missing, and `got` has come.
  unfoldable pub ft_sock_recv : ℕ → Context → ℕ → ℕ → List ℕ → W → Exchange W
  ft_sock_recv n c fd zero got w = ended (val 0) got w
  ft_sock_recv zero c fd (suc len) got w = endless
  ft_sock_recv (suc n) c fd (suc len) got w =
      let r = sk.recv fd (suc len) w in
      elim r.result [
        | bytes b bs ↦ ft_sock_recv n c fd (suc len - length (b ∷ bs)) (got ++ (b ∷ bs)) r.next
        | closed ↦ ended (fail enotconn) got r.next
        | not_yet ↦ ft_sock_recv n c fd (suc len) got (ft_force_progress c r.next)
        | failed e ↦ ended (fail e) got r.next
      ]

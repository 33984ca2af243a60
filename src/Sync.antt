-- ===== src/Sync.antt =====
-- The two ends meet: `ft_sync` of
-- libefa/src/libefa/ftlib/shared.c.
use efa_libfabric_bench.Prelude.{ℕ, Bool, true, false, none, some, [], ◌∷◌, not, if◌then◌else◌}
use efa_libfabric_bench.Fabric.{Fabric, tx_ctx}
use efa_libfabric_bench.Context.{Context, opt}
use efa_libfabric_bench.Context.Options
use efa_libfabric_bench.Machine.{returns, out_of_rounds, Step, ◌>>◌}
use efa_libfabric_bench.Transfer.{ft_tx, ft_rx}
use efa_libfabric_bench.Socket.{Sockets, Exchange, ended, endless, ft_sock_send, ft_sock_recv}

-- Whether the option `dst_addr` is given, as to a client.
abbrev pub is_client : Context → Bool
is_client c = elim c.opts.dst_addr [ none ↦ false | some a ↦ true ]

module _ {W : Type 0} (fab : Fabric W) (sk : Sockets W) (rounds : ℕ) where
  -- A transfer over the socket, as a step of the connection.
  abbrev pub over_socket : (W → Exchange W) → Step W
  over_socket run s = elim (run s.world) [
    | ended r got w ↦ returns r (record s { world = w })
    | endless ↦ out_of_rounds
  ]

  -- One byte to the other end and one back, in the order of the end: a client sends first. `fd` is
  -- the socket, and `byte` is the value of the variable `buf`, which nothing sets.
  unfoldable pub ft_sync : (fd byte : ℕ) → Step W
  ft_sync fd byte s =
      let c = s.ctx in
      let ping : Step W = ft_tx fab rounds c.remote_fi_addr 1 tx_ctx in
      let pong : Step W = ft_rx fab rounds 1 in
      let send : Step W = over_socket (ft_sock_send fab sk rounds c fd (byte ∷ [])) in
      let recv : Step W = over_socket (ft_sock_recv fab sk rounds c fd 1 []) in
      if not (opt c Options.oob_sync)
      then (if is_client c then (ping >> pong) s else (pong >> ping) s)
      else (if is_client c then (send >> recv) s else (recv >> send) s)

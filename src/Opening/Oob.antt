-- ===== src/Opening/Oob.antt =====
-- The out-of-band connection (libefa/src/libefa/ftlib/shared.c): `ft_fd_nonblock`, `ft_sock_setup`,
-- `ft_sock_listen`, `ft_sock_connect`, `ft_sock_accept`, `ft_init_oob` and `ft_sock_shutdown`. The host's calls are a record of functions.
use efa_libfabric_bench.Prelude.{
  ℕ, Bool, true, false, Option, none, some, [], ◌∷◌, not, ◌||◌, if◌then◌else◌,
}
use efa_libfabric_bench.Fabric.{Ret, val, fail, errno, is_ok, is_negative}
use efa_libfabric_bench.Context.{Context, Text, opt}
use efa_libfabric_bench.Context.Fids.{Objects}
use efa_libfabric_bench.Context.Options
use efa_libfabric_bench.Machine.{Outcome, returns, Step, ◌>>◌}
use efa_libfabric_bench.Opening.{with_objects}

-- Operations on a socket that return an `int`: SO_REUSEADDR, TCP_NODELAY, `bind`, `listen`,
-- `connect`, and `fcntl` with F_GETFL and with O_NONBLOCK set.
pub data SocketCall : Type 0 where
  reuse_addr no_delay bind listen connect get_flags set_nonblock : SocketCall

pub record Net (W : Type 0) : Type 0 where
  pub getaddrinfo :
      (node service : Option Text) → (passive : Bool) → W → record { ret : Ret; next : W }
  -- a descriptor, or `none` for -1
  pub socket : W → record { fd : Option ℕ; next : W }
  pub accept : (listening : Option ℕ) → W → record { fd : Option ℕ; next : W }
  -- a failure carries what the callers return: -1, or -errno of `fcntl`
  pub call : SocketCall → (fd : ℕ) → W → record { ret : Ret; next : W }
  pub close : (fd : ℕ) → W → W
  pub shutdown : (fd : ℕ) → W → W

abbrev minus_one : Ret
minus_one = fail (errno 1)

-- "3000"
abbrev default_oob_port : Text
default_oob_port = 51 ∷ 48 ∷ 48 ∷ 48 ∷ []

-- The field of the connection that takes a socket.
pub data Field : Type 0 where
  oob_sock listen_sock sock : Field

abbrev pub socket_of : Field → Objects → Option ℕ
socket_of oob_sock o = o.oob_sock
socket_of listen_sock o = o.listen_sock
socket_of sock o = o.sock

abbrev put_socket : Field → Option ℕ → Objects → Objects
put_socket oob_sock fd o = record o { oob_sock = fd }
put_socket listen_sock fd o = record o { listen_sock = fd }
put_socket sock fd o = record o { sock = fd }

abbrev default_port : Context → Context
default_port c = record c {
  opts = record (c.opts) {
    oob_port = elim c.opts.oob_port [ none ↦ some default_oob_port | some p ↦ some p ];
  };
}

abbrev pub has_oob : Option ℕ → Bool
has_oob none = false
has_oob (some fd) = true

module _ {W : Type 0} (net : Net W) where
  unfoldable pub socket_call : SocketCall → ℕ → Step W
  socket_call x fd s = let r = net.call x fd s.world in returns r.ret (record s { world = r.next })

  unfoldable pub ft_fd_nonblock : ℕ → Step W
  ft_fd_nonblock fd s =
      let r = net.call get_flags fd s.world in
      if is_negative r.ret
      then returns r.ret (record s { world = r.next })
      else socket_call set_nonblock fd (record s { world = r.next })

  unfoldable pub ft_sock_setup : ℕ → Step W
  ft_sock_setup fd = socket_call no_delay fd >> ft_fd_nonblock fd

  -- A failure closes the socket. The number stays in its field.
  unfoldable pub or_close : ℕ → Step W → Step W
  or_close fd m s = elim (m s) [
    | returns r t ↦
        if is_ok r then returns r t else returns r (record t { world = net.close fd t.world })
    | Outcome.out_of_rounds ↦ Outcome.out_of_rounds
    | Outcome.fault ↦ Outcome.fault
  ]

  -- `socket` or `accept`: the field takes the result, and the rest goes on with a descriptor.
  unfoldable pub with_socket : Field → Option ℕ → (ℕ → Step W) → Step W
  with_socket x none k s =
      returns minus_one (record s { ctx = with_objects (put_socket x none) s.ctx })
  with_socket x (some fd) k s =
      k fd (record s { ctx = with_objects (put_socket x (some fd)) s.ctx })

  unfoldable pub new_socket : Field → (ℕ → Step W) → Step W
  new_socket x k s =
      let r = net.socket s.world in with_socket x r.fd k (record s { world = r.next })

  unfoldable pub new_client : Field → (ℕ → Step W) → Step W
  new_client x k s =
      let r = net.accept s.ctx.objects.listen_sock s.world in
      with_socket x r.fd k (record s { world = r.next })

  unfoldable pub resolve : (node service : Option Text) → (passive : Bool) → Step W
  resolve node service passive s =
      let r = net.getaddrinfo node service passive s.world in
      returns r.ret (record s { world = r.next })

  unfoldable pub ft_sock_listen : (node service : Option Text) → Step W
  ft_sock_listen node service =
      resolve node service true
      >> new_socket listen_sock (λ fd.
        or_close fd (socket_call reuse_addr fd >> socket_call bind fd >> socket_call listen fd))

  -- What `ft_sock_connect` and the client's side of `ft_init_oob` share.
  unfoldable pub connect_socket : Field → (node service : Option Text) → Step W
  connect_socket x node service =
      resolve node service false
      >> new_socket x (λ fd. or_close fd (socket_call connect fd) >> ft_sock_setup fd)

  unfoldable pub ft_sock_connect : (node service : Option Text) → Step W
  ft_sock_connect = connect_socket sock

  unfoldable pub ft_sock_accept : Step W
  ft_sock_accept = new_client sock ft_sock_setup

  abbrev close_listening : Step W
  close_listening s = elim s.ctx.objects.listen_sock [
    | none ↦ returns (val 0) s
    | some fd ↦ returns (val 0) (record s { world = net.close fd s.world })
  ]

  unfoldable pub oob_by : Option Text → Step W
  oob_by none =
      (λ s. ft_sock_listen s.ctx.opts.src_addr s.ctx.opts.oob_port s)
      >> new_client oob_sock (λ fd. close_listening >> ft_sock_setup fd)
  oob_by (some dst) = λ s. connect_socket oob_sock (some dst) s.ctx.opts.oob_port s

  unfoldable pub ft_init_oob : Step W
  ft_init_oob s =
      if not (opt s.ctx Options.oob_sync || opt s.ctx Options.oob_addr_exch)
      then returns (val 0) s
      else if has_oob s.ctx.objects.oob_sock
      then returns (val 0) s
      else oob_by s.ctx.opts.dst_addr (record s { ctx = default_port s.ctx })

  unfoldable pub ft_sock_shutdown : ℕ → W → W
  ft_sock_shutdown fd w = net.close fd (net.shutdown fd w)

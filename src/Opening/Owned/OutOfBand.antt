-- ===== src/Opening/Owned/OutOfBand.antt =====
-- The out-of-band sockets change no object of libfabric.
use efa_libfabric_bench.Prelude.{
  ℕ, refl, Bool, true, false, Option, none, some, not, ◌||◌, if◌then◌else◌,
}
use efa_libfabric_bench.Fabric.{val, is_ok}
use efa_libfabric_bench.Context.{Text, opt}
use efa_libfabric_bench.Context.Fids.{Fid}
use efa_libfabric_bench.Context.Options
use efa_libfabric_bench.Machine.{State, Outcome, returns, out_of_rounds, fault, Step}
use efa_libfabric_bench.Opening.Oob.{
  Net, Field, oob_sock, listen_sock, sock, socket_call, ft_fd_nonblock, ft_sock_setup, or_close,
  with_socket, new_socket, new_client, resolve, ft_sock_listen, connect_socket, oob_by, has_oob,
  ft_init_oob,
}
use efa_libfabric_bench.Opening.Owned.{Quiet, Calm, NetKeeps}
use efa_libfabric_bench.Opening.Owned.Combine.{
  Same-refl, Same-trans, Same-world, Quiet-returns, pick, calm_from, ◌⨾◌,
}

module _ {W : Type 0} {live : Fid → W → Bool} {net : Net W} (law : NetKeeps net live) where
  socket_call-Calm : (x : _) (fd : ℕ) → Calm live (socket_call net x fd)
  unfolding socket_call
  socket_call-Calm x fd = record { calm = λ s. Quiet-returns (Same-world (law.call x fd s.world)) }

  ft_sock_setup-Calm : (fd : ℕ) → Calm live (ft_sock_setup net fd)
  unfolding ft_sock_setup ft_fd_nonblock
  ft_sock_setup-Calm fd = socket_call-Calm _ fd ⨾ record {
    calm = λ s.
        let asked = Same-world (law.call _ fd s.world) in
        pick _ (Quiet-returns asked) (calm_from _ asked ((socket_call-Calm _ fd).calm _));
  }

  or_close-Calm : (fd : ℕ) (m : Step W) → Calm live m → Calm live (or_close net fd m)
  unfolding or_close
  or_close-Calm fd m p = record { calm = λ s. closed (m s) (p.calm s) }
    where
      closed :
          {s : State W} (x : Outcome W)
          → Quiet live s x
          → Quiet live s (elim x [
            | returns r t ↦
                if is_ok r
                then returns r t
                else returns r (record t { world = net.close fd t.world })
            | out_of_rounds ↦ out_of_rounds
            | fault ↦ fault
          ])
      closed (returns r t) q =
          pick (is_ok r) q (Quiet-returns (Same-trans q.quiet (Same-world (law.close fd t.world))))
      closed out_of_rounds q = q
      closed fault q = q

  with_socket-Calm :
      (x : Field) (fd : Option ℕ) (k : ℕ → Step W)
      → ((n : ℕ) → Calm live (k n))
      → Calm live (with_socket net x fd k)
  unfolding with_socket
  with_socket-Calm oob_sock none k p = record {
    calm = λ s.
        Quiet-returns
          (record { fields = refl; region = refl; sharing = (refl, refl); existing = λ y. refl });
  }
  with_socket-Calm listen_sock none k p = record {
    calm = λ s.
        Quiet-returns
          (record { fields = refl; region = refl; sharing = (refl, refl); existing = λ y. refl });
  }
  with_socket-Calm sock none k p = record {
    calm = λ s.
        Quiet-returns
          (record { fields = refl; region = refl; sharing = (refl, refl); existing = λ y. refl });
  }
  with_socket-Calm oob_sock (some n) k p = record {
    calm = λ s.
        calm_from _
          (record { fields = refl; region = refl; sharing = (refl, refl); existing = λ y. refl })
          ((p n).calm _);
  }
  with_socket-Calm listen_sock (some n) k p = record {
    calm = λ s.
        calm_from _
          (record { fields = refl; region = refl; sharing = (refl, refl); existing = λ y. refl })
          ((p n).calm _);
  }
  with_socket-Calm sock (some n) k p = record {
    calm = λ s.
        calm_from _
          (record { fields = refl; region = refl; sharing = (refl, refl); existing = λ y. refl })
          ((p n).calm _);
  }

  new_socket-Calm :
      (x : Field) (k : ℕ → Step W) → ((n : ℕ) → Calm live (k n)) → Calm live (new_socket net x k)
  unfolding new_socket
  new_socket-Calm x k p = record {
    calm = λ s. calm_from _ (Same-world (law.socket s.world)) ((with_socket-Calm x _ k p).calm _);
  }

  new_client-Calm :
      (x : Field) (k : ℕ → Step W) → ((n : ℕ) → Calm live (k n)) → Calm live (new_client net x k)
  unfolding new_client
  new_client-Calm x k p = record {
    calm = λ s. calm_from _ (Same-world (law.accept _ s.world)) ((with_socket-Calm x _ k p).calm _);
  }

  resolve-Calm : (node service : Option Text) (b : Bool) → Calm live (resolve net node service b)
  unfolding resolve
  resolve-Calm node service b = record {
    calm = λ s. Quiet-returns (Same-world (law.getaddrinfo node service b s.world));
  }

  ft_sock_listen-Calm : (node service : Option Text) → Calm live (ft_sock_listen net node service)
  unfolding ft_sock_listen
  ft_sock_listen-Calm node service =
      resolve-Calm node service true
      ⨾ new_socket-Calm listen_sock _ (λ fd.
        or_close-Calm fd _ (socket_call-Calm _ fd ⨾ socket_call-Calm _ fd ⨾ socket_call-Calm _ fd))

  connect_socket-Calm :
      (x : Field) (node service : Option Text) → Calm live (connect_socket net x node service)
  unfolding connect_socket
  connect_socket-Calm x node service =
      resolve-Calm node service false
      ⨾ new_socket-Calm x _
          (λ fd. or_close-Calm fd _ (socket_call-Calm _ fd) ⨾ ft_sock_setup-Calm fd)

  close_if_any :
      (s : State W) (fd : Option ℕ)
      → Quiet live s (elim fd [
        | none ↦ returns (val 0) s
        | some n ↦ returns (val 0) (record s { world = net.close n s.world })
      ])
  close_if_any s none = Quiet-returns Same-refl
  close_if_any s (some n) = Quiet-returns (Same-world (law.close n s.world))

  oob_by-Calm : (dst : Option Text) → Calm live (oob_by net dst)
  unfolding oob_by
  oob_by-Calm (some dst) = record {
    calm = λ s. (connect_socket-Calm oob_sock (some dst) s.ctx.opts.oob_port).calm s;
  }
  oob_by-Calm none =
      record { calm = λ s. (ft_sock_listen-Calm s.ctx.opts.src_addr s.ctx.opts.oob_port).calm s }
      ⨾ new_client-Calm oob_sock _ (λ fd.
        record { calm = λ s. close_if_any s s.ctx.objects.listen_sock } ⨾ ft_sock_setup-Calm fd)

  pub ft_init_oob-Calm : Calm live (ft_init_oob net)
  unfolding ft_init_oob
  ft_init_oob-Calm = record {
    calm = λ s.
        pick (not (opt s.ctx Options.oob_sync || opt s.ctx Options.oob_addr_exch))
          (Quiet-returns Same-refl)
          (pick (has_oob s.ctx.objects.oob_sock) (Quiet-returns Same-refl) (
            calm_from _
              (record {
                fields = refl;
                region = refl;
                sharing = (refl, refl);
                existing = λ y. refl;
              })
              ((oob_by-Calm s.ctx.opts.dst_addr).calm _)));
  }

-- ===== src/Opening/Owned/Paths.antt =====
-- The ways to a connection lead from nothing to all that an endpoint needs.
use efa_libfabric_bench.Prelude.{ℕ, ◌∙◌, refl, Bool, if◌then◌else◌, arith}
use efa_libfabric_bench.Fabric.{Fabric, is_ok}
use efa_libfabric_bench.Context.Fids.{Fid}
use efa_libfabric_bench.Machine.{Outcome, returns, out_of_rounds, fault, Step}
use efa_libfabric_bench.Opening.{open_fabric, open_eq, open_domain, open_pep, reject, Calls}
use efa_libfabric_bench.Opening.Oob.{Net}
use efa_libfabric_bench.Opening.Connect.{
  given, ft_start_server, or_reject, ft_server_connect, ft_client_connect, ft_init_fabric_cm,
}
use efa_libfabric_bench.Opening.Owned.{
  Reaches, Leads, FabricKeeps, CallsKeep, NetKeeps, AddressesKeep, SocketsKeep,
}
use efa_libfabric_bench.Socket.{Sockets}
use efa_libfabric_bench.Opening.Address.{oob_fd, ft_init_fabric}
use efa_libfabric_bench.Opening.Owned.Exchanged.{ft_init_av-Calm}
use efa_libfabric_bench.Opening.Owned.Combine.{Calm-Leads, ◌▸◌, choose, when-Leads}
use efa_libfabric_bench.Opening.Owned.OutOfBand.{ft_init_oob-Calm}
use efa_libfabric_bench.Opening.Owned.Posting.{ft_init-Calm}
use efa_libfabric_bench.Opening.Owned.Asking.{
  change-Calm, ft_retrieve_conn_req-Calm, ft_accept_connection-Calm, ft_connect_ep-Calm,
  fork_if_asked-Calm,
}
use efa_libfabric_bench.Opening.Owned.Questions.{
  ft_getinfo-Calm, passive_getinfo-Calm, ft_enable_ep_recv-Calm,
}
use efa_libfabric_bench.Opening.Owned.Opens.{open-Leads}
use efa_libfabric_bench.Opening.Owned.Queues.{fabric-Leads}
use efa_libfabric_bench.Opening.Owned.Slots.{active-Leads}

module _ {W : Type 0} {live : Fid → W → Bool} {fab : Fabric W} {calls : Calls W} {net : Net W}
    (memory : FabricKeeps fab live) (law : CallsKeep calls live) (host : NetKeeps net live)
    (rounds : ℕ) where
  client-Leads : (shared : Bool) → Leads live shared 0 11 (ft_client_connect fab rounds calls net)
  unfolding ft_client_connect
  client-Leads shared =
      Calm-Leads (ft_init-Calm memory)
      ▸ Calm-Leads (ft_init_oob-Calm host)
      ▸ Calm-Leads (ft_getinfo-Calm memory law)
      ▸ fabric-Leads law shared
      ▸ record { leads = λ s h. (active-Leads memory law shared s.ctx.fi).leads s h }
      ▸ Calm-Leads (ft_enable_ep_recv-Calm memory law rounds)
      ▸ Calm-Leads (ft_connect_ep-Calm law fab)
      ▸ Calm-Leads (fork_if_asked-Calm law fab)

  start-Leads : (shared : Bool) → Leads live shared 0 3 (ft_start_server fab rounds calls net)
  unfolding ft_start_server
  start-Leads shared =
      Calm-Leads (ft_init-Calm memory)
      ▸ Calm-Leads (ft_init_oob-Calm host)
      ▸ Calm-Leads (passive_getinfo-Calm memory law)
      ▸ open-Leads law shared open_fabric (refl, refl)
      ▸ open-Leads law shared open_eq (refl, refl)
      ▸ open-Leads law shared open_pep (refl, refl)
      ▸ Calm-Leads (change-Calm law _)
      ▸ Calm-Leads (change-Calm law _)

  reject-Leads :
      {shared : Bool} {n k : ℕ} (m : Step W)
      → Leads live shared n k m
      → Leads live shared n k (or_reject fab rounds calls net m)
  unfolding or_reject
  reject-Leads {shared} {n} {k} m p = record { leads = λ s h. rejected (m s) (p.leads s h) }
    where
      rejected :
          (x : Outcome W)
          → Reaches live shared k x
          → Reaches live shared k (elim x [
            | returns r t ↦
                if is_ok r
                then returns r t
                else if t.ctx.objects.has_fi
                then returns r (record t { world = (calls.control reject t.world).next })
                else returns r t
            | out_of_rounds ↦ out_of_rounds
            | fault ↦ fault
          ])
      rejected (returns r t) q =
          choose (is_ok r) (λ _. q)
            (λ e.
              choose t.ctx.objects.has_fi
                (λ _. record {
                  reaches = (
                    record { held = λ y. law.control reject t.world y ∙ q.reaches.0.held y },
                    q.reaches.1,
                    λ g. absurd (ground arith),
                  );
                })
                (λ _. q))
      rejected out_of_rounds q = q
      rejected fault q = q

  server-Leads : (shared : Bool) → Leads live shared 3 11 (ft_server_connect fab rounds calls net)
  unfolding ft_server_connect
  server-Leads shared =
      reject-Leads _ (
        Calm-Leads (ft_retrieve_conn_req-Calm law fab)
        ▸ open-Leads law shared open_domain (refl, refl))
      ▸ when-Leads calls _ (omega arith) (Calm-Leads (change-Calm law _))
      ▸ reject-Leads _ (
          record { leads = λ s h. (active-Leads memory law shared s.ctx.fi).leads s h }
          ▸ Calm-Leads (ft_enable_ep_recv-Calm memory law rounds)
          ▸ Calm-Leads (ft_accept_connection-Calm law fab))
      ▸ Calm-Leads (fork_if_asked-Calm law fab)

  pub connect-Leads :
      (shared : Bool) → Leads live shared 0 11 (ft_init_fabric_cm fab rounds calls net)
  unfolding ft_init_fabric_cm
  connect-Leads shared = record {
    leads = λ s h.
        choose (given s.ctx.opts.dst_addr) (λ _. (client-Leads shared).leads s h)
          (λ _. (start-Leads shared ▸ server-Leads shared).leads s h);
  }

module _ {W : Type 0} {live : Fid → W → Bool} {fab : Fabric W} {calls : Calls W} {net : Net W}
    {sk : Sockets W} (memory : FabricKeeps fab live) (law : CallsKeep calls live)
    (host : NetKeeps net live) (names : AddressesKeep calls live) (sockets : SocketsKeep sk live)
    (rounds frame : ℕ) where
  pub fabric_set_up :
      (shared : Bool) → Leads live shared 0 11 (ft_init_fabric fab rounds calls net sk frame)
  unfolding ft_init_fabric
  fabric_set_up shared =
      Calm-Leads (ft_init-Calm memory)
      ▸ Calm-Leads (ft_init_oob-Calm host)
      ▸ Calm-Leads (ft_getinfo-Calm memory law)
      ▸ fabric-Leads law shared
      ▸ record { leads = λ s h. (active-Leads memory law shared s.ctx.fi).leads s h }
      ▸ Calm-Leads (ft_enable_ep_recv-Calm memory law rounds)
      ▸ Calm-Leads (record {
        calm = λ s.
            (ft_init_av-Calm memory names sockets rounds net (oob_fd fab rounds calls net sk s.ctx)
                frame).calm
              s;
      })
      ▸ Calm-Leads (fork_if_asked-Calm law fab)

-- ===== src/Opening/Owned/Asking.antt =====
-- Of the set-up, what opens no object: questions to `fi_getinfo`, events, and the endpoint.
use efa_libfabric_bench.Prelude.{ℕ, ◌≡◌, refl, Bool, Option, none, some, ◌&&◌, if◌then◌else◌}
use efa_libfabric_bench.Fabric.{Fabric, Ret, val, fail, eother, is_ok, is_eavail}
use efa_libfabric_bench.Context.{Context, Info}
use efa_libfabric_bench.Context.Fids.{Fid, txcq, rxcq}
use efa_libfabric_bench.Machine.{State, returns}
use efa_libfabric_bench.Opening.{
  Control, Calls, EventKind, Event, no_event, entry, change, BindFlags,
}
use efa_libfabric_bench.Opening.Endpoint.{
  put_fd, waits_on_fd, bind_if, ft_get_cq_fd, ft_enable_ep, process_eq_err, await_event,
}
use efa_libfabric_bench.Opening.Connect.{
  complete_hints, set_fi, is_connreq, ft_complete_connect, take_request, ft_retrieve_conn_req,
  ft_accept_connection, ft_connect_ep, fork_if_asked,
}
use efa_libfabric_bench.Opening.Owned.{Same, Quiet, Calm, CallsKeep}
use efa_libfabric_bench.Opening.Owned.Combine.{
  Same-refl, Same-world, Quiet-returns, Quiet-fault, pick, calm_from, Calm-if, ◌⨾◌,
}

-- Only fields that `owned` does not read are assigned.
abbrev pub AssignsOther : {W : Type 0} → (Fid → W → Bool) → (Context → Context) → Type 0
AssignsOther {W} live f =
    (s : State W) (w : W)
    → ((y : Fid) → live y w ≡ live y s.world)
    → Same live s (record { ctx = f s.ctx; world = w })

Same-put_fd :
    {W : Type 0} {live : Fid → W → Bool} (x : Fid) (n : ℕ) → AssignsOther live (put_fd x n)
Same-put_fd txcq n s w h = record {
  fields = refl;
  region = refl;
  sharing = (refl, refl);
  existing = h;
}
Same-put_fd rxcq n s w h = record {
  fields = refl;
  region = refl;
  sharing = (refl, refl);
  existing = h;
}
Same-put_fd _ n s w h = record {
  fields = refl;
  region = refl;
  sharing = (refl, refl);
  existing = h;
}

pub Same-complete_hints : {W : Type 0} {live : Fid → W → Bool} → AssignsOther live complete_hints
unfolding complete_hints
Same-complete_hints s w h = record {
  fields = refl;
  region = refl;
  sharing = (refl, refl);
  existing = h;
}

pub Same-set_fi :
    {W : Type 0} {live : Fid → W → Bool} (i : Info)
    → AssignsOther live (λ c. set_fi i (complete_hints c))
unfolding complete_hints
Same-set_fi i s w h = record { fields = refl; region = refl; sharing = (refl, refl); existing = h }

module _ {W : Type 0} {live : Fid → W → Bool} {calls : Calls W} (law : CallsKeep calls live) where
  pub change-Calm : (o : Control) → Calm live (change calls o)
  unfolding change
  change-Calm o = record { calm = λ s. Quiet-returns (Same-world (law.control o s.world)) }

  bind_if-Calm : (x : Fid) (f : Context → BindFlags) → Calm live (bind_if calls x f)
  unfolding bind_if
  bind_if-Calm x f =
      Calm-if (λ c. c.objects.is_open x) (record { calm = λ s. (change-Calm _).calm s })

  ft_get_cq_fd-Calm : (x : Fid) → Calm live (ft_get_cq_fd calls x)
  unfolding ft_get_cq_fd
  ft_get_cq_fd-Calm x = record {
    calm = λ s.
        let r = calls.get_wait x s.world in
        let asked = λ (y : Fid). law.get_wait x s.world y in
        pick (s.ctx.objects.is_open x && waits_on_fd s.ctx.opts.comp_method)
          (pick (is_ok r.ret) (Quiet-returns (Same-put_fd x r.fd s r.next asked))
            (Quiet-returns (Same-world asked)))
          (Quiet-returns Same-refl);
  }

  pub ft_enable_ep-Calm : Calm live (ft_enable_ep calls)
  unfolding ft_enable_ep
  ft_enable_ep-Calm =
      Calm-if _ (bind_if-Calm Fid.eq _)
      ⨾ bind_if-Calm Fid.av _
      ⨾ bind_if-Calm txcq _
      ⨾ bind_if-Calm rxcq _
      ⨾ ft_get_cq_fd-Calm txcq
      ⨾ ft_get_cq_fd-Calm rxcq
      ⨾ bind_if-Calm Fid.txcntr _
      ⨾ bind_if-Calm Fid.rxcntr _
      ⨾ change-Calm _

  process_eq_err-Calm : (r : Ret) → Calm live (process_eq_err calls r)
  unfolding process_eq_err
  process_eq_err-Calm r = record {
    calm = λ s.
        pick (is_eavail r) (Quiet-returns (Same-world (law.eq_readerr s.world)))
          (Quiet-returns Same-refl);
  }

  await_event-Calm : (f : EventKind → Bool) → Calm live (await_event calls f)
  unfolding await_event
  await_event-Calm f = record {
    calm = λ s.
        calm_from _ (Same-world (law.eq_sread s.world)) (taken _ (calls.eq_sread s.world).event);
  }
    where
      taken :
          (t : State W) (e : Event)
          → Quiet live t (elim e [
            | no_event rd ↦ process_eq_err calls rd t
            | entry kind own info ↦
                if f kind && own then returns (val 0) t else returns (fail eother) t
          ])
      taken t (no_event rd) = (process_eq_err-Calm rd).calm t
      taken t (entry kind own info) =
          pick (f kind && own) (Quiet-returns Same-refl) (Quiet-returns Same-refl)

  take_request-Calm :
      (fab : Fabric W) (k : EventKind) (i : Option Info) → Calm live (take_request fab calls k i)
  unfolding take_request
  take_request-Calm fab k none = record {
    calm = λ s. pick (is_connreq k) Quiet-fault (
        Quiet-returns
          (record { fields = refl; region = refl; sharing = (refl, refl); existing = λ y. refl }));
  }
  take_request-Calm fab k (some i) = record {
    calm = λ s.
        Quiet-returns
          (record { fields = refl; region = refl; sharing = (refl, refl); existing = λ y. refl });
  }

  pub ft_retrieve_conn_req-Calm : (fab : Fabric W) → Calm live (ft_retrieve_conn_req fab calls)
  unfolding ft_retrieve_conn_req
  ft_retrieve_conn_req-Calm fab = record {
    calm = λ s.
        calm_from _ (Same-world (law.eq_sread s.world)) (taken _ (calls.eq_sread s.world).event);
  }
    where
      taken :
          (t : State W) (e : Event)
          → Quiet live t (elim e [
            | no_event rd ↦ process_eq_err calls rd t
            | entry kind own info ↦ take_request fab calls kind info t
          ])
      taken t (no_event rd) = (process_eq_err-Calm rd).calm t
      taken t (entry kind own info) = (take_request-Calm fab kind info).calm t

  pub ft_accept_connection-Calm : (fab : Fabric W) → Calm live (ft_accept_connection fab calls)
  unfolding ft_accept_connection ft_complete_connect
  ft_accept_connection-Calm fab = change-Calm _ ⨾ await_event-Calm _

  pub ft_connect_ep-Calm : (fab : Fabric W) → Calm live (ft_connect_ep fab calls)
  unfolding ft_connect_ep ft_complete_connect
  ft_connect_ep-Calm fab = change-Calm _ ⨾ await_event-Calm _

  pub fork_if_asked-Calm : (fab : Fabric W) → Calm live (fork_if_asked fab calls)
  unfolding fork_if_asked
  fork_if_asked-Calm fab =
      Calm-if _ (record { calm = λ s. Quiet-returns (Same-world (law.fork s.world)) })

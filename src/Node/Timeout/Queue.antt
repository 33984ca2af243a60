-- ===== src/Node/Timeout/Queue.antt =====
-- The waits on a completion queue (`ft_get_cq_comp` of libefa/src/libefa/ftlib/shared.c), which do not
-- look at the timeout of the connection but at the one that they are given.
use efa_libfabric_bench.Prelude.{ℕ, zero, suc, ◌≡◌, refl, Option, arith, Bool-cases, inl, inr}
use efa_libfabric_bench.Fabric.{Ret, Fabric, Completion}
use efa_libfabric_bench.Context.{CompMethod, spin, sread, waitset, wait_fd, yield}
use efa_libfabric_bench.Machine.{State, Outcome, Outcome-cases, returns, out_of_rounds, fault}
use efa_libfabric_bench.Post.{Side, tx, rx, cq_cntr}
use efa_libfabric_bench.Completion.{
  Round, halt, again, ft_tag_is_valid, expected_tag, pending, read_clock, take_completion,
  spin_round, spin_loop, ft_spin_for_comp, wait_round, ft_wait_for_comp, wait_descriptor,
  ft_poll_fd, fdwait_read, fdwait_round, ft_fdwait_for_comp, wait_by, after_wait, ft_get_cq_comp,
}
use efa_libfabric_bench.Completion.Drain.{Round-cases}
use efa_libfabric_bench.Node.{with_timeout}

-- What ends in a state, with another timeout in it.
abbrev pub timed : {W : Type 0} → Option ℕ → Outcome W → Outcome W
timed o (returns r t) = returns r (with_timeout o t)
timed o out_of_rounds = out_of_rounds
timed o fault = fault

abbrev timed_round : {W : Type 0} → Option ℕ → Round W → Round W
timed_round o (halt r t) = halt r (with_timeout o t)
timed_round o (again a t) = again a (with_timeout o t)

module _ {W : Type 0} (fab : Fabric W) (o : Option ℕ) where
  take_completion-with_timeout :
      (d : Side) (cq : ℕ) (comp : Completion) (since : ℕ) (s : State W)
      → take_completion fab d cq comp since (with_timeout o s)
        ≡ timed_round o (take_completion fab d cq comp since s)
  unfolding take_completion ft_tag_is_valid expected_tag
  take_completion-with_timeout tx cq comp since s = ground arith
  take_completion-with_timeout rx cq comp since s = ground arith

  spin_round-with_timeout :
      (d : Side) (timeout : Option ℕ) (since : ℕ) (s : State W)
      → spin_round fab d timeout since (with_timeout o s)
        ≡ timed_round o (spin_round fab d timeout since s)
  unfolding spin_round
  spin_round-with_timeout tx timeout since s =
      let r = fab.cq_read s.ctx.txcq 1 s.world in
      let k = read_clock fab timeout r.next in
      ground (
        arith,
        take_completion-with_timeout tx s.ctx.txcq r.comp k.seconds (record s { world = k.next }),
      )
  spin_round-with_timeout rx timeout since s =
      let r = fab.cq_read s.ctx.rxcq 1 s.world in
      let k = read_clock fab timeout r.next in
      ground (
        arith,
        take_completion-with_timeout rx s.ctx.rxcq r.comp k.seconds (record s { world = k.next }),
      )

  cq_cntr-with_timeout :
      (d : Side) (s : State W) → cq_cntr d (with_timeout o s).ctx ≡ cq_cntr d s.ctx
  cq_cntr-with_timeout tx s = refl
  cq_cntr-with_timeout rx s = refl

  spin_loop-with_timeout :
      (n : ℕ) (d : Side) (total : ℕ) (timeout : Option ℕ) (since : ℕ) (s : State W)
      → spin_loop fab n d total timeout since (with_timeout o s)
        ≡ timed o (spin_loop fab n d total timeout since s)
  unfolding spin_loop
  spin_loop-with_timeout zero d total timeout since s = refl
  spin_loop-with_timeout (suc n) d total timeout since s =
      rw (spin_loop, spin_round-with_timeout d timeout since s)
        (elim (Round-cases (spin_round fab d timeout since s)) [
          | inl (r, t, e) ↦ rw (spin_loop, e) refl
          | inr (a, t, e) ↦
              rw (spin_loop, e, cq_cntr-with_timeout d t)
                (elim (Bool-cases (pending total (cq_cntr d t.ctx))) [
                  | inl p ↦ rw p (spin_loop-with_timeout n d total timeout a t)
                  | inr p ↦ rw p refl
                ])
        ])

  wait_round-with_timeout :
      (d : Side) (timeout : Option ℕ) (s : State W)
      → wait_round fab d timeout (with_timeout o s) ≡ timed_round o (wait_round fab d timeout s)
  unfolding wait_round
  wait_round-with_timeout tx timeout s =
      let r = fab.cq_sread s.ctx.txcq 1 timeout s.world in
      ground
        (arith, take_completion-with_timeout tx s.ctx.txcq r.comp 0 (record s { world = r.next }))
  wait_round-with_timeout rx timeout s =
      let r = fab.cq_sread s.ctx.rxcq 1 timeout s.world in
      ground
        (arith, take_completion-with_timeout rx s.ctx.rxcq r.comp 0 (record s { world = r.next }))

  ft_wait_for_comp-with_timeout :
      (n : ℕ) (d : Side) (total : ℕ) (timeout : Option ℕ) (s : State W)
      → ft_wait_for_comp fab n d total timeout (with_timeout o s)
        ≡ timed o (ft_wait_for_comp fab n d total timeout s)
  unfolding ft_wait_for_comp
  ft_wait_for_comp-with_timeout zero d total timeout s = refl
  ft_wait_for_comp-with_timeout (suc n) d total timeout s =
      rw (ft_wait_for_comp, cq_cntr-with_timeout d s)
        (elim (Bool-cases (pending total (cq_cntr d s.ctx))) [
          | inr p ↦ rw (ft_wait_for_comp, p) refl
          | inl p ↦
              rw (ft_wait_for_comp, p, wait_round-with_timeout d timeout s)
                (elim (Round-cases (wait_round fab d timeout s)) [
                  | inl (r, t, e) ↦ rw (ft_wait_for_comp, e) refl
                  | inr (a, t, e) ↦
                      rw (ft_wait_for_comp, e) (ft_wait_for_comp-with_timeout n d total timeout t)
                ])
        ])

  fdwait_read-with_timeout :
      (d : Side) (s : State W)
      → fdwait_read fab d (with_timeout o s) ≡ timed_round o (fdwait_read fab d s)
  unfolding fdwait_read
  fdwait_read-with_timeout tx s =
      let r = fab.cq_read s.ctx.txcq 1 s.world in
      ground
        (arith, take_completion-with_timeout tx s.ctx.txcq r.comp 0 (record s { world = r.next }))
  fdwait_read-with_timeout rx s =
      let r = fab.cq_read s.ctx.rxcq 1 s.world in
      ground
        (arith, take_completion-with_timeout rx s.ctx.rxcq r.comp 0 (record s { world = r.next }))

  fdwait_round-with_timeout :
      (d : Side) (timeout : Option ℕ) (s : State W)
      → fdwait_round fab d timeout (with_timeout o s) ≡ timed_round o (fdwait_round fab d timeout s)
  unfolding fdwait_round wait_descriptor
  fdwait_round-with_timeout tx timeout s =
      let y = fab.trywait s.ctx.txcq s.world in
      let p = ft_poll_fd fab (wait_descriptor s.ctx.txcq s.ctx) timeout y.next in
      ground (
        arith,
        fdwait_read-with_timeout tx (record s { world = p.next }),
        fdwait_read-with_timeout tx (record s { world = y.next }),
      )
  fdwait_round-with_timeout rx timeout s =
      let y = fab.trywait s.ctx.rxcq s.world in
      let p = ft_poll_fd fab (wait_descriptor s.ctx.rxcq s.ctx) timeout y.next in
      ground (
        arith,
        fdwait_read-with_timeout rx (record s { world = p.next }),
        fdwait_read-with_timeout rx (record s { world = y.next }),
      )

  ft_fdwait_for_comp-with_timeout :
      (n : ℕ) (d : Side) (total : ℕ) (timeout : Option ℕ) (s : State W)
      → ft_fdwait_for_comp fab n d total timeout (with_timeout o s)
        ≡ timed o (ft_fdwait_for_comp fab n d total timeout s)
  unfolding ft_fdwait_for_comp
  ft_fdwait_for_comp-with_timeout zero d total timeout s = refl
  ft_fdwait_for_comp-with_timeout (suc n) d total timeout s =
      rw (ft_fdwait_for_comp, cq_cntr-with_timeout d s)
        (elim (Bool-cases (pending total (cq_cntr d s.ctx))) [
          | inr p ↦ rw (ft_fdwait_for_comp, p) refl
          | inl p ↦
              rw (ft_fdwait_for_comp, p, fdwait_round-with_timeout d timeout s)
                (elim (Round-cases (fdwait_round fab d timeout s)) [
                  | inl (r, t, e) ↦ rw (ft_fdwait_for_comp, e) refl
                  | inr (a, t, e) ↦
                      rw (ft_fdwait_for_comp, e)
                        (ft_fdwait_for_comp-with_timeout n d total timeout t)
                ])
        ])

  ft_spin_for_comp-with_timeout :
      (n : ℕ) (d : Side) (total : ℕ) (timeout : Option ℕ) (s : State W)
      → ft_spin_for_comp fab n d total timeout (with_timeout o s)
        ≡ timed o (ft_spin_for_comp fab n d total timeout s)
  unfolding ft_spin_for_comp
  ft_spin_for_comp-with_timeout n d total timeout s =
      let k = read_clock fab timeout s.world in
      spin_loop-with_timeout n d total timeout k.seconds (record s { world = k.next })

  wait_by-with_timeout :
      (m : CompMethod) (n : ℕ) (d : Side) (total : ℕ) (timeout : Option ℕ) (s : State W)
      → wait_by fab m n d total timeout (with_timeout o s)
        ≡ timed o (wait_by fab m n d total timeout s)
  unfolding wait_by
  wait_by-with_timeout sread = ft_wait_for_comp-with_timeout
  wait_by-with_timeout yield = ft_wait_for_comp-with_timeout
  wait_by-with_timeout wait_fd = ft_fdwait_for_comp-with_timeout
  wait_by-with_timeout spin = ft_spin_for_comp-with_timeout
  wait_by-with_timeout waitset = ft_spin_for_comp-with_timeout

  after_wait-with_timeout :
      (d : Side) (r : Ret) (s : State W)
      → after_wait fab d r (with_timeout o s) ≡ timed o (after_wait fab d r s)
  unfolding after_wait
  after_wait-with_timeout tx r s = ground arith
  after_wait-with_timeout rx r s = ground arith

  pub ft_get_cq_comp-with_timeout :
      (n : ℕ) (d : Side) (total : ℕ) (timeout : Option ℕ) (s : State W)
      → ft_get_cq_comp fab n d total timeout (with_timeout o s)
        ≡ timed o (ft_get_cq_comp fab n d total timeout s)
  unfolding ft_get_cq_comp
  ft_get_cq_comp-with_timeout n d total timeout s =
      let m = s.ctx.opts.comp_method in
      rw (ft_get_cq_comp, wait_by-with_timeout m n d total timeout s)
        (elim (Outcome-cases (wait_by fab m n d total timeout s)) [
          | inl (r, t, e) ↦ rw (ft_get_cq_comp, e) (after_wait-with_timeout d r t)
          | inr (inl e) ↦ rw (ft_get_cq_comp, e) refl
          | inr (inr e) ↦ rw (ft_get_cq_comp, e) refl
        ])

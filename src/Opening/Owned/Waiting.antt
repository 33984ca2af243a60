-- ===== src/Opening/Owned/Waiting.antt =====
-- Waiting for completions in a queue changes no object of libfabric.
use efa_libfabric_bench.Prelude.{
  ℕ, zero, suc, ◌-◌, ◌≡◌, ◌∙◌, refl, Bool, true, false, Option, none, some, not, ◌&&◌,
  if◌then◌else◌, arith,
}
use efa_libfabric_bench.Fabric.{
  Fabric, Completion, Ret, val, is_ok, is_positive, is_negative, is_eagain, is_eavail,
}
use efa_libfabric_bench.Context.{CompMethod, spin, sread, waitset, wait_fd, yield}
use efa_libfabric_bench.Context.Fids.{Fid}
use efa_libfabric_bench.Machine.{State, Outcome, returns, out_of_rounds, fault, Step}
use efa_libfabric_bench.Post.{Side, cq_cntr, queue}
use efa_libfabric_bench.Completion.{
  Round, halt, again, ft_tag_is_valid, expected_tag, pending, expired, wait_descriptor,
  take_completion, read_clock, spin_round, spin_loop, ft_spin_for_comp, wait_round,
  ft_wait_for_comp, ft_poll_fd, fdwait_read, fdwait_round, ft_fdwait_for_comp, wait_by, after_wait,
  ft_get_cq_comp,
}
use efa_libfabric_bench.Opening.Owned.{Same, Quiet, Calm, FabricKeeps}
use efa_libfabric_bench.Opening.Owned.Combine.{
  Same-refl, Same-trans, Same-world, Quiet-returns, pick, calm_from,
}
use efa_libfabric_bench.Opening.Owned.Posting.{Same-inc_cq_cntr, readerr_keeps}

abbrev SameRound : {W : Type 0} → (Fid → W → Bool) → State W → Round W → Type 0
SameRound live s (halt r t) = Same live s t
SameRound live s (again n t) = Same live s t

-- A round of a loop that leaves the state as it was.
record QuietRound {W : Type 0} (live : Fid → W → Bool) (s : State W) (x : Round W) : Type 0 where
  round : SameRound live s x

module _ {W : Type 0} {live : Fid → W → Bool} where
  pick_round :
      {s : State W} {x y : Round W} (b : Bool)
      → QuietRound live s x
      → QuietRound live s y
      → QuietRound live s (if b then x else y)
  pick_round true p q = p
  pick_round false p q = q

  halted : {s t : State W} {r : Ret} → Same live s t → QuietRound live s (halt r t)
  halted p = record { round = p }

  goes_again : {s t : State W} {n : ℕ} → Same live s t → QuietRound live s (again n t)
  goes_again p = record { round = p }

  round_from :
      {s t : State W} (x : Round W) → Same live s t → QuietRound live t x → QuietRound live s x
  round_from (halt r u) p q = record { round = Same-trans p q.round }
  round_from (again n u) p q = record { round = Same-trans p q.round }

  by_test :
      {s : State W} {x y : Outcome W} (b : Bool)
      → Quiet live s x
      → Quiet live s y
      → Quiet live s (elim b [ true ↦ x | false ↦ y ])
  by_test true p q = p
  by_test false p q = q

  -- The end of a round of each kind of loop
  spin_ended :
      {s : State W} (total : ℕ) (d : Side) (k : ℕ → Step W) (x : Round W)
      → QuietRound live s x
      → ((m : ℕ) → Calm live (k m))
      → Quiet live s (elim x [
        | halt r t ↦ returns r t
        | again since t ↦ elim (pending total (cq_cntr d t.ctx)) [
          | true ↦ k since t
          | false ↦ returns (val 0) t
        ]
      ])
  spin_ended total d k (halt r t) q p = Quiet-returns q.round
  spin_ended total d k (again m t) q p =
      by_test (pending total (cq_cntr d t.ctx)) (calm_from _ q.round ((p m).calm t))
        (Quiet-returns q.round)

  wait_ended :
      {s : State W} (b : Bool) (k : Step W) (x : Round W)
      → QuietRound live s x
      → Calm live k
      → Quiet live s (elim b [
        | false ↦ returns (val 0) s
        | true ↦ elim x [ halt r t ↦ returns r t | again _ t ↦ k t ]
      ])
  wait_ended false k x q p = Quiet-returns Same-refl
  wait_ended true k (halt r t) q p = Quiet-returns q.round
  wait_ended true k (again m t) q p = calm_from _ q.round (p.calm t)

module _ {W : Type 0} {live : Fid → W → Bool} {fab : Fabric W} (law : FabricKeeps fab live) where
  pub clock_keeps : (o : Option ℕ) (w : W) (y : Fid) → live y (read_clock fab o w).next ≡ live y w
  unfolding read_clock
  clock_keeps none w y = refl
  clock_keeps (some n) w y = law.clock w y

  take-Quiet :
      (d : Side) (cq : ℕ) (c : Completion) (since : ℕ) (s : State W)
      → QuietRound live s (take_completion fab d cq c since s)
  unfolding take_completion
  take-Quiet d cq c since s =
      pick_round (ft_tag_is_valid s.ctx cq c.tag (expected_tag s.ctx))
        (goes_again (Same-inc_cq_cntr d (λ y. refl))) (halted Same-refl)

  spin_round-Quiet :
      (d : Side) (o : Option ℕ) (since : ℕ) (s : State W)
      → QuietRound live s (spin_round fab d o since s)
  unfolding spin_round
  spin_round-Quiet d o since s =
      let r = fab.cq_read (queue d s.ctx) 1 s.world in
      let k = read_clock fab o r.next in
      let read = λ (y : Fid). law.cq_read (queue d s.ctx) 1 s.world y in
      let timed = λ (y : Fid). clock_keeps o r.next y ∙ read y in
      pick_round (is_positive r.ret)
        (round_from _ (Same-world timed) (take-Quiet d (queue d s.ctx) r.comp k.seconds _))
        (pick_round (is_negative r.ret && not (is_eagain r.ret)) (halted (Same-world read)) (
          pick_round (expired o (k.seconds - since)) (halted (Same-world timed))
            (goes_again (Same-world timed))))

  spin_loop-Calm :
      (n : ℕ) (d : Side) (total : ℕ) (o : Option ℕ) (since : ℕ)
      → Calm live (spin_loop fab n d total o since)
  unfolding spin_loop
  spin_loop-Calm zero d total o since = record { calm = λ s. record { quiet = tt } }
  spin_loop-Calm (suc n) d total o since = record {
    calm = λ s.
        spin_ended total d (spin_loop fab n d total o) (spin_round fab d o since s)
          (spin_round-Quiet d o since s) (spin_loop-Calm n d total o);
  }

  spin-Calm :
      (n : ℕ) (d : Side) (total : ℕ) (o : Option ℕ) → Calm live (ft_spin_for_comp fab n d total o)
  unfolding ft_spin_for_comp
  spin-Calm n d total o = record {
    calm = λ s.
        calm_from _ (Same-world (λ y. clock_keeps o s.world y))
          ((spin_loop-Calm n d total o _).calm _);
  }

  wait_round-Quiet :
      (d : Side) (o : Option ℕ) (s : State W) → QuietRound live s (wait_round fab d o s)
  unfolding wait_round
  wait_round-Quiet d o s =
      let r = fab.cq_sread (queue d s.ctx) 1 o s.world in
      let read = λ (y : Fid). law.cq_sread (queue d s.ctx) 1 o s.world y in
      pick_round (is_positive r.ret)
        (round_from _ (Same-world read) (take-Quiet d (queue d s.ctx) r.comp 0 _))
        (pick_round (is_negative r.ret && not (is_eagain r.ret)) (halted (Same-world read))
          (goes_again (Same-world read)))

  wait-Calm :
      (n : ℕ) (d : Side) (total : ℕ) (o : Option ℕ) → Calm live (ft_wait_for_comp fab n d total o)
  unfolding ft_wait_for_comp
  wait-Calm zero d total o = record { calm = λ s. record { quiet = tt } }
  wait-Calm (suc n) d total o = record {
    calm = λ s.
        wait_ended (pending total (cq_cntr d s.ctx)) (ft_wait_for_comp fab n d total o)
          (wait_round fab d o s) (wait_round-Quiet d o s) (wait-Calm n d total o);
  }

  poll_keeps :
      (fd : ℕ) (o : Option ℕ) (w : W) (y : Fid) → live y (ft_poll_fd fab fd o w).next ≡ live y w
  unfolding ft_poll_fd
  poll_keeps fd o w y = ground (arith, law.poll fd o w y)

  fdwait_read-Quiet : (d : Side) (s : State W) → QuietRound live s (fdwait_read fab d s)
  unfolding fdwait_read
  fdwait_read-Quiet d s =
      let r = fab.cq_read (queue d s.ctx) 1 s.world in
      let read = λ (y : Fid). law.cq_read (queue d s.ctx) 1 s.world y in
      pick_round (is_positive r.ret)
        (round_from _ (Same-world read) (take-Quiet d (queue d s.ctx) r.comp 0 _))
        (pick_round (is_negative r.ret && not (is_eagain r.ret)) (halted (Same-world read))
          (goes_again (Same-world read)))

  fdwait_round-Quiet :
      (d : Side) (o : Option ℕ) (s : State W) → QuietRound live s (fdwait_round fab d o s)
  unfolding fdwait_round
  fdwait_round-Quiet d o s =
      let q = queue d s.ctx in
      let v = fab.trywait q s.world in
      let p = ft_poll_fd fab (wait_descriptor q s.ctx) o v.next in
      let tried = λ (y : Fid). law.trywait q s.world y in
      let polled = λ (y : Fid). poll_keeps (wait_descriptor q s.ctx) o v.next y ∙ tried y in
      pick_round (is_ok v.ret)
        (pick_round (not (is_ok p.ret) && not (is_eagain p.ret)) (halted (Same-world polled))
          (round_from _ (Same-world polled) (fdwait_read-Quiet d _)))
        (round_from _ (Same-world tried) (fdwait_read-Quiet d _))

  fdwait-Calm :
      (n : ℕ) (d : Side) (total : ℕ) (o : Option ℕ) → Calm live (ft_fdwait_for_comp fab n d total o)
  unfolding ft_fdwait_for_comp
  fdwait-Calm zero d total o = record { calm = λ s. record { quiet = tt } }
  fdwait-Calm (suc n) d total o = record {
    calm = λ s.
        wait_ended (pending total (cq_cntr d s.ctx)) (ft_fdwait_for_comp fab n d total o)
          (fdwait_round fab d o s) (fdwait_round-Quiet d o s) (fdwait-Calm n d total o);
  }

  wait_by-Calm :
      (m : CompMethod) (n : ℕ) (d : Side) (total : ℕ) (o : Option ℕ)
      → Calm live (wait_by fab m n d total o)
  unfolding wait_by
  wait_by-Calm sread = wait-Calm
  wait_by-Calm yield = wait-Calm
  wait_by-Calm wait_fd = fdwait-Calm
  wait_by-Calm spin = spin-Calm
  wait_by-Calm waitset = spin-Calm

  after_wait-Calm : (d : Side) (r : Ret) → Calm live (after_wait fab d r)
  unfolding after_wait
  after_wait-Calm d r = record {
    calm = λ s.
        pick (is_eavail r)
          (Quiet-returns (Same-inc_cq_cntr d (λ y. readerr_keeps law (queue d s.ctx) s.world y)))
          (Quiet-returns Same-refl);
  }

  pub cq_comp-Calm :
      (n : ℕ) (d : Side) (total : ℕ) (o : Option ℕ) → Calm live (ft_get_cq_comp fab n d total o)
  unfolding ft_get_cq_comp
  cq_comp-Calm n d total o = record {
    calm = λ s.
        waited (wait_by fab s.ctx.opts.comp_method n d total o s)
          ((wait_by-Calm s.ctx.opts.comp_method n d total o).calm s);
  }
    where
      waited :
          {s : State W} (x : Outcome W)
          → Quiet live s x
          → Quiet live s (elim x [
            | returns r t ↦ after_wait fab d r t
            | out_of_rounds ↦ out_of_rounds
            | fault ↦ fault
          ])
      waited (returns r t) q = calm_from _ q.quiet ((after_wait-Calm d r).calm t)
      waited out_of_rounds q = q
      waited fault q = q

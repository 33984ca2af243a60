-- ===== src/Logger/Stuck.antt =====
-- The ways in which the logger thread waits for ever, and that it can end otherwise.
use mathlib.Core.Path.{subst}
use efa_libfabric_bench.Prelude.{
  ℕ, zero, suc, ◌<◌, ◌≤◌, ◌≡◌, ◌≢◌, ◌⊎◌, inl, inr, refl, Bool, true, false, ◌&&◌, ◌==◌, arith,
  Bool-cases, ==_iff, sym, ap, ◌∙◌,
}
use efa_libfabric_bench.Logger.{
  Phase, starting, running, finished, returned, Logger, waiting, sampling, stopped, System, put,
  Step, connects, operates, ends, breaks_off, reads, retries, begins, rereads, samples, stops,
  Reach, here, next, initial,
}
use efa_libfabric_bench.Logger.Protocol.{Inv, Tells, initial-Inv, Reach-Inv, logger_stopped}

Reach-trans : {n : ℕ} {s t u : System} → Reach n s t → Reach n t u → Reach n s u
Reach-trans r here = r
Reach-trans r (next q st) = next (Reach-trans r q) st

-- A phase that no step leaves.
put_kept : (f : ℕ → Phase) (i j : ℕ) (p q : Phase) → f i ≢ q → f j ≡ q → put i p f j ≡ q
put_kept f i j p q ne h = elim (Bool-cases (j == i)) [
  | inl e ↦ absurd (ne (subst (λ x. f x ≡ q) ((==_iff j i).0 e) h))
  | inr e ↦ rw e h
]

Step-kept :
    (n j : ℕ) (q : Phase) (s t : System)
    → q ≢ starting
    → q ≢ running
    → Step n s t
    → s.phase j ≡ q
    → t.phase j ≡ q
Step-kept n j q s t a b (connects i lt e u) h =
    rw u (put_kept s.phase i j running q (λ x. a (sym x ∙ e)) h)
Step-kept n j q s t a b (operates i lt e u) h = rw u h
Step-kept n j q s t a b (ends i lt e u) h =
    rw u (put_kept s.phase i j finished q (λ x. b (sym x ∙ e)) h)
Step-kept n j q s t a b (breaks_off i lt e u) h =
    rw u (put_kept s.phase i j returned q (λ x. b (sym x ∙ e)) h)
Step-kept n j q s t a b (reads k acc lt e u) h = rw u h
Step-kept n j q s t a b (retries e u) h = rw u h
Step-kept n j q s t a b (begins e u) h = rw u h
Step-kept n j q s t a b (rereads k acc lt e u) h = rw u h
Step-kept n j q s t a b (samples e u) h = rw u h
Step-kept n j q s t a b (stops e u) h = rw u h

Reach-kept :
    (n j : ℕ) (q : Phase) (s t : System)
    → q ≢ starting
    → q ≢ running
    → Reach n s t
    → s.phase j ≡ q
    → t.phase j ≡ q
Reach-kept n j q s t a b here h = h
Reach-kept n j q s t a b (next {t = u} r st) h =
    Step-kept n j q u t a b st (Reach-kept n j q s u a b r h)

-- When every worker has left its loop by an early `return`, the logger thread never ends, and
-- neither does the main thread, which joins it.
pub logger_never_stops :
    (n : ℕ) (s t : System)
    → Reach n initial s
    → ((i : ℕ) → i < n → s.phase i ≡ returned)
    → Reach n s t
    → t.logger ≢ stopped
logger_never_stops n s t r all q = λ e.
    let (i, lt, f) = logger_stopped n t (Reach-trans r q) e in
    let kept = Reach-kept n i returned s t (λ x. ground arith) (λ x. ground arith) q (all i lt) in
    ground arith

-- The logger waits, and has not seen worker `i` connected in its present scan.
abbrev pub Unseen : ℕ → Logger → Type 0
Unseen i (waiting k acc) = (k ≤ i) ⊎ (acc ≡ false)
Unseen i (sampling k acc) = ⊥
Unseen i stopped = ⊥

Unseen-read :
    (i k : ℕ) (acc b : Bool)
    → (k ≡ i → b ≡ false)
    → Unseen i (waiting k acc)
    → Unseen i (waiting (suc k) (acc && b))
Unseen-read i k acc b down (inr e) = inr (ground arith)
Unseen-read i k acc b down (inl h) = elim (Bool-cases (k == i)) [
  | inl e ↦ inr (ground (arith, down ((==_iff k i).0 e)))
  | inr e ↦ inl (ground arith)
]

Step-Unseen :
    (n i : ℕ) (s t : System)
    → i < n
    → Inv n s
    → s.phase i ≡ finished
    → Step n s t
    → Unseen i s.logger
    → Unseen i t.logger
Step-Unseen n i s t l v f (connects j lt e u) h = rw u h
Step-Unseen n i s t l v f (operates j lt e u) h = rw u h
Step-Unseen n i s t l v f (ends j lt e u) h = rw u h
Step-Unseen n i s t l v f (breaks_off j lt e u) h = rw u h
Step-Unseen n i s t l v f (reads k acc lt e u) h = rw u (
    Unseen-read i k acc (s.status k)
      (λ c.
        subst (λ x. s.status x ≡ false) (sym c) (subst (λ p. Tells p (s.status i)) f (v.told i)))
      (subst (Unseen i) e h))
Step-Unseen n i s t l v f (retries e u) h = rw u (inl (omega arith))
Step-Unseen n i s t l v f (begins e u) h = elim (subst (Unseen i) e h) [
  | inl k ↦ absurd (omega arith)
  | inr k ↦ absurd (ground arith)
]
Step-Unseen n i s t l v f (rereads k acc lt e u) h = absurd (subst (Unseen i) e h)
Step-Unseen n i s t l v f (samples e u) h = absurd (subst (Unseen i) e h)
Step-Unseen n i s t l v f (stops e u) h = absurd (subst (Unseen i) e h)

-- When a worker has ended its loop and the logger, not yet sampling, has not read it as connected in
-- its present scan, then that stays so: the logger never begins to sample, and never ends.
pub logger_misses :
    (n i : ℕ) (s t : System)
    → i < n
    → Reach n initial s
    → s.phase i ≡ finished
    → Unseen i s.logger
    → Reach n s t
    → Unseen i t.logger
logger_misses n i s t l r f h here = h
logger_misses n i s t l r f h (next {t = u} q st) =
    Step-Unseen n i u t l (Reach-Inv n initial u (initial-Inv n) (Reach-trans r q))
      (Reach-kept n i finished s u (λ x. ground arith) (λ x. ground arith) q f) st
      (logger_misses n i s u l r f h q)

-- The state in which the logger has read up to worker `k` while it samples.
abbrev scanned : System → ℕ → Bool → System
scanned s k acc = record s { logger = sampling k acc }

-- Whether the statuses of the workers below `k` are all true.
abbrev all_up : (ℕ → Bool) → ℕ → Bool
all_up b zero = true
all_up b (suc k) = all_up b k && b k

all_up-false : (b : ℕ → Bool) (k i : ℕ) → i < k → b i ≡ false → all_up b k ≡ false
all_up-false b zero i lt e = absurd (omega arith)
all_up-false b (suc k) i lt e = elim (Bool-cases (i == k)) [
  | inl c ↦ ground (arith, subst (λ x. b x ≡ false) ((==_iff i k).0 c) e)
  | inr c ↦ ground (arith, all_up-false b k i (ground arith) e)
]

scan : (n k : ℕ) (s : System) → k ≤ n → Reach n (scanned s 0 true) (scanned s k (all_up s.status k))
scan n zero s h = here
scan n (suc k) s h =
    next (scan n k s (omega arith)) (rereads k (all_up s.status k) (omega arith) refl refl)

-- When the logger begins a scan of its sampling and some worker has ended its loop, it can end,
-- by steps of its own that change nothing else.
pub logger_can_stop :
    (n i : ℕ) (s : System)
    → i < n
    → Reach n initial s
    → s.logger ≡ sampling 0 true
    → s.phase i ≡ finished
    → Reach n s (record s { logger = stopped })
logger_can_stop n i s lt r e f =
    let v = Reach-Inv n initial s (initial-Inv n) r in
    let down : s.status i ≡ false = subst (λ p. Tells p (s.status i)) f (v.told i) in
    let path =
      next (scan n n s (omega arith))
        (stops (ap (sampling n) (all_up-false s.status n i lt down)) refl) in
    subst (λ x. Reach n x (record s { logger = stopped })) (same s e) path
  where
    same : (s : System) → s.logger ≡ sampling 0 true → scanned s 0 true ≡ s
    same s e = ap (λ l. record s { logger = l }) (sym e)

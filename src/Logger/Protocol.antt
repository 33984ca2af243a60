-- ===== src/Logger/Protocol.antt =====
-- When the logger thread ends.
use mathlib.Core.Path.{subst}
use efa_libfabric_bench.Prelude.{
  ℕ, suc, ◌<◌, ◌≡◌, ◌≢◌, ◌⊎◌, inl, inr, refl, Bool, true, false, ◌&&◌, ◌==◌, arith, Bool-cases,
  ==_iff, sym,
}
use efa_libfabric_bench.Logger.{
  Phase, starting, running, finished, returned, Logger, waiting, sampling, stopped, System, put,
  Step, connects, operates, ends, breaks_off, reads, retries, begins, rereads, samples, stops,
  Reach, here, next, initial,
}

-- What a status says of its worker.
abbrev pub Tells : Phase → Bool → Type 0
Tells starting b = b ≡ false
Tells running b = b ≡ true
Tells finished b = b ≡ false
Tells returned b = b ≡ true

-- Some worker has ended its loop.
abbrev pub SomeFinished : ℕ → (ℕ → Phase) → Type 0
SomeFinished n f = (i : ℕ) × (i < n) × (f i ≡ finished)

-- All workers have begun.
abbrev pub AllStarted : ℕ → (ℕ → Phase) → Type 0
AllStarted n f = (i : ℕ) → i < n → f i ≢ starting

-- What the logger has seen of the workers.
abbrev pub Seen : ℕ → (ℕ → Phase) → Logger → Type 0
Seen n f (waiting k acc) = acc ≡ true → AllStarted k f
Seen n f (sampling k acc) = AllStarted n f × (acc ≡ false → SomeFinished n f)
Seen n f stopped = SomeFinished n f

pub record Inv (n : ℕ) (s : System) : Type 0 where
  pub told : (i : ℕ) → Tells (s.phase i) (s.status i)
  pub seen : Seen n s.phase s.logger

pub initial-Inv : (n : ℕ) → Inv n initial
initial-Inv n = record { told = λ i. refl; seen = λ e i h. absurd (omega arith) }

-- A worker that goes on is not at its start, and one that has ended stays so.
Seen-moved :
    (n : ℕ) (f g : ℕ → Phase) (l : Logger)
    → ((i : ℕ) → f i ≢ starting → g i ≢ starting)
    → ((i : ℕ) → f i ≡ finished → g i ≡ finished)
    → Seen n f l
    → Seen n g l
Seen-moved n f g (waiting k acc) a b h = λ e i lt. a i (h e i lt)
Seen-moved n f g (sampling k acc) a b h =
    (λ i lt. a i (h.0 i lt), λ e. let (i, lt, z) = h.1 e in (i, lt, b i z))
Seen-moved n f g stopped a b h = let (i, lt, z) = h in (i, lt, b i z)

-- One worker moves on from its loop or to it.
module _ (f : ℕ → Phase) (i : ℕ) (p : Phase) where
  put_started : p ≢ starting → (j : ℕ) → f j ≢ starting → put i p f j ≢ starting
  put_started ne j h = elim (Bool-cases (j == i)) [ inl e ↦ rw e ne | inr e ↦ rw e h ]

  put_finished : f i ≢ finished → (j : ℕ) → f j ≡ finished → put i p f j ≡ finished
  put_finished ne j h = elim (Bool-cases (j == i)) [
    | inl e ↦ absurd (ne (subst (λ x. f x ≡ finished) ((==_iff j i).0 e) h))
    | inr e ↦ rw e h
  ]

  put_told :
      (g : ℕ → Bool) (b : Bool)
      → Tells p b
      → ((j : ℕ) → Tells (f j) (g j))
      → (j : ℕ) → Tells (put i p f j) (put i b g j)
  put_told g b t h j = elim (Bool-cases (j == i)) [ inl e ↦ rw e t | inr e ↦ rw e (h j) ]

  put_told_same :
      (g : ℕ → Bool)
      → Tells p (g i)
      → ((j : ℕ) → Tells (f j) (g j))
      → (j : ℕ) → Tells (put i p f j) (g j)
  put_told_same g t h j = elim (Bool-cases (j == i)) [
    | inl e ↦ rw e (subst (λ x. Tells p (g x)) (sym ((==_iff j i).0 e)) t)
    | inr e ↦ rw e (h j)
  ]

-- A status that is read as true is that of a worker that has started.
read_started : (p : Phase) (b : Bool) → Tells p b → b ≡ true → p ≢ starting
read_started starting b t e = absurd (ground arith)
read_started running b t e = λ x. ground arith
read_started finished b t e = λ x. ground arith
read_started returned b t e = λ x. ground arith

-- One that is read as false, of a worker that has started, is that of one that has ended.
read_finished : (p : Phase) (b : Bool) → Tells p b → p ≢ starting → b ≡ false → p ≡ finished
read_finished starting b t ne e = absurd (ne refl)
read_finished running b t ne e = absurd (ground arith)
read_finished finished b t ne e = refl
read_finished returned b t ne e = absurd (ground arith)

-- One more worker is read.
AllStarted-suc : (k : ℕ) (f : ℕ → Phase) → AllStarted k f → f k ≢ starting → AllStarted (suc k) f
AllStarted-suc k f h ne i lt = elim (Bool-cases (i == k)) [
  | inl e ↦ subst (λ x. f x ≢ starting) (sym ((==_iff i k).0 e)) ne
  | inr e ↦ h i (ground arith)
]

-- What the logger knows after it has read worker `k`.
Seen-read :
    (n k : ℕ) (acc : Bool) (f : ℕ → Phase) (b : Bool)
    → Tells (f k) b
    → Seen n f (waiting k acc)
    → Seen n f (waiting (suc k) (acc && b))
Seen-read n k true f b t h = λ e. AllStarted-suc k f (h refl) (read_started (f k) b t e)
Seen-read n k false f b t h = λ e. absurd (ground arith)

Seen-reread :
    (n k : ℕ) (acc : Bool) (f : ℕ → Phase) (b : Bool)
    → k < n
    → Tells (f k) b
    → Seen n f (sampling k acc)
    → Seen n f (sampling (suc k) (acc && b))
Seen-reread n k true f b lt t h = (h.0, λ e. (k, lt, read_finished (f k) b t (h.0 k lt) e))
Seen-reread n k false f b lt t h = (h.0, λ e. h.1 refl)

module _ (n i : ℕ) (p : Phase) (s : System) where
  Seen-moved_by :
      (s.phase i ≡ running) ⊎ (s.phase i ≡ starting)
      → p ≢ starting
      → Seen n s.phase s.logger
      → Seen n (put i p s.phase) s.logger
  Seen-moved_by w ne h =
      Seen-moved n s.phase (put i p s.phase) s.logger (put_started s.phase i p ne)
        (put_finished s.phase i p (ground arith)) h

Step-Inv : (n : ℕ) (s t : System) → Inv n s → Step n s t → Inv n t
Step-Inv n s t h (connects i lt e u) = rw u (record {
  told = put_told s.phase i running s.status true refl h.told;
  seen = Seen-moved_by n i running s (inr e) (λ x. ground arith) h.seen;
})
Step-Inv n s t h (operates i lt e u) = rw u (record { told = h.told; seen = h.seen })
Step-Inv n s t h (ends i lt e u) = rw u (record {
  told = put_told s.phase i finished s.status false refl h.told;
  seen = Seen-moved_by n i finished s (inl e) (λ x. ground arith) h.seen;
})
Step-Inv n s t h (breaks_off i lt e u) = rw u (record {
  told =
      put_told_same s.phase i returned s.status (subst (λ p. Tells p (s.status i)) e (h.told i))
        h.told;
  seen = Seen-moved_by n i returned s (inl e) (λ x. ground arith) h.seen;
})
Step-Inv n s t h (reads k acc lt e u) = rw u (record {
  told = h.told;
  seen = Seen-read n k acc s.phase (s.status k) (h.told k) (subst (Seen n s.phase) e h.seen);
})
Step-Inv n s t h (retries e u) =
    rw u (record { told = h.told; seen = λ c i lt. absurd (omega arith) })
Step-Inv n s t h (begins e u) = rw u (record {
  told = h.told;
  seen = (subst (Seen n s.phase) e h.seen refl, λ c. absurd (ground arith));
})
Step-Inv n s t h (rereads k acc lt e u) = rw u (record {
  told = h.told;
  seen = Seen-reread n k acc s.phase (s.status k) lt (h.told k) (subst (Seen n s.phase) e h.seen);
})
Step-Inv n s t h (samples e u) = rw u (record {
  told = h.told;
  seen = ((subst (Seen n s.phase) e h.seen).0, λ c. absurd (ground arith));
})
Step-Inv n s t h (stops e u) =
    rw u (record { told = h.told; seen = (subst (Seen n s.phase) e h.seen).1 refl })

pub Reach-Inv : (n : ℕ) (s t : System) → Inv n s → Reach n s t → Inv n t
Reach-Inv n s t h here = h
Reach-Inv n s t h (next {t = u} r st) = Step-Inv n u t (Reach-Inv n s u h r) st

-- The logger thread ends only after some worker has ended its loop: while the workers have not
-- begun, are in their loops or have left them by an early `return`, it does not.
pub logger_stopped :
    (n : ℕ) (s : System) → Reach n initial s → s.logger ≡ stopped → SomeFinished n s.phase
logger_stopped n s r e = subst (Seen n s.phase) e (Reach-Inv n initial s (initial-Inv n) r).seen

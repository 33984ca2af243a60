-- ===== src/Buffer/Pattern.antt =====
-- The test pattern: filling a buffer and checking it agree, byte by byte.
use efa_libfabric_bench.Prelude.{
  ℕ, zero, suc, ◌+◌, ◌%◌, ◌<◌, ◌≤◌, ◌≡◌, ◌↔◌, Bool, true, false, arith, refl, ◌∙◌, ap, sym, ◌≢◌,
}
use efa_libfabric_bench.Fabric.{val, fail, eio, Fabric}
use efa_libfabric_bench.Fabric.Contract.{Memory}
use efa_libfabric_bench.Context.{system}
use efa_libfabric_bench.Machine.{State, returns}
use efa_libfabric_bench.Buffer.{
  letter, next_index, fill_bytes, check_bytes, ft_fill_buf, ft_check_buf,
}

next_index_lem : (i : ℕ) → i < 62 → next_index i ≡ (i + 1) % 62
unfolding next_index
next_index_lem i h = ground arith

next_index-lt : (i : ℕ) → i < 62 → next_index i < 62
unfolding next_index
next_index-lt i h = ground arith

-- The letter at a distance, before and after one step.
letter_here : (i k : ℕ) → i < 62 → k ≡ 0 → letter ((i + k) % 62) ≡ letter i
letter_here i k h e = ap letter (omega arith)

letter_next :
    (i j k : ℕ) → i < 62 → k ≡ j + 1 → letter ((next_index i + j) % 62) ≡ letter ((i + k) % 62)
letter_next i j k h e = ap letter (omega (arith, next_index_lem i h))

module _ {W : Type 0} (fab : Fabric W) where
  -- The loop of `ft_check_buf` reaches the end exactly if each byte is its letter.
  check_bytes_sound :
      (n addr i : ℕ) (w : W)
      → i < 62
      → check_bytes fab n addr i w ≡ true
      → (k : ℕ) → k < n
      → fab.load (addr + k) w ≡ letter ((i + k) % 62)
  unfolding check_bytes
  check_bytes_sound zero addr i w h c k b = absurd (omega arith)
  check_bytes_sound (suc n) addr i w h c zero b = ground (arith, letter_here i 0 h refl)
  check_bytes_sound (suc n) addr i w h c (suc k) b = ground (
    arith,
    check_bytes_sound n (addr + 1) (next_index i) w (next_index-lt i h) (ground arith) k
        (omega arith),
    letter_next i k (suc k) h (omega arith),
  )

  check_bytes_complete :
      (n addr i : ℕ) (w : W)
      → i < 62
      → ((k : ℕ) → k < n → fab.load (addr + k) w ≡ letter ((i + k) % 62))
      → check_bytes fab n addr i w ≡ true
  unfolding check_bytes
  check_bytes_complete zero addr i w h c = refl
  check_bytes_complete (suc n) addr i w h c = ground (
    arith,
    c 0 (omega arith),
    letter_here i 0 h refl,
    check_bytes_complete n (addr + 1) (next_index i) w (next_index-lt i h) later,
  )
    where
      later : (k : ℕ) → k < n → fab.load (addr + 1 + k) w ≡ letter ((next_index i + k) % 62)
      later k b = ground (arith, c (suc k) (omega arith), letter_next i k (suc k) h (omega arith))

module _ {W : Type 0} {fab : Fabric W} (m : Memory fab) where
  load-fill_bytes_below :
      (n addr i j : ℕ) (w : W) → j < addr → fab.load j (fill_bytes fab n addr i w) ≡ fab.load j w
  unfolding fill_bytes
  load-fill_bytes_below zero addr i j w h = refl
  load-fill_bytes_below (suc n) addr i j w h = ground (
    arith,
    load-fill_bytes_below n (addr + 1) (next_index i) j (fab.store addr (letter i) w) (omega arith),
    m.load_store addr j (letter i) w,
  )

  load-fill_bytes_above :
      (n addr i j : ℕ) (w : W)
      → addr + n ≤ j
      → fab.load j (fill_bytes fab n addr i w) ≡ fab.load j w
  unfolding fill_bytes
  load-fill_bytes_above zero addr i j w h = refl
  load-fill_bytes_above (suc n) addr i j w h = ground (
    arith,
    load-fill_bytes_above n (addr + 1) (next_index i) j (fab.store addr (letter i) w) (omega arith),
    m.load_store addr j (letter i) w,
  )

  load-fill_bytes :
      (n addr i : ℕ) (w : W)
      → i < 62
      → (k : ℕ) → k < n
      → fab.load (addr + k) (fill_bytes fab n addr i w) ≡ letter ((i + k) % 62)
  unfolding fill_bytes
  load-fill_bytes zero addr i w h k b = absurd (omega arith)
  load-fill_bytes (suc n) addr i w h zero b = ground (
    arith,
    load-fill_bytes_below n (addr + 1) (next_index i) (addr + 0) (fab.store addr (letter i) w)
        (omega arith),
    m.load_store addr (addr + 0) (letter i) w,
    letter_here i 0 h refl,
  )
  load-fill_bytes (suc n) addr i w h (suc k) b =
      ap (λ j. fab.load j (fill_bytes fab n (addr + 1) (next_index i) v)) (omega arith)
      ∙ load-fill_bytes n (addr + 1) (next_index i) v (next_index-lt i h) k (omega arith)
      ∙ letter_next i k (suc k) h (omega arith)
    where
      v : W
      v = fab.store addr (letter i) w

  module _ (buf size : ℕ) (s : State W) (sys : s.ctx.opts.iface ≡ system) where
    -- On system memory `ft_fill_buf` succeeds, writes the repeated alphabet to its buffer, and
    -- leaves every other byte and the connection as they were.
    pub ft_fill_buf_lem :
        (t : State W) × (ft_fill_buf fab buf size s ≡ returns (val 0) t)
        × (t.ctx ≡ s.ctx)
        × ((k : ℕ) → k < size → fab.load (buf + k) t.world ≡ letter (k % 62))
        × ((j : ℕ) → j < buf → fab.load j t.world ≡ fab.load j s.world)
        × ((j : ℕ) → buf + size ≤ j → fab.load j t.world ≡ fab.load j s.world)
    unfolding ft_fill_buf
    ft_fill_buf_lem = (
      record s { world = fill_bytes fab size buf 0 s.world },
      rw sys,
      refl,
      λ k h.
          load-fill_bytes size buf 0 s.world (omega arith) k h
          ∙ ap (λ j. letter (j % 62)) (omega arith),
      λ j h. load-fill_bytes_below size buf 0 j s.world h,
      λ j h. load-fill_bytes_above size buf 0 j s.world h,
    )

module _ {W : Type 0} (fab : Fabric W) (buf size : ℕ) (s : State W) where
  -- Each byte of the buffer is its letter of the repeated alphabet.
  abbrev pub HoldsPattern : Type 0
  HoldsPattern = (k : ℕ) → k < size → fab.load (buf + k) s.world ≡ letter (k % 62)

  check_bytes_iff : (check_bytes fab size buf 0 s.world ≡ true) ↔ HoldsPattern
  check_bytes_iff = (
    λ h k b. check_bytes_sound fab size buf 0 s.world (omega arith) h k b ∙ plain k,
    λ h. check_bytes_complete fab size buf 0 s.world (omega arith) (λ k b. h k b ∙ sym (plain k)),
  )
    where
      plain : (k : ℕ) → letter ((0 + k) % 62) ≡ letter (k % 62)
      plain k = ap (λ j. letter (j % 62)) (omega arith)

  -- On system memory `ft_check_buf` returns 0 if each byte of the buffer is its letter of the
  -- repeated alphabet, -FI_EIO if one is not, and changes nothing.
  pub ft_check_buf_lem :
      s.ctx.opts.iface ≡ system
      → (HoldsPattern → ft_check_buf fab buf size s ≡ returns (val 0) s)
        × (¬ HoldsPattern → ft_check_buf fab buf size s ≡ returns (fail eio) s)
  unfolding ft_check_buf
  ft_check_buf_lem sys = (
    λ h. rw (sys, check_bytes_iff.1 h),
    λ h. rw (sys, not_true (check_bytes fab size buf 0 s.world) (λ e. h (check_bytes_iff.0 e))),
  )
    where
      not_true : (b : Bool) → ¬ (b ≡ true) → b ≡ false
      not_true true h = absurd (h refl)
      not_true false h = refl

module _ {W : Type 0} {fab : Fabric W} (m : Memory fab) (buf size : ℕ) (s : State W) where
  -- A buffer that was filled passes the check; with one byte changed afterwards, to anything but
  -- its letter, it fails with -FI_EIO.
  pub ft_check_buf-ft_fill_buf :
      s.ctx.opts.iface ≡ system
      → (t : State W) × (ft_fill_buf fab buf size s ≡ returns (val 0) t)
        × (ft_check_buf fab buf size t ≡ returns (val 0) t)
        × ((k v : ℕ)
            → k < size
            → v ≢ letter (k % 62)
            → let u : State W = record t { world = fab.store (buf + k) v t.world } in
              ft_check_buf fab buf size u ≡ returns (fail eio) u)
  ft_check_buf-ft_fill_buf sys =
      let (t, e, same, inside, below, above) = ft_fill_buf_lem m buf size s sys in
      let sys' = ap (λ c. c.opts.iface) same ∙ sys in
      (
        t,
        e,
        (ft_check_buf_lem fab buf size t sys').0 inside,
        λ k v h ne.
            (ft_check_buf_lem fab buf size (record t { world = fab.store (buf + k) v t.world })
                sys').1
              (λ holds. ne (ground (arith, holds k h, m.load_store (buf + k) (buf + k) v t.world))),
      )

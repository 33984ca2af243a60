-- ===== src/Buffer/Layout.antt =====
-- The sizes and places of the transfer buffers: `ft_set_tx_rx_sizes` and the layout that
-- `ft_alloc_msgs` computes (libefa/src/libefa/ftlib/shared.c).
use efa_libfabric_bench.Prelude.{
  ℕ, ◌+◌, ◌*◌, ◌%◌, ◌^◌, ◌<◌, ◌≡◌, refl, Bool, true, false, if◌then◌else◌, ltb, max, ◌&&◌, not,
  arith, ◌∙◌, ap,
}
use efa_libfabric_bench.Context.{Context, opt, ft_tx_prefix_size, ft_rx_prefix_size}
use efa_libfabric_bench.Context.Options

abbrev ft_max_ctrl_msg : ℕ
ft_max_ctrl_msg = 256

-- The last entry of `test_size`, 1 << 23.
abbrev largest_test_size : ℕ
largest_test_size = 8388608

-- The payload: what the options ask for, or the largest test, and at most a message.
unfoldable pub payload_size : Context → ℕ
payload_size c =
    let wanted = if opt c Options.size then c.opts.transfer_size else largest_test_size in
    if ltb c.fi.max_msg_size wanted then c.fi.max_msg_size else wanted

-- `ft_set_tx_rx_sizes`
unfoldable pub set_tx_size : Context → ℕ
set_tx_size c = payload_size c + ft_tx_prefix_size c

unfoldable pub set_rx_size : Context → ℕ
set_rx_size c = payload_size c + ft_rx_prefix_size c

-- The room of one message, in which a control message fits too.
abbrev pub slot : ℕ → ℕ
slot n = max n ft_max_ctrl_msg

-- The sizes before any change of `buf_size`, with a region for each message or without.
unfoldable pub sizes_by : Bool → Context → Context
sizes_by true c = record c {
  tx_mr_size = set_tx_size c;
  rx_mr_size = set_rx_size c;
  rx_size = ft_max_ctrl_msg + ft_rx_prefix_size c;
  tx_size = ft_max_ctrl_msg + ft_tx_prefix_size c;
  buf_size =
      (ft_max_ctrl_msg + ft_rx_prefix_size c + (ft_max_ctrl_msg + ft_tx_prefix_size c)) % 2 ^ 64;
}
sizes_by false c = record c {
  tx_size = set_tx_size c;
  rx_size = set_rx_size c;
  tx_mr_size = 0;
  rx_mr_size = 0;
  buf_size =
      (slot (set_tx_size c) * c.opts.window_size + slot (set_rx_size c) * c.opts.window_size)
      % 2 ^ 64;
}

unfoldable pub message_sizes : Context → Context
unfolding sizes_by
message_sizes c = sizes_by (opt c Options.alloc_mult_mr) c

-- A large buffer replaces the size: `1024 * 1024 * 1024 * ctx->opts.large_bufffer_size_gbs`.
unfoldable pub large_size : Context → Context
large_size c =
    if opt c Options.init_large_buffer
    then record c { buf_size = 2 ^ 30 * c.opts.large_buffer_size_gbs % 2 ^ 64 }
    else c

-- Aligned buffers have a page more.
unfoldable pub aligned_size : ℕ → Context → Context
aligned_size page c =
    if opt c Options.align && not (opt c Options.use_device)
    then record c { buf_size = (c.buf_size + page) % 2 ^ 64 }
    else c

unfoldable pub alloc_sizes : ℕ → Context → Context
alloc_sizes page c = aligned_size page (large_size (message_sizes c))

-- How many messages of each direction the memory holds.
unfoldable pub slots_by : Bool → ℕ → ℕ
slots_by true window = 1
slots_by false window = window

unfoldable pub slots : Context → ℕ
slots c = slots_by (opt c Options.alloc_mult_mr) c.opts.window_size

-- Where the transmit buffer starts.
unfoldable pub tx_start : Bool → Context → ℕ
tx_start true c = slot c.rx_size
tx_start false c = slot c.rx_size * c.opts.window_size

-- The pointers into the memory that was allocated at `p`.
unfoldable pub place_buffers : ℕ → Context → Context
place_buffers p c = record c {
  buf = p;
  rx_buf = p;
  tx_buf = p + tx_start (opt c Options.alloc_mult_mr) c;
}

tx_start-slots :
    (b : Bool) (c : Context) → tx_start b c ≡ slots_by b c.opts.window_size * slot c.rx_size
unfolding tx_start slots_by
tx_start-slots true c = omega arith
tx_start-slots false c = omega arith

opts-sizes_by : (b : Bool) (c : Context) → (sizes_by b c).opts ≡ c.opts
unfolding sizes_by
opts-sizes_by true c = refl
opts-sizes_by false c = refl

module _ (page p : ℕ) (c : Context) where
  abbrev pub placed : Context
  placed = place_buffers p (alloc_sizes page c)

  -- The memory that the messages need.
  abbrev needed : ℕ
  needed = slots c * slot placed.rx_size + slots c * slot placed.tx_size

  sizes_kept :
      ((alloc_sizes page c).opts ≡ (message_sizes c).opts)
      × ((alloc_sizes page c).tx_size ≡ (message_sizes c).tx_size)
      × ((alloc_sizes page c).rx_size ≡ (message_sizes c).rx_size)
  unfolding alloc_sizes aligned_size large_size
  sizes_kept = (ground arith, ground arith, ground arith)

  opts-alloc_sizes : (alloc_sizes page c).opts ≡ c.opts
  unfolding message_sizes
  opts-alloc_sizes = sizes_kept.0 ∙ opts-sizes_by (opt c Options.alloc_mult_mr) c

  pub buf_size_large :
      opt c Options.init_large_buffer ≡ true
      → opt c Options.align ≡ false
      → (alloc_sizes page c).buf_size ≡ 2 ^ 30 * c.opts.large_buffer_size_gbs % 2 ^ 64
  unfolding alloc_sizes aligned_size large_size message_sizes
  buf_size_large l a = ground (arith, opts-sizes_by (opt c Options.alloc_mult_mr) c)

  pub tx_buf_start : placed.tx_buf ≡ p + slots c * slot placed.rx_size
  unfolding place_buffers slots
  tx_buf_start =
      let d = alloc_sizes page c in
      ap (λ n. p + n)
        (tx_start-slots (opt d Options.alloc_mult_mr) d
          ∙ ap (λ n. n * slot d.rx_size)
              (ap (λ o. slots_by (Options.has o.options Options.alloc_mult_mr) o.window_size)
                opts-alloc_sizes))

  -- Where a large buffer is asked for, without alignment, and its size does not wrap: if the size
  -- is below what the slots of both directions need, the transmit slots end past the memory.
  pub layout_large :
      opt c Options.init_large_buffer ≡ true
      → opt c Options.align ≡ false
      → 2 ^ 30 * c.opts.large_buffer_size_gbs < 2 ^ 64
      → 2 ^ 30 * c.opts.large_buffer_size_gbs < needed
      → placed.buf + placed.buf_size < placed.tx_buf + slots c * slot placed.tx_size
  unfolding place_buffers
  layout_large l a h k = omega (arith, buf_size_large l a, tx_buf_start)

-- ===== src/Parse/Counted.antt =====
-- Whatever options are given, completions of each direction are counted, by a queue or by a
-- counter: `ft_get_tx_comp` and `ft_get_rx_comp` have something to wait on.
use efa_libfabric_bench.Prelude.{
  ℕ, ◌+◌, ◌-◌, ◌^◌, ◌≡◌, refl, true, false, Option, List, [], ◌∷◌, ◌||◌, arith,
}
use efa_libfabric_bench.Prelude.Bits.{bit}
use efa_libfabric_bench.Context.{Opts, Text, init_opts}
use efa_libfabric_bench.Context.Options
use efa_libfabric_bench.Context.Options.{has, mask, set_flags, clear_flags}
use efa_libfabric_bench.Context.Options.Laws.{has-set_flags, has-clear_flags}
use efa_libfabric_bench.Parse.{
  use_counters, parse_cs, ft_parse_addr_opts, ft_parsecsopts, text_or_empty,
}

-- Both directions have a completion queue or a counter.
pub record IsCounted (o : ℕ) : Type 0 where
  pub tx_counted : (has o Options.tx_cq || has o Options.tx_cntr) ≡ true
  pub rx_counted : (has o Options.rx_cq || has o Options.rx_cntr) ≡ true

-- The complement of the two queue bits has the counter bits and not those.
kept :
    (has (2 ^ 32 - 1 - (mask Options.rx_cq + mask Options.tx_cq)) Options.tx_cntr ≡ true)
    × (has (2 ^ 32 - 1 - (mask Options.rx_cq + mask Options.tx_cq)) Options.rx_cntr ≡ true)
    × (has (2 ^ 32 - 1 - (mask Options.rx_cq + mask Options.tx_cq)) Options.tx_cq ≡ false)
    × (has (2 ^ 32 - 1 - (mask Options.rx_cq + mask Options.tx_cq)) Options.rx_cq ≡ false)
unfolding has mask bit
kept = (refl, refl, refl, refl)

has-use_counters :
    (o : ℕ)
    → (has (use_counters o) Options.tx_cntr ≡ true)
      × (has (use_counters o) Options.rx_cntr ≡ true)
      × (has (use_counters o) Options.tx_cq ≡ false)
      × (has (use_counters o) Options.rx_cq ≡ false)
unfolding use_counters
has-use_counters o =
    let c = set_flags (set_flags o (mask Options.rx_cntr)) (mask Options.tx_cntr) in
    let flags = mask Options.rx_cq + mask Options.tx_cq in
    let s = set_flags o (mask Options.rx_cntr) in
    (
      ground (
        arith,
        has-clear_flags c flags Options.tx_cntr,
        kept.0,
        has-set_flags s Options.tx_cntr Options.tx_cntr,
      ),
      ground (
        arith,
        has-clear_flags c flags Options.rx_cntr,
        kept.1,
        has-set_flags s Options.tx_cntr Options.rx_cntr,
        has-set_flags o Options.rx_cntr Options.rx_cntr,
      ),
      ground (arith, has-clear_flags c flags Options.tx_cq, kept.2),
      ground (arith, has-clear_flags c flags Options.rx_cq, kept.3),
    )

set_flags-IsCounted : (o j : ℕ) → IsCounted o → IsCounted (set_flags o (mask j))
set_flags-IsCounted o j h = ground (
  arith,
  has-set_flags o j Options.tx_cq,
  has-set_flags o j Options.tx_cntr,
  has-set_flags o j Options.rx_cq,
  has-set_flags o j Options.rx_cntr,
)

use_counters-IsCounted : (o : ℕ) → IsCounted (use_counters o)
use_counters-IsCounted o = ground (arith, has-use_counters o)

init_opts-IsCounted : (o : Opts) → IsCounted (init_opts o).options
unfolding init_opts has bit
init_opts-IsCounted o = record { tx_counted = refl; rx_counted = refl }

module _ (atoi : Text → ℕ) where
  parse_cs-IsCounted :
      (op : ℕ) (arg : Text) (o : Opts)
      → IsCounted o.options
      → IsCounted (parse_cs atoi op arg o).options
  unfolding parse_cs
  parse_cs-IsCounted op arg o h = ground (
    arith,
    set_flags-IsCounted o.options Options.iter h,
    set_flags-IsCounted o.options Options.domain_eq h,
    set_flags-IsCounted o.options Options.size h,
    set_flags-IsCounted o.options Options.align h,
    use_counters-IsCounted o.options,
  )

  ft_parse_addr_opts-IsCounted :
      (op : ℕ) (arg : Option Text) (o : Opts)
      → IsCounted o.options
      → IsCounted (ft_parse_addr_opts atoi op arg o).options
  unfolding ft_parse_addr_opts
  ft_parse_addr_opts-IsCounted op arg o h =
      let sync = set_flags o.options (mask Options.oob_sync) in
      let synced = set_flags-IsCounted o.options Options.oob_sync h in
      ground (
        arith,
        set_flags-IsCounted sync Options.oob_addr_exch synced,
        set_flags-IsCounted o.options Options.oob_addr_exch h,
        set_flags-IsCounted o.options Options.server_persist h,
      )

  -- The options of a command line, in order.
  unfoldable pub parse_all : List (ℕ × Option Text) → Opts → Opts
  parse_all [] o = o
  parse_all ((op, arg) ∷ rest) o = parse_all rest (ft_parsecsopts atoi op arg o)

  ft_parsecsopts-IsCounted :
      (op : ℕ) (arg : Option Text) (o : Opts)
      → IsCounted o.options
      → IsCounted (ft_parsecsopts atoi op arg o).options
  unfolding ft_parsecsopts
  ft_parsecsopts-IsCounted op arg o h =
      parse_cs-IsCounted op (text_or_empty arg) (ft_parse_addr_opts atoi op arg o)
        (ft_parse_addr_opts-IsCounted op arg o h)

  parse_all-IsCounted :
      (args : List (ℕ × Option Text)) (o : Opts)
      → IsCounted o.options
      → IsCounted (parse_all args o).options
  unfolding parse_all
  parse_all-IsCounted [] o h = h
  parse_all-IsCounted ((op, arg) ∷ rest) o h =
      parse_all-IsCounted rest (ft_parsecsopts atoi op arg o) (ft_parsecsopts-IsCounted op arg o h)

  -- After `init_opts` and any options whatever, transmit completions and receive completions are
  -- each counted by a queue or by a counter.
  pub options-IsCounted :
      (args : List (ℕ × Option Text)) (o : Opts) → IsCounted (parse_all args (init_opts o)).options
  options-IsCounted args o = parse_all-IsCounted args (init_opts o) (init_opts-IsCounted o)

-- ===== src/Tests/Settings.antt =====
-- The theorems on tags, options and access rights, at concrete settings.
use efa_libfabric_bench.Prelude.{
  ℕ, ◌-◌, ◌^◌, ◌≡◌, ◌≢◌, ◌↔◌, ◌⊎◌, refl, true, false, ◌||◌, none, some, [], ◌∷◌, arith,
}
use efa_libfabric_bench.Prelude.Bits.{bit}
use efa_libfabric_bench.Fabric.{tx_ctx, rx_ctx, completion, more}
use efa_libfabric_bench.Context.{Context, Info, init_opts}
use efa_libfabric_bench.Context.Options
use efa_libfabric_bench.Context.Options.{has, mask}
use efa_libfabric_bench.Completion.{ft_tag_is_valid}
use efa_libfabric_bench.Completion.Tags.{ft_tag_is_valid_wraps}
use efa_libfabric_bench.Transfer.{sendmsg_request, recvmsg_request}
use efa_libfabric_bench.Transfer.Tags.{tag_of, recvmsg_misses}
use efa_libfabric_bench.Access.{
  rma_or_atomic, ft_info_to_mr_access, ft_check_mr_local_flag, ft_rma_read_target_allowed,
  ft_rma_write_target_allowed, ft_info_to_mr_access_sound,
}
use efa_libfabric_bench.Parse.Counted.{IsCounted, parse_all, options-IsCounted}
use efa_libfabric_bench.Tests.{a_context, some_opts, an_info, no_caps}

abbrev sent : ℕ
sent = 6

abbrev bandwidth : Context
bandwidth = record a_context { opts = record some_opts { options = 2 ^ 9 } }

is_bw : has (2 ^ 9) Options.bw ≡ true
unfolding has mask bit
is_bw = refl

-- The last tag, in a bandwidth test with a window of 2.
ft_tag_is_valid_wraps_example :
    ft_tag_is_valid bandwidth bandwidth.rxcq (2 ^ 64 - 1) (2 ^ 64 - 1) ≡ false
ft_tag_is_valid_wraps_example =
    ft_tag_is_valid_wraps bandwidth (2 ^ 64 - 1) refl is_bw (omega arith) (omega arith)
      (omega arith)

-- A receiver that has sent one message more.
abbrev ahead : Context
ahead = record a_context { tx_seq = 6 }

recvmsg_misses_example :
    tag_of (sendmsg_request a_context 7 3 tx_ctx completion)
    ≢ tag_of (recvmsg_request ahead 7 3 rx_ctx more)
recvmsg_misses_example =
    recvmsg_misses a_context ahead 7 3 3 tx_ctx rx_ctx completion more
      (record { same_kind = refl; same_tag = refl; same_message = refl }) refl refl
      (λ e. omega (arith, e))

options-IsCounted_example :
    IsCounted
      (parse_all (λ t. 0) ((116, some (99 ∷ [])) ∷ (99, none) ∷ []) (init_opts some_opts)).options
options-IsCounted_example =
    options-IsCounted (λ t. 0) ((116, some (99 ∷ [])) ∷ (99, none) ∷ []) some_opts

-- Capabilities that name FI_RMA and FI_REMOTE_READ, without local registration
abbrev read_only : Info
read_only = record an_info {
  caps = record no_caps { rma = true; remote_read = true };
  mr_local = false;
  local_mr_mode = false;
}

ft_info_to_mr_access_sound_example :
    let a = ft_info_to_mr_access read_only in
    let c = read_only.caps in
    (a.remote_read ≡ true
      ↔ (rma_or_atomic c ≡ true)
        × ((c.remote_read ≡ true) ⊎ ((c.read || (c.write || c.remote_write)) ≡ false)))
    × (a.remote_write ≡ true
        ↔ (rma_or_atomic c ≡ true)
          × ((c.remote_write ≡ true)
              ⊎ (((c.read || (c.write || c.remote_read)) ≡ false)
                  ⊎ (((c.read || c.write) ≡ false)
                      × (c.remote_read ≡ true)
                      × (ft_check_mr_local_flag read_only ≡ false)))))
    × ((a.send || (a.recv || (a.read || a.write))) ≡ true → ft_check_mr_local_flag read_only ≡ true)
ft_info_to_mr_access_sound_example = ft_info_to_mr_access_sound read_only

-- They are asked FI_REMOTE_WRITE too.
write_access_test : (ft_info_to_mr_access read_only).remote_write ≡ true
unfolding ft_info_to_mr_access ft_rma_read_target_allowed ft_rma_write_target_allowed
    ft_check_mr_local_flag
write_access_test = refl

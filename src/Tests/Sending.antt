-- ===== src/Tests/Sending.antt =====
-- Runs of posts, waits and sends with the provider of `Tests`.
use efa_libfabric_bench.Prelude.{◌≡◌, refl, true, false, none, arith}
use efa_libfabric_bench.Prelude.Bits.{bit}
use efa_libfabric_bench.Fabric.{Ret, val, fail, enomem, Request, Fabric, tx_ctx, rx_ctx}
use efa_libfabric_bench.Fabric.Contract.{tx_cost, rx_cost}
use efa_libfabric_bench.Context.{ft_tx_prefix_size}
use efa_libfabric_bench.Context.Options.{has, mask}
use efa_libfabric_bench.Machine.{State, Outcome, returns}
use efa_libfabric_bench.Post.{
  tx, rx, inc_seq, ft_cq_readerr, ft_progress, retry, restored, post_round, ft_post,
}
use efa_libfabric_bench.Post.Laws.{erase, ft_post_success, ft_post_error}
use efa_libfabric_bench.Post.Account.{Ahead, ft_post-Ahead}
use efa_libfabric_bench.Post.Rounds.{ft_post_returns}
use efa_libfabric_bench.Buffer.{integ_alphabet, letter, next_index, fill_bytes, ft_fill_buf}
use efa_libfabric_bench.Completion.{
  ft_tag_is_valid, expected_tag, pending, expired, take_completion, read_clock, spin_round,
  spin_loop, ft_spin_for_comp, wait_by, after_wait, ft_get_cq_comp,
}
use efa_libfabric_bench.Completion.Get.{ft_get_tx_comp, ft_get_rx_comp}
use efa_libfabric_bench.Completion.Drain.{Awaiting}
use efa_libfabric_bench.Completion.Rounds.{ft_get_tx_comp-returns}
use efa_libfabric_bench.Completion.Settle.{ft_get_tx_comp_drains, ft_get_rx_comp_drains}
use efa_libfabric_bench.Transfer.{
  tx_request, rx_request, inject_request, ft_post_tx_buf, ft_post_tx, ft_post_tx_selective_comp,
  fill_if_active, ft_tx, ft_post_inject, ft_post_rx_buf, ft_post_rx,
}
use efa_libfabric_bench.Transfer.Balance.{
  ft_post_tx-Balanced, ft_post_tx_selective_comp-Balanced, ft_post_inject-Balanced, ft_tx-drains,
}
use efa_libfabric_bench.Transfer.Tags.{InStep, InStep-kept}
use efa_libfabric_bench.Tests.{
  Box, owed, box, box-Accounting, box-Draining, box-Delivering, a_box, a_context, a_state, final,
}

abbrev fabric : Fabric Box
fabric = box (tx_cost false)

abbrev rx_fabric : Fabric Box
rx_fabric = box rx_cost

balanced : Ahead tx 1 owed 0 a_state
balanced = record { on_queue = refl; in_range = omega arith; balance = refl }

-- A send of 3 bytes, with two refused attempts.
abbrev sent : Outcome Box
sent = ft_tx fabric 5 7 3 tx_ctx a_state

sent_run : sent ≡ returns (val 0) (final sent)
unfolding ft_tx fill_if_active ft_fill_buf fill_bytes letter integ_alphabet next_index ft_post_tx
    ft_post_tx_buf tx_request ft_post post_round retry restored ft_progress ft_cq_readerr
    ft_get_tx_comp ft_get_cq_comp wait_by ft_spin_for_comp spin_loop spin_round take_completion
    pending expired read_clock after_wait ft_tag_is_valid expected_tag has mask bit
    ft_tx_prefix_size
sent_run = refl

unselective : has (a_context.opts.options) 21 ≡ false
unfolding has mask bit
unselective = refl

has_tx_cq : has (a_context.opts.options) 4 ≡ true
unfolding has mask bit
has_tx_cq = refl

ft_tx-drains_example :
    ((final sent).ctx.tx_cq_cntr ≡ (final sent).ctx.tx_seq) × (owed (final sent).world ≡ 0)
ft_tx-drains_example =
    ft_tx-drains false (box-Accounting 1 (tx_cost false)) 5 7 3 tx_ctx a_state (val 0) (final sent)
      unselective has_tx_cq balanced sent_run refl

-- One post of a send.
abbrev a_send : Request
a_send = Request.send (record { base = 400; len = 3 }) 7 tx_ctx

abbrev posted : Outcome Box
posted = ft_post fabric 5 tx a_send a_state

posted_run : posted ≡ returns (val 0) (final posted)
unfolding ft_post post_round retry restored ft_progress ft_cq_readerr
posted_run = refl

ft_post-Ahead_example : Ahead tx 1 owed 0 (final posted)
ft_post-Ahead_example =
    ft_post-Ahead (box-Accounting 1 (tx_cost false)) tx a_send 0 (omega arith) 5 a_state balanced
      posted_run

ft_post_success_example :
    (erase tx (final posted).ctx ≡ erase tx (inc_seq tx a_context))
    × ((final posted).ctx.timeout ≡ none)
ft_post_success_example = ft_post_success fabric tx a_send 5 a_state posted_run refl

ft_post_returns_example :
    (r : Ret) × (t : State Box) × (ft_post fabric 3 tx a_send a_state ≡ returns r t)
ft_post_returns_example =
    ft_post_returns (box-Draining 1 (tx_cost false)) 3 tx a_send a_state refl (omega arith)

-- A provider that fails: every request leads to two completions, which it has no room for.
abbrev failing : Fabric Box
failing = box (λ req. 2)

abbrev not_posted : Outcome Box
not_posted = ft_post failing 5 tx a_send a_state

not_posted_run : not_posted ≡ returns (fail enomem) (final not_posted)
unfolding ft_post post_round retry restored ft_progress ft_cq_readerr
not_posted_run = refl

ft_post_error_example : erase tx (final not_posted).ctx ≡ erase tx a_context
ft_post_error_example = ft_post_error failing tx a_send 5 a_state not_posted_run refl

-- A wait for one completion that is owed, on either side.
abbrev tx_waiting : State Box
tx_waiting = record {
  ctx = record a_context { tx_seq = 6 };
  world = record a_box { waiting = true };
}

abbrev tx_waited : Outcome Box
tx_waited = ft_get_tx_comp fabric 3 6 tx_waiting

tx_waited_run : tx_waited ≡ returns (val 0) (final tx_waited)
unfolding ft_get_tx_comp ft_get_cq_comp wait_by ft_spin_for_comp spin_loop spin_round
    take_completion pending expired read_clock after_wait ft_tag_is_valid expected_tag has mask bit
tx_waited_run = refl

ft_get_tx_comp_drains_example :
    Awaiting tx 1 owed 6 (final tx_waited)
    × ((final tx_waited).ctx.tx_cq_cntr ≡ 6)
    × (owed (final tx_waited).world ≡ 0)
ft_get_tx_comp_drains_example =
    ft_get_tx_comp_drains (box-Accounting 1 (tx_cost false)) 6 3 tx_waiting (final tx_waited)
      has_tx_cq (record { on_queue = refl; in_range = omega arith; posted = refl; balance = refl })
      tx_waited_run

ft_get_tx_comp-returns_example :
    (r : Ret) × (t : State Box) × (ft_get_tx_comp fabric 4 6 tx_waiting ≡ returns r t)
ft_get_tx_comp-returns_example =
    ft_get_tx_comp-returns (box-Accounting 1 (tx_cost false)) (box-Delivering 1 (tx_cost false)) 4 6
      tx_waiting has_tx_cq refl
      (record { on_queue = refl; in_range = omega arith; posted = refl; balance = refl })
      (omega arith)

abbrev rx_waiting : State Box
rx_waiting = record {
  ctx = record a_context { rx_seq = 1; rx_cq_cntr = 0 };
  world = record a_box { waiting = true };
}

abbrev rx_waited : Outcome Box
rx_waited = ft_get_rx_comp rx_fabric 3 1 rx_waiting

has_rx_cq : has (a_context.opts.options) 3 ≡ true
unfolding has mask bit
has_rx_cq = refl

rx_waited_run : rx_waited ≡ returns (val 0) (final rx_waited)
unfolding ft_get_rx_comp ft_get_cq_comp wait_by ft_spin_for_comp spin_loop spin_round
    take_completion pending expired read_clock after_wait ft_tag_is_valid expected_tag has mask bit
rx_waited_run = refl

ft_get_rx_comp_drains_example :
    Awaiting rx 2 owed 1 (final rx_waited)
    × ((final rx_waited).ctx.rx_cq_cntr ≡ 1)
    × (owed (final rx_waited).world ≡ 0)
ft_get_rx_comp_drains_example =
    ft_get_rx_comp_drains (box-Accounting 2 rx_cost) 1 3 rx_waiting (final rx_waited) has_rx_cq
      (record { on_queue = refl; in_range = omega arith; posted = refl; balance = refl })
      rx_waited_run

-- The four ways to send.
abbrev tx_posted : Outcome Box
tx_posted = ft_post_tx fabric 5 7 3 0 tx_ctx a_state

tx_posted_run : tx_posted ≡ returns (val 0) (final tx_posted)
unfolding ft_post_tx ft_post_tx_buf tx_request ft_post post_round retry restored ft_progress
    ft_cq_readerr has mask bit
tx_posted_run = refl

ft_post_tx-Balanced_example : Ahead tx 1 owed 0 (final tx_posted)
ft_post_tx-Balanced_example =
    ft_post_tx-Balanced false (box-Accounting 1 (tx_cost false)) 5 7 3 0 tx_ctx a_state (val 0)
      (final tx_posted) unselective balanced tx_posted_run

abbrev quiet : Outcome Box
quiet = ft_post_tx_selective_comp (box (tx_cost true)) 5 7 3 tx_ctx false a_state

quiet_run : quiet ≡ returns (val 0) (final quiet)
unfolding ft_post_tx_selective_comp ft_post post_round retry restored ft_progress ft_cq_readerr
    ft_tx_prefix_size
quiet_run = refl

ft_post_tx_selective_comp-Balanced_example : Ahead tx 1 owed 0 (final quiet)
ft_post_tx_selective_comp-Balanced_example =
    ft_post_tx_selective_comp-Balanced true (box-Accounting 1 (tx_cost true)) 5 7 3 tx_ctx false
      a_state (val 0) (final quiet) refl balanced quiet_run refl

abbrev injected : Outcome Box
injected = ft_post_inject fabric 5 7 3 a_state

injected_run : injected ≡ returns (val 0) (final injected)
unfolding ft_post_inject inject_request ft_post post_round retry restored ft_progress ft_cq_readerr
    ft_tx_prefix_size
injected_run = refl

ft_post_inject-Balanced_example : Ahead tx 1 owed 0 (final injected)
ft_post_inject-Balanced_example =
    ft_post_inject-Balanced false (box-Accounting 1 (tx_cost false)) 5 7 3 a_state (val 0)
      (final injected) balanced injected_run refl

-- One message from an end to the other.
abbrev rx_posted : Outcome Box
rx_posted = ft_post_rx fabric 5 3 rx_ctx a_state

rx_posted_run : rx_posted ≡ returns (val 0) (final rx_posted)
unfolding ft_post_rx ft_post_rx_buf rx_request ft_post post_round retry restored ft_progress
    ft_cq_readerr
rx_posted_run = refl

InStep-kept_example : InStep (final tx_posted).ctx (final rx_posted).ctx
InStep-kept_example =
    InStep-kept fabric 5 7 3 3 0 tx_ctx rx_ctx a_state a_state (final tx_posted) (final rx_posted)
      (val 0) (val 0) (record { same_kind = refl; same_tag = refl; same_message = refl })
      tx_posted_run refl rx_posted_run refl

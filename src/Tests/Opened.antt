-- ===== src/Tests/Opened.antt =====
-- The set-up of a connection with a provider that opens each object that it does not refuse.
use efa_libfabric_bench.Prelude.{
  ◌≡◌, refl, Bool, true, false, ◌||◌, ◌+◌, some, [], ◌∷◌, if◌then◌else◌, arith,
}
use efa_libfabric_bench.Fabric.{Fabric, Ret, val, fail, enomem, eother, Completion, tx_ctx}
use efa_libfabric_bench.Context.{Context, Info, Opts, opt}
use efa_libfabric_bench.Context.Fids.{Fid, same}
use efa_libfabric_bench.Context.Options
use efa_libfabric_bench.Context.Options.{mask}
use efa_libfabric_bench.Machine.{State, Outcome, returns, out_of_rounds, fault}
use efa_libfabric_bench.Release.{ft_close_fids}
use efa_libfabric_bench.Socket.{Sockets, accepted, closed}
use efa_libfabric_bench.Opening.{Calls, opens, entry, connreq}
use efa_libfabric_bench.Opening.Oob.{Net}
use efa_libfabric_bench.Opening.{
  open_object, change, cq_wait_by, ft_cq_set_wait_attr, cntr_set_by, ft_cntr_set_wait_attr,
  ft_cntr_open, ft_open_fabric_res, open_queue, choose_format, set_av_attr, shared_queue, tx_queue,
  tx_counter, rx_queue, rx_counter, address_vector, set_format, alloc_queues,
}
use efa_libfabric_bench.Opening.Memory.{
  hmem_init, hmem_alloc, set_bytes, hmem_memset, ft_init, alloc_buffer, ft_reg_mr, reg_whole,
  ctx_array_loop, ft_alloc_ctx_array, set_sizes, clear_buffer, place_messages, reg_buffer,
  reg_messages, alloc_tx_array, alloc_rx_array, ft_alloc_msgs, ft_alloc_ep_res, ft_alloc_active_res,
}
use efa_libfabric_bench.Opening.Endpoint.{
  bind_if, ft_get_cq_fd, ft_enable_ep, process_eq_err, await_event, post_first_rx,
  ft_enable_ep_recv,
}
use efa_libfabric_bench.Opening.Oob.{
  socket_call, ft_fd_nonblock, ft_sock_setup, or_close, with_socket, new_socket, new_client,
  resolve, ft_sock_listen, connect_socket, oob_by, ft_init_oob,
}
use efa_libfabric_bench.Opening.Connect.{
  names_peer, complete_hints, ft_check_prefix_forced, copy_bytes, dupaddr, getaddr, ft_getsrcaddr,
  ft_read_addr_opts, ask_info, ft_getinfo, ft_complete_connect, take_request, ft_retrieve_conn_req,
  ft_accept_connection, ft_connect_ep, fork_if_asked, ft_start_server, or_reject, ft_server_connect,
  ft_client_connect, ft_init_fabric_cm,
}
use efa_libfabric_bench.Opening.Address.{
  set_rx_seq_close, load_bytes, store_bytes, ft_av_insert, name_in_tx, take_address, after_send,
  ft_exchange_addresses_oob, dst_addr_client, forget_remote, dst_addr_server, learn_address,
  close_rx_seq, ft_init_av_dst_addr, ft_init_av, ft_init_fabric,
}
use efa_libfabric_bench.Post.{ft_cq_readerr, ft_progress, retry, restored, post_round, ft_post}
use efa_libfabric_bench.Transfer.{
  ft_post_tx_buf, ft_post_tx, fill_if_active, ft_tx, ft_post_rx_buf, ft_post_rx, check_if_active,
  ft_rx,
}
use efa_libfabric_bench.Completion.{
  ft_tag_is_valid, expected_tag, pending, expired, take_completion, read_clock, spin_round,
  spin_loop, ft_spin_for_comp, wait_by, after_wait, ft_get_cq_comp,
}
use efa_libfabric_bench.Completion.Get.{ft_get_rx_comp, ft_get_tx_comp}
use efa_libfabric_bench.Buffer.Layout.{
  payload_size, set_tx_size, set_rx_size, sizes_by, message_sizes, large_size, aligned_size,
  tx_start, place_buffers,
}
use efa_libfabric_bench.Access.{registers}
use efa_libfabric_bench.Context.Options.{has, set_flags}
use efa_libfabric_bench.Buffer.{ft_init_cq_data}
use efa_libfabric_bench.Context.{ft_tx_prefix_size, ft_rx_prefix_size}
use efa_libfabric_bench.Prelude.Bits.{bit}
use efa_libfabric_bench.Opening.Owned.{FabricKeeps, CallsKeep, NetKeeps, AddressesKeep, SocketsKeep}
use efa_libfabric_bench.Opening.Owned.Closed.{left_open, connect_closes, init_closes}
use efa_libfabric_bench.Tests.{a_context, an_info, no_caps}
use efa_libfabric_bench.Tests.Closing.{close, close-Lifetimes}

abbrev World : Type 0
World = Fid → Bool

abbrev live : Fid → World → Bool
live y w = w y

-- Every post is accepted, and every read gives a completion.
abbrev a_fabric : Fabric World
a_fabric = record {
  post = λ req w. record { ret = val 0; next = w };
  cq_read = λ q n w. record { ret = val 1; comp = a_completion; next = w };
  cq_sread = λ q n o w. record { ret = val 1; comp = a_completion; next = w };
  cq_readerr = λ q w. record { ret = fail eother; err = val 0; next = w };
  cntr_read = λ q w. record { value = 0; next = w };
  cntr_wait = λ q n o w. record { ret = val 0; next = w };
  trywait = λ q w. record { ret = val 0; next = w };
  malloc = λ n w. record { ptr = 8; next = w };
  load = λ a w. 0;
  store = λ a v w. w;
  poll = λ fd o w. record { ret = val 1; next = w };
  clock = λ w. record { seconds = 0; next = w };
}
  where
    a_completion : Completion
    a_completion = record {
      op_context = tx_ctx;
      tag = 0;
      is_recv = false;
      is_multi_recv = false;
      len = 0;
      buf = 0;
    }

a_fabric-Keeps : FabricKeeps a_fabric live
a_fabric-Keeps = record {
  post = λ req w y. refl;
  cq_read = λ q n w y. refl;
  cq_sread = λ q n o w y. refl;
  cq_readerr = λ q w y. refl;
  cntr_read = λ q w y. refl;
  cntr_wait = λ q n o w y. refl;
  trywait = λ q w y. refl;
  poll = λ fd o w y. refl;
  clock = λ w y. refl;
  malloc = λ n w y. refl;
  store = λ a v w y. refl;
}

-- A provider of messages, whose registration is needed.
abbrev messages : Info
messages = record an_info { caps = record no_caps { msg = true; rma = true } }

abbrev calls : (Fid → Bool) → Calls World
calls refuses = record {
  create = λ o w.
      if refuses (opens o)
      then record { ret = fail enomem; fid = 0; next = w }
      else record { ret = val 0; fid = 1; next = λ y. same y (opens o) || w y };
  control = λ o w. record { ret = val 0; next = w };
  get_wait = λ x w. record { ret = val 0; fd = 3; next = w };
  getinfo = λ n v b i w. record { ret = val 0; info = messages; next = w };
  eq_sread = λ w. record { event = entry connreq true (some messages); next = w };
  eq_readerr = λ w. w;
  getname = λ a w. record { ret = val 0; len = 16; next = w };
  av_insert = λ a w. record { ret = val 1; fi_addr = 0; next = w };
  reg_slot = λ p n a k w. record { ret = val 0; next = λ y. same y Fid.slot_mr || w y };
  page_size = λ w. record { ret = val 0; size = 4096; next = w };
  memalign = λ a n w. record { ret = val 0; ptr = 4096; next = w };
  fork = λ w. record { ret = val 1; next = w };
}

calls-Keep : (refuses : Fid → Bool) → CallsKeep (calls refuses) live
calls-Keep refuses = record {
  creates = λ o w f e y. ground arith;
  refused = λ o w e y. ground arith;
  control = λ o w y. refl;
  get_wait = λ x w y. refl;
  getinfo = λ n v b i w y. refl;
  eq_sread = λ w y. refl;
  eq_readerr = λ w y. refl;
  page_size = λ w y. refl;
  memalign = λ a n w y. refl;
  fork = λ w y. refl;
}

calls-Names : (refuses : Fid → Bool) → AddressesKeep (calls refuses) live
calls-Names refuses = record { getname = λ a w y. refl; av_insert = λ a w y. refl }

abbrev a_net : Net World
a_net = record {
  getaddrinfo = λ n v p w. record { ret = val 0; next = w };
  socket = λ w. record { fd = some 5; next = w };
  accept = λ l w. record { fd = some 6; next = w };
  call = λ x fd w. record { ret = val 0; next = w };
  close = λ fd w. w;
  shutdown = λ fd w. w;
}

a_net-Keeps : NetKeeps a_net live
a_net-Keeps = record {
  getaddrinfo = λ n v p w y. refl;
  socket = λ w y. refl;
  accept = λ l w y. refl;
  call = λ x fd w y. refl;
  close = λ fd w y. refl;
}

abbrev some_sockets : Sockets World
some_sockets = record {
  send = λ fd xs w. record { result = accepted 255; next = w };
  recv = λ fd n w. record { result = closed; next = w };
}

some_sockets-Keep : SocketsKeep some_sockets live
some_sockets-Keep = record { send = λ fd xs w y. refl; recv = λ fd n w y. refl }

-- Both queues in one, and counters for nothing.
abbrev options : Opts → Opts
options o = record o {
  options = mask Options.rx_cq + mask Options.tx_cq + mask Options.cq_shared;
  window_size = 1;
}

abbrev fresh : Context
fresh = record a_context {
  opts = options a_context.opts;
  tx_seq = 0;
  rx_seq = 0;
  tx_cq_cntr = 0;
  rx_cq_cntr = 0;
}

abbrev at_client : State World
at_client = record {
  ctx = record fresh { opts = record (fresh.opts) { dst_addr = some (104 ∷ []) } };
  world = λ y. false;
}

abbrev at_server : State World
at_server = record { ctx = fresh; world = λ y. false }

abbrev outcome : Outcome World → record { ret : Ret; left : State World }
outcome (returns r t) = record { ret = r; left = t }
outcome out_of_rounds = record { ret = fail eother; left = at_client }
outcome fault = record { ret = fail eother; left = at_client }

abbrev no_one : Fid → Bool
no_one y = false

abbrev no_endpoint : Fid → Bool
no_endpoint y = same y Fid.ep

abbrev end_of_init : record { ret : Ret; left : State World }
end_of_init = outcome (ft_init_fabric a_fabric 9 (calls no_one) a_net some_sockets 64 at_client)

abbrev end_of_connect : record { ret : Ret; left : State World }
end_of_connect = outcome (ft_init_fabric_cm a_fabric 9 (calls no_endpoint) a_net at_server)

-- The client is connected, with all that it opens.
init_succeeds :
    ft_init_fabric a_fabric 9 (calls no_one) a_net some_sockets 64 at_client
    ≡ returns (val 0) end_of_init.left
unfolding open_object change cq_wait_by ft_cq_set_wait_attr cntr_set_by ft_cntr_set_wait_attr
    ft_cntr_open ft_open_fabric_res open_queue choose_format set_av_attr shared_queue tx_queue
    tx_counter rx_queue rx_counter address_vector set_format alloc_queues hmem_init hmem_alloc
    set_bytes hmem_memset ft_init alloc_buffer ft_reg_mr reg_whole ctx_array_loop ft_alloc_ctx_array
    set_sizes clear_buffer place_messages reg_buffer reg_messages alloc_tx_array alloc_rx_array
    ft_alloc_msgs ft_alloc_ep_res ft_alloc_active_res bind_if ft_get_cq_fd ft_enable_ep
    process_eq_err await_event post_first_rx ft_enable_ep_recv socket_call ft_fd_nonblock
    ft_sock_setup or_close with_socket new_socket new_client resolve ft_sock_listen connect_socket
    oob_by ft_init_oob names_peer complete_hints ft_check_prefix_forced copy_bytes dupaddr getaddr
    ft_getsrcaddr ft_read_addr_opts ask_info ft_getinfo ft_complete_connect take_request
    ft_retrieve_conn_req ft_accept_connection ft_connect_ep fork_if_asked ft_start_server or_reject
    ft_server_connect ft_client_connect ft_init_fabric_cm set_rx_seq_close load_bytes store_bytes
    ft_av_insert name_in_tx take_address after_send ft_exchange_addresses_oob dst_addr_client
    forget_remote dst_addr_server learn_address close_rx_seq ft_init_av_dst_addr ft_init_av
    ft_init_fabric ft_cq_readerr ft_progress retry restored post_round ft_post ft_post_tx_buf
    ft_post_tx fill_if_active ft_tx ft_post_rx_buf ft_post_rx check_if_active ft_rx ft_tag_is_valid
    expected_tag pending expired take_completion read_clock spin_round spin_loop ft_spin_for_comp
    wait_by after_wait ft_get_cq_comp ft_get_rx_comp ft_get_tx_comp payload_size set_tx_size
    set_rx_size sizes_by message_sizes large_size aligned_size tx_start place_buffers registers mask
    has set_flags ft_init_cq_data ft_tx_prefix_size ft_rx_prefix_size bit
init_succeeds = refl

-- The server fails, since its endpoint is refused, and rejects the request.
connect_fails :
    ft_init_fabric_cm a_fabric 9 (calls no_endpoint) a_net at_server
    ≡ returns (fail enomem) end_of_connect.left
unfolding open_object change cq_wait_by ft_cq_set_wait_attr cntr_set_by ft_cntr_set_wait_attr
    ft_cntr_open ft_open_fabric_res open_queue choose_format set_av_attr shared_queue tx_queue
    tx_counter rx_queue rx_counter address_vector set_format alloc_queues hmem_init hmem_alloc
    set_bytes hmem_memset ft_init alloc_buffer ft_reg_mr reg_whole ctx_array_loop ft_alloc_ctx_array
    set_sizes clear_buffer place_messages reg_buffer reg_messages alloc_tx_array alloc_rx_array
    ft_alloc_msgs ft_alloc_ep_res ft_alloc_active_res bind_if ft_get_cq_fd ft_enable_ep
    process_eq_err await_event post_first_rx ft_enable_ep_recv socket_call ft_fd_nonblock
    ft_sock_setup or_close with_socket new_socket new_client resolve ft_sock_listen connect_socket
    oob_by ft_init_oob names_peer complete_hints ft_check_prefix_forced copy_bytes dupaddr getaddr
    ft_getsrcaddr ft_read_addr_opts ask_info ft_getinfo ft_complete_connect take_request
    ft_retrieve_conn_req ft_accept_connection ft_connect_ep fork_if_asked ft_start_server or_reject
    ft_server_connect ft_client_connect ft_init_fabric_cm set_rx_seq_close load_bytes store_bytes
    ft_av_insert name_in_tx take_address after_send ft_exchange_addresses_oob dst_addr_client
    forget_remote dst_addr_server learn_address close_rx_seq ft_init_av_dst_addr ft_init_av
    ft_init_fabric ft_cq_readerr ft_progress retry restored post_round ft_post ft_post_tx_buf
    ft_post_tx fill_if_active ft_tx ft_post_rx_buf ft_post_rx check_if_active ft_rx ft_tag_is_valid
    expected_tag pending expired take_completion read_clock spin_round spin_loop ft_spin_for_comp
    wait_by after_wait ft_get_cq_comp ft_get_rx_comp ft_get_tx_comp payload_size set_tx_size
    set_rx_size sizes_by message_sizes large_size aligned_size tx_start place_buffers registers mask
    has set_flags ft_init_cq_data ft_tx_prefix_size ft_rx_prefix_size bit
connect_fails = refl

one_region : opt fresh Options.alloc_mult_mr ≡ false
unfolding has mask bit
one_region = refl

init_closes_example :
    let t = end_of_init.left in
    let c =
      ft_close_fids close (opt t.ctx Options.cq_shared) t.ctx.objects.is_no_mr (left_open t) in
    (c.errors ≡ 0) × ((y : Fid) → live y c.world ≡ false)
init_closes_example =
    init_closes a_fabric-Keeps (calls-Keep no_one) a_net-Keeps close-Lifetimes (calls-Names no_one)
      some_sockets-Keep 9 64 at_client end_of_init.left (val 0)
      (record { nothing = λ y. refl; null = λ y. refl }) one_region init_succeeds

connect_closes_example :
    let t = end_of_connect.left in
    let c =
      ft_close_fids close (opt t.ctx Options.cq_shared) t.ctx.objects.is_no_mr (left_open t) in
    (c.errors ≡ 0) × ((y : Fid) → live y c.world ≡ false)
connect_closes_example =
    connect_closes a_fabric-Keeps (calls-Keep no_endpoint) a_net-Keeps close-Lifetimes 9 at_server
      end_of_connect.left (fail enomem) (record { nothing = λ y. refl; null = λ y. refl })
      one_region connect_fails

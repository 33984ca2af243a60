-- ===== src/Lib.antt =====
-- efa-libfabric-bench: the C code of libefa/src/libefa/ftlib, which opens a connection of the EFA
-- provider of libfabric, posts sends, receives, remote writes and reads, and counts their
-- completions; the classes around it, Node, Client and Server in libefa/src/libefa; and the
-- benchmark workers in efa-bench/src, which run transfers through these classes for a time and tell
-- a logger thread how many they have made.
--
-- The parts and their files. The first ones are about shared.c, shared.h and hmem.c in
-- libefa/src/libefa/ftlib.
--   Fabric          the calls of libfabric and of the host that the library makes, as a record of
--                   functions on a state `W`; nothing is defined for them
--   Fabric/Contract what is relied on in a provider (fi_cq(3), fi_domain(3)), as records of laws
--   Context         struct ConnectionContext, struct ft_opts, init_opts, ft_tx_prefix_size and
--                   ft_rx_prefix_size; Context/Options: the bits FT_OPT_..., ft_check_opts;
--                   Context/Fids: the objects that a connection holds, and their attributes
--   Machine         how steps on the connection and the outside are put together
--   Post            FT_POST, ft_progress, ft_cq_readerr
--   Completion      ft_tag_is_valid, ft_spin_for_comp, ft_wait_for_comp, ft_fdwait_for_comp,
--                   ft_get_cq_comp; Completion/Get: the loops over counters, ft_get_rx_comp,
--                   ft_get_tx_comp, ft_cq_read_verify
--   Transfer        ft_post_tx, ft_tx, ft_inject, ft_post_rx, ft_rx, ft_sendmsg, ft_recvmsg and what
--                   they call; Transfer/Remote: ft_post_rma, ft_rma, ft_post_rma_inject,
--                   ft_post_rma_selective_comp, ft_post_atomic
--   Buffer          ft_fill_buf, ft_check_buf, ft_init_cq_data; Buffer/Layout: ft_set_tx_rx_sizes and
--                   the layout of ft_alloc_msgs
--   Access          ft_info_to_mr_access and the test of ft_reg_mr
--   Parse           ft_parseinfo, ft_parse_addr_opts, ft_parsecsopts, ft_parse_rma_opts
--   Socket, Sync    ft_force_progress, ft_sock_send, ft_sock_recv; ft_sync
--   MultiRecv       alloc_ep_res_multi_recv, repost_multi_recv, wait_for_multi_recv_completion
--   Format          size_str, cnt_str, size_to_count
--   Opening         ft_open_fabric_res, the queues and counters of ft_alloc_ep_res, and the calls of
--                   libfabric that open and bind objects, as a record of functions;
--                   Opening/Memory: ft_alloc_msgs, ft_reg_mr, ft_alloc_ctx_array, the memory functions
--                   of hmem.h; Opening/Endpoint: ft_enable_ep, ft_enable_ep_recv, ft_join_mc;
--                   Opening/Oob: ft_init_oob, ft_sock_listen, ft_sock_connect, ft_sock_accept;
--                   Opening/Connect: ft_getinfo, ft_start_server, ft_server_connect,
--                   ft_client_connect, ft_init_fabric_cm; Opening/Address: ft_init_av,
--                   ft_init_av_addr, ft_exchange_addresses_oob, ft_init_fabric; Opening/Owned: which
--                   objects exist at each point of the set-up
--   Names           ft_split_and_alloc; Names/Parts: ft_util_name, ft_core_name
--   Release         FT_CLOSE_FID, ft_close_fids
-- libefa/src/libefa and efa-bench/src:
--   Node            the methods of Node.cpp; Node/Setup: the constructors of Node.cpp, Client.cpp and
--                   Server.cpp, and the methods that set options
--   Bench           GFlagsConfig.cpp, the state of a worker, and how a worker ends
--   Bench/Common    Common.cpp and the set-up of a node; Bench/Loops: the loops of the workers
--   Bench/Server, Bench/Client, Bench/Rma
--                   the workers of SendRecvServer.cpp, SendRecvClient.cpp, and of RmaServer.cpp with
--                   RmaClient.cpp
--   Bench/Dispatch  BenchmarkNode.cpp
--   Logger          loggerTask of CsvLogger.cpp as a thread beside the workers, a step relation on
--                   what they share; Logger/Csv: the lines that CsvLogger.cpp writes
-- The other files below these hold the proofs; Prelude has what all of them share, and Tests runs
-- the model on a small provider.
--
-- A function of the library is a step: from the connection and the state of the outside to the
-- `int` that it returns and both states after it. The pointers `cur` and `&seq` that it is given
-- become the side, transmit or receive, that they belong to. A `uint64_t` counter wraps at 2 ^ 64.
-- A negative timeout is `none`. The flags of `caps` and `mode` are one truth value each.
--
-- Loops are given a number of rounds, and a loop that uses them up is `out_of_rounds`. For FT_POST
-- one round more than the provider needs reads is enough, in the same way for the spin of
-- ft_get_tx_comp, and for ft_sock_send one for each byte and each refusal of the socket, if those
-- are bounded; the theorems say so. The batch worker needs more rounds than the clock readings
-- until the end of its run, and for each wait more than the reads until the provider has
-- delivered. The other loops wait for events outside; what is shown of them is what their success
-- means.
--
-- A worker is a function from its connection, its entry of workerOperationCounter and its entry of
-- workerConnectionStatus to the way it ends. Its loops take what follows them as a function, so that
-- an early `return` and `exit` leave the rest out. `std::rand`, `std::to_string` and the clock are
-- parameters.
--
-- Completions are counted in the way of fi_cq(3): an accepted request leads to one completion on
-- its queue unless its data is injected or the queue is bound with FI_SELECTIVE_COMPLETION and
-- the request has no completion flag.
--
-- An object of libfabric is the field that holds it. What exists is known to the outside. The
-- regions that the slots of the window have with FT_OPT_ALLOC_MULT_MR are one more object, in no
-- field. A call that opens an object is given the arguments that the library computes, and its
-- answer is the outside's.
--
-- Not modelled: what is freed besides the objects of libfabric and the regions of the slots, which
-- ft_cleanup_mr_array closes, the exchange of keys, the processes of ft_fork_and_pair, the
-- combinations of ft_alloc_bit_combo, usage texts and measurements, which are sequences of calls
-- of libfabric and of the host. The workers take ft_init_fabric, ft_exchange_keys and ft_sync as
-- parameters. Of the set-up the device attributes of a region, the descriptors of regions and
-- `addr_format`, which only libfabric reads, are left out. The functions of efa-bench that only
-- start threads and join them, the parsing of flags by gflags, the rates that the logger computes
-- in `double`, and the counter files that it reads are left out too. In the parsers the failure of
-- an allocation, which ends the process, is left out.
pub mod Prelude
pub mod Fabric
pub mod Context
pub mod Machine
pub mod Post
pub mod Buffer
pub mod Completion
pub mod Transfer
pub mod Access
pub mod Parse
pub mod Socket
pub mod Node
pub mod Names
pub mod Opening
pub mod Bench
pub mod Logger
pub mod Release
pub mod Format
pub mod Sync
pub mod MultiRecv
pub mod Tests

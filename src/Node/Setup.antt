-- ===== src/Node/Setup.antt =====
-- The constructors of `libefa::Node`, `libefa::Client` and `libefa::Server`, and the methods that
-- set options (libefa/src/libefa/Node.cpp, Client.cpp, Server.cpp).
use efa_libfabric_bench.Prelude.{ℕ, false, some, if◌then◌else◌}
use efa_libfabric_bench.Fabric.{Ret}
use efa_libfabric_bench.Context.{Text, Opts, init_opts}
use efa_libfabric_bench.Context.Options
use efa_libfabric_bench.Context.Options.{mask, set_flags}
use efa_libfabric_bench.Parse.{Hints, chars, same_text, ft_parseinfo, ft_parse_rma_opts}

-- The hints and the options of a new connection.
pub record Settings : Type 0 where
  pub hints : Hints
  pub opts : Opts

abbrev add : ℕ → Opts → Opts
add flag o = record o { options = set_flags o.options (mask flag) }

abbrev out_of_band : Text → Opts → Opts
out_of_band port o = record (add Options.oob_addr_exch (add Options.oob_sync o)) {
  oob_port = some port;
}

-- `Node(provider, endpoint, oobPort, userHints)`; OFI_MR_BASIC_MAP has no FI_MR_HMEM.
unfoldable pub new_node :
    (atoi : Text → ℕ) → (provider endpoint oob_port : Text) → Hints → Opts → Settings
new_node atoi provider endpoint oob_port h o =
    let opts = add Options.bw (init_opts o) in
    let hints : Hints = record h {
      info = record (h.info) { mr_local = opts.mr_local; mr_hmem = false };
    } in
    let p = ft_parseinfo atoi b'p' provider hints opts in
    let e = ft_parseinfo atoi b'e' endpoint p.hints p.opts in
    record {
      hints = e.hints;
      opts = if same_text provider (chars "efa") then out_of_band oob_port e.opts else e.opts;
    }

unfoldable pub new_client :
    (atoi : Text → ℕ)
    → (provider endpoint port oob_port : Text) → Hints
    → (destination : Text) → Opts
    → Settings
new_client atoi provider endpoint port oob_port h destination o =
    let n = new_node atoi provider endpoint oob_port h o in
    record n { opts = record (n.opts) { dst_addr = some destination; dst_port = some port } }

unfoldable pub new_server :
    (atoi : Text → ℕ) → (provider endpoint port oob_port : Text) → Hints → Opts → Settings
new_server atoi provider endpoint port oob_port h o =
    let n = new_node atoi provider endpoint oob_port h o in
    record n { opts = record (n.opts) { src_port = some port } }

unfoldable pub enable_selective_completion : Opts → Opts
enable_selective_completion = add Options.selective_comp

unfoldable pub enable_fi_more : Opts → Opts
enable_fi_more = add Options.fi_more

unfoldable pub enable_large_buffer_init : ℕ → Opts → Opts
enable_large_buffer_init gbs o = record (add Options.init_large_buffer o) {
  large_buffer_size_gbs = gbs;
}

unfoldable pub init_rma_op : Text → Settings → record { ret : Ret; settings : Settings }
init_rma_op operation n =
    let r = ft_parse_rma_opts b'o' operation n.hints n.opts in
    record { ret = r.ret; settings = record { hints = r.hints; opts = r.opts } }

-- ===== src/Parse.antt =====
-- Command-line options: `ft_parseinfo`, `ft_parse_addr_opts`, `ft_parsecsopts` and
-- `ft_parse_rma_opts` of libefa/src/libefa/ftlib/shared.c. An option is its letter; a missing
-- argument is `none`. `atoi` and `atol` of the C library are a parameter.
pub mod Counted
use efa_libfabric_bench.Prelude.{
  ℕ, zero, suc, ◌+◌, ◌-◌, Bool, true, false, Option, none, some, List, [], ◌∷◌, leb, ◌==◌, ◌&&◌,
  ◌||◌, if◌then◌else◌,
}
use Prim.Native.Char.{code}
use Prim.Native.String.{String}
use efa_libfabric_bench.Fabric.{Ret, val, exit_failure}
use efa_libfabric_bench.Context.{
  Text, Opts, Info, Caps, EpType, msg, rdm, dgram, HmemIface, cuda, ze, AddressFormat, sockaddr,
  sockaddr_in, sockaddr_in6, sockaddr_ib, CompMethod, sread, wait_fd, yield, rma_read, rma_write,
  rma_writedata,
}
use efa_libfabric_bench.Context.Options
use efa_libfabric_bench.Context.Options.{mask, set_flags, clear_flags}

abbrev pub chars : String → Text
chars String.[] = []
chars (String.◌∷◌ c s) = code c ∷ chars s

unfoldable pub lower : ℕ → ℕ
lower c = if leb b'A' c && leb c b'Z' then c + 32 else c

-- `!strncasecmp(word, text, strlen(word))`
unfoldable pub starts_as : Text → Text → Bool
unfolding lower
starts_as [] text = true
starts_as (w ∷ ws) [] = false
starts_as (w ∷ ws) (c ∷ cs) = lower w == lower c && starts_as ws cs

-- `!strcmp(word, text)`
unfoldable pub same_text : Text → Text → Bool
same_text [] [] = true
same_text [] (c ∷ cs) = false
same_text (w ∷ ws) [] = false
same_text (w ∷ ws) (c ∷ cs) = w == c && same_text ws cs

abbrev pub text_or_empty : Option Text → Text
text_or_empty none = []
text_or_empty (some t) = t

-- The hints that options change: the names besides the other parts of `struct fi_info`.
pub record Hints : Type 0 where
  pub info : Info
  pub fabric_name : Option Text
  pub domain_name : Option Text
  pub prov_name : Option Text
  pub want_rx_cq_data : Bool  -- mode & FI_RX_CQ_DATA
  pub want_cq_data_size : ℕ
  pub cq_format_data : Bool  -- of the connection: cq_attr.format is FI_CQ_FORMAT_DATA

abbrev add_flags : Opts → ℕ → Opts
add_flags o flags = record o { options = set_flags o.options flags }

-- Each test that matches overrides those before it.
unfoldable pub parse_ep_type : Text → EpType → EpType
parse_ep_type arg before =
    let a = if starts_as (chars "msg") arg then msg else before in
    let b = if starts_as (chars "rdm") arg then rdm else a in
    if starts_as (chars "dgram") arg then dgram else b

-- The part of case 'E' into which case 'b' falls: `optarg + 1`, past an "=".
unfoldable pub enable_addr_exch : Option Text → Opts → Opts
enable_addr_exch arg o =
    let port : Text = elim (text_or_empty arg) [ c ∷ (d ∷ rest) ↦ d ∷ rest | _ ↦ chars "3000" ] in
    record o { options = set_flags o.options (mask Options.oob_addr_exch); oob_port = some port }

unfoldable pub parse_format : Text → AddressFormat → AddressFormat
parse_format arg before =
    if starts_as (chars "fi_sockaddr_in6") arg
    then sockaddr_in6
    else if starts_as (chars "fi_sockaddr_in") arg
    then sockaddr_in
    else if starts_as (chars "fi_sockaddr_ib") arg
    then sockaddr_ib
    else if starts_as (chars "fi_sockaddr") arg
    then sockaddr
    else before

unfoldable pub parse_comp_method : Text → CompMethod → CompMethod
parse_comp_method arg before =
    if starts_as (chars "sread") arg
    then sread
    else if starts_as (chars "fd") arg
    then wait_fd
    else if starts_as (chars "yield") arg
    then yield
    else before

-- `options |= RX_CNTR | TX_CNTR; options &= ~(RX_CQ | TX_CQ)`
unfoldable pub use_counters : ℕ → ℕ
use_counters o =
    clear_flags (set_flags (set_flags o (mask Options.rx_cntr)) (mask Options.tx_cntr))
      (mask Options.rx_cq + mask Options.tx_cq)

module _ (atoi : Text → ℕ) where
  unfoldable pub ft_parseinfo :
      (op : ℕ) → (arg : Text) → Hints → Opts → record { hints : Hints; opts : Opts }
  ft_parseinfo op arg h o =
      if op == b'f'
      then record { hints = record h { fabric_name = some arg }; opts = o }
      else if op == b'd'
      then record { hints = record h { domain_name = some arg }; opts = o }
      else if op == b'p'
      then record { hints = record h { prov_name = some arg }; opts = o }
      else if op == b'e'
      then record {
        hints = record h { info = record (h.info) { ep_type = parse_ep_type arg h.info.ep_type } };
        opts = o;
      }
      else if op == b'M'
      then record {
        hints = h;
        opts = if starts_as (chars "mr_local") arg then record o { mr_local = false } else o;
      }
      else if op == b'D'
      then (let iface =
            if starts_as (chars "ze") arg
            then ze
            else if starts_as (chars "cuda") arg
            then cuda
            else o.iface in
          record {
            hints = h;
            opts =
                add_flags (add_flags (record o { iface = iface }) (mask Options.enable_hmem))
                  (mask Options.use_device);
          })
      else if op == b'i'
      then record { hints = h; opts = record o { device = atoi arg } }
      else if op == b'H'
      then record { hints = h; opts = add_flags o (mask Options.enable_hmem) }
      else if op == b'K'
      then record { hints = h; opts = add_flags o (mask Options.fork_child) }
      else record { hints = h; opts = o }

  unfoldable pub ft_parse_addr_opts : (op : ℕ) → Option Text → Opts → Opts
  unfolding enable_addr_exch
  ft_parse_addr_opts op arg o =
      if op == b's'
      then record o { src_addr = arg }
      else if op == b'B'
      then record o { src_port = arg }
      else if op == b'P'
      then record o { dst_port = arg }
      else if op == b'b'
      then enable_addr_exch arg (add_flags o (mask Options.oob_sync))
      else if op == b'E'
      then enable_addr_exch arg o
      else if op == b'F'
      then record o { address_format = parse_format (text_or_empty arg) o.address_format }
      else if op == b'C'
      then record o {
        options = set_flags o.options (mask Options.server_persist);
        num_connections = atoi (text_or_empty arg);
      }
      else o

  -- The switch of `ft_parsecsopts` itself.
  unfoldable pub parse_cs : (op : ℕ) → Text → Opts → Opts
  unfolding use_counters
  parse_cs op arg o =
      if op == b'I'
      then record o { options = set_flags o.options (mask Options.iter); iterations = atoi arg }
      else if op == b'Q'
      then add_flags o (mask Options.domain_eq)
      else if op == b'S'
      then (if starts_as (chars "all") arg then record o { sizes_all = true } else record o {
        options = set_flags o.options (mask Options.size);
        transfer_size = atoi arg;
      })
      else if op == b'm'
      then record o { machr = true }
      else if op == b'c'
      then record o { comp_method = parse_comp_method arg o.comp_method }
      else if op == b't'
      then (if starts_as (chars "counter") arg
          then record o { options = use_counters o.options }
          else o)
      else if op == b'a'
      then record o { av_name = some arg }
      else if op == b'w'
      then record o { warmup_iterations = atoi arg }
      else if op == b'l'
      then add_flags o (mask Options.align)
      else o

  unfoldable pub ft_parsecsopts : (op : ℕ) → Option Text → Opts → Opts
  unfolding parse_cs ft_parse_addr_opts
  ft_parsecsopts op arg o = parse_cs op (text_or_empty arg) (ft_parse_addr_opts op arg o)

-- The remote operation to test; an unknown one is refused and changes nothing.
unfoldable pub ft_parse_rma_opts :
    (op : ℕ) → Text → Hints → Opts → record { ret : Ret; hints : Hints; opts : Opts }
ft_parse_rma_opts op arg h o =
    let c = h.info.caps in
    let with_caps = λ (d : Caps). record h { info = record (h.info) { caps = d } } in
    if op == b'o'
    then (if same_text arg (chars "read")
        then record {
          ret = val 0;
          hints = with_caps (record c { read = true; remote_read = true });
          opts = record o { rma_op = rma_read };
        }
        else if same_text arg (chars "writedata")
        then record {
          ret = val 0;
          hints = record (with_caps (record c { write = true; remote_write = true })) {
            want_rx_cq_data = true;
            want_cq_data_size = 4;
            cq_format_data = true;
          };
          opts = record o { rma_op = rma_writedata };
        }
        else if same_text arg (chars "write")
        then record {
          ret = val 0;
          hints = with_caps (record c { write = true; remote_write = true });
          opts = record o { rma_op = rma_write };
        }
        else record { ret = exit_failure; hints = h; opts = o })
    else record { ret = val 0; hints = h; opts = o }

-- ===== src/Buffer.antt =====
-- The contents of the transfer buffers: `ft_fill_buf`, `ft_check_buf` and `ft_init_cq_data` of
-- libefa/src/libefa/ftlib/shared.c, and the memory operations of libefa/src/libefa/ftlib/hmem.c
-- that they call.
pub mod Pattern
pub mod Layout
use Prim.Native.Char.{code}
use Prim.Native.String.{String}
use efa_libfabric_bench.Prelude.{
  ℕ, zero, suc, ◌+◌, ◌-◌, ◌*◌, ◌%◌, ◌^◌, Bool, true, false, List, [], ◌∷◌, leb, ◌==◌, if◌then◌else◌,
  get_or, length, bit_and,
}
use efa_libfabric_bench.Fabric.{Ret, val, fail, enomem, eio, Fabric}
use efa_libfabric_bench.Context.{Context, Info, HmemIface, system, cuda, ze}
use efa_libfabric_bench.Machine.{State, Outcome, returns, fault, Step, ◌>>◌}

abbrev codes : String → List ℕ
codes String.[] = []
codes (String.◌∷◌ c s) = code c ∷ codes s

-- `integ_alphabet`, without its final NUL
unfoldable pub integ_alphabet : List ℕ
integ_alphabet = codes "0123456789abcdefghijklmnopqrstuvwxyzABCDEFGHIJKLMNOPQRSTUVWXYZ"

abbrev pub integ_alphabet_length : ℕ
integ_alphabet_length = 62

unfoldable pub letter : ℕ → ℕ
unfolding integ_alphabet
letter i = get_or integ_alphabet i 0

-- `if (++msg_index >= integ_alphabet_length) msg_index = 0;`
unfoldable pub next_index : ℕ → ℕ
next_index i = if leb integ_alphabet_length (i + 1) then 0 else i + 1

module _ {W : Type 0} (fab : Fabric W) where
  -- The loop of `ft_fill_buf` over the bytes left.
  unfoldable pub fill_bytes : ℕ → ℕ → ℕ → W → W
  fill_bytes zero addr i w = w
  fill_bytes (suc n) addr i w = fill_bytes n (addr + 1) (next_index i) (fab.store addr (letter i) w)

  -- The loop of `ft_check_buf`: whether it reaches the end.
  unfoldable pub check_bytes : ℕ → ℕ → ℕ → W → Bool
  check_bytes zero addr i w = true
  check_bytes (suc n) addr i w =
      let rest = check_bytes n (addr + 1) (next_index i) w in
      if letter i == fab.load addr w then rest else false

  -- A buffer of a device goes through a temporary, and through an entry of `hmem_ops` that is past
  -- its end.
  unfoldable pub ft_hmem_copy : HmemIface → (W → W) → Step W
  ft_hmem_copy system move s = returns (val 0) (record s { world = move s.world })
  ft_hmem_copy cuda move s = fault
  ft_hmem_copy ze move s = fault

  abbrev pub is_system : HmemIface → Bool
  is_system system = true
  is_system cuda = false
  is_system ze = false

  unfoldable pub ft_fill_buf : ℕ → ℕ → Step W
  ft_fill_buf buf size s =
      if is_system s.ctx.opts.iface
      then returns (val 0) (record s { world = fill_bytes size buf 0 s.world })
      else (let m = fab.malloc size s.world in
          if m.ptr == 0
          then returns (fail enomem) (record s { world = m.next })
          else ft_hmem_copy s.ctx.opts.iface (λ w. w)
              (record s { world = fill_bytes size m.ptr 0 m.next }))

  unfoldable pub ft_check_buf : ℕ → ℕ → Step W
  ft_check_buf buf size s =
      if is_system s.ctx.opts.iface
      then (if check_bytes size buf 0 s.world then returns (val 0) s else returns (fail eio) s)
      else (let m = fab.malloc size s.world in
          if m.ptr == 0
          then returns (fail enomem) (record s { world = m.next })
          else ft_hmem_copy s.ctx.opts.iface (λ w. w) (record s { world = m.next }))

-- The data that a writedata request carries: as many low bytes as the provider transfers.
unfoldable pub ft_init_cq_data : Info → ℕ
ft_init_cq_data info =
    if leb 8 info.cq_data_size
    then 0x0123456789abcdef
    else bit_and 0x0123456789abcdef (2 ^ (info.cq_data_size * 8) - 1)

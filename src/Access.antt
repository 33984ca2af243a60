-- ===== src/Access.antt =====
-- Memory registration: the access rights that `ft_info_to_mr_access` asks for, and the test of
-- `ft_reg_mr` (libefa/src/libefa/ftlib/shared.c).
use efa_libfabric_bench.Prelude.{
  ◌≡◌, Bool, true, false, not, ◌&&◌, ◌||◌, if◌then◌else◌, arith, ◌⊎◌, ◌↔◌,
}
use efa_libfabric_bench.Context.{Caps, Info, Context, opt}
use efa_libfabric_bench.Context.Options

-- A set of access flags: FI_SEND, FI_RECV, FI_READ, FI_WRITE, FI_REMOTE_READ, FI_REMOTE_WRITE.
pub record Access : Type 0 where
  pub send : Bool
  pub recv : Bool
  pub read : Bool
  pub write : Bool
  pub remote_read : Bool
  pub remote_write : Bool

abbrev pub rma_or_atomic : Caps → Bool
rma_or_atomic c = c.rma || c.atomic

unfoldable pub ft_rma_read_target_allowed : Caps → Bool
ft_rma_read_target_allowed c =
    if rma_or_atomic c
    then (if c.remote_read then true else not (c.read || (c.write || c.remote_write)))
    else false

unfoldable pub ft_rma_write_target_allowed : Caps → Bool
ft_rma_write_target_allowed c =
    if rma_or_atomic c
    then (if c.remote_write then true else not (c.read || (c.write || c.remote_write)))
    else false

unfoldable pub ft_check_mr_local_flag : Info → Bool
ft_check_mr_local_flag info = info.local_mr_mode || info.mr_local

-- FT_MSG_MR_ACCESS: those of the capabilities, or all of them if there is none.
abbrev msg_default : Caps → Bool
msg_default c = not (c.send || c.recv)

-- FT_RMA_MR_ACCESS, in the same way.
abbrev rma_default : Caps → Bool
rma_default c = not (c.read || (c.write || (c.remote_read || c.remote_write)))

unfoldable pub ft_info_to_mr_access : Info → Access
unfolding ft_rma_read_target_allowed ft_rma_write_target_allowed ft_check_mr_local_flag
ft_info_to_mr_access info =
    let c = info.caps in
    let msg = c.msg || c.tagged in
    let rma = rma_or_atomic c in
    if ft_check_mr_local_flag info
    then record {
      send = msg && (c.send || msg_default c);
      recv = msg && (c.recv || msg_default c);
      read = rma && (c.read || rma_default c);
      write = rma && (c.write || rma_default c);
      remote_read = rma && (c.remote_read || rma_default c);
      remote_write = rma && (c.remote_write || rma_default c);
    }
    else record {
      send = false;
      recv = false;
      read = false;
      write = false;
      remote_read = rma && ft_rma_read_target_allowed c;
      remote_write = rma && ft_rma_write_target_allowed c;
    }

-- Whether `ft_reg_mr` registers a region at all; if not, it returns 0 at once.
unfoldable pub registers : Context → Bool
registers c =
    let device = opt c Options.use_device in
    not (
      ((not c.fi.mr_local && not device) || (not c.fi.mr_hmem && device))
      && not (rma_or_atomic c.fi.caps))

-- FI_REMOTE_READ is asked for exactly with FI_RMA or FI_ATOMIC where the capabilities name it, or
-- none of the four kinds of access to memory. FI_REMOTE_WRITE is asked for exactly with FI_RMA or
-- FI_ATOMIC where they name it, or none of the four kinds, or, without local registration, where of
-- the four they name FI_REMOTE_READ alone, which denies it. Local rights are asked for only
-- where the provider requires local registration.
pub ft_info_to_mr_access_sound :
    (info : Info)
    → let a = ft_info_to_mr_access info in
      let c = info.caps in
      (a.remote_read ≡ true
        ↔ (rma_or_atomic c ≡ true)
          × ((c.remote_read ≡ true) ⊎ ((c.read || (c.write || c.remote_write)) ≡ false)))
      × (a.remote_write ≡ true
          ↔ (rma_or_atomic c ≡ true)
            × ((c.remote_write ≡ true)
                ⊎ (((c.read || (c.write || c.remote_read)) ≡ false)
                    ⊎ (((c.read || c.write) ≡ false)
                        × (c.remote_read ≡ true)
                        × (ft_check_mr_local_flag info ≡ false)))))
      × ((a.send || (a.recv || (a.read || a.write))) ≡ true → ft_check_mr_local_flag info ≡ true)
unfolding ft_info_to_mr_access ft_rma_read_target_allowed ft_rma_write_target_allowed
    ft_check_mr_local_flag
ft_info_to_mr_access_sound info = (
  (λ h. ground arith, λ h. ground arith),
  (λ h. ground arith, λ h. ground arith),
  λ h. ground arith,
)

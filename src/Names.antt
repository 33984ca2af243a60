-- ===== src/Names.antt =====
-- Lists of names and provider names (libefa/src/libefa/ftlib/shared.c): `ft_split_and_alloc`,
-- `ft_has_util_prefix`, `ft_util_name` and `ft_core_name`. Texts end before their NUL.
pub mod Split
pub mod Parts
use efa_libfabric_bench.Prelude.{
  ℕ, zero, suc, ◌+◌, ◌≡◌, Bool, true, false, Option, none, some, List, [], ◌∷◌, not, ◌&&◌, ◌||◌,
  ◌==◌, if◌then◌else◌, leb, length,
}
use efa_libfabric_bench.Fabric.{Fabric}
use efa_libfabric_bench.Context.{Text}

-- Whether the character is one of the delimiters.
abbrev pub is_delim : Text → ℕ → Bool
is_delim [] c = false
is_delim (d ∷ ds) c = c == d || is_delim ds c

-- One more than the delimiters of `s`.
unfoldable pub array_size : Text → Text → ℕ
array_size delim [] = 1
array_size delim (c ∷ cs) = let n = array_size delim cs in if is_delim delim c then n + 1 else n

-- `strsep` of the host: the text before the first delimiter, and where the next begins.
unfoldable pub token : Text → Text → Text
token delim [] = []
token delim (c ∷ cs) = let more = token delim cs in if is_delim delim c then [] else c ∷ more

unfoldable pub rest : Text → Text → Option Text
rest delim [] = none
rest delim (c ∷ cs) = let more = rest delim cs in if is_delim delim c then some cs else more

-- The loop that fills the array; `none` is an entry behind its end.
unfoldable pub fill_array : ℕ → Text → Option Text → Option (List Text)
fill_array n delim none = some []
fill_array zero delim (some s) = none
fill_array (suc n) delim (some s) = elim (fill_array n delim (rest delim s)) [
  | none ↦ none
  | some xs ↦ some (token delim s ∷ xs)
]

-- What is returned: NULL, the array and its count, or a failed assertion or a write past the array.
pub data Entries : Type 0 where
  null : Entries
  array : List Text → ℕ → Entries
  aborted : Entries

unfoldable pub checked : ℕ → Option (List Text) → Entries
checked n none = aborted
checked n (some xs) = if length xs == n then array xs n else aborted

module _ {W : Type 0} (fab : Fabric W) where
  unfoldable pub ft_split_and_alloc :
      (s delim : Option Text) → W → record { split : Entries; next : W }
  ft_split_and_alloc none delim w = record { split = null; next = w }
  ft_split_and_alloc (some s) none w = record { split = null; next = w }
  ft_split_and_alloc (some s) (some delim) w =
      let dup = fab.malloc (length s + 1) w in
      let n = array_size delim s in
      let arr = fab.malloc (n + 1) dup.next in
      if dup.ptr == 0
      then record { split = null; next = dup.next }
      else if arr.ptr == 0
      then record { split = null; next = arr.next }
      else record { split = checked n (fill_array n delim (some s)); next = arr.next }

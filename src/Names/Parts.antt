-- ===== src/Names/Parts.antt =====
-- The names of a core and of a utility provider in "core;ofi_utility"
-- (libefa/src/libefa/ftlib/shared.c): `ft_has_util_prefix`, `ft_util_name`, `ft_core_name`.
use efa_libfabric_bench.Prelude.{
  ℕ, suc, ◌+◌, ◌≡◌, Bool, true, false, Option, none, some, [], ◌∷◌, not, ◌&&◌, ◌==◌, if◌then◌else◌,
  leb, length, arith,
}
use efa_libfabric_bench.Context.{Text}

-- `tolower`, for the letters
abbrev to_lower : ℕ → ℕ
to_lower c = if leb 65 c && leb c 90 then c + 32 else c

-- `strncasecmp` with a prefix in small letters is 0.
abbrev has_prefix : Text → Text → Bool
has_prefix [] s = true
has_prefix (p ∷ ps) [] = false
has_prefix (p ∷ ps) (c ∷ cs) = let more = has_prefix ps cs in to_lower c == p && more

-- "ofi_"
unfoldable pub ft_has_util_prefix : Text → Bool
ft_has_util_prefix = has_prefix (111 ∷ 102 ∷ 105 ∷ 95 ∷ [])

-- `strchr(str, ';')`: how many characters stand before it, and what stands behind.
abbrev strchr : Text → Option (ℕ × Text)
strchr [] = none
strchr (c ∷ cs) =
    let found = strchr cs in
    if c == 59 then some (0, cs) else elim found [ none ↦ none | some (n, t) ↦ some (suc n, t) ]

-- A part of the name: whether it begins behind the delimiter, and its length.
pub record Part : Type 0 where
  pub behind : Bool
  pub len : ℕ

-- The part that `wanted` says something of, the one behind the delimiter first.
abbrev part_by : (Text → Bool) → Text → Option (ℕ × Text) → Option Part
part_by wanted str none =
    if wanted str then some (record { behind = false; len = length str }) else none
part_by wanted str (some (n, tail)) =
    if wanted tail
    then some (record { behind = true; len = length tail })
    else if wanted str
    then some (record { behind = false; len = n })
    else none

-- 0 is stored as the length where NULL is returned.
unfoldable pub ft_util_name : Text → Option Part
ft_util_name str = part_by ft_has_util_prefix str (strchr str)

unfoldable pub ft_core_name : Text → Option Part
ft_core_name str = part_by (λ s. not (ft_has_util_prefix s)) str (strchr str)

parts_differ_by :
    (util : Text → Bool) (str : Text) (found : Option (ℕ × Text)) (a b : Part)
    → part_by util str found ≡ some a
    → part_by (λ s. not (util s)) str found ≡ some b
    → a.behind ≡ not b.behind
parts_differ_by util str none a b p q = absurd (ground arith)
parts_differ_by util str (some (n, t)) a b p q = ground arith

-- A name of which one part is that of a utility provider and one that of a core provider has them on
-- different sides of the delimiter.
parts_differ :
    (str : Text) (a b : Part)
    → ft_util_name str ≡ some a
    → ft_core_name str ≡ some b
    → a.behind ≡ not b.behind
unfolding ft_util_name ft_core_name
parts_differ str a b p q = parts_differ_by ft_has_util_prefix str (strchr str) a b p q

-- ===== src/Router/Attachments/Names.antt =====
-- The file names of attachments, of internal/router/router.go: `capName`, `uniqueName` and, of
-- `path/filepath`, `Ext`. A name is a list of bytes, as in Go.
pub mod Free
pub mod Capped
use poe_acp_relay.Base.{
  ◌≡◌, refl, ap, ◌⊎◌, inl, inr, ℕ, zero, suc, ◌+◌, ◌-◌, ◌<◌, Bool, true, false, not, Option, none,
  some, List, [], ◌∷◌, ◌++◌, length, take, drop, leb, nat_eq, if◌then◌else◌, arith, Bool-cases,
  Option-cases,
}
use poe_acp_relay.Base.Bytes.{Bytes, bytes_eq, is_used, decimal}

-- What a scan for an extension has found: a text from a dot on, a separator first, or neither.
pub data Scanned : Type 0 where
  dotted : Bytes → Scanned
  stopped nothing : Scanned

-- One byte before what has been scanned.
ext_step : ℕ → Bytes → Scanned → Scanned
ext_step c s (dotted e) = dotted e
ext_step c s stopped = stopped
ext_step c s nothing =
    if nat_eq c b'/' then stopped else if nat_eq c b'.' then dotted (c ∷ s) else nothing

ext_scan : Bytes → Scanned
unfolding ext_step
ext_scan [] = nothing
ext_scan (c ∷ s) = ext_step c s (ext_scan s)

scanned_ext : Scanned → Bytes
scanned_ext (dotted e) = e
scanned_ext stopped = []
scanned_ext nothing = []

-- `filepath.Ext`; its loop runs from the end.
unfoldable pub ext : Bytes → Bytes
unfolding ext_scan scanned_ext
ext s = scanned_ext (ext_scan s)

-- `strings.TrimSuffix`
pub trim_suffix : Bytes → Bytes → Bytes
trim_suffix s suffix =
    let k = length s - length suffix in if bytes_eq (drop k s) suffix then take k s else s

-- `capName`
unfoldable pub cap_name : Bytes → ℕ → Bytes
unfolding ext
cap_name name max =
    if leb (length name) max
    then name
    else if leb max (length (ext name))
    then take max name
    else take (max - length (ext name)) name ++ ext name

-- `fmt.Sprintf("%s-%d%s", stem, i, ext)`
pub candidate : Bytes → Bytes → ℕ → Bytes
candidate stem end i = stem ++ b'-' ∷ decimal i ++ end

-- The loop of `uniqueName`, on fuel.
pub first_free : ℕ → Bytes → Bytes → List Bytes → ℕ → Option Bytes
unfolding candidate
first_free zero stem end used i = none
first_free (suc fuel) stem end used i =
    let later = first_free fuel stem end used (suc i) in
    if is_used (candidate stem end i) used then later else some (candidate stem end i)

-- `uniqueName`: one round more than there are used names.
unfoldable pub unique_name : Bytes → List Bytes → Option Bytes
unfolding ext trim_suffix first_free
unique_name name used =
    if is_used name used
    then first_free (suc (length used)) (trim_suffix name (ext name)) (ext name) used 2
    else some name

-- `uniqueName` as its callers take it: the loop ends, so there is always a name.
unfoldable pub free_name : Bytes → List Bytes → Bytes
unfolding unique_name
free_name name used = elim (unique_name name used) [ some found ↦ found | none ↦ name ]

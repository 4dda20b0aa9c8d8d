-- ===== src/Prelude/Paths.antt =====
-- The functions of Go's path/filepath that the program calls, on Unix.
use Prim.Native.Nat.{ℕ}
use mathlib.Core.Bool.{not, ◌&&◌}
use mathlib.Core.Option.{Option, none, some}
use mathlib.Core.List.{[], ◌∷◌}
use aiofiles.Prelude.Tests.{◌==◌, if◌then◌else◌}
use aiofiles.Prelude.Bytes.{Bytes, has_byte, trim_right_by}

abbrev extend : ℕ → Bytes → Option Bytes → Option Bytes
extend c s (some e) = some e
extend c s none = if c == b'.' && not (has_byte b'/' s) then some (c ∷ s) else none

-- What follows the last dot of the last element, with the dot.
unfoldable pub find_ext : Bytes → Option Bytes
find_ext [] = none
find_ext (c ∷ s) = extend c s (find_ext s)

abbrev or_nothing : Option Bytes → Bytes
or_nothing none = []
or_nothing (some e) = e

-- `filepath.Ext`
unfoldable pub path_ext : Bytes → Bytes
unfolding find_ext
path_ext s = or_nothing (find_ext s)

-- The part behind the last slash.
unfoldable pub last_element : Bytes → Bytes
last_element [] = []
last_element (c ∷ s) =
    let rest = last_element s in if has_byte b'/' s then rest else if c == b'/' then s else c ∷ s

abbrev pub or_root : Bytes → Bytes
or_root [] = b'/' ∷ []
or_root (c ∷ s) = c ∷ s

-- `filepath.Base`
unfoldable pub path_base : Bytes → Bytes
unfolding last_element trim_right_by
path_base [] = b'.' ∷ []
path_base (c ∷ s) = or_root (last_element (trim_right_by (λ d. d == b'/') (c ∷ s)))

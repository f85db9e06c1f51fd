-- ===== src/Tool/Registry/Listing.antt =====
-- List and ListToolkits: every entry, in the order of the names.
use Prim.Native.Char.{Char}
use Prim.Native.String.{[] as nothing, ◌∷◌ as cons}
use Prim.Native.String.compare as clause
use mathlib.Core.List.{Perm}
use mathlib.Core.List.Perm as Perm
use gall_lib.Common.{String, Bool, true, ◌&&◌, not, List, [], ◌∷◌}
use gall_lib.Tool.Registry.{before, Registry}

module _ {A : Type 0} (name : A → String) where
  -- No name stands before the one to its left.
  abbrev pub in_order : List A → Bool
  in_order [] = true
  in_order (a ∷ []) = true
  in_order (a ∷ b ∷ xs) = not (before (name b) (name a)) && in_order (b ∷ xs)

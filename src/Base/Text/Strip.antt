-- ===== src/Base/Text/Strip.antt =====
-- The laws of `strip`.
use Prim.Native.Char.{code}
use Prim.Native.String.{String}
use mathlib.Core.Path.{◌≡◌, refl}
use mathlib.Core.Bool.{false}
use native.Mathlib.Omega.{arith}
use kimina_lean_server.Base.Text.{is_space, lstrip, rstrip, strip}

-- The text does not begin with a space.
abbrev Flush : String → Type 0
Flush String.[] = Unit
Flush (String.◌∷◌ c s) = is_space (code c) ≡ false

lstrip-Flush : (s : String) → Flush (lstrip s)
unfolding lstrip
lstrip-Flush String.[] = tt
lstrip-Flush (String.◌∷◌ c s) = ground (arith, lstrip-Flush s)

lstrip-Flush_fixed : (s : String) → Flush s → lstrip s ≡ s
unfolding lstrip
lstrip-Flush_fixed String.[] h = refl
lstrip-Flush_fixed (String.◌∷◌ c s) h = rw h

rstrip-Flush : (s : String) → Flush s → Flush (rstrip s)
unfolding rstrip
rstrip-Flush String.[] h = tt
rstrip-Flush (String.◌∷◌ c s) h = ground (arith)

rstrip_idem : (s : String) → rstrip (rstrip s) ≡ rstrip s
unfolding rstrip
rstrip_idem String.[] = refl
rstrip_idem (String.◌∷◌ c s) = ground (arith, rstrip_idem s)

pub strip_idem : (s : String) → strip (strip s) ≡ strip s
unfolding strip
strip_idem s =
    rw (lstrip-Flush_fixed (rstrip (lstrip s)) (rstrip-Flush (lstrip s) (lstrip-Flush s)))
      (rstrip_idem (lstrip s))

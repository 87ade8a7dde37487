-- ===== src/Base/Text/Strip.antt =====
-- `strip` of what `strip` returned.
use Prim.Native.Char.{code}
use holahost.Base.{true, ◌≡◌, refl, ◌∙◌, ap, String, false, arith}
use holahost.Base.Text.{is_blank, is_space, is_empty, drop_spaces, drop_last_spaces, strip}

-- The first character is not a space.
StartsWithText : String → Type 0
StartsWithText String.[] = Unit
StartsWithText (String.◌∷◌ c s) = is_space (code c) ≡ false

drop_spaces-StartsWithText : (s : String) → StartsWithText (drop_spaces s)
unfolding StartsWithText drop_spaces
drop_spaces-StartsWithText String.[] = tt
drop_spaces-StartsWithText (String.◌∷◌ c s) = ground (arith, drop_spaces-StartsWithText s)

drop_last_spaces-StartsWithText :
    (s : String) → StartsWithText s → StartsWithText (drop_last_spaces s)
unfolding StartsWithText drop_last_spaces
drop_last_spaces-StartsWithText String.[] h = tt
drop_last_spaces-StartsWithText (String.◌∷◌ c s) h = ground (arith, h)

drop_spaces-same : (s : String) → StartsWithText s → drop_spaces s ≡ s
unfolding StartsWithText drop_spaces
drop_spaces-same String.[] h = refl
drop_spaces-same (String.◌∷◌ c s) h = ground (arith, h)

drop_last_spaces-twice : (s : String) → drop_last_spaces (drop_last_spaces s) ≡ drop_last_spaces s
unfolding drop_last_spaces is_empty
drop_last_spaces-twice String.[] = refl
drop_last_spaces-twice (String.◌∷◌ c s) = ground (arith, drop_last_spaces-twice s)

pub strip-twice : (s : String) → strip (strip s) ≡ strip s
unfolding strip
strip-twice s =
    ap drop_last_spaces (
      drop_spaces-same (drop_last_spaces (drop_spaces s))
        (drop_last_spaces-StartsWithText (drop_spaces s) (drop_spaces-StartsWithText s)))
    ∙ drop_last_spaces-twice (drop_spaces s)

is_blank-drop_spaces : (s : String) → is_blank s ≡ false → is_blank (drop_spaces s) ≡ false
unfolding is_blank drop_spaces
is_blank-drop_spaces String.[] h = h
is_blank-drop_spaces (String.◌∷◌ c s) h = ground (arith, h, is_blank-drop_spaces s)

is_blank_of_empty : (s : String) → is_empty s ≡ true → is_blank s ≡ true
unfolding is_blank is_empty
is_blank_of_empty String.[] h = refl
is_blank_of_empty (String.◌∷◌ c s) h = ground (arith, h)

is_blank-drop_last_spaces :
    (s : String) → is_blank s ≡ false → is_blank (drop_last_spaces s) ≡ false
unfolding is_blank drop_last_spaces is_empty
is_blank-drop_last_spaces String.[] h = h
is_blank-drop_last_spaces (String.◌∷◌ c s) h =
    ground (arith, h, is_blank_of_empty (drop_last_spaces s), is_blank-drop_last_spaces s)

pub strip-text :
    (s : String) → is_blank s ≡ false → (is_blank (strip s) ≡ false) × (strip (strip s) ≡ strip s)
unfolding strip
strip-text s h =
    (is_blank-drop_last_spaces (drop_spaces s) (is_blank-drop_spaces s h), strip-twice s)

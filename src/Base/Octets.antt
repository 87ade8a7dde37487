-- ===== src/Base/Octets.antt =====
-- Octets, and the comparison of names that ignores the case of ASCII letters.
use holahost.Base.{ℕ, ◌+◌, Bool, true, false, ◌&&◌, List, [], ◌∷◌, leb, ◌==◌, if◌then◌else◌}

-- `bytes.lower` of one octet
abbrev lower_octet : ℕ → ℕ
lower_octet c = if leb 65 c && leb c 90 then c + 32 else c

-- `raw_name.lower() == name`, of a name in lower case
abbrev pub same_name : List ℕ → List ℕ → Bool
same_name [] [] = true
same_name [] (y ∷ ys) = false
same_name (x ∷ xs) [] = false
same_name (x ∷ xs) (y ∷ ys) = lower_octet x == y && same_name xs ys

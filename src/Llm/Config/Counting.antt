-- ===== src/Llm/Config/Counting.antt =====
-- `Counter` over the model ids (config/registry.py): how often an id stands in a list.
use holahost.Base.{
  ℕ, suc, ◌+◌, ◌≤◌, ◌≡◌, String, List, [], ◌∷◌, ◌++◌, keep, ltb, if◌then◌else◌, arith,
}
use holahost.Base.Equality.{◌=?◌, string_eq}
use holahost.Base.Dict.{Dict, get, put, get-put}
use holahost.Llm.Config.{counter, counted_so_far}

-- How often the text stands in the list.
unfoldable pub occurrences : String → List String → ℕ
occurrences id [] = 0
occurrences id (x ∷ xs) = let rest = occurrences id xs in if id =? x then suc rest else rest

pub occurrences-append :
    (id : String) (xs ys : List String)
    → occurrences id (xs ++ ys) ≡ occurrences id xs + occurrences id ys
unfolding occurrences
occurrences-append id [] ys = omega arith
occurrences-append id (x ∷ xs) ys = ground (arith, occurrences-append id xs ys)

counted-put :
    (id j : String) (counts : Dict String ℕ)
    → counted_so_far (get id (put j (counted_so_far (get j counts) + 1) counts))
      ≡ (if id =? j then counted_so_far (get id counts) + 1 else counted_so_far (get id counts))
counted-put id j counts =
    grind (arith, get-put j id (counted_so_far (get j counts) + 1) counts, string_eq.beq_iff id j)

pub counter-occurrences :
    (id : String) (ids : List String) (counts : Dict String ℕ)
    → counted_so_far (get id (counter ids counts))
      ≡ counted_so_far (get id counts) + occurrences id ids
unfolding counter occurrences
counter-occurrences id [] counts = omega arith
counter-occurrences id (x ∷ ids) counts = ground (
  arith,
  counted-put id x counts,
  counter-occurrences id ids (put x (counted_so_far (get x counts) + 1) counts),
)

pub keep-few :
    (id : String) (counts : Dict String ℕ)
    → keep (λ (e : String × ℕ). ltb 1 e.1) counts ≡ []
    → counted_so_far (get id counts) ≤ 1
unfolding keep get
keep-few id [] h = omega arith
keep-few id ((j, n) ∷ counts) h = ground (arith, keep-few id counts)

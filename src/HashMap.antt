-- ===== src/HashMap.antt =====
-- The standard library's `HashMap<u16, Bytes>`, as an association list with each key at most once.
-- The code never iterates over such a map, so the order of its entries means nothing.
use ricq.Base.{ℕ, ◌≡◌, arith, Option, none, some, List, [], ◌∷◌, ◌==◌}
use ricq.Base.{if◌then◌else◌}

abbrev pub HashMap : Type 0
HashMap = List (ℕ × List ℕ)

abbrev pub empty : HashMap
empty = []

unfoldable pub get : ℕ → HashMap → Option (List ℕ)
get k [] = none
get k ((j, v) ∷ m) = if j == k then some v else get k m

unfoldable pub erase : ℕ → HashMap → HashMap
erase k [] = []
erase k ((j, v) ∷ m) = if j == k then erase k m else (j, v) ∷ erase k m

unfoldable pub insert : ℕ → List ℕ → HashMap → HashMap
insert k v m = (k, v) ∷ erase k m

-- `remove` returns the value that was there, and the map without it.
abbrev pub remove : ℕ → HashMap → Option (List ℕ) × HashMap
remove k m = (get k m, erase k m)

pub get-erase : (j k : ℕ) (m : HashMap) → get j (erase k m) ≡ (if k == j then none else get j m)
unfolding get erase
get-erase j k [] = ground arith
get-erase j k ((i, v) ∷ m) = ground (arith, get-erase j k m)

pub get-insert :
    (j k : ℕ) (v : List ℕ) (m : HashMap)
    → get j (insert k v m) ≡ (if k == j then some v else get j m)
unfolding get insert
get-insert j k v m = ground (arith, get-erase j k m)

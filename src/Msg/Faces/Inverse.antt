-- ===== src/Msg/Faces/Inverse.antt =====
-- `face_id_map` and `face_name_map` of ricq-core/src/msg/elem/face.rs as inverses of each other.
use ricq.Base.{
  ℕ, ◌≡◌, ◌↔◌, refl, sym, ap, ap₂, arith, List, [], ◌∷◌, some, Bool, true, false, ◌==◌, ◌&&◌, not,
  same_bytes, ==_eq, ==_refl, Bool-cases, inl, inr,
}
use Prim.Native.String.{String}
use ricq.Msg.Faces.{utf8, faces, find_name, find_id, face_id_map, face_name_map}

-- No row has the number or the name of a later one.
abbrev is_other : ℕ → String → List (ℕ × String) → Bool
is_other i name [] = true
is_other i name ((j, other) ∷ rest) =
    let later = is_other i name rest in
    not (i == j) && (not (same_bytes (utf8 name) (utf8 other)) && later)

abbrev all_other : List (ℕ × String) → Bool
all_other [] = true
all_other ((i, name) ∷ rest) = let later = all_other rest in is_other i name rest && later

faces_other : all_other faces ≡ true
unfolding faces same_bytes
faces_other = refl

same_bytes_refl : (xs : List ℕ) → same_bytes xs xs ≡ true
unfolding same_bytes
same_bytes_refl [] = refl
same_bytes_refl (x ∷ xs) = rw (same_bytes_refl xs) (ground arith)

split_and : (a b : Bool) → (a && b) ≡ true → (a ≡ true) × (b ≡ true)
split_and true b h = (refl, h)
split_and false b h = cc h

not-true : (a : Bool) → not a ≡ true → a ≡ false
not-true true h = cc h
not-true false h = refl

same_bytes_eq : (xs ys : List ℕ) → same_bytes xs ys ≡ true → xs ≡ ys
unfolding same_bytes
same_bytes_eq [] [] h = refl
same_bytes_eq [] (y ∷ ys) h = cc h
same_bytes_eq (x ∷ xs) [] h = cc h
same_bytes_eq (x ∷ xs) (y ∷ ys) h =
    let (first, rest) = split_and (x == y) _ h in
    ap₂ (λ (z : ℕ) zs. z ∷ zs) (==_eq x y first) (same_bytes_eq xs ys rest)

some-injective : {A : Type 0} {a b : A} → some a ≡ some b → a ≡ b
some-injective h = cc h

-- What no later row has is not found there.
later_name :
    (i id : ℕ) (name : String) (n : List ℕ) (rows : List (ℕ × String))
    → is_other i name rows ≡ true
    → find_name rows id ≡ some n
    → same_bytes (utf8 name) n ≡ false
unfolding find_name
later_name i id name n [] h e = cc e
later_name i id name n ((j, other) ∷ rest) h e =
    let (ids, more) = split_and (not (i == j)) _ h in
    let (names, later) = split_and (not (same_bytes (utf8 name) (utf8 other))) _ more in
    elim (Bool-cases (j == id)) [
      | inl b ↦
          let same : utf8 other ≡ n = some-injective (rw b at e) in rw (sym same) (not-true _ names)
      | inr b ↦ later_name i id name n rest later (rw b at e)
    ]

later_id :
    (i id : ℕ) (name : String) (n : List ℕ) (rows : List (ℕ × String))
    → is_other i name rows ≡ true
    → find_id rows n ≡ some id
    → (i == id) ≡ false
unfolding find_id
later_id i id name n [] h e = cc e
later_id i id name n ((j, other) ∷ rest) h e =
    let (ids, more) = split_and (not (i == j)) _ h in
    let (names, later) = split_and (not (same_bytes (utf8 name) (utf8 other))) _ more in
    elim (Bool-cases (same_bytes (utf8 other) n)) [
      | inl b ↦ let same : j ≡ id = some-injective (rw b at e) in rw (sym same) (not-true _ ids)
      | inr b ↦ later_id i id name n rest later (rw b at e)
    ]

find_id-name :
    (rows : List (ℕ × String)) (id : ℕ) (n : List ℕ)
    → all_other rows ≡ true
    → find_name rows id ≡ some n
    → find_id rows n ≡ some id
unfolding find_name find_id
find_id-name [] id n h e = cc e
find_id-name ((i, name) ∷ rest) id n h e =
    let (here, later) = split_and (is_other i name rest) _ h in
    elim (Bool-cases (i == id)) [
      | inl b ↦
          let same : utf8 name ≡ n = some-injective (rw b at e) in
          rw (sym same, same_bytes_refl (utf8 name)) (ap some (==_eq i id b))
      | inr b ↦
          let found : find_name rest id ≡ some n = rw b at e in
          rw (later_name i id name n rest here found) (find_id-name rest id n later found)
    ]

find_name-id :
    (rows : List (ℕ × String)) (id : ℕ) (n : List ℕ)
    → all_other rows ≡ true
    → find_id rows n ≡ some id
    → find_name rows id ≡ some n
unfolding find_name find_id
find_name-id [] id n h e = cc e
find_name-id ((i, name) ∷ rest) id n h e =
    let (here, later) = split_and (is_other i name rest) _ h in
    elim (Bool-cases (same_bytes (utf8 name) n)) [
      | inl b ↦
          let same : i ≡ id = some-injective (rw b at e) in
          rw (sym same, ==_refl i) (ap some (same_bytes_eq (utf8 name) n b))
      | inr b ↦
          let found : find_id rest n ≡ some id = rw b at e in
          rw (later_id i id name n rest here found) (find_name-id rest id n later found)
    ]

-- The two maps of the faces are inverse to each other: a number has a name exactly where the name has
-- that number.
pub face_id_map-face_name_map :
    (id : ℕ) (name : List ℕ) → (face_id_map id ≡ some name) ↔ (face_name_map name ≡ some id)
unfolding face_id_map face_name_map
face_id_map-face_name_map id name =
    (find_id-name faces id name faces_other, find_name-id faces id name faces_other)

-- ===== src/Orders/Unique.antt =====
-- `[...new Set(ids)]`: the elements of a list, each at its first place.
use coffee_shop_be.Prelude.{
  ℕ, false, ◌||◌, List, [], ◌∷◌, ◌≡◌, ◌≤◌, refl, arith, inl, inr, contains, length, if◌then◌else◌,
  Bool-cases,
}

abbrev pub insert_new : List ℕ → List ℕ → List ℕ
insert_new seen [] = []
insert_new seen (id ∷ ids) =
    let skipped = insert_new seen ids in
    let kept = insert_new (id ∷ seen) ids in if contains id seen then skipped else id ∷ kept

unfoldable pub unique : List ℕ → List ℕ
unique ids = insert_new [] ids

insert_new-contains :
    (k : ℕ) (seen ids : List ℕ)
    → (contains k seen || contains k (insert_new seen ids)) ≡ (contains k seen || contains k ids)
insert_new-contains k seen [] = refl
insert_new-contains k seen (id ∷ ids) =
    ground (arith, insert_new-contains k seen ids, insert_new-contains k (id ∷ seen) ids)

pub contains-unique : (k : ℕ) (ids : List ℕ) → contains k (unique ids) ≡ contains k ids
unfolding unique
contains-unique k ids = insert_new-contains k [] ids

-- Each of the elements is new at its place.
abbrev pub Fresh : List ℕ → List ℕ → Type 0
Fresh seen [] = Unit
Fresh seen (id ∷ ids) = (contains id seen ≡ false) × Fresh (id ∷ seen) ids

insert_new-length : (seen ids : List ℕ) → length (insert_new seen ids) ≤ length ids
insert_new-length seen [] = omega arith
insert_new-length seen (id ∷ ids) =
    ground (arith, insert_new-length seen ids, insert_new-length (id ∷ seen) ids)

insert_new-Fresh : (seen ids : List ℕ) → length (insert_new seen ids) ≡ length ids → Fresh seen ids
insert_new-Fresh seen [] e = tt
insert_new-Fresh seen (id ∷ ids) e = elim (Bool-cases (contains id seen)) [
  | inl old ↦ ground (arith, old, insert_new-length seen ids)
  | inr new ↦ (new, insert_new-Fresh (id ∷ seen) ids (ground (arith, new)))
]

pub unique-Fresh : (ids : List ℕ) → length (unique ids) ≡ length ids → Fresh [] ids
unfolding unique
unique-Fresh ids e = insert_new-Fresh [] ids e

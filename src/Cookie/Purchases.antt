-- ===== src/Cookie/Purchases.antt =====
-- SetPurchaseId of VCookie (abstraction/vcookie.h): the last five different purchase ids.
pub mod Order
use elevator.Base.{
  ℕ, ◌≡◌, Bool, true, false, List, [], ◌∷◌, ◌++◌, Option, none, some, ◌==◌, if◌then◌else◌, length,
  Bytes, bytes_eq,
}

-- NUM_SAVED_PURCHASE_IDS
abbrev pub num_saved_purchase_ids : ℕ
num_saved_purchase_ids = 5

-- The loop over `j` behind a match at `i`: each id moves one place to the front, and the match
-- goes to the end. If the match is the last, nothing moves.
unfoldable pub shift_left : Bytes → List Bytes → List Bytes
shift_left p [] = []
shift_left p (x ∷ []) = p ∷ []
shift_left p (x ∷ y ∷ ys) = y ∷ shift_left p (y ∷ ys)

-- The loop over `i`: the list after the early return, if an id matches.
unfoldable pub move_to_end : Bytes → List Bytes → Option (List Bytes)
unfolding shift_left
move_to_end p [] = none
move_to_end p (x ∷ xs) =
    let further : Option (List Bytes) = elim (move_to_end p xs) [
      | none ↦ none
      | some ys ↦ some (x ∷ ys)
    ] in
    if bytes_eq x p
    then some (elim xs [ [] ↦ x ∷ [] | y ∷ ys ↦ shift_left p (x ∷ y ∷ ys) ])
    else further

abbrev pub pop_front : List Bytes → List Bytes
pop_front [] = []
pop_front (x ∷ xs) = xs

-- What follows the loop: the early return, or the id is appended.
abbrev pub after_search : List Bytes → Bytes → Option (List Bytes) → List Bytes × Bool
after_search ids p (some moved) = (moved, false)
after_search ids p none =
    ((if length ids == num_saved_purchase_ids then pop_front ids else ids) ++ (p ∷ []), true)

-- The new list, and whether the id was not in it.
unfoldable pub set_purchase_ids : List Bytes → Bytes → List Bytes × Bool
set_purchase_ids ids p = after_search ids p (move_to_end p ids)

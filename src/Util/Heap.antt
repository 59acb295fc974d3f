-- ===== src/Util/Heap.antt =====
-- Memory that is shared with the kernel: the objects of the process by the places that they stand at.
use csv_rs.Base.{ℕ, ◌==◌, ==_iff, ◌≡◌, ◌≢◌, refl, Bytes, if◌then◌else◌, Bool-cases, inl, inr}

abbrev pub Heap : Type 0
Heap = ℕ → Bytes

-- One object more, or another one at its place.
unfoldable pub place : ℕ → Bytes → Heap → Heap
place at value heap a = if a == at then value else heap a

-- What was placed last stands there; another place has what it had.
pub place_here : (a : ℕ) (v : Bytes) (heap : Heap) → place a v heap a ≡ v
unfolding place
place_here a v heap = rw ((==_iff a a).1 refl)

pub place_elsewhere : (a b : ℕ) (v : Bytes) (heap : Heap) → b ≢ a → place a v heap b ≡ heap b
unfolding place
place_elsewhere a b v heap other = elim (Bool-cases (b == a)) [
  | inl same ↦ absurd (other ((==_iff b a).0 same))
  | inr differ ↦ rw (differ)
]

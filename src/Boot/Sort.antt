-- ===== src/Boot/Sort.antt =====
-- The medians that the boot code of app/ takes of the durations that it measured.
use obsidio.Prelude.{ℕ, ◌/◌, List, [], ◌∷◌, leb, if◌then◌else◌, get_or, length}

-- `sort.Slice` on durations.
unfoldable pub sorted_into : ℕ → List ℕ → List ℕ
sorted_into d [] = d ∷ []
sorted_into d (e ∷ es) = if leb d e then d ∷ e ∷ es else e ∷ sorted_into d es

unfoldable pub sort : List ℕ → List ℕ
unfolding sorted_into
sort [] = []
sort (d ∷ ds) = sorted_into d (sort ds)

-- The middle one of three.
unfoldable pub median3 : List ℕ → ℕ
unfolding sort
median3 ds = get_or (sort ds) 1 0

-- `contended[len(contended)/2]` of the sorted durations.
unfoldable pub middle : List ℕ → ℕ
unfolding sort
middle contended = get_or (sort contended) (length contended / 2) 0

-- ===== src/Worker/Race.antt =====
-- `raceKernelPairing` of app/main.go: whether the pair kernel stays, by the durations of its race.
use obsidio.Prelude.{ℕ, ◌*◌, ◌&&◌, List, none, leb, if◌then◌else◌, is_some}
use obsidio.Kernel.Chain.{Kernels}
use obsidio.Boot.Sort.{median3}

-- `raceKernelPairing`, from three durations of two serial chains and three of a pair.
unfoldable pub race_kernel_pairing : List ℕ → List ℕ → Kernels → Kernels
unfolding median3
race_kernel_pairing serial paired k =
    if is_some k.sum_pair && leb (median3 serial * 95) (median3 paired * 100)
    then record k { sum_pair = none }
    else k

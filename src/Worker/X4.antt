-- ===== src/Worker/X4.antt =====
-- `initRiskKernelX4` of app/sha4lane_amd64.go: its self-test and its race. The assembly routine, the
-- vectors of math/rand and the durations are arguments.
use obsidio.Prelude.Text.{equal}
use obsidio.Prelude.{ℕ, ◌+◌, ◌*◌, Bool, true, not, ◌&&◌, ◌||◌, List, [], ◌∷◌, leb, is_some}
use obsidio.Prelude.Env.{Bytes, codes}
use obsidio.Kernel.Chain.{Sha256, Kernels, Quad, iterate, sum_round}
use obsidio.Kernel.Install.{Vectors, passes}
use obsidio.Boot.Sort.{median3}

module _ (H : Sha256) where
  -- What the four buffers of a case are to be after `n` rounds, and what they are.
  unfoldable pub quad_case : (Quad → ℕ → Quad) → ℕ → Quad → Bool
  unfolding equal
  quad_case chain4x n (a, b, c, d) =
      let want = iterate n (sum_round H.sum256) in
      let got = chain4x (a, b, c, d) n in
      equal got.0 (want a)
      && (equal got.1 (want b) && (equal got.2 (want c) && equal got.3 (want d)))

  abbrev pub drawn_quad : Vectors → ℕ → ℕ → Quad
  drawn_quad rnd base c = (
    rnd.draw (base + c * 4),
    rnd.draw (base + c * 4 + 1),
    rnd.draw (base + c * 4 + 2),
    rnd.draw (base + c * 4 + 3),
  )

  pub quad_rounds_ok : Vectors → (Quad → ℕ → Quad) → ℕ → List ℕ → Bool
  quad_rounds_ok rnd chain4x base [] = true
  quad_rounds_ok rnd chain4x base (n ∷ ns) =
      passes 128 0 (λ c. quad_case chain4x n (drawn_quad rnd base c))
      && quad_rounds_ok rnd chain4x (base + 512) ns

  unfoldable pub quad_ok : Vectors → (Quad → ℕ → Quad) → Bool
  unfolding quad_rounds_ok passes
  quad_ok rnd chain4x = quad_rounds_ok rnd chain4x 0 (1 ∷ 2 ∷ 3 ∷ 17 ∷ 256 ∷ [])

  -- `initRiskKernelX4`, from RISK_X4, `kernelUseSHANI`, the kernels after the race, and three
  -- durations each: whether `riskChainQuad` is installed.
  unfoldable pub init_risk_kernel_x4 : Bytes → Bool → Kernels → Bool → List ℕ → List ℕ → Bool
  unfolding equal median3
  init_risk_kernel_x4 mode use_shani k ok pair2 quad =
      not (equal mode (codes "off"))
      && (use_shani
          && (is_some k.sum_pair
              && (ok
                  && (equal mode (codes "on")
                      || not (leb (median3 pair2 * 95) (median3 quad * 100))))))

-- ===== src/Server/Alone.antt =====
-- A POST of a price whose two critical sections run one after the other.
use obsidio.Prelude.{◌≡◌, List, ◌∷◌, map}
use obsidio.Kernel.Chain.{Sha256}
use obsidio.Prices.{Codec, Process, Response}
use obsidio.App.{World}
use obsidio.Worker.{Paths}
use obsidio.Server.{Server, Run, process_of}

module _ (J : Codec) where
  abbrev pub responses : Server J → List Response
  responses s = map (λ e. e.response) s.exchanges

module _ (J : Codec) (W : World J) (H : Sha256) (p : Paths) where
  open J use {Price, decode}

  -- A run to a state with this process, and with one more response and no more entry to publish.
  abbrev Does : Server J → Process J × Response → Type 0
  Does s (x, r) =
      (t : Server J) × Run J W H p s t
      × (process_of J t ≡ x)
      × (t.posts ≡ s.posts)
      × (responses J t ≡ r ∷ responses J s)

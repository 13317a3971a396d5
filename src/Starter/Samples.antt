-- ===== src/Starter/Samples.antt =====
-- A world with a parser of one pair, and a request.
use obsidio.Prelude.Text.{after_prefix, equal}
use obsidio.Prelude.{refl, [], ◌∷◌, ◌++◌, Option, none, some, true, false, if◌then◌else◌}
use obsidio.Prelude.Env.{Bytes, codes}
use obsidio.Kernel.Chain.{starter_chain}
use obsidio.Kernel.Samples.{length_digest}
use obsidio.Prices.{fine}
use obsidio.Prices.Query.{GetsPlain}
use obsidio.Prices.Samples.{toy}
use obsidio.Raw.{Request}
use obsidio.App.{World}
use obsidio.App.Samples.{two_prices}

abbrev or_empty : Option Bytes → Bytes
or_empty none = []
or_empty (some v) = v

-- A world with a parser of one pair, whose gate refuses every seed but one.
abbrev pub starter_world : World toy
starter_world = record {
  floats = two_prices;
  base_prices = (codes "A", false) ∷ [];
  query_get = λ name q. or_empty (after_prefix (name ++ codes "=") q);
  marshal_string = λ s. codes "\"" ++ (s ++ codes "\"");
  disk = λ x. fine;
  risk_submit = λ seed x.
      (x, (if equal seed (codes "x") then some (starter_chain length_digest seed) else none));
  status_text = λ c. [];
  write = λ out b. (out ++ b, true);
}

pub starter_world-GetsPlain : GetsPlain (starter_world.query_get (codes "symbol"))
unfolding after_prefix
starter_world-GetsPlain v plain = refl

abbrev pub get_price : Request
get_price = record {
  method = codes "GET";
  path = codes "/price";
  query = codes "symbol=A";
  framing = record { content_len = 0; keep_alive = true };
}

-- ===== src/Starter/Tests.antt =====
-- A price that both backends answer.
use obsidio.Prelude.Text.{after_prefix, equal}
use obsidio.Prelude.{refl, [], some, true, arith}
use obsidio.Prelude.Env.{codes}
use obsidio.Kernel.Samples.{length_digest}
use obsidio.Prices.{replay, store_price}
use obsidio.Prices.Prebuilt.{IsPrebuilt, init_tables-IsPrebuilt, replay-IsPrebuilt}
use obsidio.Prices.Samples.{toy, no_prices, process_with}
use obsidio.Raw.Serve.{dispatch}
use obsidio.App.{Wire, app}
use obsidio.App.Samples.{two_prices}
use obsidio.Starter.{price_reply, handle}
use obsidio.Starter.Printed.{all_plain, all_plain-IsPlain}
use obsidio.Starter.Contract.{AnswersChains, Keeps, dispatch-handle}
use obsidio.Starter.Samples.{starter_world, starter_world-GetsPlain, get_price}

starter_world-AnswersChains : AnswersChains toy starter_world length_digest
starter_world-AnswersChains seed h x e = ground arith

abbrev high_wire : Wire toy starter_world
high_wire = record { process = process_with (codes "{H}\n"); out = [] }

high_wire-IsPrebuilt : IsPrebuilt toy high_wire.process.tables
high_wire-IsPrebuilt =
    replay-IsPrebuilt toy (codes "{H}\n") no_prices (init_tables-IsPrebuilt toy [])

dispatch-handle_example :
    Keeps toy starter_world length_digest
      (dispatch (app toy starter_world) high_wire get_price []).1
      (price_reply two_prices (codes "A") (some true))
      get_price
unfolding all_plain equal after_prefix handle replay store_price
dispatch-handle_example =
    dispatch-handle toy starter_world length_digest (λ s p. refl) starter_world-GetsPlain get_price
      refl (all_plain-IsPlain (codes "A") refl) high_wire []
      (price_reply two_prices (codes "A") (some true)) starter_world-AnswersChains
      high_wire-IsPrebuilt refl refl

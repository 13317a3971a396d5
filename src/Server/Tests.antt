-- ===== src/Server/Tests.antt =====
-- A process with one worker that answers a price and a chain.
use obsidio.Prelude.Text.{after_prefix, equal}
use obsidio.Prelude.{false, ◌≡◌, refl, List, [], ◌∷◌, some, ◌+◌, true, arith, sum_of}
use obsidio.Prelude.Env.{Bytes, codes}
use obsidio.Kernel.Chain.{starter_chain}
use obsidio.Kernel.Samples.{length_digest}
use obsidio.Prices.Samples.{toy}
use obsidio.Prices.Start.{fresh}
use obsidio.Raw.{Request}
use obsidio.App.Samples.{two_prices}
use obsidio.Gate.{
  enter, wake, new_waiter, Waiter, waiting, served, parked, digest, take_work, take_loop, fate,
  deliver, on_signal,
}
use obsidio.Gate.System.Defs.{
  running, initial, with_gate, put, after_take, after_signal, take_some, send_wake, signal,
}
use obsidio.Boot.Samples.{rough, no_files}
use obsidio.Worker.{Job}
use obsidio.Worker.Batch.{PathsCorrect, run_batch-Answers}
use obsidio.Worker.Boot.{boot_paths}
use obsidio.Worker.Boot.Booted.{boot_paths-PathsCorrect}
use obsidio.Worker.Samples.{flat_machine, forced_on, fast_batch, flat_machine-Trusted}
use obsidio.Main.{Booted, boot}
use obsidio.Main.Samples.{one_worker, no_log, two_chains}
use obsidio.Starter.{risk_reply, handle}
use obsidio.Starter.Printed.{all_plain}
use obsidio.Starter.Samples.{starter_world, starter_world-GetsPlain}
use obsidio.Starter.Contract.{Keeps}
use obsidio.Server.{
  append, publish, Exchange, Server, Run, start, next, arrive, answer, send_digest, inner,
  returning, handled, settled, entered, seed_of, listening,
}
use obsidio.Prices.{fine, line_of, append_wal, store_price, build_price_resp}
use obsidio.Server.{responded}
use obsidio.Prices.{Response}
use obsidio.Server
use obsidio.Server.{noted, refusing}
use obsidio.Server.Linear.{latest}
use obsidio.Server.Order.{InOrder, answers-InOrder}
use obsidio.Server.Durable.{Entered, acknowledged_logged}
use obsidio.Starter.Samples.{get_price}
use obsidio.Server.Contract.{boot-Keeps}
use obsidio.Server.Accounting.{ok_of}
use obsidio.Server.Ledger.{call_weight}
use obsidio.Server.Charged.{any_error_of, owes_in, counters_balance}

abbrev one_price : Booted toy
one_price = record {
  process = fresh toy starter_world.base_prices;
  system = initial (record { ok = 0; err = 0 }) 88 1_191_000_000 1;
  paths = boot_paths length_digest (λ s. s) flat_machine forced_on fast_batch 4095;
}

one_price_boots :
    boot toy length_digest rough
      (λ s. [])
      (λ s. s)
      starter_world.base_prices
      one_worker
      no_files
      no_log
      two_chains
      flat_machine
      forced_on
      fast_batch
    ≡ some one_price
unfolding boot
one_price_boots = refl

one_price-PathsCorrect : PathsCorrect length_digest one_price.paths
one_price-PathsCorrect =
    boot_paths-PathsCorrect length_digest (λ s. s) flat_machine forced_on fast_batch 4095
      flat_machine-Trusted

abbrev get_risk : Request
get_risk = record {
  method = codes "GET";
  path = codes "/risk";
  query = codes "seed=x";
  framing = record { content_len = 0; keep_alive = true };
}

abbrev listens : Server toy
listens = listening toy one_price.process one_price.system

abbrev x : Bytes
x = seed_of toy starter_world get_risk

abbrev parked_one : Server toy
parked_one = entered toy get_risk [] (enter 5 x listens.system.gate) listens

abbrev waits : Server toy
waits = record parked_one {
  system =
      with_gate parked_one.system
        (wake (put 0 (record (new_waiter 5 x) { pc = waiting }) parked_one.system.gate));
}

abbrev taken_one : Server toy
taken_one = record waits { system = after_take waits.system [] [] 1 9 }

abbrev chain_of_x : Bytes
chain_of_x = starter_chain length_digest x

abbrev delivered : Server toy
delivered = record taken_one {
  system = record taken_one.system {
    gate = deliver 0 chain_of_x taken_one.system.gate;
    workers = running [] ∷ [];
  };
}

abbrev served_waiter : Waiter
served_waiter = record (new_waiter 5 x) { pc = waiting; taken = true; result = some chain_of_x }

abbrev collected : Server toy
collected = record delivered {
  system =
      with_gate delivered.system
        (after_signal 0 served_waiter (digest chain_of_x) delivered.system.gate);
}

taken_run : Run toy starter_world length_digest one_price.paths listens taken_one
unfolding equal enter wake take_work take_loop fate
taken_run =
    next
      (next (next start (arrive 5 get_risk [] refl))
        (inner (refl, refl, refl, refl) (λ chain. send_wake 0 (new_waiter 5 x) refl refl)))
      (inner (refl, refl, refl, refl) (λ chain. take_some [] [] 1 9 refl (omega arith)))

delivered_run : Run toy starter_world length_digest one_price.paths listens delivered
unfolding take_work take_loop wake enter fate
delivered_run =
    let batch : List Job = (0, x) ∷ [] in
    let (es, ran, sent, costs) =
      run_batch-Answers length_digest one_price.paths batch one_price-PathsCorrect (omega arith) in
    next taken_run (
      send_digest [] [] [] 0 0 (record (new_waiter 5 x) { pc = waiting; taken = true }) chain_of_x
        batch [] es [] refl refl (omega arith) refl refl ran sent)

abbrev answered : Server toy
answered =
    record (settled toy starter_world collected.system.log get_risk
      (handled toy starter_world (returning toy starter_world x (some chain_of_x)) get_risk []
        collected)
      collected) { calls = [] }

answered_run : Run toy starter_world length_digest one_price.paths listens answered
unfolding equal enter wake take_work take_loop fate deliver after_signal on_signal
answered_run =
    next
      (next delivered_run (
        inner (refl, refl, refl, refl)
          (λ chain. signal 0 served_waiter (digest chain_of_x) refl refl refl)))
      (answer [] [] (record { request = get_risk; body = []; entry = parked 0 }) (some chain_of_x)
        refl (record served_waiter { pc = served chain_of_x }, refl, refl))

abbrev risk_exchange : Exchange toy
risk_exchange = record {
  request = get_risk;
  tables = collected.tables;
  response =
      (handled toy starter_world (returning toy starter_world x (some chain_of_x)) get_risk []
        collected).1;
}

boot-Keeps_example :
    Keeps toy starter_world length_digest risk_exchange.response
      (risk_reply two_prices length_digest x)
      get_risk
unfolding after_prefix all_plain handle equal
boot-Keeps_example =
    boot-Keeps toy starter_world length_digest (λ s p. refl) starter_world-GetsPlain rough (λ s. [])
      (λ s. s) one_worker no_files no_log two_chains flat_machine forced_on fast_batch one_price
      answered 0 risk_exchange (risk_reply two_prices length_digest x) flat_machine-Trusted
      one_price_boots answered_run refl refl refl tt refl

counters_balance_example :
    (answered.system.gate.counters.ok ≡ 0 + sum_of (ok_of toy starter_world) answered.exchanges)
    × (answered.system.gate.counters.err
        ≡ 0
          + answered.system.log.stale
          + sum_of (any_error_of toy starter_world) answered.exchanges
          + sum_of
              (call_weight 1 (owes_in toy starter_world answered.system.gate.heap))
              answered.calls)
counters_balance_example =
    counters_balance toy starter_world length_digest one_price.paths one_price.process
      (record { ok = 0; err = 0 }) 88 1_191_000_000 1 answered one_price-PathsCorrect answered_run

abbrev post_price : Request
post_price = record get_price { method = codes "POST" }

-- A process with an empty log.
abbrev logs : Server toy
logs =
    listening toy (record (fresh toy starter_world.base_prices) { wal = some [] }) one_price.system

abbrev post_answer : Response
post_answer = record { code = 200; body = build_price_resp toy (codes "A") false }

abbrev posted : Server toy
posted = responded toy post_price post_answer (record logs {
  tables = store_price toy (codes "A") false logs.tables;
  wal = some (line_of toy (codes "A") false);
})

posted_run : Run toy starter_world length_digest one_price.paths logs posted
unfolding equal append_wal
posted_run =
    next (next start (append post_price (codes "low") (codes "A") false fine refl refl))
      (publish [] [] (record { request = post_price; symbol = codes "A"; price = false }) refl)

acknowledged_logged_example :
    Entered toy posted.wal
      (record { request = post_price; tables = posted.tables; response = post_answer })
unfolding equal
acknowledged_logged_example =
    acknowledged_logged toy starter_world length_digest one_price.paths
      (record (fresh toy starter_world.base_prices) { wal = some [] }) one_price.system posted 0
      (record { request = post_price; tables = posted.tables; response = post_answer }) posted_run
      refl refl refl

-- A POST without a log, and a GET of its symbol.
abbrev stored : Server toy
stored =
    responded toy post_price post_answer
      (record listens { tables = store_price toy (codes "A") false listens.tables })

abbrev read_back : Server toy
read_back =
    settled toy starter_world (noted toy starter_world get_price [] stored) get_price
      (handled toy starter_world (refusing toy starter_world) get_price [] stored) stored

read_run : Run toy starter_world length_digest one_price.paths listens read_back
unfolding equal append_wal
read_run =
    next
      (next (next start (append post_price (codes "low") (codes "A") false fine refl refl))
        (publish [] [] (record { request = post_price; symbol = codes "A"; price = false }) refl))
      (Server.handle get_price [] refl refl)

answers-InOrder_example :
    InOrder toy starter_world length_digest one_price.process.tables read_back.exchanges
    × (read_back.tables ≡ latest toy one_price.process.tables read_back.exchanges)
answers-InOrder_example =
    answers-InOrder toy starter_world length_digest (λ s p. refl) starter_world-GetsPlain rough
      (λ s. []) (λ s. s) one_worker no_files no_log two_chains flat_machine forced_on fast_batch
      one_price read_back flat_machine-Trusted one_price_boots read_run

-- ===== src/Main/Samples.antt =====
-- The environment of a process with one worker.
use obsidio.Prelude.{◌*◌, false, [], leb}
use obsidio.Prelude.Env.{codes}
use obsidio.Prices.Start.{LogFile}
use obsidio.Main.{Settings, Calibration}

abbrev pub one_worker : Settings
one_worker = record {
  risk_slots = codes "1";
  err_gate = [];
  shed_budget = [];
  price_wal = [];
  yield_stride = codes "4096";
}

abbrev pub no_log : LogFile
no_log = record { opened = false; bytes = []; readable = false }

abbrev pub two_chains : Calibration
two_chains = record {
  within = λ cost s. leb (s * cost) 9_000_000_000;
  alone = λ i. 3;
  contended = λ r c. 9_000_000;
}

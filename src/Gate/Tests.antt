-- ===== src/Gate/Tests.antt =====
-- The theorems on the gate along one short run: a request parks and is served.
use obsidio.Prelude.{
  ℕ, ◌+◌, ◌<◌, ◌≡◌, ◌⊎◌, refl, true, false, [], ◌∷◌, ◌++◌, Option, none, some, arith, sum_of,
  sum_of-nil,
}
use obsidio.Prelude.Env.{Bytes, codes}
use obsidio.Governor.{Counters}
use obsidio.Gate.Take.{Takes, take_work-Takes}
use obsidio.Gate.System.Defs.{
  running, asleep, System, Reach, initial, with_gate, after_take, put, after_signal, note_entry,
  after_leave, arrive, send_wake, signal, depart, cancel, sleep, take_some, send_result, here, more,
}
use obsidio.Gate.System.Accounting.{owes, charged_once}
use obsidio.Gate.System.Wakeups.{alarms, about_to_wake, idling, no_lost_wakeup, never_stalls}
use obsidio.Gate.System.Digests.{refused_untaken}
use obsidio.Gate.System.Depth.{IsStack, initial-IsStack}
use obsidio.Gate.{
  waiting, leaving, refused, Waiter, push, new_waiter, enter, wake, take_work, take_loop, fate,
  deliver, digest, disconnect, on_signal, leave, mark_taken,
}

abbrev zero_counters : Counters
zero_counters = record { ok = 0; err = 0 }

abbrev one_second : ℕ
one_second = 1_000_000_000

-- The chain of a seed, in this run.
abbrev twice : Bytes → Bytes
twice s = s ++ s

abbrev seed : Bytes
seed = codes "abc"

abbrev boot : System
boot = initial zero_counters 88 one_second 1

abbrev arrived : System
arrived = record boot {
  gate = (enter 5 seed boot.gate).0;
  log = note_entry (enter 5 seed boot.gate).1 boot.log;
}

abbrev parked_waiter : Waiter
parked_waiter = record (new_waiter 5 seed) { pc = waiting }

abbrev announced : System
announced = with_gate arrived (wake (put 0 parked_waiter arrived.gate))

abbrev taken_up : System
taken_up = after_take announced [] [] 2 9

abbrev sent : System
sent = record taken_up {
  gate = deliver 0 (twice seed) taken_up.gate;
  workers = [] ++ running [] ∷ [];
}

abbrev done_waiter : Waiter
done_waiter = record parked_waiter { taken = true; result = some (twice seed) }

abbrev finished : System
finished = with_gate sent (after_signal 0 done_waiter (digest (twice seed)) sent.gate)

announced-Reach : Reach twice boot announced
unfolding enter
announced-Reach = more (more here (arrive 5 seed)) (send_wake 0 (new_waiter 5 seed) refl refl)

finished-Reach : Reach twice boot finished
unfolding enter wake take_work take_loop fate deliver
finished-Reach =
    more
      (more (more announced-Reach (take_some [] [] 2 9 refl (omega arith)))
        (send_result [] [] 0 [] (mark_taken parked_waiter) refl refl))
      (signal 0 done_waiter (digest (twice seed)) refl refl refl)

charged_once_example :
    finished.gate.counters.err
    ≡ 0
      + finished.log.door
      + finished.log.stale
      + finished.log.others
      + sum_of owes finished.gate.heap
charged_once_example = charged_once zero_counters 88 one_second 1 finished finished-Reach

no_lost_wakeup_example :
    ((announced.gate.stack ≡ []) ⊎ (0 < alarms announced.gate announced.workers))
    × (announced.gate.idle ≡ sum_of idling announced.workers)
no_lost_wakeup_example = no_lost_wakeup zero_counters 88 one_second 1 announced announced-Reach

initial-IsStack_example : IsStack announced.gate
initial-IsStack_example = initial-IsStack zero_counters 88 one_second 1 announced announced-Reach

take_work-Takes_example :
    Takes 9 one_second 2
      (push 5 seed boot.gate).stack
      (push 5 seed boot.gate)
      (take_work 2 9 (push 5 seed boot.gate))
take_work-Takes_example = take_work-Takes 2 9 (push 5 seed boot.gate)

-- A worker finds nothing and goes to sleep.
abbrev looked : System
looked = after_take boot [] [] 1 3

abbrev dozing : System
dozing = record looked {
  gate = record looked.gate { idle = looked.gate.idle + 1 };
  workers = [] ++ asleep ∷ [];
}

dozing-Reach : Reach twice boot dozing
unfolding take_work take_loop
dozing-Reach = more (more here (take_some [] [] 1 3 refl (omega arith))) (sleep [] [] refl)

never_stalls_example : dozing.gate.stack ≡ []
unfolding take_work take_loop
never_stalls_example =
    never_stalls zero_counters 88 one_second 1 dozing dozing-Reach (refl, tt) refl
      (sum_of-nil about_to_wake)

-- A client that goes away while its request is parked.
abbrev gone : Waiter
gone = record parked_waiter { cancelled = true }

abbrev cut_off : System
cut_off = with_gate announced (put 0 gone announced.gate)

abbrev giving_up : System
giving_up = with_gate cut_off (after_signal 0 gone disconnect cut_off.gate)

abbrev gave_up : System
gave_up =
    with_gate giving_up (after_leave 0 (record gone { pc = leaving false }) false giving_up.gate)

gave_up-Reach : Reach twice boot gave_up
unfolding enter wake after_signal on_signal
gave_up-Reach =
    more
      (more (more announced-Reach (cancel 0 parked_waiter refl))
        (signal 0 gone disconnect refl refl refl))
      (depart 0 (record gone { pc = leaving false }) false refl refl)

refused_untaken_example : (false ≡ false) × (◌≡◌ {A = Option Bytes} none none)
unfolding enter wake after_signal on_signal after_leave leave
refused_untaken_example =
    refused_untaken zero_counters 88 one_second 1 gave_up gave_up-Reach 0
      (record gone { abandoned = true; pc = refused }) refl refl

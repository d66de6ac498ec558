-- ===== src/Examples/Traces.antt =====
-- A link event, its follow-ups, and the traces that are served.
use for_visibility.Prelude.{
  ℕ, suc, ◌≡◌, ◌≤◌, refl, true, false, none, List, [], ◌∷◌, ◌++◌, arith, length, All,
}
use for_visibility.Text.{text}
use for_visibility.Correlate.{
  Event, Trace, Input, received, tick, new, trace_of, run, run_new, served,
}
use for_visibility.Correlate.Ring.{Numbered, run_new-IsRing}
use for_visibility.Correlate.Traces.{IsTrace, run_new-IsTrace}
use for_visibility.Correlate.Steps.{churn_acc, run-churn}

-- times in ns; the process starts at 0
abbrev link_down : Event
link_down = record {
  bus = text "netlink";
  kind = text "link-down";
  key = text "eth0";
  detail = [];
  root = true;
  ts = 20000000000;
}

abbrev route_del : ℕ → Event
route_del ts = record {
  bus = text "fpm";
  kind = text "route-del";
  key = text "10.1.0.0/24";
  detail = [];
  root = false;
  ts = ts;
}

abbrev inputs : List Input
inputs =
    received link_down 20000000000
    ∷ received (route_del 20500000000) 20500000000
    ∷ tick 24000000000
    ∷ []

run_new-IsRing_example :
    let s = run_new (text "pe1") 0 inputs in
    (length (served s) ≤ 50) × Numbered s.cor.seq (served s)
run_new-IsRing_example = run_new-IsRing (text "pe1") 0 inputs

run_new-IsTrace_example :
    All (IsTrace 3000000000 (text "pe1")) (served (run_new (text "pe1") 0 inputs))
run_new-IsTrace_example = run_new-IsTrace (text "pe1") 0 inputs

run-churn_example :
    (older : List Trace) × (served (
        run
          (record { cor = new (text "pe1") 0; active = none })
          (received (route_del 20000000000) 20000000000
            ∷ received (route_del 20000001000) 20000001000
            ∷ received (route_del 21000000000) 21000000000
            ∷ tick 24500000000
            ∷ []))
      ≡ older
        ++ trace_of
            (new (text "pe1") 0).node
            (suc (new (text "pe1") 0).seq)
            (churn_acc (route_del 20000000000) (route_del 20000001000) (route_del 21000000000))
          ∷ [])
unfolding new
run-churn_example =
    run-churn (new (text "pe1") 0) (route_del 20000000000) (route_del 20000001000)
      (route_del 21000000000) 20000000000 20000001000 21000000000 24500000000 refl (omega arith)
      (omega arith) (omega arith) (omega arith) (omega arith)

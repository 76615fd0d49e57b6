-- ===== src/Query/Scheduler/Concurrency/Overlap.antt =====
-- The counter of the collector is the number of runs, and stays within the limit.
use prometheus_ch_exporter.Prelude.{
  ℕ, ◌-◌, ◌≤◌, false, ◌<◌, ◌<◌, String, ◌≡◌, ◌∙◌, Bool, true, Option, List, [], ◌∷◌, arith, ◌==◌,
  eq_iff, if◌then◌else◌,
}
use prometheus_ch_exporter.Dict.{has}
use prometheus_ch_exporter.Collector.{Entries, inflight, unregister}
use prometheus_ch_exporter.Config.{OperatorConfig}
use prometheus_ch_exporter.Query.Scheduler.{QuerySpec, pass, concurrency, waiting_text}
use prometheus_ch_exporter.Query.Scheduler.Concurrency.{
  System, overlap, discard, started, Step, passed, ran, done, changed, deleted, Kept, since, still,
}
use prometheus_ch_exporter.Query.Scheduler.Concurrency.Inflight.{
  inflight-dec, inflight-execute, inflight-inc, inflight-register, inflight-skip,
  inflight-unregister, inflight-waiting, has-unregister,
}

pub overlap-discard :
    (key j : String) (tasks : List String)
    → 0 < overlap key tasks
    → overlap j (discard key tasks) ≡ overlap j tasks - (if key == j then 1 else 0)
unfolding discard
overlap-discard key j [] h = ground arith
overlap-discard key j (x ∷ tasks) h =
    ground (arith, eq_iff x key, eq_iff key j, eq_iff x j, overlap-discard key j tasks)

-- For every query, the counter of the collector is the number of its runs, which is within the
-- limit.
pub record IsCounted (limit : String → ℕ) (s : System) (key : String) : Type 0 where
  pub counted : inflight s.entries key ≡ overlap key s.tasks
  pub bounded : overlap key s.tasks ≤ limit key

pass-IsCounted :
    (limit : String → ℕ) (es : Entries) (tasks : List String) (key j : String) (spec : QuerySpec)
    (config : OperatorConfig) (conn : Option Bool) (wall_time loop_time timeout : ℕ)
    → has es j ≡ true
    → concurrency spec config ≤ limit key
    → IsCounted limit (record { entries = es; tasks = tasks }) j
    → let p = pass es key spec config conn wall_time loop_time timeout in
      IsCounted limit (record { entries = p.0; tasks = started p.1 key tasks }) j
unfolding pass
pass-IsCounted limit es tasks key j spec config conn wall_time loop_time timeout known within c =
    ground (
      arith,
      eq_iff key j,
      c,
      inflight-inc es key j known,
      inflight-skip es key j wall_time,
      inflight-waiting es key j (waiting_text spec.connection_ref),
    )

IsCounted-eq :
    (limit : String → ℕ) (s t : System) (key : String)
    → s.entries ≡ t.entries
    → s.tasks ≡ t.tasks
    → IsCounted limit t key
    → IsCounted limit s key
IsCounted-eq limit s t key e p c = record {
  counted = rw (e, p) c.counted;
  bounded = rw p c.bounded;
}

Step-IsCounted :
    (limit : String → ℕ) (s t : System) (j : String)
    → has s.entries j ≡ true
    → has t.entries j ≡ true
    → Step limit s t
    → IsCounted limit s j
    → IsCounted limit t j
Step-IsCounted limit s t j before after
      (passed key spec config conn wall_time loop_time timeout within e p) c =
    IsCounted-eq limit t _ j e p (
      pass-IsCounted limit s.entries s.tasks key j spec config conn wall_time loop_time timeout
        before within c)
Step-IsCounted limit s t j before after
      (ran py expire_after key conn_ref query_type reply members duration tick now e p) c =
    record {
      counted =
          rw (e, p)
            (inflight-execute s.entries key j py expire_after conn_ref query_type reply members
                duration tick now
              ∙ c.counted);
      bounded = rw p c.bounded;
    }
Step-IsCounted limit s t j before after (done key some_run e p) c = record {
  counted =
      rw (e, p)
        (omega
          (arith, inflight-dec s.entries key j, overlap-discard key j s.tasks some_run, c.counted));
  bounded = rw p (omega (arith, overlap-discard key j s.tasks some_run, c.bounded));
}
Step-IsCounted limit s t j before after (changed key name help labels invalid e p) c = record {
  counted = rw (e, p) (inflight-register s.entries key j name help labels invalid ∙ c.counted);
  bounded = rw p c.bounded;
}
Step-IsCounted limit s t j before after (deleted key e p) c =
    let kept : has (unregister s.entries key) j ≡ true = rw⁻¹ e after in
    let other : key == j ≡ false = ground (arith, has-unregister s.entries key j, kept) in
    record {
      counted = rw (e, p) (ground (arith, inflight-unregister s.entries key j, c.counted, other));
      bounded = rw p c.bounded;
    }

Kept-has :
    (limit : String → ℕ) (s : System) (key : String) (t : System)
    → Kept limit key s t
    → has t.entries key ≡ true
Kept-has limit s key t (since h) = h
Kept-has limit s key t (still run step h) = h

-- While a query stays registered, whatever passes, runs, ends of runs, changes and deletions of any
-- queries come, in any order: the counter of the query is exactly the number of its runs that
-- overlap, and that number is within the limit.
pub Kept-IsCounted :
    (limit : String → ℕ) (s : System) (key : String) (t : System)
    → IsCounted limit s key
    → Kept limit key s t
    → IsCounted limit t key
Kept-IsCounted limit s key t c (since h) = c
Kept-IsCounted limit s key u c (still {t} run step h) =
    Step-IsCounted limit t u key (Kept-has limit s key t run) h step
      (Kept-IsCounted limit s key t c run)

-- ===== src/Query/Scheduler/Concurrency/Covered.antt =====
-- Runs whose query is deleted, or was never registered (src/promch/handlers/query.py).
use prometheus_ch_exporter.Prelude.{
  ℕ, ◌≤◌, suc, refl, ◌<◌, ◌<◌, String, ◌≡◌, Bool, true, Option, none, some, List, arith, eq_refl,
  is_some,
}
use prometheus_ch_exporter.Dict.{Dict}
use prometheus_ch_exporter.Dict.Laws.{get-put, get-remove}
use prometheus_ch_exporter.Collector.{
  inc_inflight, Entries, inflight, register, unregister, invalid_reason,
}
use prometheus_ch_exporter.Config.{OperatorConfig}
use prometheus_ch_exporter.Query.Scheduler.{QuerySpec, Task, pass, concurrency, waiting_text}
use prometheus_ch_exporter.Query.Scheduler.Concurrency.{
  System, overlap, started, Step, passed, ran, done, changed, deleted, Reach, here, next,
}
use prometheus_ch_exporter.Query.Scheduler.Concurrency.Inflight.{
  inflight-dec, inflight-execute, inflight-register, inflight-skip, inflight-unregister,
  inflight-waiting, inflight-inc_le,
}
use prometheus_ch_exporter.Query.Scheduler.Concurrency.Overlap.{overlap-discard}

-- The counter of a query is at most the number of its runs.
abbrev pub IsCovered : System → String → Type 0
IsCovered s key = inflight s.entries key ≤ overlap key s.tasks

pass-IsCovered :
    (es : Entries) (tasks : List String) (key j : String) (spec : QuerySpec)
    (config : OperatorConfig) (conn : Option Bool) (wall_time loop_time timeout : ℕ)
    → inflight es j ≤ overlap j tasks
    → let p = pass es key spec config conn wall_time loop_time timeout in
      inflight p.0 j ≤ overlap j (started p.1 key tasks)
unfolding pass
pass-IsCovered es tasks key j spec config conn wall_time loop_time timeout c = ground (
  arith,
  c,
  inflight-inc_le es key j,
  inflight-skip es key j wall_time,
  inflight-waiting es key j (waiting_text spec.connection_ref),
)

Step-IsCovered :
    (limit : String → ℕ) (s t : System) (j : String)
    → Step limit s t
    → IsCovered s j
    → IsCovered t j
Step-IsCovered limit s t j (passed key spec config conn wall_time loop_time timeout within e p) c =
    rw (e, p)
      (pass-IsCovered s.entries s.tasks key j spec config conn wall_time loop_time timeout c)
Step-IsCovered limit s t j
      (ran py expire_after key conn_ref query_type reply members duration tick now e p) c =
    rw
      (
        e,
        p,
        inflight-execute s.entries key j py expire_after conn_ref query_type reply members duration
            tick now,
      )
      c
Step-IsCovered limit s t j (done key some_run e p) c =
    rw (e, p)
      (omega (arith, inflight-dec s.entries key j, overlap-discard key j s.tasks some_run, c))
Step-IsCovered limit s t j (changed key name help labels invalid e p) c =
    rw (e, p, inflight-register s.entries key j name help labels invalid) c
Step-IsCovered limit s t j (deleted key e p) c =
    rw (e, p) (ground (arith, inflight-unregister s.entries key j, c))

-- Whatever steps come, in any order, passes over queries that are not registered and deletions of
-- queries with runs in flight included: the counter of a query never exceeds the number of its runs
-- that overlap. So a pass that skips a run has at least as many runs as the limit that it reads.
pub Reach-IsCovered :
    (limit : String → ℕ) (s t : System) (key : String)
    → IsCovered s key
    → Reach limit s t
    → IsCovered t key
Reach-IsCovered limit s t key c here = c
Reach-IsCovered limit s u key c (next {t} run step) =
    Step-IsCovered limit t u key step (Reach-IsCovered limit s t key c run)

started_one :
    (o : Option Task) (key : String) (tasks : List String)
    → is_some o ≡ true
    → overlap key (started o key tasks) ≡ suc (overlap key tasks)
started_one none key tasks h = cc
started_one (some task) key tasks h = ground (arith, eq_refl key)

recreated_counts :
    (es : Entries) (key name help : String) (labels : Dict String) (spec : QuerySpec)
    (config : OperatorConfig) (wall_time loop_time timeout : ℕ)
    → 0 < concurrency spec config
    → let p =
        pass
          (register (unregister es key) key name help labels none)
          key
          spec
          config
          (some true)
          wall_time
          loop_time
          timeout in
      (is_some p.1 ≡ true) × (inflight p.0 key ≡ 1)
unfolding pass register unregister inflight invalid_reason inc_inflight
recreated_counts es key name help labels spec config wall_time loop_time timeout positive = (
  grind (arith, eq_refl key, get-put, get-remove),
  grind (arith, eq_refl key, get-put, get-remove),
)

-- From every state, however many runs of a query are in flight: its deletion, its registration as a
-- valid query and a pass with a ready connection and a limit that is not zero reach a state with one
-- run more, of which the counter has one.
pub recreated_exceeds :
    (limit : String → ℕ) (s : System) (key name help : String) (labels : Dict String)
    (spec : QuerySpec) (config : OperatorConfig) (wall_time loop_time timeout : ℕ)
    → 0 < concurrency spec config
    → concurrency spec config ≤ limit key
    → (t : System) × Reach limit s t
      × (overlap key t.tasks ≡ suc (overlap key s.tasks))
      × (inflight t.entries key ≡ 1)
recreated_exceeds limit s key name help labels spec config wall_time loop_time timeout positive
      within =
    let es' = register (unregister s.entries key) key name help labels none in
    let p = pass es' key spec config (some true) wall_time loop_time timeout in
    let (starts, one) =
      recreated_counts s.entries key name help labels spec config wall_time loop_time timeout
        positive in
    let t : System = record { entries = p.0; tasks = started p.1 key s.tasks } in
    let gone : System = record s { entries = unregister s.entries key } in
    let back : System = record s { entries = es' } in
    (
      t,
      next {t = back}
          (next {t = gone} (next here (deleted key refl refl))
            (changed key name help labels none refl refl))
          (passed key spec config (some true) wall_time loop_time timeout within refl refl),
      started_one p.1 key s.tasks starts,
      one,
    )

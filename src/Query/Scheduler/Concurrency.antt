-- ===== src/Query/Scheduler/Concurrency.antt =====
-- How many runs of a query overlap: passes of the scheduler, runs that end, and everything else that
-- touches the collector, in any order (src/promch/handlers/query.py).
pub mod Inflight
pub mod Overlap
pub mod Covered
use prometheus_ch_exporter.Prelude.{
  ℕ, ◌+◌, ◌-◌, ◌≤◌, ◌<◌, String, ◌≡◌, Bool, true, Option, none, some, List, [], ◌∷◌, ◌==◌,
  if◌then◌else◌, is_some,
}
use prometheus_ch_exporter.Prelude.Result.{Result}
use prometheus_ch_exporter.Cells.{Objects}
use prometheus_ch_exporter.Dict.{Dict, has}
use prometheus_ch_exporter.Collector.{Entries, register, unregister, dec_inflight}
use prometheus_ch_exporter.Config.{OperatorConfig}
use prometheus_ch_exporter.Query.Execute.{RunError, Reply, execute}
use prometheus_ch_exporter.Query.Scheduler.{QuerySpec, Task, pass, concurrency}

-- The collector, and the keys of the executions in `_pending`.
pub record System : Type 0 where
  pub entries : Entries
  pub tasks : List String

-- How many executions of the query are running.
abbrev pub overlap : String → List String → ℕ
overlap key [] = 0
overlap key (j ∷ tasks) = (if j == key then 1 else 0) + overlap key tasks

-- `_pending.discard(task)`, for one execution of the query.
unfoldable pub discard : String → List String → List String
discard key [] = []
discard key (j ∷ tasks) = if j == key then tasks else j ∷ discard key tasks

abbrev pub started : Option Task → String → List String → List String
started none key tasks = tasks
started (some task) key tasks = key ∷ tasks

-- One step. `limit` bounds the concurrency that the specifications ask for, live edits included. A
-- pass, like a run, does not ask whether its query is registered, and a deletion does not wait.
pub data Step (limit : String → ℕ) (s t : System) : Type 0 where
  passed :
      (key : String) (spec : QuerySpec) (config : OperatorConfig) (conn : Option Bool)
      (wall_time loop_time timeout : ℕ)
      → concurrency spec config ≤ limit key
      → t.entries ≡ (pass s.entries key spec config conn wall_time loop_time timeout).0
      → t.tasks
        ≡ started (pass s.entries key spec config conn wall_time loop_time timeout).1 key s.tasks
      → Step limit s t
  ran :
      (py : Objects) (expire_after : ℕ) (key conn_ref query_type : String)
      (reply : Option (Result RunError Reply)) (members : Option (List String))
      (duration tick now : ℕ)
      → t.entries
        ≡ execute py expire_after s.entries key conn_ref query_type reply members duration tick now
      → t.tasks ≡ s.tasks
      → Step limit s t
  done :
      (key : String)
      → 0 < overlap key s.tasks
      → t.entries ≡ dec_inflight s.entries key
      → t.tasks ≡ discard key s.tasks
      → Step limit s t
  changed :
      (key name help : String) (labels : Dict String) (invalid : Option String)
      → t.entries ≡ register s.entries key name help labels invalid
      → t.tasks ≡ s.tasks
      → Step limit s t
  deleted :
      (key : String) → t.entries ≡ unregister s.entries key → t.tasks ≡ s.tasks → Step limit s t

pub data Reach (limit : String → ℕ) (s : System) : System → Type 0 where
  here : Reach limit s s
  next : {t u : System} → Reach limit s t → Step limit t u → Reach limit s u

-- The runs of the system from `s` in whose every state the query is registered.
pub data Kept (limit : String → ℕ) (key : String) (s : System) : System → Type 0 where
  since : has s.entries key ≡ true → Kept limit key s s
  still :
      {t u : System}
      → Kept limit key s t
      → Step limit t u
      → has u.entries key ≡ true
      → Kept limit key s u

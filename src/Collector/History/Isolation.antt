-- ===== src/Collector/History/Isolation.antt =====
-- The collector behaves like one independent machine for each query.
use prometheus_ch_exporter.Prelude.{
  String, ◌≡◌, refl, ◌∙◌, List, [], ◌∷◌, arith, ◌==◌, eq_iff, if◌then◌else◌, Bool-cases, inl, inr,
}
use prometheus_ch_exporter.Dict.{get, IsUnique}
use prometheus_ch_exporter.Dict.Laws.{get-put, get-remove, put-IsUnique, remove-IsUnique}
use prometheus_ch_exporter.Collector.{Entries}
use prometheus_ch_exporter.Collector.History.{
  Op, registered, unregistered, perform, run, react, react_all, calls_on,
}

-- One call changes the entry of its own key as the single machine does, and no other entry.
pub get-perform :
    (es : Entries) (key : String) (op : Op) (j : String)
    → get (perform es key op) j ≡ (if key == j then react (get es j) op else get es j)
unfolding perform
get-perform es key (registered name help labels invalid) j = grind (arith, eq_iff key j, get-put)
get-perform es key unregistered j = ground (arith, eq_iff key j, get-remove es key j)
get-perform es key op j = grind (arith, eq_iff key j, get-put)

-- After any calls on any keys, the entry of a key is what the calls on that key alone make of it.
pub get-run :
    (es : Entries) (calls : List (String × Op)) (key : String)
    → get (run es calls) key ≡ react_all (get es key) (calls_on key calls)
unfolding run react_all calls_on
get-run es [] key = refl
get-run es ((j, op) ∷ calls) key = elim (Bool-cases (j == key)) [
  | inl same ↦ get-run (perform es j op) calls key ∙ rw (get-perform es j op key) (rw same)
  | inr other ↦ get-run (perform es j op) calls key ∙ rw (get-perform es j op key) (rw other)
]

perform-IsUnique :
    (es : Entries) (key : String) (op : Op) → IsUnique es → IsUnique (perform es key op)
unfolding perform
perform-IsUnique es key unregistered u = remove-IsUnique es key u
perform-IsUnique es key op u = grind (arith, put-IsUnique)

-- No sequence of calls makes a key stand twice in the collector.
pub run-IsUnique :
    (es : Entries) (calls : List (String × Op)) → IsUnique es → IsUnique (run es calls)
unfolding run
run-IsUnique es [] u = u
run-IsUnique es ((j, op) ∷ calls) u =
    run-IsUnique (perform es j op) calls (perform-IsUnique es j op u)

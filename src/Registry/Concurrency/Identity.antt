-- ===== src/Registry/Concurrency/Identity.antt =====
-- Which connection a key has, under any interleaving of the handlers (src/promch/handlers/connection.py).
use prometheus_ch_exporter.Prelude.{
  ℕ, ◌<◌, String, ◌≡◌, ◌∙◌, true, some, arith, Bool-cases, Option-cases, inl, inr, ◌⊎◌,
}
use prometheus_ch_exporter.Cells.{Objects}
use prometheus_ch_exporter.Cluster.Node.{Driver}
use prometheus_ch_exporter.Cluster.Topology.{ConnectionSpec}
use prometheus_ch_exporter.Secrets.Reader.{Transport}
use prometheus_ch_exporter.Registry.{Registry, change, pop, build, close_object}
use prometheus_ch_exporter.Registry.Keyed.{Key, find, same_key, same_key-eq, find-drop}
use prometheus_ch_exporter.Registry.Concurrency.{
  World, Step, missed, resumed, refused, passed, called, called_late, popped, closed, cleared,
  Reach, here, next,
}
use prometheus_ch_exporter.Registry.Concurrency.Invariant.{
  set_keeps, set_cases, find-drop-some, IsClosed,
}
use prometheus_ch_exporter.Registry.Concurrency.{has_id, IsDropped}
use prometheus_ch_exporter.Registry.Concurrency.Changes.{known_key, pop-IsSound}
use prometheus_ch_exporter.Registry.Concurrency.Reached.{IsWorld, Reach-IsWorld}

build-IsKept :
    (r : Registry) (key : Key) (spec : ConnectionSpec) (now : ℕ) (j : Key) (id : ℕ)
    → find r.connections j ≡ some id
    → find (build r key spec now).0.connections j ≡ some id
unfolding build change
build-IsKept r key spec now j id there = elim (Option-cases (find r.connections key)) [
  | inr (other, found) ↦ rw (found, build) there
  | inl nobody ↦ rw (nobody, build) (set_keeps r.connections key r.built j id nobody there)
]

build-IsDropped :
    (r : Registry) (key : Key) (spec : ConnectionSpec) (now : ℕ) (id : ℕ)
    → id < r.built
    → IsDropped r id
    → (id < (build r key spec now).0.built) × IsDropped (build r key spec now).0 id
unfolding build change
build-IsDropped r key spec now id below dropped = elim (Option-cases (find r.connections key)) [
  | inr (other, found) ↦ rw (found, build) (below, dropped)
  | inl nobody ↦
      rw (nobody, build)
        (
          ground (arith, below),
          λ k there. elim (set_cases r.connections key r.built k id there) [
            | inl new ↦ ground (arith, new, below)
            | inr old ↦ dropped k old
          ],
        )
]

-- A connection is under its key, or is dropped for good.
abbrev IsKept : Registry → Key → ℕ → Type 0
IsKept r key id = (find r.connections key ≡ some id) ⊎ ((id < r.built) × IsDropped r id)

module _ (d : Driver) (py : Objects) (transport : ℕ → Transport) (own_namespace : String) where
  Step-IsDropped :
      (s t : World) (id : ℕ)
      → id < s.registry.built
      → IsDropped s.registry id
      → Step d py transport own_namespace s t
      → (id < t.registry.built) × IsDropped t.registry id
  unfolding change pop close_object find
  Step-IsDropped s t id below dropped (missed key spec nobody e) = rw e (below, dropped)
  Step-IsDropped s t id below dropped (resumed before after key spec cspec now w r e) =
      rw e (build-IsDropped s.registry key cspec now id below dropped)
  Step-IsDropped s t id below dropped (refused before after key spec message now w r e) =
      rw e (below, dropped)
  Step-IsDropped s t id below dropped (passed key other kind random now later there e) =
      rw e (below, dropped)
  Step-IsDropped s t id below dropped (called other host n n' held chosen call e) =
      rw e (below, dropped)
  Step-IsDropped s t id below dropped (called_late other host n n' known gone out chosen call e) =
      rw e (below, dropped)
  Step-IsDropped s t id below dropped (popped key other there e) =
      rw e (below, λ k h. dropped k (find-drop-some s.registry.connections key k id h))
  Step-IsDropped s t id below dropped (closed before after other c e) = rw e (below, dropped)
  Step-IsDropped s t id below dropped (cleared e) = rw e (below, λ k h. cc)

  Step-IsKept :
      (s t : World) (key : Key) (id : ℕ)
      → IsWorld s
      → find s.registry.connections key ≡ some id
      → Step d py transport own_namespace s t
      → IsKept t.registry key id
  unfolding change pop close_object find
  Step-IsKept s t j id i found (missed key spec nobody e) = rw e (inl found)
  Step-IsKept s t j id i found (resumed before after key spec cspec now w r e) =
      rw e (inl (build-IsKept s.registry key cspec now j id found))
  Step-IsKept s t j id i found (refused before after key spec message now w r e) = rw e (inl found)
  Step-IsKept s t j id i found (passed key other kind random now later there e) = rw e (inl found)
  Step-IsKept s t j id i found (called other host n n' held chosen call e) = rw e (inl found)
  Step-IsKept s t j id i found (called_late other host n n' known gone out chosen call e) =
      rw e (inl found)
  Step-IsKept s t j id i found (popped key other there e) = elim (Bool-cases (same_key key j)) [
    | inr apart ↦ rw e (inl (find-drop s.registry.connections key j ∙ rw apart found))
    | inl same ↦
        let gone = pop-IsSound s.registry s.closing s.late i key other there in
        let alike : other ≡ id = ground (arith, same_key-eq key j same, there, found) in
        rw e (inr (gone.pending id (ground (arith, alike))))
  ]
  Step-IsKept s t j id i found (closed before after other c e) = rw e (inl found)
  Step-IsKept s t j id i found (cleared e) =
      rw e (inr (known_key s.registry s.closing s.late i j id found, λ k h. cc))

  Reach-IsDropped :
      (s t : World) (id : ℕ)
      → (id < s.registry.built) × IsDropped s.registry id
      → Reach d py transport own_namespace s t
      → (id < t.registry.built) × IsDropped t.registry id
  Reach-IsDropped s t id gone here = gone
  Reach-IsDropped s t id gone (next {t = u} run step) =
      let before = Reach-IsDropped s u id gone run in Step-IsDropped u t id before.0 before.1 step

  Reach-IsKept :
      (s t : World) (key : Key) (id : ℕ)
      → IsWorld s
      → find s.registry.connections key ≡ some id
      → Reach d py transport own_namespace s t
      → IsKept t.registry key id
  Reach-IsKept s t key id i found here = inl found
  Reach-IsKept s t key id i found (next {t = u} run step) =
      elim (Reach-IsKept s u key id i found run) [
        | inl still ↦
            Step-IsKept u t key id (Reach-IsWorld d py transport own_namespace s u i run) still step
        | inr gone ↦ inr (Step-IsDropped u t id gone.0 gone.1 step)
      ]

-- What becomes of a connection: it is the one of its key, or no key has it, and it waits to be closed
-- has no client left, or a query has gone on with it after its close.
abbrev pub IsOwned : World → Key → ℕ → Type 0
IsOwned s key id =
    (find s.registry.connections key ≡ some id)
    ⊎ (IsDropped s.registry id
        × ((has_id s.closing id ≡ true)
            ⊎ ((has_id s.late id ≡ true) ⊎ IsClosed (s.registry.heap id).topology)))

-- From a state that is as it should, whatever steps of handlers and queries come between, a registered
-- connection is later the connection of its key or of no key; of no key, it waits to be closed, or no
-- node of it has a client, or a query has gone on with one of its nodes after it was closed.
pub Reach-IsOwned :
    (d : Driver) (py : Objects) (transport : ℕ → Transport) (own_namespace : String) (s t : World)
    (key : Key) (id : ℕ)
    → IsWorld s
    → find s.registry.connections key ≡ some id
    → Reach d py transport own_namespace s t
    → IsOwned t key id
Reach-IsOwned d py transport own_namespace s t key id i found run =
    elim (Reach-IsKept d py transport own_namespace s t key id i found run) [
      | inl still ↦ inl still
      | inr gone ↦
          let now = Reach-IsWorld d py transport own_namespace s t i run in
          inr (
            gone.1,
            elim (Bool-cases (has_id t.closing id)) [
              | inl waits ↦ inl waits
              | inr out ↦ inr (elim (Bool-cases (has_id t.late id)) [
                | inl reopened ↦ inl reopened
                | inr timely ↦ inr (now.clean id gone.0 gone.1 out timely)
              ])
            ],
          )
    ]

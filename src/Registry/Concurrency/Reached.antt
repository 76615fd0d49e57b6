-- ===== src/Registry/Concurrency/Reached.antt =====
-- The registry of connections under any interleaving of its handlers (src/promch/handlers/connection.py).
use prometheus_ch_exporter.Prelude.{ℕ, String, sym, subst}
use prometheus_ch_exporter.Cells.{Objects}
use prometheus_ch_exporter.Cluster.Node.{Driver}
use prometheus_ch_exporter.Cluster.Topology.Pool.{IsPool}
use prometheus_ch_exporter.Cluster.Connection.{Connection}
use prometheus_ch_exporter.Cluster.Connection.Passes.{passes-IsPass}
use prometheus_ch_exporter.Secrets.Reader.{Transport}
use prometheus_ch_exporter.Registry.Concurrency.{
  World, PassKind, refreshing, rechecking, rediscovering, pass_of, Step, missed, resumed, refused,
  passed, called, called_late, popped, closed, cleared, Reach, here, next,
}
use prometheus_ch_exporter.Registry.Concurrency.Invariant.{IsSound}
use prometheus_ch_exporter.Registry.Concurrency.Changes.{
  known_key, change-IsSound, pop-IsSound, close-IsSound, clear-IsSound, build-IsSound,
}
use prometheus_ch_exporter.Registry.Concurrency.Calls.{call-IsSound, late_call-IsSound}

module _ (d : Driver) (py : Objects) where
  pass_of-IsPool :
      (kind : PassKind) (random now later : ℕ) (c : Connection)
      → IsPool c.topology
      → IsPool (pass_of d py kind random now later c).0.topology
  pass_of-IsPool refreshing random now later c p = (passes-IsPass d py c random now later p).2.pool
  pass_of-IsPool rechecking random now later c p = (passes-IsPass d py c random now later p).0.pool
  pass_of-IsPool rediscovering random now later c p =
      (passes-IsPass d py c random now later p).1.pool

-- The registry and what waits to be closed are as they should.
abbrev pub IsWorld : World → Type 0
IsWorld s = IsSound s.registry s.closing s.late

module _ (d : Driver) (py : Objects) (transport : ℕ → Transport) (own_namespace : String) where
  pub Step-IsWorld : (s t : World) → IsWorld s → Step d py transport own_namespace s t → IsWorld t
  Step-IsWorld s t i (missed key spec nobody e) = subst IsWorld (sym e) i
  Step-IsWorld s t i (resumed before after key spec cspec now w r e) =
      subst IsWorld (sym e) (build-IsSound s.registry s.closing s.late i key cspec now)
  Step-IsWorld s t i (refused before after key spec message now w r e) = subst IsWorld (sym e) i
  Step-IsWorld s t i (passed key id kind random now later there e) = subst IsWorld (sym e) (
      change-IsSound s.registry s.closing s.late i key id _ there (
        pass_of-IsPool d py kind random now later (s.registry.heap id)
          (i.pools id (known_key s.registry s.closing s.late i key id there))))
  Step-IsWorld s t i (called id host n n' held chosen call e) =
      subst IsWorld (sym e)
        (call-IsSound s.registry s.closing s.late i d id host n n' held chosen call)
  Step-IsWorld s t i (called_late id host n n' known dropped out chosen call e) =
      subst IsWorld (sym e)
        (late_call-IsSound s.registry s.closing s.late i d id host n n' known chosen call)
  Step-IsWorld s t i (popped key id there e) =
      subst IsWorld (sym e) (pop-IsSound s.registry s.closing s.late i key id there)
  Step-IsWorld s t i (closed before after id c e) =
      subst IsWorld (sym e) (close-IsSound s.registry s.closing s.late i before after id c)
  Step-IsWorld s t i (cleared e) =
      subst IsWorld (sym e) (clear-IsSound s.registry s.closing s.late i)

  -- Whatever steps of handlers and queries come, in any order, the registry stays well-formed: a key
  -- has one connection and a connection one key, every pool is well-formed, what waits to be closed is
  -- not registered, and what is dropped and closed has no client unless a query has gone on with it.
  pub Reach-IsWorld : (s t : World) → IsWorld s → Reach d py transport own_namespace s t → IsWorld t
  Reach-IsWorld s t i here = i
  Reach-IsWorld s t i (next {t = u} run step) = Step-IsWorld u t (Reach-IsWorld s u i run) step

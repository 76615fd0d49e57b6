-- ===== src/Cluster/Node.antt =====
-- src/promch/clickhouse/node.py: one node, which owns its health. The client library is a
-- parameter, `Driver`: what it answers to a call at a host and a time, or which of the exceptions that
-- the code tells apart it raises; an exception of `connect` or `ping` that none of their handlers
-- names is left out. A client is only there or
-- not; closing one does not raise.
pub mod Health
use prometheus_ch_exporter.Prelude.{
  ℕ, ◌+◌, String, ◌<>◌, ◌≡◌, Bool, true, false, not, ◌&&◌, Option, none, some, List, [], ◌∷◌, map,
  ltb, if◌then◌else◌,
}
use prometheus_ch_exporter.Prelude.Result.{Result, ok, err}
use prometheus_ch_exporter.Dict.{Dict, put}
use prometheus_ch_exporter.Cells.{Cell, Row}

-- What a query of the driver raises, as the code tells it apart, with its text: OperationalError, any
-- other DatabaseError, the transport errors (OSError, TimeoutError), and every other exception.
pub data DriverError : Type 0 where
  operational database transport unexpected : (message : String) → DriverError

-- `QueryResultProtocol`
pub record ResultSet : Type 0 where
  pub column_names : List String
  pub result_rows : List (List Cell)

pub record Driver : Type 0 where
  -- A client, or the text of a DatabaseError or a transport error.
  pub connect : (host : String) (now : ℕ) → Result String (Unit {0})
  pub run : (host sql : String) (now : ℕ) → Result DriverError ResultSet
  -- An answer, or the text of an OperationalError or a transport error; where the server answers with
  -- an error, clickhouse_connect answers False and raises no DatabaseError.
  pub ping : (host : String) (now : ℕ) → Result String Bool

-- What `query` raises: NodeConnectionError and NodeQueryError of src/promch/clickhouse/errors.py, and an
-- exception of the driver that escapes it.
pub data NodeError : Type 0 where
  connection_error query_error escaped : (message : String) → NodeError

pub record Node : Type 0 where
  pub host : String
  pub alive : Bool
  pub in_cluster : Bool
  pub last_checked : Option ℕ
  pub last_error : Option String
  pub has_client : Bool
  pub last_used : ℕ

-- `__init__`
abbrev pub new_node : (host : String) (now : ℕ) → Node
new_node host now = record {
  host = host;
  alive = false;
  in_cluster = false;
  last_checked = none;
  last_error = none;
  has_client = false;
  last_used = now;
}

unfoldable pub mark_down : Node → (message : String) (now : ℕ) → Node
mark_down n message now = record n {
  alive = false;
  last_error = some message;
  last_checked = some now;
}

-- `_mark_used` is its last line.
unfoldable pub mark_alive : Node → (now : ℕ) → Node
mark_alive n now = record n {
  alive = true;
  last_error = none;
  last_checked = some now;
  last_used = now;
}

unfoldable pub drop_client : Node → Node
drop_client n = record n { has_client = false }

-- `row = dict(zip(columns, raw))`: a column that stands twice keeps its last value, and the longer
-- of the two lists is cut.
unfoldable pub zip_row : Row → List String → List Cell → Row
zip_row row [] raw = row
zip_row row (c ∷ columns) [] = row
zip_row row (c ∷ columns) (x ∷ raw) = zip_row (put row c x) columns raw

unfoldable pub rows_of : ResultSet → List Row
unfolding zip_row
rows_of r = map (zip_row [] r.column_names) r.result_rows

module _ (d : Driver) where
  -- `_ensure_client`: the node, and the text of the NodeConnectionError if no client could be made.
  unfoldable pub ensure_client : Node → (now : ℕ) → Node × Option String
  unfolding mark_down
  ensure_client n now = if n.has_client then (n, none) else elim (d.connect n.host now) [
    | ok _ ↦ (record n { has_client = true }, none)
    | err m ↦ (mark_down n m now, some (n.host <> (": connect failed: " <> m)))
  ]

  -- What `query` does with the answer of a client.
  unfoldable pub receive :
      Node → (now : ℕ) → Result DriverError ResultSet → Node × Result NodeError (List Row)
  unfolding mark_down mark_alive drop_client rows_of
  receive n now (ok r) = (mark_alive n now, ok (rows_of r))
  receive n now (err (operational m)) =
      (drop_client (mark_down n m now), err (connection_error (n.host <> (": " <> m))))
  receive n now (err (transport m)) =
      (drop_client (mark_down n m now), err (connection_error (n.host <> (": " <> m))))
  receive n now (err (database m)) = (n, err (query_error (n.host <> (": " <> m))))
  receive n now (err (unexpected m)) = (n, err (escaped m))

  unfoldable pub query : Node → (sql : String) (now : ℕ) → Node × Result NodeError (List Row)
  unfolding ensure_client receive
  query n sql now =
      let (n', failed) = ensure_client n now in
      elim failed [
        | some message ↦ (n', err (connection_error message))
        | none ↦ receive n' now (d.run n.host sql now)
      ]

  -- The Boolean that the client answers is not looked at.
  unfoldable pub ping : Node → (now : ℕ) → Node × Bool
  unfolding ensure_client mark_down mark_alive drop_client
  ping n now =
      let (n', failed) = ensure_client n now in
      elim failed [
        | some message ↦ (drop_client (mark_down n' message now), false)
        | none ↦ elim (d.ping n.host now) [
          | err message ↦ (drop_client (mark_down n' message now), false)
          | ok answer ↦ (mark_alive n' now, true)
        ]
      ]

-- More than `ttl` since the last use, and there is a client.
unfoldable pub is_idle : Node → (ttl now : ℕ) → Bool
is_idle n ttl now = n.has_client && ltb (n.last_used + ttl) now

unfoldable pub close : Node → Node
close n = record n { has_client = false }

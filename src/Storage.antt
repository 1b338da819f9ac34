-- ===== src/Storage.antt =====
-- core/go/internal/storage: the store of peers over a database, whose statements are an interface.
-- `store.go` chooses the driver, and `sqlite.go` writes and scans the rows.
pub mod Peers
use air_bridge5g.Prelude.{ℕ, Option, none, some, List, [], ◌∷◌, Bytes, codes, if◌then◌else◌}
use air_bridge5g.Prelude.Map.{str_eq}
use air_bridge5g.Prelude.Texts.{trim_space}
use air_bridge5g.Prelude.Result.{Result, ok, err, ◌>>=◌}
use air_bridge5g.Privacy.UserAgent.{to_lower, is_one_of}

pub data StoreError : Type 0 where
  database_error record_not_found bad_last_seen bad_metadata : StoreError
  backend_reserved unsupported_driver : StoreError

abbrev pub Metadata : Type 0
Metadata = List (Bytes × Bytes)

-- A time is a number of nanoseconds in UTC; `none` is a nil key, which the table does not take, or a
-- nil map.
pub record Peer : Type 0 where
  pub id : Bytes
  pub public_key : Option Bytes
  pub endpoint : Bytes
  pub last_seen : ℕ
  pub metadata : Option Metadata

-- A row of the table `peers`.
pub record Row : Type 0 where
  pub id : Bytes
  pub public_key : Option Bytes
  pub endpoint : Bytes
  pub last_seen : Bytes
  pub metadata : Bytes

-- The statements of sqlite.go on a database, `none` where one fails: the one that creates the table
-- where there is none, the insertion that updates on a conflict of the identity, the query of one
-- identity, which gives no row or one, and the query of all rows.
pub record Database (D : Type 0) : Type 0 where
  pub open_db : Bytes → Option D
  pub create_table : D → Option D
  pub insert_row : Row → D → Option D
  pub query_row : Bytes → D → Option (Option Row)
  pub query_rows : D → Option (List Row)

-- `json.Marshal` and `json.Unmarshal` of the metadata, and `Format` and `time.Parse` of the time.
pub record Codec : Type 0 where
  pub marshal : Option Metadata → Bytes
  pub unmarshal : Bytes → Option (Option Metadata)
  pub format : ℕ → Bytes
  pub parse : Bytes → Option ℕ

unfoldable pub or_empty : Option Metadata → Metadata
or_empty none = []
or_empty (some m) = m

module _ (codec : Codec) where
  -- The arguments of the insertion.
  unfoldable pub row_of : Peer → Row
  row_of p = record {
    id = p.id;
    public_key = p.public_key;
    endpoint = p.endpoint;
    last_seen = codec.format p.last_seen;
    metadata = codec.marshal p.metadata;
  }

  -- `scanPeer`
  unfoldable pub scan_peer : Row → Result StoreError Peer
  scan_peer r = elim (codec.parse r.last_seen) [
    | none ↦ err bad_last_seen
    | some seen ↦ elim (codec.unmarshal (if str_eq r.metadata [] then codes "{}" else r.metadata)) [
      | none ↦ err bad_metadata
      | some m ↦ ok (record {
        id = r.id;
        public_key = r.public_key;
        endpoint = r.endpoint;
        last_seen = seen;
        metadata = some (or_empty m);
      })
    ]
  ]

  -- The loop of `ListPeers` over the rows, which ends at the first one that cannot be scanned.
  unfoldable pub scan_rows : List Row → Result StoreError (List Peer)
  scan_rows [] = ok []
  scan_rows (r ∷ rows) = scan_peer r >>= λ p. scan_rows rows >>= λ peers. ok (p ∷ peers)

module _ {D : Type 0} (db : Database D) (codec : Codec) where
  -- `OpenSQLite`
  unfoldable pub open_sqlite : Bytes → Result StoreError D
  open_sqlite path = elim (db.open_db (if str_eq path [] then codes "securemesh.db" else path)) [
    | none ↦ err database_error
    | some d ↦ elim (db.create_table d) [ none ↦ err database_error | some d' ↦ ok d' ]
  ]

  -- `Open`
  unfoldable pub open_store : Bytes → Bytes → Result StoreError D
  open_store driver path =
      let name = to_lower (trim_space driver) in
      if is_one_of ([] ∷ codes "sqlite" ∷ []) name
      then open_sqlite path
      else if is_one_of (codes "badger" ∷ codes "badgerdb" ∷ codes "pebble" ∷ codes "pebbledb" ∷ [])
          name
      then err backend_reserved
      else err unsupported_driver

  unfoldable pub put_peer : Peer → D → Option StoreError × D
  put_peer p d = elim (db.insert_row (row_of codec p) d) [
    | none ↦ (some database_error, d)
    | some d' ↦ (none, d')
  ]

  unfoldable pub get_peer : Bytes → D → Result StoreError Peer
  get_peer id d = elim (db.query_row id d) [
    | none ↦ err database_error
    | some none ↦ err record_not_found
    | some (some r) ↦ scan_peer codec r
  ]

  unfoldable pub list_peers : D → Result StoreError (List Peer)
  list_peers d = elim (db.query_rows d) [
    | none ↦ err database_error
    | some rows ↦ scan_rows codec rows
  ]

-- ===== src/Tests/Store.antt =====
-- A database on which the store of core/go/internal/storage can be run, and a peer in it.
use air_bridge5g.Prelude.{
  ◌≡◌, refl, ◌⊎◌, false, none, some, List, [], ◌∷◌, arith, Bytes, codes, if◌then◌else◌,
}
use air_bridge5g.Prelude.Map.{str_eq, str_eq_iff, str_eq_refl}
use air_bridge5g.Prelude.Result.{ok, err}
use air_bridge5g.Storage.{
  Peer, StoreError, Row, Database, Codec, row_of, put_peer, get_peer, list_peers,
}
use air_bridge5g.Storage.Peers.{
  find_row, find_peer, IsTable, IsReadable, IsUnscanned, filled, get_peer-put_peer,
}

unfoldable remove : Bytes → List Row → List Row
remove id [] = []
remove id (r ∷ rows) = let rest = remove id rows in if str_eq r.id id then rest else r ∷ rest

abbrev rows_db : Database (List Row)
rows_db = record {
  open_db = λ path. some [];
  create_table = λ rows. some rows;
  insert_row = λ r rows. some (r ∷ remove r.id rows);
  query_row = λ id rows. some (find_row id rows);
  query_rows = λ rows. some rows;
}

find_row-remove :
    (id other : Bytes) (rows : List Row)
    → str_eq id other ≡ false
    → find_row other (remove id rows) ≡ find_row other rows
unfolding remove find_row
find_row-remove id other [] h = refl
find_row-remove id other (r ∷ rows) h =
    ground (arith, find_row-remove id other rows h, str_eq_iff r.id id, h)

rows_db-inserted :
    (r : Row) (d d' : List Row)
    → rows_db.insert_row r d ≡ some d'
    → rows_db.query_row r.id d' ≡ some (some r)
unfolding find_row
rows_db-inserted r d d' e = ground (arith, e, str_eq_refl r.id)

rows_db-kept :
    (r : Row) (id : Bytes) (d d' : List Row)
    → rows_db.insert_row r d ≡ some d'
    → str_eq r.id id ≡ false
    → rows_db.query_row id d' ≡ rows_db.query_row id d
unfolding find_row
rows_db-kept r id d d' e ne = ground (arith, e, find_row-remove r.id id d ne)

rows_db-listed :
    (d rows : List Row) (id : Bytes)
    → rows_db.query_rows d ≡ some rows
    → rows_db.query_row id d ≡ some (find_row id rows)
rows_db-listed d rows id e = ground (arith, e)

rows_db-IsTable : IsTable rows_db
rows_db-IsTable = record {
  inserted = rows_db-inserted;
  kept = rows_db-kept;
  listed = rows_db-listed;
}

abbrev codec : Codec
codec = record {
  marshal = λ m. codes "null";
  unmarshal = λ text. some none;
  format = λ t. t ∷ [];
  parse = λ text. elim text [ [] ↦ none | t ∷ ts ↦ some t ];
}

abbrev peer : Peer
peer = record {
  id = codes "b";
  public_key = some (codes "key");
  endpoint = codes "10.0.0.9:4433";
  last_seen = 7;
  metadata = none;
}

peer-IsReadable : IsReadable codec peer
peer-IsReadable = record { not_empty = λ e. ground (arith, e); json = refl; time = refl }

abbrev other_row : Row
other_row = row_of codec (record peer { id = codes "a" })

abbrev after : List Row
after = (put_peer rows_db codec peer (other_row ∷ [])).1

no_error : (put_peer rows_db codec peer (other_row ∷ [])).0 ≡ none
unfolding put_peer
no_error = refl

get_peer-put_peer_example :
    (get_peer rows_db codec peer.id after ≡ ok (filled peer))
    × (get_peer rows_db codec (codes "a") after ≡ (
        if str_eq peer.id (codes "a")
        then ok (filled peer)
        else get_peer rows_db codec (codes "a") (other_row ∷ [])))
    × (((x : StoreError) × (list_peers rows_db codec after ≡ err x)
          × ((rows_db.query_rows after ≡ none)
              ⊎ ((rows : List Row) × (rows_db.query_rows after ≡ some rows)
                  × IsUnscanned codec x rows)))
        ⊎ ((peers : List Peer) × (list_peers rows_db codec after ≡ ok peers)
            × (find_peer peer.id peers ≡ some (filled peer))))
get_peer-put_peer_example =
    get_peer-put_peer rows_db codec peer (codes "a") (other_row ∷ []) rows_db-IsTable
      peer-IsReadable no_error

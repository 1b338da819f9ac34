-- ===== src/Storage/Peers.antt =====
-- What core/go/internal/storage/sqlite.go gives back of the peers that were put into the store.
use air_bridge5g.Prelude.{
  ◌≡◌, sym, ◌∙◌, ◌≢◌, refl, ◌⊎◌, inl, inr, false, Option, none, some, List, [], ◌∷◌, arith, Bytes,
  if◌then◌else◌, Bool-cases, Option-cases,
}
use air_bridge5g.Prelude.Map.{str_eq, str_eq_iff}
use air_bridge5g.Prelude.Result.{Result, ok, err, ◌>>=◌, chain_ok}
use air_bridge5g.Storage.{
  Peer, StoreError, Row, Database, Codec, row_of, or_empty, scan_peer, scan_rows, put_peer,
  get_peer, list_peers,
}

-- The row of an identity among some rows.
unfoldable pub find_row : Bytes → List Row → Option Row
find_row id [] = none
find_row id (r ∷ rows) = if str_eq r.id id then some r else find_row id rows

unfoldable pub find_peer : Bytes → List Peer → Option Peer
find_peer id [] = none
find_peer id (p ∷ peers) = if str_eq p.id id then some p else find_peer id peers

-- What SQL says of the statements: an insertion is what a query of its identity gives from then on,
-- it leaves what the queries of other identities give, and the query of all rows has for each
-- identity what its own query gives.
pub record IsTable {D : Type 0} (db : Database D) : Type 0 where
  pub inserted :
      (r : Row) (d d' : D) → db.insert_row r d ≡ some d' → db.query_row r.id d' ≡ some (some r)
  pub kept :
      (r : Row) (id : Bytes) (d d' : D)
      → db.insert_row r d ≡ some d'
      → str_eq r.id id ≡ false
      → db.query_row id d' ≡ db.query_row id d
  pub listed :
      (d : D) (rows : List Row) (id : Bytes)
      → db.query_rows d ≡ some rows
      → db.query_row id d ≡ some (find_row id rows)

-- The encodings of a peer can be read back, and its JSON text is not empty.
pub record IsReadable (codec : Codec) (p : Peer) : Type 0 where
  pub not_empty : codec.marshal p.metadata ≢ []
  pub json : codec.unmarshal (codec.marshal p.metadata) ≡ some p.metadata
  pub time : codec.parse (codec.format p.last_seen) ≡ some p.last_seen

-- A peer with a map for its metadata.
abbrev pub filled : Peer → Peer
filled p = record p { metadata = some (or_empty p.metadata) }

str_eq-nil : (bs : Bytes) → bs ≢ [] → str_eq bs [] ≡ false
str_eq-nil bs h = elim (Bool-cases (str_eq bs [])) [
  | inl e ↦ absurd (h ((str_eq_iff bs []).0 e))
  | inr e ↦ e
]

scan_peer-row_of :
    (codec : Codec) (p : Peer)
    → IsReadable codec p
    → scan_peer codec (row_of codec p) ≡ ok (filled p)
unfolding scan_peer row_of
scan_peer-row_of codec p c =
    ground (arith, str_eq-nil (codec.marshal p.metadata) c.not_empty, c.json, c.time)

scan_peer-id : (codec : Codec) (r : Row) (p : Peer) → scan_peer codec r ≡ ok p → p.id ≡ r.id
unfolding scan_peer
scan_peer-id codec r p e = ground (arith, e)

ok_lem : {E A : Type 0} {x y : A} → Path (Result E A) (ok x) (ok y) → x ≡ y
ok_lem e = ground (arith, e)

-- The rows that are scanned have the identities of the peers.
scan_rows-find :
    (codec : Codec) (rows : List Row) (peers : List Peer) (id : Bytes) (r : Row) (p : Peer)
    → scan_rows codec rows ≡ ok peers
    → find_row id rows ≡ some r
    → scan_peer codec r ≡ ok p
    → find_peer id peers ≡ some p
unfolding scan_rows find_row find_peer
scan_rows-find codec [] peers id r p e f g = absurd (ground (arith, f))
scan_rows-find codec (q ∷ rows) peers id r p e f g =
    let (x, ex, h) =
      chain_ok (scan_peer codec q) (λ p. scan_rows codec rows >>= λ peers. ok (p ∷ peers)) e in
    let (xs, exs, k) = chain_ok (scan_rows codec rows) (λ peers. ok (x ∷ peers)) h in
    let n = scan_peer-id codec q x ex in
    rw (sym (ok_lem k)) (elim (Bool-cases (str_eq q.id id)) [
      | inl m ↦ ground (arith, m, n, f, g, ex)
      | inr m ↦ ground (arith, m, n, f, scan_rows-find codec rows xs id r p exs)
    ])

put_peer-none :
    {D : Type 0} (db : Database D) (codec : Codec) (p : Peer) (d : D)
    → (put_peer db codec p d).0 ≡ none
    → db.insert_row (row_of codec p) d ≡ some (put_peer db codec p d).1
unfolding put_peer
put_peer-none db codec p d e = elim (Option-cases (db.insert_row (row_of codec p) d)) [
  | inl i ↦ ground (arith, e, i)
  | inr (d', i) ↦ ground (arith, i)
]

list_peers-ok :
    {D : Type 0} (db : Database D) (codec : Codec) (d : D) (peers : List Peer)
    → list_peers db codec d ≡ ok peers
    → (rows : List Row) × (db.query_rows d ≡ some rows) × (scan_rows codec rows ≡ ok peers)
unfolding list_peers
list_peers-ok db codec d peers l = elim (Option-cases (db.query_rows d)) [
  | inl i ↦ absurd (ground (arith, l, i))
  | inr (rows, i) ↦ (rows, i, ground (arith, l, i))
]

get_peer-row :
    {D : Type 0} (db : Database D) (codec : Codec) (id : Bytes) (d : D) (r : Row)
    → db.query_row id d ≡ some (some r)
    → get_peer db codec id d ≡ scan_peer codec r
unfolding get_peer
get_peer-row db codec id d r e = ground (arith, e)

get_peer-kept :
    {D : Type 0} (db : Database D) (codec : Codec) (id : Bytes) (d d' : D)
    → db.query_row id d' ≡ db.query_row id d
    → get_peer db codec id d' ≡ get_peer db codec id d
unfolding get_peer
get_peer-kept db codec id d d' e = ground (arith, e)

some_lem : {A : Type 0} {x y : A} → some x ≡ some y → x ≡ y
some_lem e = ground (arith, e)

Result-cases : {E A : Type 0} (r : Result E A) → ((e : E) × (r ≡ err e)) ⊎ ((x : A) × (r ≡ ok x))
Result-cases (err e) = inl (e, refl)
Result-cases (ok x) = inr (x, refl)

-- A row of them that cannot be scanned, with this error.
abbrev pub IsUnscanned : Codec → StoreError → List Row → Type 0
IsUnscanned codec x [] = ⊥
IsUnscanned codec x (r ∷ rows) = (scan_peer codec r ≡ err x) ⊎ IsUnscanned codec x rows

scan_rows-IsUnscanned :
    (codec : Codec) (rows : List Row) (x : StoreError)
    → scan_rows codec rows ≡ err x
    → IsUnscanned codec x rows
unfolding scan_rows
scan_rows-IsUnscanned codec [] x e = absurd (ground (arith, e))
scan_rows-IsUnscanned codec (r ∷ rows) x e = elim (Result-cases (scan_peer codec r)) [
  | inl (y, g) ↦ inl (ground (arith, e, g))
  | inr (p, g) ↦ elim (Result-cases (scan_rows codec rows)) [
    | inl (y, h) ↦ inr (scan_rows-IsUnscanned codec rows x (ground (arith, e, g, h)))
    | inr (ps, h) ↦ absurd (ground (arith, e, g, h))
  ]
]

-- What a list of the peers that is no list is due to.
list_peers-err :
    {D : Type 0} (db : Database D) (codec : Codec) (d : D) (x : StoreError)
    → list_peers db codec d ≡ err x
    → (db.query_rows d ≡ none)
      ⊎ ((rows : List Row) × (db.query_rows d ≡ some rows) × IsUnscanned codec x rows)
unfolding list_peers
list_peers-err db codec d x l = elim (Option-cases (db.query_rows d)) [
  | inl i ↦ inl i
  | inr (rows, i) ↦ inr (rows, i, scan_rows-IsUnscanned codec rows x (ground (arith, l, i)))
]

-- Take a database whose statements do what SQL says, and a peer whose encodings can be read back. After
-- `PutPeer` has answered nil for a peer, `GetPeer` of its identity gives that peer, with an empty map
-- where its metadata was nil; `GetPeer` of any other identity gives what it gave before; and
-- `ListPeers` gives a list in which the first peer of that identity is that peer, or an error, which
-- it does only where the query of all rows fails or one of them cannot be scanned.
pub get_peer-put_peer :
    {D : Type 0} (db : Database D) (codec : Codec) (p : Peer) (id : Bytes) (d : D)
    → IsTable db
    → IsReadable codec p
    → (put_peer db codec p d).0 ≡ none
    → let d' = (put_peer db codec p d).1 in
      (get_peer db codec p.id d' ≡ ok (filled p))
      × (get_peer db codec id d'
          ≡ (if str_eq p.id id then ok (filled p) else get_peer db codec id d))
      × (((x : StoreError) × (list_peers db codec d' ≡ err x)
            × ((db.query_rows d' ≡ none)
                ⊎ ((rows : List Row) × (db.query_rows d' ≡ some rows) × IsUnscanned codec x rows)))
          ⊎ ((peers : List Peer) × (list_peers db codec d' ≡ ok peers)
              × (find_peer p.id peers ≡ some (filled p))))
unfolding row_of
get_peer-put_peer db codec p id d t c e =
    let d' = (put_peer db codec p d).1 in
    let i = put_peer-none db codec p d e in
    let q = t.inserted (row_of codec p) d d' i in
    let s = scan_peer-row_of codec p c in
    let g = get_peer-row db codec p.id d' (row_of codec p) q ∙ s in
    (
      g,
      elim (Bool-cases (str_eq p.id id)) [
        | inl m ↦ rw m (rw (← (str_eq_iff p.id id).0 m) g)
        | inr m ↦ rw m (get_peer-kept db codec id d d' (t.kept (row_of codec p) id d d' i m))
      ],
      elim (Result-cases (list_peers db codec d')) [
        | inl (x, l) ↦ inl (x, l, list_peers-err db codec d' x l)
        | inr (peers, l) ↦
            let (rows, rs, sc) = list_peers-ok db codec d' peers l in
            let f = some_lem (sym (t.listed d' rows p.id rs) ∙ q) in
            inr (peers, l, scan_rows-find codec rows peers p.id (row_of codec p) (filled p) sc f s)
      ],
    )

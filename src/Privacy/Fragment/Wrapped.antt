-- ===== src/Privacy/Fragment/Wrapped.antt =====
-- The records that `fragmentTLSRecord` of core/go/internal/privacy/fragment.go emits.
use air_bridge5g.Prelude.{
  ℕ, zero, suc, ◌+◌, ◌≤◌, ◌<◌, ◌≡◌, List, [], ◌∷◌, Bytes, arith, length, All, get_or,
}
use air_bridge5g.Privacy.Fragment.{Fragmenter, tls_record}
use air_bridge5g.Privacy.Fragment.Tls.{record_len, max_payload, wrap_like}
use air_bridge5g.Privacy.Fragment.Chunks.{Sized}
use air_bridge5g.Privacy.Fragment.Lossless.{IsValid}

abbrev pub IsByte : ℕ → Type 0
IsByte b = b < 256

-- An emitted record states the length of the chunk that it holds.
pub record_len-tls_record :
    (t a b : ℕ) (chunk : Bytes)
    → length chunk < 65536
    → record_len (tls_record t a b chunk) ≡ length chunk
unfolding tls_record
record_len-tls_record t a b chunk h = omega arith

pub length-wrap_like : (payload chunk : Bytes) → length (wrap_like payload chunk) ≡ 5 + length chunk
unfolding tls_record
length-wrap_like payload chunk = omega arith

-- What holds of each chunk of a record: its size, and that of the record around it.
abbrev pub IsChunk : Fragmenter → Bytes → Bytes → Type 0
IsChunk f payload chunk =
    Sized (max_payload f) chunk
    × (record_len (wrap_like payload chunk) ≡ length chunk)
    × (length (wrap_like payload chunk) ≤ f.max_len)

pub sized_chunk_lem :
    (f : Fragmenter) (payload chunk : Bytes)
    → IsValid f
    → Sized (max_payload f) chunk
    → length chunk < 65536
    → IsChunk f payload chunk
sized_chunk_lem f payload chunk v z h =
    (z, record_len-tls_record _ _ _ chunk h, unfold tls_record in ground arith)

pub All-IsChunk :
    (f : Fragmenter) (payload : Bytes) (n : ℕ) (chunks : List Bytes)
    → IsValid f
    → n < 65536
    → All (Sized (max_payload f)) chunks
    → All (λ c. length c ≤ n) chunks
    → All (IsChunk f payload) chunks
All-IsChunk f payload n [] v h z k = tt
All-IsChunk f payload n (c ∷ cs) v h z k =
    (sized_chunk_lem f payload c v z.0 (omega arith), All-IsChunk f payload n cs v h z.1 k.1)

pub get_or-IsByte : (payload : Bytes) (i : ℕ) → All IsByte payload → get_or payload i 0 < 256
get_or-IsByte [] i h = omega arith
get_or-IsByte (b ∷ bs) zero h = h.0
get_or-IsByte (b ∷ bs) (suc i) h = get_or-IsByte bs i h.1

pub record_len-lt : (payload : Bytes) → All IsByte payload → record_len payload < 65536
record_len-lt payload h = omega (arith, get_or-IsByte payload 3 h, get_or-IsByte payload 4 h)

-- ===== src/Privacy/Fragment/Tls.antt =====
-- core/go/internal/privacy/fragment.go: `fragmentTLSRecord`, and `Fragment`, which dispatches.
use air_bridge5g.Prelude.{
  ℕ, suc, ◌+◌, ◌-◌, ◌*◌, Bool, not, ◌||◌, Option, some, List, ◌∷◌, [], ◌++◌, Bytes, ltb, ◌==◌,
  if◌then◌else◌, length, get_or, slice, drop,
}
use air_bridge5g.Prelude.Result.{Result, ok, err}
use air_bridge5g.Privacy.Fragment.{
  Fragmenter, FragmentStrategy, fixed, random, tls_split, other, FragmentError, empty_payload,
  count_fragments, count_bytes, count_tls_record, tls_record_header_len, tls_content_type_handshake,
  tls_content_type_app_data, fragment_fixed, fragment_random, tls_record, tls_loop,
}
use mathlib.Core.Option

-- `int(payload[3])<<8 | int(payload[4])`: the shifted byte has no bit in common with the other.
abbrev pub record_len : Bytes → ℕ
record_len payload = get_or payload 3 0 * 256 + get_or payload 4 0

abbrev pub is_split_type : ℕ → Bool
is_split_type t = t == tls_content_type_handshake || t == tls_content_type_app_data

-- The payload bytes of one emitted record, at least 1.
abbrev pub max_payload : Fragmenter → ℕ
max_payload f = let room = f.max_len - tls_record_header_len in if ltb room 1 then 1 else room

abbrev pub wrap_like : Bytes → Bytes → Bytes
wrap_like payload = tls_record (get_or payload 0 0) (get_or payload 1 0) (get_or payload 2 0)

module _ {S : Type 0} (rand_int : ℕ → S → Option ℕ × S) where
  -- The data behind the record, and the counters.
  unfoldable pub split_rest :
      Fragmenter → List Bytes → Bytes → S → Option (List Bytes × Fragmenter × S)
  split_rest f frags remaining s =
      Option.map (λ (all, g, s'). (all, count_tls_record (count_fragments g all), s'))
        (if ltb 0 (length remaining)
          then Option.map (λ (extra, g, s'). (frags ++ extra, g, s'))
              (fragment_random rand_int f remaining s)
          else some (frags, f, s))

  -- `fragmentTLSRecord` from line 206 on, for a whole record.
  unfoldable pub split_record : Fragmenter → Bytes → S → Option (List Bytes × Fragmenter × S)
  unfolding split_rest
  split_record f payload s =
      let end = tls_record_header_len + record_len payload in
      let body = slice payload tls_record_header_len end in
      Option.bind
        (tls_loop rand_int (suc (length body)) (wrap_like payload) (max_payload f) body 0 s)
        (λ (frags, s'). split_rest f frags (drop end payload) s')

  unfoldable pub fragment_tls : Fragmenter → Bytes → S → Option (List Bytes × Fragmenter × S)
  fragment_tls f payload s =
      if ltb (length payload) tls_record_header_len
      then fragment_random rand_int f payload s
      else if not (is_split_type (get_or payload 0 0))
      then fragment_random rand_int f payload s
      else if ltb (length payload) (tls_record_header_len + record_len payload)
      then fragment_random rand_int f payload s
      else split_record f payload s

  abbrev fixed_strategy : Fragmenter → Bytes → S → Option (List Bytes × Fragmenter × S)
  fixed_strategy f payload s = Option.map (λ (frags, g). (frags, g, s)) (fragment_fixed f payload)

  unfoldable pub by_strategy :
      FragmentStrategy → Fragmenter → Bytes → S → Option (List Bytes × Fragmenter × S)
  by_strategy fixed f payload s = fixed_strategy f payload s
  by_strategy random f payload s = fragment_random rand_int f payload s
  by_strategy tls_split f payload s = fragment_tls f payload s
  by_strategy other f payload s = fixed_strategy f payload s

  -- `Fragment`; an outer `none` means that a loop's fuel ran out.
  unfoldable pub fragment :
      Fragmenter → Bytes → S → Option (Result FragmentError (List Bytes) × Fragmenter × S)
  unfolding by_strategy
  fragment f payload s =
      if not f.enabled
      then some (ok (payload ∷ []), f, s)
      else if length payload == 0
      then some (err empty_payload, f, s)
      else Option.map (λ (frags, g, s'). (ok frags, g, s'))
          (by_strategy f.strategy (count_bytes f payload) payload s)

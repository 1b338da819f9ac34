-- ===== src/Tests/Privacy.antt =====
-- Concrete inputs of core/go/internal/privacy.
use air_bridge5g.Prelude.{
  ℕ, zero, suc, ◌+◌, ◌<◌, ◌≡◌, refl, inl, true, false, some, List, [], ◌∷◌, ◌++◌, map, arith, Bytes,
  codes, if◌then◌else◌, get_or, take, drop, slice, concat, All,
}
use air_bridge5g.Tests.Samples.{draw, draw_lt}
use air_bridge5g.Prelude.Result.{ok}
use air_bridge5g.Privacy.Fragment.{
  Fragmenter, no_stats, fixed, tls_split, count_bytes, count_fragments,
}
use air_bridge5g.Privacy.Fragment.Tls.{fragment}
use air_bridge5g.Privacy.Fragment.Chunks.{Sized}
use air_bridge5g.Privacy.Fragment.Lossless.{IsValid, fragment_lossless}
use air_bridge5g.Privacy.Fragment.Records.{record_of, stated_len, IsContent, fragment_tls_records}
use air_bridge5g.Privacy.Fragment.Wrapped.{IsByte}
use air_bridge5g.Privacy.Ttl.{Normalizer, new_ttl_normalizer, normalize_packet, ihl_of}
use air_bridge5g.Privacy.Ttl.Checksum.{IsChecked}
use air_bridge5g.Privacy.Ttl.Normalize.{IsIpv4, SameButTtl, counted_ipv4, normalize_packet-ipv4}
use air_bridge5g.Prelude.Map.{str_eq}
use air_bridge5g.Privacy.UserAgent.{
  HeaderMap, UaHarmonizer, harmonize, get_header, is_desktop_ua, to_lower, contains_any, contains,
  has_prefix, user_agent, sec_ch_ua, sec_ch_ua_mobile, sec_ch_ua_platform, chrome_mobile,
  mobile_brands,
}
use air_bridge5g.Privacy.UserAgent.Headers.{names, kept, harmonize-get_header}

abbrev pub small : Fragmenter
small = record { strategy = fixed; max_len = 64; min_len = 1; enabled = true; stats = no_stats }

abbrev pub repeat_byte : ℕ → ℕ → Bytes
repeat_byte zero b = []
repeat_byte (suc n) b = b ∷ repeat_byte n b

abbrev payload : Bytes
payload = repeat_byte 100 7

pub small-IsValid : IsValid small
small-IsValid = record { min_pos = omega arith; min_le_max = omega arith; max_large = omega arith }

fragment_lossless_example :
    (frags : List Bytes) × (s' : Unit {0}) × (fragment draw small payload tt
      ≡ some (ok frags, count_fragments (count_bytes small payload) frags, s'))
    × (concat frags ≡ payload)
    × All (Sized 64) frags
fragment_lossless_example =
    fragment_lossless draw draw_lt small payload tt small-IsValid refl (λ e. cc) (λ e. cc)

-- A handshake record of 100 bytes, and a byte behind it.
abbrev pub hello : Bytes
hello = 22 ∷ 3 ∷ 1 ∷ 0 ∷ 100 ∷ repeat_byte 101 9

abbrev pub splitter : Fragmenter
splitter = record small { strategy = tls_split }

pub splitter-IsValid : IsValid splitter
splitter-IsValid = record {
  min_pos = omega arith;
  min_le_max = omega arith;
  max_large = omega arith;
}

pub bytes_below : (n b : ℕ) → b < 256 → All IsByte (repeat_byte n b)
bytes_below zero b h = tt
bytes_below (suc n) b h = (h, bytes_below n b h)

fragment_tls_records_example :
    (contents : List Bytes) × (extra : List Bytes) × (g : Fragmenter) × (s' : Unit {0}) × (fragment
        draw splitter hello tt
      ≡ some (ok (map (record_of hello) contents ++ extra), g, s'))
    × (concat contents ≡ slice hello 5 (5 + stated_len hello))
    × All (IsContent splitter) contents
    × (concat extra ≡ drop (5 + stated_len hello) hello)
    × All (Sized 64) extra
fragment_tls_records_example =
    fragment_tls_records draw draw_lt splitter hello tt splitter-IsValid refl refl (inl refl)
      (
        omega arith,
        (omega arith, (omega arith, (omega arith, (omega arith, bytes_below 101 9 (omega arith))))),
      )
      (omega arith)

abbrev pub normalizer : Normalizer
normalizer = new_ttl_normalizer (record { target_ttl = 64; enabled = true })

-- A header of 20 bytes with a TTL of 128.
abbrev pub packet : Bytes
packet = 69 ∷ 0 ∷ 0 ∷ 20 ∷ 0 ∷ 1 ∷ 0 ∷ 0 ∷ 128 ∷ 6 ∷ 0 ∷ 0 ∷ 10 ∷ 0 ∷ 0 ∷ 1 ∷ 10 ∷ 0 ∷ 0 ∷ 2 ∷ []

packet-IsIpv4 : IsIpv4 packet
packet-IsIpv4 = record {
  version = omega arith;
  header_min = omega arith;
  header_fits = omega arith;
}

packet-bytes : All IsByte packet
packet-bytes = ground arith

normalize_packet-ipv4_example :
    (q : Bytes) × (normalize_packet normalizer packet
      ≡ (counted_ipv4 normalizer packet, q, ok (get_or packet 8 0)))
    × (get_or q 8 0 ≡ 64)
    × SameButTtl packet q
    × IsChecked (take (ihl_of packet) q)
unfolding new_ttl_normalizer
normalize_packet-ipv4_example =
    normalize_packet-ipv4 normalizer packet refl (omega arith) packet-IsIpv4 packet-bytes
      (omega arith)

abbrev pub harmonizer : UaHarmonizer
harmonizer = record {
  target_ua = chrome_mobile;
  strip_headers = sec_ch_ua_platform ∷ codes "X-Requested-With" ∷ [];
  strip_client_hints = true;
  enabled = true;
  requests_processed = 0;
  requests_modified = 0;
  headers_stripped = 0;
}

abbrev pub desktop : HeaderMap
desktop =
    (user_agent, codes "Mozilla/5.0 (X11; Linux x86_64)" ∷ [])
    ∷ (sec_ch_ua_platform, codes "\"Linux\"" ∷ [])
    ∷ (sec_ch_ua, codes "x" ∷ [])
    ∷ []

harmonize-get_header_example : get_header user_agent (harmonize harmonizer desktop).1 ≡ (
    if str_eq (kept harmonizer desktop sec_ch_ua) []
    then kept harmonizer desktop user_agent
    else if names sec_ch_ua_platform user_agent
    then codes "\"Android\""
    else if names sec_ch_ua_mobile user_agent
    then codes "?1"
    else if names sec_ch_ua user_agent
    then mobile_brands
    else kept harmonizer desktop user_agent)
harmonize-get_header_example = harmonize-get_header harmonizer desktop user_agent refl refl

mobile_target : is_desktop_ua chrome_mobile ≡ false
unfolding is_desktop_ua to_lower contains_any contains has_prefix
mobile_target = refl

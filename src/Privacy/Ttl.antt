-- ===== src/Privacy/Ttl.antt =====
-- core/go/internal/privacy/ttl.go: the TTL normalizer. A packet is the list of its bytes; a method
-- that writes into the packet returns it.
pub mod Checksum
pub mod Normalize
use air_bridge5g.Prelude.{
  ℕ, zero, suc, ◌+◌, ◌-◌, ◌*◌, ◌/◌, ◌%◌, ◌^◌, Bool, true, false, not, ◌&&◌, ◌||◌, List, [], ◌∷◌,
  ◌++◌, Bytes, ltb, leb, ◌==◌, if◌then◌else◌, length, get_or, set, take, drop,
}
use air_bridge5g.Prelude.Int.{add64}
use air_bridge5g.Prelude.Result.{Result, ok, err}

abbrev pub default_target_ttl : ℕ
default_target_ttl = 64

abbrev pub ipv4_min_header_len : ℕ
ipv4_min_header_len = 20

abbrev pub ipv6_min_header_len : ℕ
ipv6_min_header_len = 40

abbrev pub ipv4_ttl_offset : ℕ
ipv4_ttl_offset = 8

abbrev pub ipv4_checksum_offset : ℕ
ipv4_checksum_offset = 10

abbrev pub ipv6_hop_limit_offset : ℕ
ipv6_hop_limit_offset = 7

pub data TtlError : Type 0 where
  packet_too_short not_ip_packet : TtlError

-- The counters are int64 bit patterns; `original_ttls` is the map from a TTL to its count.
pub record TtlStats : Type 0 where
  pub packets_processed : ℕ
  pub packets_modified : ℕ
  pub ipv4_packets : ℕ
  pub ipv6_packets : ℕ
  pub original_ttls : List (ℕ × ℕ)

pub record Normalizer : Type 0 where
  pub target_ttl : ℕ
  pub enabled : Bool
  pub stats : TtlStats

pub record TtlNormalizerConfig : Type 0 where
  pub target_ttl : ℕ
  pub enabled : Bool

unfoldable pub new_ttl_normalizer : TtlNormalizerConfig → Normalizer
new_ttl_normalizer cfg = record {
  target_ttl = if cfg.target_ttl == 0 then default_target_ttl else cfg.target_ttl;
  enabled = cfg.enabled;
  stats = record {
    packets_processed = 0;
    packets_modified = 0;
    ipv4_packets = 0;
    ipv6_packets = 0;
    original_ttls = [];
  };
}

-- `LoadOrStore` of a zero counter, and `Add(1)` on it.
unfoldable pub record_original_ttl : ℕ → List (ℕ × ℕ) → List (ℕ × ℕ)
record_original_ttl ttl [] = (ttl, 1) ∷ []
record_original_ttl ttl ((t, n) ∷ m) =
    if t == ttl then (t, add64 n 1) ∷ m else (t, n) ∷ record_original_ttl ttl m

-- The sum of the header's big-endian words, as a uint32; an odd last byte is a word's high byte.
unfoldable pub word_sum : ℕ → Bytes → ℕ
word_sum sum [] = sum
word_sum sum (a ∷ []) = (sum + a * 256) % 2 ^ 32
word_sum sum (a ∷ b ∷ rest) = word_sum ((sum + (a * 256 + b)) % 2 ^ 32) rest

-- `for sum > 0xFFFF`; `fold_rounds` rounds are enough for a uint32.
unfoldable pub fold_sum : ℕ → ℕ → ℕ
fold_sum zero sum = sum
fold_sum (suc fuel) sum = elim (ltb 0xFFFF sum) [
  | true ↦ fold_sum fuel (sum / 65536 + sum % 65536)
  | false ↦ sum
]

abbrev pub fold_rounds : ℕ
fold_rounds = 2

abbrev pub zero_checksum : Bytes → Bytes
zero_checksum header = set (set header ipv4_checksum_offset 0) (ipv4_checksum_offset + 1) 0

-- `^uint16(sum)`
abbrev pub complement16 : ℕ → ℕ
complement16 sum = 65535 - sum % 65536

abbrev pub put_checksum : Bytes → ℕ → Bytes
put_checksum header c =
    set (set header ipv4_checksum_offset (c / 256)) (ipv4_checksum_offset + 1) (c % 256)

unfoldable pub header_checksum : Bytes → ℕ
header_checksum header = complement16 (fold_sum fold_rounds (word_sum 0 (zero_checksum header)))

unfoldable pub recalc_ipv4_checksum : Bytes → Bytes
unfolding header_checksum
recalc_ipv4_checksum header = put_checksum (zero_checksum header) (header_checksum header)

abbrev pub note_ttl : Normalizer → ℕ → Normalizer
note_ttl n ttl = record n {
  stats = record n.stats { original_ttls = record_original_ttl ttl n.stats.original_ttls };
}

abbrev pub count_modified : Normalizer → Normalizer
count_modified n = record n {
  stats = record n.stats { packets_modified = add64 n.stats.packets_modified 1 };
}

abbrev pub count_ipv4 : Normalizer → Normalizer
count_ipv4 n = record n { stats = record n.stats { ipv4_packets = add64 n.stats.ipv4_packets 1 } }

abbrev pub count_ipv6 : Normalizer → Normalizer
count_ipv6 n = record n { stats = record n.stats { ipv6_packets = add64 n.stats.ipv6_packets 1 } }

abbrev pub Outcome : Type 0
Outcome = Normalizer × Bytes × Result TtlError ℕ

-- `int(packet[0]&0x0F) * 4`
abbrev pub ihl_of : Bytes → ℕ
ihl_of packet = get_or packet 0 0 % 16 * 4

-- The header up to `ihl` is rewritten in place.
abbrev pub rewrite_ipv4 : Bytes → ℕ → Bytes
rewrite_ipv4 packet target =
    let p = set packet ipv4_ttl_offset target in
    recalc_ipv4_checksum (take (ihl_of packet) p) ++ drop (ihl_of packet) p

unfoldable pub normalize_ipv4 : Normalizer → Bytes → Outcome
normalize_ipv4 n packet =
    let ttl = get_or packet ipv4_ttl_offset 0 in
    let noted = note_ttl (count_ipv4 n) ttl in
    if ltb (length packet) ipv4_min_header_len
    then (n, packet, err packet_too_short)
    else if ltb (ihl_of packet) ipv4_min_header_len || ltb (length packet) (ihl_of packet)
    then (count_ipv4 n, packet, err packet_too_short)
    else if ttl == n.target_ttl
    then (noted, packet, ok ttl)
    else (count_modified noted, rewrite_ipv4 packet n.target_ttl, ok ttl)

unfoldable pub normalize_ipv6 : Normalizer → Bytes → Outcome
normalize_ipv6 n packet =
    let hop = get_or packet ipv6_hop_limit_offset 0 in
    let noted = note_ttl (count_ipv6 n) hop in
    if ltb (length packet) ipv6_min_header_len
    then (n, packet, err packet_too_short)
    else if hop == n.target_ttl
    then (noted, packet, ok hop)
    else (count_modified noted, set packet ipv6_hop_limit_offset n.target_ttl, ok hop)

abbrev pub count_processed : Normalizer → Normalizer
count_processed n = record n {
  stats = record n.stats { packets_processed = add64 n.stats.packets_processed 1 };
}

-- `(packet[0] >> 4) & 0x0F`
abbrev pub version_of : Bytes → ℕ
version_of packet = get_or packet 0 0 / 16 % 16

unfoldable pub normalize_packet : Normalizer → Bytes → Outcome
unfolding normalize_ipv4 normalize_ipv6
normalize_packet n packet =
    if not n.enabled
    then (n, packet, ok 0)
    else if ltb (length packet) 1
    then (count_processed n, packet, err packet_too_short)
    else if version_of packet == 4
    then normalize_ipv4 (count_processed n) packet
    else if version_of packet == 6
    then normalize_ipv6 (count_processed n) packet
    else (count_processed n, packet, err not_ip_packet)

-- What `DetectOS` names.
pub data OsFamily : Type 0 where
  unix_like windows network_equipment unknown : OsFamily

unfoldable pub detect_os : ℕ → OsFamily
detect_os ttl =
    if leb ttl 64 && ltb 32 ttl
    then unix_like
    else if leb ttl 128 && ltb 64 ttl
    then windows
    else if leb ttl 255 && ltb 128 ttl
    then network_equipment
    else unknown

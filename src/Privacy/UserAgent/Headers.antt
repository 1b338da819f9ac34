-- ===== src/Privacy/UserAgent/Headers.antt =====
-- What a request that core/go/internal/privacy/useragent.go has harmonized reveals.
use air_bridge5g.Prelude.{
  ℕ, ◌+◌, ◌≡◌, refl, sym, ap, inl, inr, Bool, true, false, ◌&&◌, ◌||◌, List, [], ◌∷◌, arith, Bytes,
  codes, if◌then◌else◌, Bool-cases,
}
use air_bridge5g.Prelude.Map.{str_eq, str_eq_iff, lookup, lookup-insert, lookup-erase}
use air_bridge5g.Privacy.UserAgent.{
  HeaderMap, canonical, canonical_from, to_lower, contains_any, contains, has_prefix, first_value,
  get_header, set_header, del_header, is_desktop_ua, user_agent, sec_ch_ua, sec_ch_ua_mobile,
  sec_ch_ua_platform, mobile_brands, UaHarmonizer, replace_ua, strip, set_hints, harmonize,
}

get_header-set_header :
    (name k v : Bytes) (m : HeaderMap)
    → get_header k (set_header name v m)
      ≡ (if str_eq (canonical name) (canonical k) then v else get_header k m)
unfolding get_header set_header first_value
get_header-set_header name k v m =
    ground (arith, lookup-insert (canonical name) (canonical k) (v ∷ []) m)

get_header-del_header :
    (name k : Bytes) (m : HeaderMap)
    → get_header k (del_header name m)
      ≡ (if str_eq (canonical name) (canonical k) then [] else get_header k m)
unfolding get_header del_header first_value
get_header-del_header name k m = ground (arith, lookup-erase (canonical name) (canonical k) m)

-- Names of one header have the same value.
get_header-canonical :
    (name k : Bytes) (m : HeaderMap)
    → str_eq (canonical name) (canonical k) ≡ true
    → get_header k m ≡ get_header name m
unfolding get_header
get_header-canonical name k m h =
    ap (λ c. first_value (lookup c m)) (sym ((str_eq_iff (canonical name) (canonical k)).0 h))

-- The header is one of those to strip.
abbrev pub strips : List Bytes → Bytes → Bool
strips [] k = false
strips (header ∷ headers) k = str_eq (canonical header) (canonical k) || strips headers k

strip-get_header :
    (headers : List Bytes) (m : HeaderMap) (n : ℕ) (b : Bool) (k : Bytes)
    → get_header k (strip headers (m, n, b)).0 ≡ (if strips headers k then [] else get_header k m)
unfolding strip
strip-get_header [] m n b k = refl
strip-get_header (header ∷ headers) m n b k = elim (Bool-cases (str_eq (get_header header m) [])) [
  | inl e ↦ ground (
    arith,
    e,
    strip-get_header headers m n b k,
    get_header-canonical header k m,
    str_eq_iff (get_header header m) [],
  )
  | inr e ↦ ground (
    arith,
    e,
    strip-get_header headers (del_header header m) (n + 1) true k,
    get_header-del_header header k m,
  )
]

-- `k` names the header `name`.
abbrev pub names : Bytes → Bytes → Bool
names name k = str_eq (canonical name) (canonical k)

-- What is left of the header in a request that has no hints.
abbrev pub kept : UaHarmonizer → HeaderMap → Bytes → Bytes
kept h m k =
    if strips h.strip_headers k
    then []
    else if names user_agent k && is_desktop_ua (get_header user_agent m)
    then h.target_ua
    else get_header k m

hints_not_ua :
    (names sec_ch_ua user_agent ≡ false)
    × (names sec_ch_ua_mobile user_agent ≡ false)
    × (names sec_ch_ua_platform user_agent ≡ false)
    × (names user_agent user_agent ≡ true)
unfolding canonical canonical_from str_eq
hints_not_ua = (refl, refl, refl, refl)

empty_ua : is_desktop_ua [] ≡ false
unfolding is_desktop_ua to_lower contains_any contains has_prefix
empty_ua = refl

replace_ua-get_header :
    (target : Bytes) (m : HeaderMap) (k : Bytes)
    → get_header k (replace_ua target m).0 ≡ (
        if names user_agent k && is_desktop_ua (get_header user_agent m)
        then target
        else get_header k m)
unfolding replace_ua
replace_ua-get_header target m k = ground (
  arith,
  get_header-set_header user_agent k target m,
  str_eq_iff (get_header user_agent m) [],
  empty_ua,
)

stripped-get_header :
    (h : UaHarmonizer) (m : HeaderMap) (k : Bytes)
    → get_header k (strip h.strip_headers (replace_ua h.target_ua m)).0 ≡ kept h m k
stripped-get_header h m k =
    let (m', n, b) = replace_ua h.target_ua m in
    ground (arith, strip-get_header h.strip_headers m' n b k, replace_ua-get_header h.target_ua m k)

set_hints-get_header :
    (m : HeaderMap) (n : ℕ) (b : Bool) (k : Bytes)
    → get_header k (set_hints (m, n, b)).0 ≡ (
        if str_eq (get_header sec_ch_ua m) []
        then get_header k m
        else if names sec_ch_ua_platform k
        then codes "\"Android\""
        else if names sec_ch_ua_mobile k
        then codes "?1"
        else if names sec_ch_ua k
        then mobile_brands
        else get_header k m)
unfolding set_hints
set_hints-get_header m n b k =
    let m1 = set_header sec_ch_ua mobile_brands m in
    let m2 = set_header sec_ch_ua_mobile (codes "?1") m1 in
    ground (
      arith,
      get_header-set_header sec_ch_ua k mobile_brands m,
      get_header-set_header sec_ch_ua_mobile k (codes "?1") m1,
      get_header-set_header sec_ch_ua_platform k (codes "\"Android\"") m2,
    )

-- Let the harmonizer be enabled and strip hints. For any request, the value that its result has for
-- any header is this: where `Sec-Ch-Ua` is present and not stripped, the fixed mobile values for
-- the platform, mobile and brand hints; else, for a header to strip, none; for `User-Agent` with a
-- desktop browser's value, the target; for every other header, the value that it had.
pub harmonize-get_header :
    (h : UaHarmonizer) (m : HeaderMap) (k : Bytes)
    → h.enabled ≡ true
    → h.strip_client_hints ≡ true
    → get_header k (harmonize h m).1 ≡ (
        if str_eq (kept h m sec_ch_ua) []
        then kept h m k
        else if names sec_ch_ua_platform k
        then codes "\"Android\""
        else if names sec_ch_ua_mobile k
        then codes "?1"
        else if names sec_ch_ua k
        then mobile_brands
        else kept h m k)
unfolding harmonize
harmonize-get_header h m k e s =
    let (m', n, b) = strip h.strip_headers (replace_ua h.target_ua m) in
    ground (
      arith,
      e,
      s,
      set_hints-get_header m' n b k,
      stripped-get_header h m k,
      stripped-get_header h m sec_ch_ua,
    )

-- Let the harmonizer be enabled and strip hints, with a target that is not a desktop browser's. The
-- `User-Agent` of its result is never a desktop browser's.
pub harmonize-hides_desktop :
    (h : UaHarmonizer) (m : HeaderMap)
    → h.enabled ≡ true
    → h.strip_client_hints ≡ true
    → is_desktop_ua h.target_ua ≡ false
    → is_desktop_ua (get_header user_agent (harmonize h m).1) ≡ false
harmonize-hides_desktop h m e s t =
    ground (arith, harmonize-get_header h m user_agent e s, hints_not_ua, t, empty_ua)

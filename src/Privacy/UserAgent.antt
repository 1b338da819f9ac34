-- ===== src/Privacy/UserAgent.antt =====
-- core/go/internal/privacy/useragent.go: the headers of HTTP requests. A header map is an association
-- list from canonical names to values. Case is folded on ASCII letters.
pub mod Headers
use air_bridge5g.Prelude.{
  ℕ, ◌+◌, ◌-◌, Bool, true, false, not, ◌&&◌, ◌||◌, Option, some, List, [], ◌∷◌, map, Bytes, codes,
  ltb, leb, ◌==◌, if◌then◌else◌, length, take,
}
use air_bridge5g.Prelude.Int.{add64}
use air_bridge5g.Prelude.Map.{str_eq, lookup, insert, erase}

abbrev pub HeaderMap : Type 0
HeaderMap = List (Bytes × List Bytes)

abbrev is_upper : ℕ → Bool
is_upper b = leb 65 b && leb b 90

abbrev is_lower : ℕ → Bool
is_lower b = leb 97 b && leb b 122

abbrev lower : ℕ → ℕ
lower b = if is_upper b then b + 32 else b

abbrev upper : ℕ → ℕ
upper b = if is_lower b then b - 32 else b

-- The name that `http.Header` files a header under: a letter is a capital at the start and after a
-- dash.
unfoldable pub canonical_from : Bool → Bytes → Bytes
canonical_from start [] = []
canonical_from start (b ∷ bs) = (if start then upper b else lower b) ∷ canonical_from (b == 45) bs

unfoldable pub canonical : Bytes → Bytes
canonical name = canonical_from true name

unfoldable pub first_value : Option (List Bytes) → Bytes
first_value (some (v ∷ vs)) = v
first_value _ = []

-- `Header.Get`, `Header.Set` and `Header.Del`
unfoldable pub get_header : Bytes → HeaderMap → Bytes
get_header name m = first_value (lookup (canonical name) m)

unfoldable pub set_header : Bytes → Bytes → HeaderMap → HeaderMap
set_header name v m = insert (canonical name) (v ∷ []) m

unfoldable pub del_header : Bytes → HeaderMap → HeaderMap
del_header name m = erase (canonical name) m

unfoldable pub to_lower : Bytes → Bytes
to_lower bs = map lower bs

unfoldable pub has_prefix : Bytes → Bytes → Bool
has_prefix [] bs = true
has_prefix (a ∷ rest) [] = false
has_prefix (a ∷ rest) (b ∷ bs) = a == b && has_prefix rest bs

-- `strings.Contains`
unfoldable pub contains : Bytes → Bytes → Bool
contains sub [] = has_prefix sub []
contains sub (b ∷ bs) = has_prefix sub (b ∷ bs) || contains sub bs

unfoldable pub contains_any : List Bytes → Bytes → Bool
contains_any [] bs = false
contains_any (sub ∷ subs) bs = contains sub bs || contains_any subs bs

abbrev pub desktop_indicators : List Bytes
desktop_indicators =
    codes "windows nt"
    ∷ codes "macintosh"
    ∷ codes "mac os x"
    ∷ codes "x11; linux"
    ∷ codes "x11; ubuntu"
    ∷ codes "x11; fedora"
    ∷ codes "cros"
    ∷ []

abbrev pub mobile_indicators : List Bytes
mobile_indicators =
    codes "mobile" ∷ codes "android" ∷ codes "iphone" ∷ codes "ipad" ∷ codes "ipod" ∷ []

unfoldable pub is_desktop_ua : Bytes → Bool
is_desktop_ua ua =
    let l = to_lower ua in
    if contains_any mobile_indicators l then false else contains_any desktop_indicators l

abbrev pub http_methods : List Bytes
http_methods =
    codes "GET "
    ∷ codes "POST"
    ∷ codes "PUT "
    ∷ codes "DELE"
    ∷ codes "HEAD"
    ∷ codes "OPTI"
    ∷ codes "PATC"
    ∷ codes "CONN"
    ∷ []

unfoldable pub is_one_of : List Bytes → Bytes → Bool
is_one_of [] bs = false
is_one_of (m ∷ ms) bs = str_eq bs m || is_one_of ms bs

unfoldable pub is_http_request : Bytes → Bool
is_http_request bs = if ltb (length bs) 4 then false else is_one_of http_methods (take 4 bs)

abbrev pub user_agent : Bytes
user_agent = codes "User-Agent"

abbrev pub sec_ch_ua : Bytes
sec_ch_ua = codes "Sec-Ch-Ua"

abbrev pub sec_ch_ua_mobile : Bytes
sec_ch_ua_mobile = codes "Sec-Ch-Ua-Mobile"

abbrev pub sec_ch_ua_platform : Bytes
sec_ch_ua_platform = codes "Sec-Ch-Ua-Platform"

abbrev pub chrome_mobile : Bytes
chrome_mobile =
    codes
      "Mozilla/5.0 (Linux; Android 14; Pixel 8 Pro) AppleWebKit/537.36 (KHTML, like Gecko) Chrome/125.0.0.0 Mobile Safari/537.36"

pub record UaHarmonizer : Type 0 where
  pub target_ua : Bytes
  pub strip_headers : List Bytes
  pub strip_client_hints : Bool
  pub enabled : Bool
  pub requests_processed : ℕ
  pub requests_modified : ℕ
  pub headers_stripped : ℕ

-- `NewUAHarmonizer`; the counters start at 0 in `h`.
unfoldable pub new_ua_harmonizer : UaHarmonizer → UaHarmonizer
new_ua_harmonizer h = if str_eq h.target_ua [] then record h { target_ua = chrome_mobile } else h

-- The headers, how many were stripped, and whether there is a change.
abbrev pub Edit : Type 0
Edit = HeaderMap × ℕ × Bool

unfoldable pub replace_ua : Bytes → HeaderMap → Edit
replace_ua target m =
    let ua = get_header user_agent m in
    if not (str_eq ua []) && is_desktop_ua ua
    then (set_header user_agent target m, 0, true)
    else (m, 0, false)

unfoldable pub strip : List Bytes → Edit → Edit
strip [] e = e
strip (header ∷ headers) (m, n, modified) = strip headers (
    if str_eq (get_header header m) []
    then (m, n, modified)
    else (del_header header m, n + 1, true))

-- `"Chromium";v="125", "Google Chrome";v="125", "Not-A.Brand";v="99"`
abbrev pub mobile_brands : Bytes
mobile_brands =
    codes "\"Chromium\";v=\"125\", \"Google Chrome\";v=\"125\", \"Not-A.Brand\";v=\"99\""

unfoldable pub set_hints : Edit → Edit
set_hints (m, n, modified) = if str_eq (get_header sec_ch_ua m) [] then (m, n, modified) else (
  set_header sec_ch_ua_platform (codes "\"Android\"")
      (set_header sec_ch_ua_mobile (codes "?1") (set_header sec_ch_ua mobile_brands m)),
  n,
  true,
)

-- `HarmonizeHTTPRequest` on the headers of a request
unfoldable pub harmonize : UaHarmonizer → HeaderMap → UaHarmonizer × HeaderMap
harmonize h m =
    if not h.enabled
    then (h, m)
    else (let e = replace_ua h.target_ua m in
        let (m', n, modified) =
          set_hints (if h.strip_client_hints then strip h.strip_headers e else e) in
        (
          record h {
            requests_processed = add64 h.requests_processed 1;
            headers_stripped = add64 h.headers_stripped n;
            requests_modified =
                if modified then add64 h.requests_modified 1 else h.requests_modified;
          },
          m',
        ))

-- ===== src/Mitm/Hosts.antt =====
-- The hosts of proxy/proxy.js and proxy/mitm/uaFilter.js: trimHost, authPass, and the apps that are
-- let through.
use block_proxy.Common.{
  ℕ, Bool, true, false, ◌&&◌, ◌||◌, not, List, [], ◌∷◌, Option, none, some, take, drop, ◌+◌,
  if◌then◌else◌, text_eq,
}
use block_proxy.Common.Texts.{
  ascii_text, index_of_char, last_index_of_char, has_prefix, has_suffix, to_lower,
}
use block_proxy.Wire.Buffer.{Text}
use block_proxy.Xhttp.Routes.{is_digit}

-- `/^\d+$/`, for a text that is not empty.
unfoldable pub all_digits : Text → Bool
all_digits [] = true
all_digits (c ∷ t) = is_digit c && all_digits t

abbrev pub are_digits : Text → Bool
are_digits [] = false
are_digits (c ∷ t) = all_digits (c ∷ t)

abbrev pub up_to : Text → Option ℕ → Text
up_to t none = t
up_to t (some i) = take i t

-- trimHost: behind the last colon only digits stand, then the part in front of the first colon.
unfoldable pub trim_host : Text → Text
trim_host host = elim (last_index_of_char host b':') [
  | none ↦ host
  | some i ↦ if are_digits (drop (i + 1) host) then up_to host (index_of_char host b':') else host
]

-- `host.toLowerCase().endsWith(item.toLowerCase())`, for some item of the list.
abbrev pub ends_in : Text → Text → Bool
ends_in host item = has_suffix (to_lower host) (to_lower item)

unfoldable pub ends_in_any : Text → List Text → Bool
ends_in_any host [] = false
ends_in_any host (item ∷ items) = ends_in host item || ends_in_any host items

abbrev pub filtered_mitm_domains : List Text
filtered_mitm_domains =
    ascii_text "youtube.com"
    ∷ ascii_text "googlevideo.com"
    ∷ ascii_text "youtubei.googleapis.com"
    ∷ []

abbrev pub pass_hosts : List Text
pass_hosts =
    ascii_text "googlevideo.com"
    ∷ ascii_text "dns.weixin.qq.com.cn"
    ∷ ascii_text "weixin.qq.com"
    ∷ ascii_text "xiaohongshu.com:443"
    ∷ ascii_text "xiaohongshu.com"
    ∷ ascii_text "xhscdn.com"
    ∷ ascii_text "zhihu.com:443"
    ∷ ascii_text "zhimg.com"
    ∷ ascii_text "zhihu.com"
    ∷ ascii_text "globalsign.com"
    ∷ ascii_text "quark.cn"
    ∷ ascii_text "qianwen.com"
    ∷ ascii_text "uc.cn"
    ∷ ascii_text "ucweb.com"
    ∷ ascii_text "uc.cmd"
    ∷ ascii_text "alibabausercontent.com"
    ∷ ascii_text "taobao.com"
    ∷ ascii_text "sm.cn"
    ∷ ascii_text "zaodian.com"
    ∷ ascii_text "amap.com"
    ∷ ascii_text "alipay.com"
    ∷ ascii_text "aliyuncs.com"
    ∷ filtered_mitm_domains

-- `/\.(m3u8|mp4|mpd|ts|webm|avi|mkv)$/i`
abbrev pub streams : List Text
streams =
    ascii_text ".m3u8"
    ∷ ascii_text ".mp4"
    ∷ ascii_text ".mpd"
    ∷ ascii_text ".ts"
    ∷ ascii_text ".webm"
    ∷ ascii_text ".avi"
    ∷ ascii_text ".mkv"
    ∷ []

abbrev pub is_stream_url : Option Text → Bool
is_stream_url none = false
is_stream_url (some url) = ends_in_any url streams

-- authPass: the requests that are let through without the proxy's password.
unfoldable pub auth_pass : Text → Option Text → Bool
auth_pass host url =
    ends_in_any host pass_hosts || (ends_in_any (trim_host host) pass_hosts || is_stream_url url)

-- uaFilter.js; the headers as they came, with the case of their names.
unfoldable pub header : List (Text × Text) → Text → Option Text
header [] name = none
header ((n, value) ∷ headers) name =
    let rest = header headers name in if text_eq n name then some value else rest

unfoldable pub get_ua : List (Text × Text) → Text
get_ua headers = elim (header headers (ascii_text "User-Agent")) [
  | some ua ↦ ua
  | none ↦ elim (header headers (ascii_text "user-agent")) [ some ua ↦ ua | none ↦ [] ]
]

unfoldable pub is_youtube_app : Text → Bool
is_youtube_app ua =
    has_prefix ua (ascii_text "com.google.ios.youtube")
    || has_prefix ua (ascii_text "com.google.android.youtube")

unfoldable pub ends_with_any : Text → List Text → Bool
ends_with_any host [] = false
ends_with_any host (domain ∷ domains) =
    (has_suffix host domain || text_eq host domain) || ends_with_any host domains

unfoldable pub match_ua : List (Text × Text) → Text → Bool
match_ua headers host =
    not (is_youtube_app (get_ua headers)) && ends_with_any (trim_host host) filtered_mitm_domains

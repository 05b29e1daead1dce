-- ===== src/Filter/Tests.antt =====
-- The filter at concrete inputs.
use block_proxy.Common.{
  ◌+◌, ◌-◌, ◌%◌, ◌≡◌, refl, arith, true, false, [], ◌∷◌, List, none, some, leb, ◌⊎◌, text_eq,
}
use block_proxy.Common.Texts.{
  ascii_text, to_lower, has_suffix, has_prefix, last_index_of_char, index_of_char, split_at, join,
}
use block_proxy.Wire.Buffer.{Text}
use block_proxy.Xhttp.Routes.{trim, trim_end, skip_spaces}
use block_proxy.Mitm.Registry.{is_empty}
use block_proxy.Mitm.Hosts.{all_digits, trim_host, ends_in_any, auth_pass, header}
use block_proxy.Mitm.Handler.{should_mitm, distinct_from, member}
use block_proxy.Filter.Attacker.{is_bad_guy, lookup_ip, set_good_guy}
use block_proxy.Filter.Blocks.{
  in_window, text_leb, normalize_mac_address, hex_part, hex_parts, normalize_ip, unbracketed,
}
use block_proxy.Filter.Auth.{
  AuthConfig, allowed, parse_headers, set_header, parse_from, kept_out, check_credentials,
  check_header, check_host, check_proxy_auth,
}
use block_proxy.Filter.Decide.{
  Settings, decrypt, connect_host, without_port, deal_https_host, before_deal_https_request,
}
use block_proxy.Filter.Devices.{
  old_device, replace_device, merge_device, merge_from, update_devices,
}
use block_proxy.Filter.Errors.{on_error, page, sent_again}
use block_proxy.Filter.Windows.{time_of, in_window-time_of}
use block_proxy.Filter.Watch.{refused_once, admitted_once, happen, is_bad_guy-happen}
use block_proxy.Filter.Passwords.{check_credentials-colon, IsCleared, check_proxy_auth-IsEntitled}
use block_proxy.Filter.Entitled.{IsOpen, IsTolerated}
use block_proxy.Manager.State.{Manager, new, matches_tunnel_domain, matches_any, ends_with}
use block_proxy.Filter.Reasons.{IsWatched, before_deal_https_request-IsWatched}

-- From 22:00 to 6:00, at 23:30.
in_window-time_of_example :
    in_window (time_of 1320) (time_of 360) (time_of 1410)
    ≡ leb ((1410 + 1440 - 1320) % 1440) ((360 + 1440 - 1320) % 1440)
in_window-time_of_example =
    in_window-time_of 1320 360 1410 (omega arith) (omega arith) (omega arith)

at_night :
    (in_window (ascii_text "22:00") (ascii_text "06:00") (ascii_text "23:30") ≡ true)
    × (in_window (ascii_text "22:00") (ascii_text "06:00") (ascii_text "12:00") ≡ false)
unfolding in_window text_leb
at_night = (refl, refl)

abbrev one : Text
one = ascii_text "1.2.3.4"

is_bad_guy-happen_example :
    is_bad_guy
      (happen (set_good_guy [] one 1000) (
        refused_once one 1001
        ∷ admitted_once (ascii_text "5.6.7.8") 1002
        ∷ refused_once one 1003
        ∷ []))
      one
      2000
    ≡ false
is_bad_guy-happen_example =
    is_bad_guy-happen [] one 1000 2000
      (refused_once one 1001
        ∷ admitted_once (ascii_text "5.6.7.8") 1002
        ∷ refused_once one 1003
        ∷ [])
      (omega arith, (omega arith, (omega arith, tt))) (omega arith)

check_credentials-colon_example :
    check_credentials
      (λ t. t)
      (record { auth_username = some (ascii_text "me"); auth_password = some (ascii_text "a:b") })
      (ascii_text "me:a:b")
    ≡ false
check_credentials-colon_example =
    check_credentials-colon (λ t. t) (ascii_text "me") (ascii_text "a") (ascii_text "b")
      (refl, (refl, tt)) (refl, tt)

abbrev config : AuthConfig
config = record { auth_username = some (ascii_text "me"); auth_password = some (ascii_text "pw") }

abbrev raw : List Text
raw =
    ascii_text "Host"
    ∷ ascii_text "a.b"
    ∷ ascii_text "Proxy-Authorization"
    ∷ ascii_text "Basic me:pw"
    ∷ []

passes : (check_proxy_auth (λ t. t) config [] one 5 raw none).0 ≡ allowed
unfolding check_proxy_auth check_host check_header check_credentials parse_from set_header header
    to_lower text_eq kept_out is_bad_guy lookup_ip has_prefix has_suffix auth_pass ends_in_any
    split_at trim_host last_index_of_char
passes = refl

check_proxy_auth-IsEntitled_example :
    IsOpen config one
    ⊎ (IsTolerated [] one 5
        × IsCleared
            (λ t. t)
            config
            (parse_headers raw)
            none
            (header (parse_headers raw) (ascii_text "host")))
check_proxy_auth-IsEntitled_example =
    check_proxy_auth-IsEntitled (λ t. t) config [] one 5 raw none passes

abbrev settings : Settings
settings = record {
  vpn_proxy = [];
  enable_mitm = true;
  rules = record { rule_type = []; host = ascii_text "b.c"; regexp = []; callback = 0 } ∷ [];
  youtube = false;
  own_hosts = [];
  own_addresses = [];
  proxy_port = ascii_text "8001";
  now = record { hours = 9; minutes = 5; day = 0 };
}

-- A manager without a connection, with one domain.
abbrev manager : Manager
manager = new (ascii_text "tunnel.d" ∷ []) 5 1 300

taken_apart :
    before_deal_https_request
      (λ t. true)
      (λ e t. true)
      (λ t. false)
      (matches_tunnel_domain manager)
      settings
      allowed
      []
      (ascii_text "a.b.c:443")
    ≡ decrypt
unfolding before_deal_https_request deal_https_host should_mitm distinct_from member trim_host
    ends_in_any has_suffix has_prefix to_lower text_eq last_index_of_char index_of_char connect_host
    without_port all_digits new matches_tunnel_domain matches_any ends_with
taken_apart = refl

before_deal_https_request-IsWatched_example :
    (is_empty settings.vpn_proxy ≡ false)
    ⊎ ((allowed ≡ allowed)
        × IsWatched (λ t. true) (λ e t. true) (λ t. false) manager settings [] (ascii_text "a.b.c"))
unfolding all_digits
before_deal_https_request-IsWatched_example =
    before_deal_https_request-IsWatched (λ t. true) (λ e t. true) (λ t. false) manager settings
      allowed [] (ascii_text "a.b.c") b'4' (ascii_text "43")
      (refl, (refl, (refl, (refl, (refl, tt))))) (refl, (refl, (refl, (refl, (refl, tt))))) refl
      taken_apart

mac_padded :
    (normalize_mac_address (ascii_text " F4:6B:8c:90:29:5 ")
      ≡ some (ascii_text "f4:6b:8c:90:29:05"))
    × (normalize_ip (ascii_text "[::FFFF:172.16.0.10]:3000") ≡ ascii_text "172.16.0.10")
unfolding normalize_mac_address hex_parts hex_part trim trim_end skip_spaces to_lower split_at join
    normalize_ip unbracketed index_of_char has_prefix text_eq
mac_padded = (refl, refl)

devices_merged :
    update_devices
      ((one, ascii_text "m1") ∷ [])
      ((one, ascii_text "m2") ∷ (ascii_text "ip", ascii_text "m3") ∷ [])
    ≡ (one, ascii_text "m2") ∷ (ascii_text "ip", ascii_text "m3") ∷ []
unfolding update_devices merge_from merge_device old_device replace_device text_eq
devices_merged = refl

errors_answered :
    (on_error (ascii_text "HPE_UNEXPECTED_CONTENT_LENGTH")
      ≡ sent_again (ascii_text "HPE_INVALID_CONTENT_LENGTH"))
    × (on_error (ascii_text "ENETUNREACH") ≡ page 404 (ascii_text "AnyProxy Error: ENETUNREACH"))
unfolding on_error text_eq
errors_answered = (refl, refl)

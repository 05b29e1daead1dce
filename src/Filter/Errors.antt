-- ===== src/Filter/Errors.antt =====
-- onError and beforeSendResponse of proxy/proxy.js.
use block_proxy.Common.{ℕ, Bool, false, ◌||◌, ◌++◌, none, some, if◌then◌else◌, text_eq}
use block_proxy.Common.Texts.{ascii_text}
use block_proxy.Wire.Buffer.{Text}
use block_proxy.Mitm.Registry.{Rule}
use block_proxy.Mitm.Handler.{choose_rule}
use block_proxy.Filter.Decide.{Settings}

-- What an error of a request is answered with: a page with a status, the answer to the request sent
-- once more without the checks of its header (with the code that is told of), or nothing.
pub data ErrorAnswer : Type 0 where
  page : ℕ → Text → ErrorAnswer
  sent_again : Text → ErrorAnswer
  no_answer : ErrorAnswer

unfoldable pub on_error : Text → ErrorAnswer
on_error code =
    if text_eq code (ascii_text "ENETUNREACH")
    then page 404 (ascii_text "AnyProxy Error: " ++ code)
    else if text_eq code (ascii_text "ENOTFOUND")
    then page 502 (ascii_text "DNS_PROBE_FINISHED_NXDOMAIN, DNS lookup error.")
    else if text_eq code (ascii_text "HPE_INVALID_VERSION")
    then sent_again (ascii_text "HPE_INVALID_VERSION")
    else if text_eq code (ascii_text "HPE_INVALID_CONTENT_LENGTH")
        || text_eq code (ascii_text "HPE_UNEXPECTED_CONTENT_LENGTH")
    then sent_again (ascii_text "HPE_INVALID_CONTENT_LENGTH")
    else no_answer

-- Whether a response is rewritten by a rule.
unfoldable pub before_send_response :
    (Text → Text) → (Text → Text → Bool) → (Rule → Text → Bool) → Settings → Text → Bool
before_send_response hostname_of test answers s url =
    elim (choose_rule hostname_of test (ascii_text "beforeSendResponse") url s.rules) [
      | none ↦ false
      | some rule ↦ answers rule url
    ]

-- ===== src/Certs/Tests.antt =====
-- The certificates at concrete inputs.
use block_proxy.Common.{◌+◌, ◌≡◌, refl, true, false, [], ◌∷◌, List, none, some, length, text_eq}
use block_proxy.Common.Texts.{
  ascii_text, to_lower, includes, has_suffix, has_prefix, index_of_char, last_index_of_char,
}
use block_proxy.Wire.Buffer.{Text}
use block_proxy.Xhttp.Routes.{trim, trim_end, skip_spaces}
use block_proxy.Mitm.Hosts.{all_digits}
use block_proxy.Certs.Names.{
  drop_dot, has_separator, strip_port, bare_host, checked_host, normalize_hostname,
}
use block_proxy.Certs.Cache.{
  Files, Leaf, Crypto, read_file, unlink, has_hostname_in_san, is_good_leaf, validate_files,
  validate_cache, delete_cache, check_from, names_of, health_check,
}
use block_proxy.Certs.Prewarm.{start, settle_each}
use block_proxy.Certs.Done.{settle_each-start}
use block_proxy.Certs.Ensure.{
  Job, generating, Event, asks, no_certs, begin, start_job, ensure_cert, step, run,
}
use block_proxy.Certs.Single.{run-pending}

names_normalized :
    (normalize_hostname (λ t. t) (ascii_text " A.b.:443 ") ≡ some (ascii_text "a.b"))
    × (normalize_hostname (λ t. t) (ascii_text "[::1]:8") ≡ some (ascii_text "::1"))
    × (normalize_hostname (λ t. t) (ascii_text "a/b") ≡ none)
unfolding normalize_hostname bare_host checked_host drop_dot has_separator strip_port trim trim_end
    skip_spaces to_lower index_of_char last_index_of_char all_digits
names_normalized = (refl, refl, refl)

abbrev leaf : Leaf
leaf = record {
  is_rsa = true;
  modulus_length = 2048;
  subject_alt_name = ascii_text "DNS:a.com";
  valid_from = 1;
  valid_to = 9;
}

abbrev crypto : Crypto
crypto = record {
  parse = λ b. some leaf;
  verify = λ c r. true;
  makes_context = λ k c. true;
  is_ip = λ h. false;
}

abbrev files : Files
files =
    (ascii_text "rootCA.crt", 1 ∷ [])
    ∷ (ascii_text "a.com.crt", 2 ∷ [])
    ∷ (ascii_text "a.com.key", 3 ∷ [])
    ∷ (ascii_text "b.com.crt", 2 ∷ [])
    ∷ (ascii_text "b.com.key", 3 ∷ [])
    ∷ []

one_kept :
    health_check crypto (λ t. t) 5 files
    ≡ some (
      (ascii_text "rootCA.crt", 1 ∷ [])
          ∷ (ascii_text "a.com.crt", 2 ∷ [])
          ∷ (ascii_text "a.com.key", 3 ∷ [])
          ∷ [],
      1,
      1,
    )
unfolding health_check names_of check_from validate_cache validate_files is_good_leaf
    has_hostname_in_san read_file unlink delete_cache has_suffix has_prefix includes text_eq
    normalize_hostname bare_host checked_host drop_dot has_separator strip_port trim trim_end
    skip_spaces to_lower index_of_char last_index_of_char all_digits
one_kept = refl

abbrev domains : List Text
domains = ascii_text "a" ∷ ascii_text "b" ∷ ascii_text "c" ∷ []

settle_each-start_example :
    let p = settle_each (start domains 2) (true ∷ false ∷ true ∷ []) in
    (p.tried ≡ domains) × (p.running ≡ 0) × (p.success + p.fail ≡ length domains)
settle_each-start_example = settle_each-start domains 2 (true ∷ false ∷ true ∷ []) refl

abbrev two_asks : List Event
two_asks = asks (ascii_text "A") 5 ∷ asks (ascii_text "a:1") 6 ∷ asks (ascii_text "b") 7 ∷ []

abbrev for_a : Job
for_a = record { host = ascii_text "a"; stage = generating }

one_generates : (run crypto (λ t. t) (no_certs []) two_asks).job 0 ≡ some for_a
unfolding run step ensure_cert start_job begin validate_cache validate_files read_file delete_cache
    unlink text_eq normalize_hostname bare_host checked_host drop_dot has_separator strip_port trim
    trim_end skip_spaces to_lower index_of_char last_index_of_char all_digits
one_generates = refl

run-pending_example : (run crypto (λ t. t) (no_certs []) two_asks).pending (ascii_text "a") ≡ some 0
run-pending_example =
    run-pending crypto (λ t. t) [] two_asks 0 for_a (refl, (refl, (refl, tt))) one_generates refl

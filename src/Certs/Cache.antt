-- ===== src/Certs/Cache.antt =====
-- The cache of certificates: validateCache, deleteCache and healthCheck of cert-lifecycle.js.
use block_proxy.Common.{
  ℕ, ◌+◌, ◌-◌, Bool, true, false, ◌&&◌, not, List, [], ◌∷◌, ◌++◌, Option, none, some, length, take,
  leb, ◌==◌, if◌then◌else◌, text_eq,
}
use block_proxy.Common.Texts.{ascii_text, has_suffix, includes}
use block_proxy.Wire.Buffer.{Bytes, Text}
use block_proxy.Certs.Names.{normalize_hostname}

-- The files of the directory, by name.
abbrev pub Files : Type 0
Files = List (Text × Bytes)

unfoldable pub read_file : Files → Text → Option Bytes
read_file [] name = none
read_file ((n, b) ∷ files) name =
    let rest = read_file files name in if text_eq n name then some b else rest

unfoldable pub unlink : Files → Text → Files
unlink [] name = []
unlink ((n, b) ∷ files) name =
    let rest = unlink files name in if text_eq n name then rest else (n, b) ∷ rest

abbrev pub key_path : Text → Text
key_path host = host ++ ascii_text ".key"

abbrev pub crt_path : Text → Text
crt_path host = host ++ ascii_text ".crt"

-- What is asked of a certificate; a field of another kind of key has no modulus.
pub record Leaf : Type 0 where
  pub is_rsa : Bool
  pub modulus_length : ℕ
  pub subject_alt_name : Text
  pub valid_from : ℕ
  pub valid_to : ℕ

-- node:crypto, node:tls and node:net: reading a certificate (`none` where that throws), whether a
-- root signed it, whether key and certificate make a context, and whether a host is an address.
pub record Crypto : Type 0 where
  pub parse : Bytes → Option Leaf
  pub verify : Bytes → Bytes → Bool
  pub makes_context : Bytes → Bytes → Bool
  pub is_ip : Text → Bool

module _ (crypto : Crypto) where
  open crypto use {parse, verify, makes_context, is_ip}

  unfoldable pub has_hostname_in_san : Leaf → Text → Bool
  has_hostname_in_san leaf host =
      if is_ip host
      then includes leaf.subject_alt_name (ascii_text "IP Address:" ++ host)
      else includes leaf.subject_alt_name (ascii_text "DNS:" ++ host)

  unfoldable pub is_good_leaf : Leaf → Text → ℕ → Bool
  is_good_leaf leaf host now =
      leaf.is_rsa
      && ((leaf.modulus_length == 2048)
          && (has_hostname_in_san leaf host && (leb leaf.valid_from now && leb now leaf.valid_to)))

  unfoldable pub validate_files : Text → ℕ → Option Bytes → Option Bytes → Option Bytes → Bool
  validate_files host now (some key) (some crt) (some root) = elim (parse crt) [
    | none ↦ false
    | some leaf ↦ is_good_leaf leaf host now && (verify crt root && makes_context key crt)
  ]
  validate_files host now _ _ _ = false

  unfoldable pub validate_cache : Files → Text → ℕ → Bool
  validate_cache files host now =
      validate_files host now (read_file files (key_path host)) (read_file files (crt_path host))
        (read_file files (ascii_text "rootCA.crt"))

unfoldable pub delete_cache : Files → Text → Files
delete_cache files host = unlink (unlink files (key_path host)) (crt_path host)

-- healthCheck over the names that were there at its start: the files left, and how many certificates
-- were kept and removed; `none` where the name of a file makes it throw.
module _ (crypto : Crypto) (domain_to_ascii : Text → Text) (now : ℕ) where
  abbrev pub is_leaf_file : Text → Bool
  is_leaf_file name =
      has_suffix name (ascii_text ".crt") && not (text_eq name (ascii_text "rootCA.crt"))

  unfoldable pub check_from : List Text → Files → ℕ → ℕ → Option (Files × ℕ × ℕ)
  check_from [] files kept removed = some (files, kept, removed)
  check_from (name ∷ names) files kept removed = elim (is_leaf_file name) [
    | false ↦ check_from names files kept removed
    | true ↦ elim (normalize_hostname domain_to_ascii (take (length name - 4) name)) [
      | none ↦ none
      | some host ↦ elim (validate_cache crypto files host now) [
        | true ↦ check_from names files (kept + 1) removed
        | false ↦ check_from names (delete_cache files host) kept (removed + 1)
      ]
    ]
  ]

  unfoldable pub names_of : Files → List Text
  names_of [] = []
  names_of ((n, b) ∷ files) = n ∷ names_of files

  unfoldable pub health_check : Files → Option (Files × ℕ × ℕ)
  health_check files = check_from (names_of files) files 0 0

-- ===== src/Chain/RoundTrip.antt =====
-- The address of a chain proxy, read back.
use block_proxy.Common.{
  ℕ, ◌+◌, ◌<◌, ◌≡◌, refl, ap, ◌∙◌, arith, false, ◌||◌, ◌∷◌, ◌++◌, some, take, length, ltb, ◌==◌,
  if_off, take-append, drop_skip,
}
use block_proxy.Common.Texts.{IsFree, index_of_char-append, last_index_of_char-append}
use block_proxy.Wire.Buffer.{Text}
use block_proxy.Xhttp.Routes.{parse_seq}
use block_proxy.Chain.Config.{split_auth, with_host, host_part, parse_chain_proxy_address}

split_auth-append : (u p : Text) → IsFree b':' u → split_auth (u ++ (b':' ∷ p)) ≡ (u, p)
unfolding split_auth
split_auth-append u p h =
    rw (index_of_char-append u p b':' h, split_auth)
      (λ i. (
        take-append (length u) u (b':' ∷ p) refl i,
        drop_skip u (b':' ∷ p) (length u + 1) 1 refl i,
      ))

host_part-append :
    (u p host digits : Text) (x port : ℕ)
    → IsFree b':' digits
    → parse_seq digits ≡ some port
    → 0 < port
    → port < 65536
    → host_part u p ((x ∷ host) ++ (b':' ∷ digits))
      ≡ some (record { username = u; password = p; host = x ∷ host; port = port })
unfolding host_part with_host
host_part-append u p host digits x port f n lo hi =
    let kept = take-append (length (x ∷ host)) (x ∷ host) (b':' ∷ digits) refl in
    let behind = drop_skip (x ∷ host) (b':' ∷ digits) (length (x ∷ host) + 1) 1 refl in
    let inside : ((port == 0) || ltb 65535 port) ≡ false = ground arith in
    rw (last_index_of_char-append (x ∷ host) digits b':' f, host_part)
      (ap (with_host u p (take (length (x ∷ host)) ((x ∷ host) ++ (b':' ∷ digits))))
          (ap parse_seq behind ∙ n)
        ∙ ap (λ t. with_host u p t (some port)) kept
        ∙ if_off _ _ ((port == 0) || ltb 65535 port) inside)

-- user:password@host:port is read as these four, if the user name has no colon, the host is not
-- empty, neither host nor port has an @, and the port is a number from 1 to 65535 without a colon.
pub parse_chain_proxy_address-append :
    (u p host digits : Text) (x port : ℕ)
    → IsFree b':' u
    → IsFree b'@' ((x ∷ host) ++ (b':' ∷ digits))
    → IsFree b':' digits
    → parse_seq digits ≡ some port
    → 0 < port
    → port < 65536
    → parse_chain_proxy_address ((u ++ (b':' ∷ p)) ++ (b'@' ∷ ((x ∷ host) ++ (b':' ∷ digits))))
      ≡ some (record { username = u; password = p; host = x ∷ host; port = port })
unfolding parse_chain_proxy_address
parse_chain_proxy_address-append u p host digits x port fu fa fd n lo hi =
    let auth = u ++ (b':' ∷ p) in
    let rest = (x ∷ host) ++ (b':' ∷ digits) in
    let kept = take-append (length auth) auth (b'@' ∷ rest) refl in
    let behind = drop_skip auth (b'@' ∷ rest) (length auth + 1) 1 refl in
    rw (last_index_of_char-append auth rest b'@' fa, parse_chain_proxy_address)
      (rw (kept, behind)
        (rw (split_auth-append u p fu) (host_part-append u p host digits x port fd n lo hi)))

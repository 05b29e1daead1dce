-- ===== src/Socks/Garbled.antt =====
-- The addresses of the SOCKS5 server: an IPv6 address that it misreads, and the datagrams that come
-- back through the frames of its own relay.
use block_proxy.Common.{
  ℕ, ◌+◌, ◌*◌, ◌/◌, ◌%◌, ◌≡◌, refl, sym, arith, ◌&&◌, ◌∷◌, ◌++◌, some, ok, length, take, ◌==◌, inl,
  inr, Bool-cases, take-append, get_elem?-append, get_elem?_skip,
}
use block_proxy.Common.Texts.{ascii_text}
use block_proxy.Wire.Buffer.{Bytes, Node, read_u16be, hex_digit}
use block_proxy.Socks.Address.{
  Target, parse_address, parse_typed, with_port, ipv6_host, hextets, hextets_from, halve_zeros,
  strip_zeros,
}

ipv6_host-2001 :
    (b c : ℕ) (rest : Bytes) → take 5 (ipv6_host (0x20 ∷ 0x01 ∷ b ∷ c ∷ rest)) ≡ ascii_text "[201:"
unfolding ipv6_host hextets hextets_from halve_zeros strip_zeros hex_digit
ipv6_host-2001 b c rest =
    elim (Bool-cases ((hex_digit (b / 16) == b'0') && (hex_digit (b % 16) == b'0'))) [
      | inl e ↦ rw (e, halve_zeros) refl
      | inr e ↦ rw (e, halve_zeros) refl
    ]

port_read :
    (v cmd b c hi lo : ℕ) (rest more : Bytes)
    → length rest ≡ 12
    → read_u16be (v ∷ cmd ∷ 0 ∷ 4 ∷ 0x20 ∷ 0x01 ∷ b ∷ c ∷ (rest ++ (hi ∷ lo ∷ more))) 20
      ≡ some (hi * 256 + lo)
port_read v cmd b c hi lo rest more h =
    let first = get_elem?-append 12 rest hi (lo ∷ more) (sym h) in
    let second = get_elem?_skip rest (hi ∷ lo ∷ more) 13 1 (omega arith) in
    rw (first, read_u16be) (rw (second, read_u16be) refl)

-- Of every IPv6 address under 2001:, a request's host begins with 201: instead.
pub parse_address-2001 :
    (node : Node) (v cmd b c hi lo : ℕ) (rest more : Bytes)
    → length rest ≡ 12
    → (t : Target) × (parse_address node
          (v ∷ cmd ∷ 0 ∷ 4 ∷ 0x20 ∷ 0x01 ∷ b ∷ c ∷ (rest ++ (hi ∷ lo ∷ more)))
          3
        ≡ ok t)
      × (take 5 t.host ≡ ascii_text "[201:")
unfolding parse_address parse_typed with_port
parse_address-2001 node v cmd b c hi lo rest more h =
    let inside = take-append 12 rest (hi ∷ lo ∷ more) (sym h) in
    (
      record {
        host = ipv6_host (0x20 ∷ 0x01 ∷ b ∷ c ∷ rest);
        port = hi * 256 + lo;
        next_offset = 22;
      },
      rw (inside, port_read v cmd b c hi lo rest more h) refl,
      ipv6_host-2001 b c rest,
    )

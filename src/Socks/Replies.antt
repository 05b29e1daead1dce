-- ===== src/Socks/Replies.antt =====
-- What comes back of a datagram: the frame for the client, read as the relay reads its frames.
use block_proxy.Common.{
  ℕ, ◌+◌, ◌*◌, ◌/◌, ◌%◌, ◌<◌, ◌≡◌, refl, ap, ◌∙◌, arith, true, false, [], ◌∷◌, ◌++◌, some, length,
  drop, ltb, leb, ◌==◌, take-append, drop-append, length-append,
}
use block_proxy.Wire.Buffer.{
  Bytes, Node, IsByte, u16be, decimal, split_dots, split_dots-append, split_dots_last,
  decimal_no_dot,
}
use block_proxy.Wire.Address.{dotted}
use block_proxy.Xhttp.Routes.{unsigned, digits_value}
use block_proxy.Common.Texts.{join}
use block_proxy.Socks.Address.{dotted_bytes}
use block_proxy.Socks.Udp.{
  cuts, round_of, datagram, typed_payload, payload_datagram, part_byte, reply_payload, reply_frame,
}

unsigned-decimal : (n : ℕ) → IsByte n → unsigned (decimal n) ≡ some n
unfolding unsigned decimal digits_value
unsigned-decimal n h = ground arith

split_dots-dotted :
    (a b c d : ℕ)
    → split_dots (dotted (decimal a) (decimal b) (decimal c) (decimal d))
      ≡ decimal a ∷ decimal b ∷ decimal c ∷ decimal d ∷ []
unfolding dotted
split_dots-dotted a b c d =
    rw
      (
        split_dots-append (decimal a) (decimal b ++ (b'.' ∷ (decimal c ++ (b'.' ∷ decimal d))))
            (decimal_no_dot a),
        split_dots-append (decimal b) (decimal c ++ (b'.' ∷ decimal d)) (decimal_no_dot b),
        split_dots-append (decimal c) (decimal d) (decimal_no_dot c),
        split_dots_last (decimal d) (decimal_no_dot d),
      )
      refl

mod_byte : (n : ℕ) → IsByte n → n % 256 ≡ n
mod_byte n h = omega arith

two_bytes : (n : ℕ) → (n / 256) * 256 + n % 256 ≡ n
two_bytes n = omega arith

-- A frame with a payload is one round of the loop.
round_of_frame :
    (p rest : Bytes) → 0 < length p → round_of ((u16be (length p) ++ p) ++ rest) ≡ cuts p rest
unfolding round_of
round_of_frame p rest h =
    let size : (length p == 0) ≡ false = ground arith in
    let fits : ltb (length (p ++ rest)) (length p) ≡ false = ground (arith, length-append p rest) in
    rw (two_bytes (length p))
      (rw (size, fits, take-append (length p) p rest refl, drop-append (length p) p rest refl) refl)

payload_case :
    (node : Node) (atyp : ℕ) (p : Bytes)
    → leb 10 (length (0 ∷ 0 ∷ 0 ∷ atyp ∷ p)) ≡ true
    → payload_datagram node (0 ∷ 0 ∷ 0 ∷ atyp ∷ p) ≡ typed_payload node (0 ∷ 0 ∷ 0 ∷ atyp ∷ p) atyp
unfolding payload_datagram
payload_case node atyp p h = rw h refl

abbrev quad_payload : ℕ → ℕ → ℕ → ℕ → ℕ → Bytes → Bytes
quad_payload a b c d port content = 0 ∷ 0 ∷ 0 ∷ 1 ∷ a ∷ b ∷ c ∷ d ∷ (u16be port ++ content)

part_byte-decimal : (n : ℕ) → IsByte n → part_byte (some (decimal n)) ≡ n
part_byte-decimal n h = rw (unsigned-decimal n h, part_byte) (mod_byte n h)

reply_payload_quad :
    (a b c d port : ℕ) (content : Bytes)
    → IsByte a
    → IsByte b
    → IsByte c
    → IsByte d
    → reply_payload (decimal a ∷ decimal b ∷ decimal c ∷ decimal d ∷ []) port content
      ≡ quad_payload a b c d port content
unfolding reply_payload
reply_payload_quad a b c d port content ha hb hc hd =
    let ea = part_byte-decimal a ha in
    let eb = part_byte-decimal b hb in
    let ec = part_byte-decimal c hc in
    let ed = part_byte-decimal d hd in
    λ i. 0 ∷ 0 ∷ 0 ∷ 1 ∷ ea i ∷ eb i ∷ ec i ∷ ed i ∷ (u16be port ++ content)

reply_frame-dotted :
    (a b c d port : ℕ) (content : Bytes)
    → IsByte a
    → IsByte b
    → IsByte c
    → IsByte d
    → let payload = quad_payload a b c d port content in
      reply_frame (dotted (decimal a) (decimal b) (decimal c) (decimal d)) port content
      ≡ u16be (length payload) ++ payload
unfolding reply_frame
reply_frame-dotted a b c d port content ha hb hc hd =
    ap (λ q. u16be (length q) ++ q)
      (ap (λ ps. reply_payload ps port content) (split_dots-dotted a b c d)
        ∙ reply_payload_quad a b c d port content ha hb hc hd)

-- A datagram from an IPv4 address with at least one and at most 65525 bytes of content, put into a
-- frame for the client, is cut off by the relay's own loop in front of whatever follows, and read as
-- a datagram to the same address and port with the same content.
pub payload_datagram-reply_frame :
    (node : Node) (a b c d port x : ℕ) (content rest : Bytes)
    → IsByte a
    → IsByte b
    → IsByte c
    → IsByte d
    → port < 65536
    → length content < 65525
    → let address = dotted (decimal a) (decimal b) (decimal c) (decimal d) in
      (p : Bytes) × (round_of (reply_frame address port (x ∷ content) ++ rest) ≡ cuts p rest)
      × (payload_datagram node p
          ≡ some (record { host = address; port = port; content = x ∷ content }))
unfolding typed_payload datagram dotted_bytes dotted join
payload_datagram-reply_frame node a b c d port x content rest ha hb hc hd hp hl =
    let payload = quad_payload a b c d port (x ∷ content) in
    (
      payload,
      ap (λ f. round_of (f ++ rest)) (reply_frame-dotted a b c d port (x ∷ content) ha hb hc hd)
          ∙ round_of_frame payload rest (omega arith),
      payload_case node 1 (drop 4 payload) (ground arith) ∙ rw (two_bytes port) refl,
    )

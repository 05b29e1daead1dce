-- ===== src/Wire/Capabilities.antt =====
-- encodeCapabilities and decodeCapabilities of tunnel/protocol.js.
pub mod RoundTrip
use block_proxy.Common.{ℕ, zero, suc, ◌+◌, ◌≡◌, arith}
use block_proxy.Common.{List, [], ◌∷◌, ◌++◌, Option, none, some, Bool, true, false}
use block_proxy.Common.{length, get_elem?, ltb, leb, if◌then◌else◌}
use block_proxy.Common.{Result, ok, err, ◌>>=◌, ◌>>◌, throw_if}
use block_proxy.Wire.Buffer.{Bytes, Text, byte, slice, Node}
use block_proxy.Wire.Address.{
  Error, capability_too_long, capabilities_too_short, capability_overruns,
}

module _ (node : Node) where
  open node use {utf8, from_utf8}

  encode_items : List Text → Result Error Bytes
  encode_items [] = ok []
  encode_items (cap ∷ caps) = do
    throw_if (ltb 255 (length (utf8 cap))) capability_too_long
    rest ← encode_items caps
    ok (byte (length (utf8 cap)) ∷ (utf8 cap ++ rest))

  -- The count is one byte: `Buffer.from([caps.length])`.
  unfoldable pub encode_capabilities : List Text → Result Error Bytes
  unfolding encode_items
  encode_capabilities caps = do items ← encode_items caps; ok (byte (length caps) ∷ items)

  -- The loop with `count - i` rounds left. `none` is the test `offset >= payload.length`.
  decode_items : ℕ → Bytes → ℕ → List Text → Result Error (List Text × ℕ)
  decode_items zero p offset caps = ok (caps, offset)
  decode_items (suc left) p offset caps = elim (get_elem? p offset) [
    | none ↦ err capabilities_too_short
    | some len ↦
        let end = offset + 1 + len in
        let rest = decode_items left p end (caps ++ (from_utf8 (slice p (offset + 1) end) ∷ [])) in
        if ltb (length p) end then err capability_overruns else rest
  ]

  -- The second part is the field `bytesRead`: the offset behind the list, or 0 if there is none.
  unfoldable pub decode_capabilities : Bytes → ℕ → Result Error (List Text × ℕ)
  unfolding decode_items
  decode_capabilities p offset = elim (get_elem? p offset) [
    | none ↦ ok ([], 0)
    | some count ↦ decode_items count p (offset + 1) []
  ]

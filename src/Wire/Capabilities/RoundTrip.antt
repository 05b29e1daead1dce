-- ===== src/Wire/Capabilities/RoundTrip.antt =====
-- decodeCapabilities reads what encodeCapabilities wrote.
use block_proxy.Common.{ℕ, suc, ◌+◌, ◌≤◌, ◌≡◌, refl, ap, ◌∙◌, arith}
use block_proxy.Common.{List, [], ◌∷◌, ◌++◌, length, All, ok, get_elem?_skip, length-append}
use block_proxy.Common.{append_assoc, append-nil, take-append, drop_skip}
use block_proxy.Wire.Buffer.{Bytes, Text, slice, Node, IsWellFormed}
use block_proxy.Wire.Capabilities.{
  encode_items, encode_capabilities, decode_items, decode_capabilities,
}

module _ (node : Node) where
  open node use {utf8, from_utf8, from_utf8-utf8}

  abbrev pub IsName : Text → Type 0
  IsName t = IsWellFormed t × (length (utf8 t) ≤ 255)

  abbrev pub item_bytes : List Text → Bytes
  item_bytes [] = []
  item_bytes (c ∷ cs) = length (utf8 c) ∷ (utf8 c ++ item_bytes cs)

  encode_items-item_bytes :
      (cs : List Text) → All IsName cs → encode_items node cs ≡ ok (item_bytes cs)
  unfolding encode_items
  encode_items-item_bytes [] h = refl
  encode_items-item_bytes (c ∷ cs) h = ground (arith, encode_items-item_bytes cs h.1)

  pub encode_capabilities-wire :
      (cs : List Text)
      → All IsName cs
      → length cs ≤ 255
      → encode_capabilities node cs ≡ ok (length cs ∷ item_bytes cs)
  unfolding encode_capabilities
  encode_capabilities-wire cs h k = ground (arith, encode_items-item_bytes cs h)

  decode_items_step :
      (left : ℕ) (pre rest : Bytes) (c : Text) (seen : List Text) (offset : ℕ)
      → IsName c
      → offset ≡ length pre
      → decode_items node (suc left) (pre ++ (length (utf8 c) ∷ (utf8 c ++ rest))) offset seen
        ≡ decode_items node left
            (pre ++ (length (utf8 c) ∷ (utf8 c ++ rest)))
            (offset + 1 + length (utf8 c))
            (seen ++ (c ∷ []))
  unfolding decode_items
  decode_items_step left pre rest c seen offset h e =
      let whole = pre ++ (length (utf8 c) ∷ (utf8 c ++ rest)) in
      let at : slice whole (offset + 1) (offset + 1 + length (utf8 c)) ≡ utf8 c =
        rw (drop_skip pre _ (offset + 1) 1 (omega arith))
          (take-append _ (utf8 c) rest (omega arith)) in
      let size = length-append pre (length (utf8 c) ∷ (utf8 c ++ rest)) in
      rw
        (
          get_elem?_skip pre (length (utf8 c) ∷ (utf8 c ++ rest)) offset 0 (omega arith),
          decode_items,
        )
        (rw (at, from_utf8-utf8 c h.0) (ground (arith, size, length-append (utf8 c) rest)))

  decode_items-item_bytes :
      (cs : List Text) (pre rest : Bytes) (seen : List Text) (offset : ℕ)
      → All IsName cs
      → offset ≡ length pre
      → decode_items node (length cs) (pre ++ (item_bytes cs ++ rest)) offset seen
        ≡ ok (seen ++ cs, offset + length (item_bytes cs))
  decode_items-item_bytes [] pre rest seen offset h e =
      unfold decode_items in rw append-nil (ground arith)
  decode_items-item_bytes (c ∷ cs) pre rest seen offset h e =
      let item = length (utf8 c) ∷ utf8 c in
      let ih =
        decode_items-item_bytes cs (pre ++ item) rest (seen ++ (c ∷ []))
          (offset + 1 + length (utf8 c)) h.1 (omega (arith, length-append pre item)) in
      let here =
        rw (append_assoc pre item (item_bytes cs ++ rest), append_assoc seen (c ∷ []) cs) at ih in
      rw append_assoc (
        decode_items_step (length cs) pre (item_bytes cs ++ rest) c seen offset h.0 e
        ∙ here
        ∙ ap (λ k. ok (seen ++ (c ∷ cs), k))
            (omega (arith, length-append (utf8 c) (item_bytes cs))))

  pub decode_capabilities-wire :
      (cs : List Text) (pre rest : Bytes) (offset : ℕ)
      → All IsName cs
      → offset ≡ length pre
      → decode_capabilities node (pre ++ (length cs ∷ (item_bytes cs ++ rest))) offset
        ≡ ok (cs, offset + 1 + length (item_bytes cs))
  unfolding decode_capabilities
  decode_capabilities-wire cs pre rest offset h e =
      let count = length cs ∷ [] in
      let items =
        decode_items-item_bytes cs (pre ++ count) rest [] (offset + 1) h
          (omega (arith, length-append pre count)) in
      rw
        (
          get_elem?_skip pre (length cs ∷ (item_bytes cs ++ rest)) offset 0 (omega arith),
          decode_capabilities,
        )
        (rw (append_assoc pre count (item_bytes cs ++ rest)) at items)

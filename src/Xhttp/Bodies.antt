-- ===== src/Xhttp/Bodies.antt =====
-- _readBody of tunnel/xhttpHandler.js: how much of a request's body is kept.
use block_proxy.Common.{
  ℕ, ◌+◌, ◌≤◌, ◌<◌, ◌≡◌, refl, sym, arith, List, [], ◌∷◌, ◌++◌, none, some, length, length-append,
  append_assoc, append-nil, ltb, lt→ltb, ltb→lt, ◌⊎◌, inl, inr, Bool-cases,
}
use block_proxy.Wire.Buffer.{Bytes}
use block_proxy.Xhttp.State.{max_post_body_size, read_chunks, read_body}

-- The chunks in a row.
abbrev pub joined : List Bytes → Bytes
joined [] = []
joined (c ∷ cs) = c ++ joined cs

read_chunks-joined :
    (cs : List Bytes) (total : ℕ) (seen : Bytes)
    → total ≡ length seen
    → total ≤ max_post_body_size
    → ((read_chunks total seen cs ≡ some (seen ++ joined cs))
        × (length (seen ++ joined cs) ≤ max_post_body_size))
      ⊎ ((read_chunks total seen cs ≡ none) × (max_post_body_size < length (seen ++ joined cs)))
unfolding read_chunks
read_chunks-joined [] total seen e h = rw append-nil (inl (refl, omega arith))
read_chunks-joined (c ∷ cs) total seen e h =
    let size = length-append seen c in
    let all = length-append (seen ++ c) (joined cs) in
    elim (Bool-cases (ltb max_post_body_size (total + length c))) [
      | inl f ↦
          let big = ltb→lt max_post_body_size (total + length c) f in
          rw (f, sym (append_assoc seen c (joined cs))) (inr (refl, omega arith))
      | inr f ↦
          rw (f, sym (append_assoc seen c (joined cs)))
            (read_chunks-joined cs (total + length c) (seen ++ c) (omega arith)
              (ground (arith, lt→ltb max_post_body_size (total + length c))))
    ]

-- A body of at most 70000 bytes is handed over whole, and a longer one is refused: however it is
-- cut into chunks, the result is the same.
pub read_body-joined :
    (cs : List Bytes)
    → ((read_body cs ≡ some (joined cs)) × (length (joined cs) ≤ max_post_body_size))
      ⊎ ((read_body cs ≡ none) × (max_post_body_size < length (joined cs)))
unfolding read_body
read_body-joined cs = read_chunks-joined cs 0 [] refl (omega arith)

-- ===== src/Chain/Link.antt =====
-- The socket to the chain proxy, in connectViaChainProxy of proxy/proxy.js.
use block_proxy.Common.{ℕ, List, [], ◌∷◌, ◌++◌}
use block_proxy.Wire.Buffer.{Bytes}

-- `waiting` is handshakeStep; `resolved` and `failed` are the two ends of the promise.
pub data Stage : Type 0 where
  waiting : ℕ → Stage
  resolved failed : Stage

-- `put_back` is what `socket.unshift` gave back, with what arrives later behind it.
pub record Link : Type 0 where
  pub stage : Stage
  pub buffer : Bytes
  pub written : List Bytes
  pub put_back : Bytes

abbrev pub send : Link → Bytes → Link
send k b = record k { written = k.written ++ (b ∷ []) }

-- `socket.destroy(new Error(…))`: the promise is rejected. At either end nothing reads `buffer` any
-- more, so it is emptied.
abbrev pub fail : Link → Link
fail k = record k { stage = failed; buffer = [] }

abbrev pub resolve : Link → Bytes → Link
resolve k rest = record k { stage = resolved; buffer = []; put_back = rest }

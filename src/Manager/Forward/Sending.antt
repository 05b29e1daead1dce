-- ===== src/Manager/Forward/Sending.antt =====
-- _sendData, _sendDataToClient and _sendCloseToClient of TunnelManager.
use block_proxy.Common.{ℕ, List, [], ◌∷◌, ◌++◌, Option, none, some}
use block_proxy.Wire.Buffer.{Bytes}
use block_proxy.Wire.Frame.{Frame, close}
use block_proxy.Manager.Chunks.{data_frames}
use block_proxy.Manager.State.{Manager, Entry, lookup, put, send}
use block_proxy.Manager.Calls.{touch, reset_idle}

-- The rest of a loop over data, whose rounds wait for setImmediate.
unfoldable pub send_frames : Manager → ℕ → List Frame → Manager
send_frames m session [] = m
send_frames m session (f ∷ fs) =
    let sent = send m f session in record sent { pending = sent.pending ++ ((session, fs) ∷ []) }

unfoldable pub resume : Manager → List (ℕ × List Frame) → Manager
resume m [] = m
resume m ((session, fs) ∷ rest) = send_frames (record m { pending = rest }) session fs

-- `if (entry) entry.lastActivityAt = Date.now()`
unfoldable pub touch_found : Manager → Option (ℕ × Entry) → Manager
touch_found m none = m
touch_found m (some (id, e)) = put m id (touch m e)

-- _sendDataToClient and _sendCloseToClient
unfoldable pub send_data_to_client : Manager → ℕ → Bytes → ℕ → Manager
send_data_to_client m reqid bytes session =
    send_frames (touch_found m (lookup m reqid)) session (data_frames reqid bytes)

unfoldable pub send_close_to_client : Manager → ℕ → ℕ → Manager
send_close_to_client m reqid session = send (touch_found m (lookup m reqid)) (close reqid) session

-- _sendData, which _write of a TunnelDuplex calls.
unfoldable pub data_for : Manager → ℕ → Bytes → Option (ℕ × Entry) → Manager
data_for m reqid bytes none = m
data_for m reqid bytes (some (id, e)) =
    send_frames (put m id (reset_idle m (touch m e))) e.session (data_frames reqid bytes)

unfoldable pub send_data : Manager → ℕ → Bytes → Manager
send_data m reqid bytes = data_for m reqid bytes (lookup m reqid)

-- ===== src/Socks/Tests.antt =====
-- Runs of the SOCKS5 server, and the theorems on it at concrete inputs.
use block_proxy.Common.{text_eq, ◌≡◌, refl, arith, [], ◌∷◌, ◌++◌, List, some, ok, take, ◌⊎◌}
use block_proxy.Common.Texts.{join, has_prefix, ascii_text}
use block_proxy.Wire.Buffer.{Bytes, Text, decimal}
use block_proxy.Wire.Address.{dotted}
use block_proxy.Wire.Tests.{ascii}
use block_proxy.Socks.Relay.{
  is_http_ok, answered, on_answer, proxy_answers, proxy_connected, proxy_data,
}
use block_proxy.Manager.Forward.{connect_request, index_from}
use block_proxy.Socks.Address.{
  parse_typed, with_port, dotted_bytes, response, Target, parse_address,
}
use block_proxy.Socks.State.{
  finish_handshake, handle_tcp_request, tcp_cleanup, udp_cleanup, Client, Server, new, accept,
  new_client, put, write, requesting,
}
use block_proxy.Socks.Handshake.{
  handshake_data, on_greeting, choose_method, choose_from, authorized, password_at, on_command,
  read_credentials, on_credentials, on_request,
}
use block_proxy.Socks.Udp.{cuts, round_of, take_frames, payload_datagram, reply_frame}
use block_proxy.Socks.Udp.Chunks.{goes_on, take_frames-append}
use block_proxy.Socks.Steps.{
  step, client_chunk, client_closed, Event, connects, client_sends, client_closes, proxy_connects,
  proxy_sends, proxy_closes, run,
}
use block_proxy.Socks.Balance.{IsBalanced}
use block_proxy.Socks.Balance.Run.{run-IsBalanced}
use block_proxy.Socks.Access.{IsAdmitted, IsRefused, on_credentials-access, run_unacceptable}
use block_proxy.Socks.Garbled.{parse_address-2001}
use block_proxy.Socks.Replies.{payload_datagram-reply_frame}

abbrev locked : Server
locked = new (some (b'u' ∷ [])) (some (b'p' ∷ [])) 1

-- Credentials, a CONNECT to 10.0.0.1:80, the proxy's answer, data, and the end; a second client
-- connects, is refused at the limit, and closes.
abbrev talk : List Event
talk =
    connects
    ∷ client_sends 0 (5 ∷ 1 ∷ 2 ∷ [])
    ∷ client_sends 0 (1 ∷ 1 ∷ b'u' ∷ 1 ∷ b'p' ∷ [])
    ∷ client_sends 0 (5 ∷ 1 ∷ 0 ∷ 1 ∷ 10 ∷ 0 ∷ 0 ∷ 1 ∷ 0 ∷ 80 ∷ [])
    ∷ proxy_connects 0
    ∷ connects
    ∷ client_sends 1 (5 ∷ 1 ∷ 2 ∷ [])
    ∷ client_sends 1 (1 ∷ 1 ∷ b'u' ∷ 1 ∷ b'p' ∷ [])
    ∷ client_sends 1 (5 ∷ 1 ∷ 0 ∷ 1 ∷ 10 ∷ 0 ∷ 0 ∷ 1 ∷ 0 ∷ 80 ∷ [])
    ∷ client_closes 1
    ∷ proxy_sends 0 (ascii_text "HTTP/1.1 200 OK\r\n\r\n")
    ∷ proxy_closes 0
    ∷ client_closes 0
    ∷ []

run-IsBalanced_example : IsBalanced (run ascii decimal locked talk)
run-IsBalanced_example = run-IsBalanced ascii decimal (some (b'u' ∷ [])) (some (b'p' ∷ [])) 1 talk

abbrev frame : Bytes
frame = 0 ∷ 11 ∷ 0 ∷ 0 ∷ 0 ∷ 1 ∷ 10 ∷ 0 ∷ 0 ∷ 1 ∷ 0 ∷ 53 ∷ 9 ∷ []

take_frames-append_example :
    take_frames ascii ((frame ++ (0 ∷ [])) ++ (11 ∷ 0 ∷ 0 ∷ [])) []
    ≡ goes_on ascii (take_frames ascii (frame ++ (0 ∷ [])) []) (11 ∷ 0 ∷ 0 ∷ [])
take_frames-append_example = take_frames-append ascii (frame ++ (0 ∷ [])) (11 ∷ 0 ∷ 0 ∷ []) []

abbrev wrong : Bytes
wrong = 1 ∷ 1 ∷ b'u' ∷ 1 ∷ b'q' ∷ []

on_credentials-access_example :
    (((username : Text) × (password : Text) × (read_credentials ascii wrong
          ≡ some (username, password))
        × (locked.username ≡ some username)
        × (locked.password ≡ some password))
      × IsAdmitted new_client (on_credentials ascii locked new_client wrong))
    ⊎ IsRefused new_client (on_credentials ascii locked new_client wrong)
on_credentials-access_example = on_credentials-access ascii locked new_client wrong

abbrev told : Client
told = record (write new_client (5 ∷ 255 ∷ [])) { phase = requesting }

abbrev to_ten : Bytes
to_ten = 5 ∷ 1 ∷ 0 ∷ 1 ∷ 10 ∷ 0 ∷ 0 ∷ 1 ∷ 0 ∷ 80 ∷ []

run_unacceptable_example :
    run ascii decimal (accept locked) (client_sends 0 (5 ∷ 1 ∷ 1 ∷ []) ∷ client_sends 0 to_ten ∷ [])
    ≡ on_request ascii (put (accept locked) 0 told) 0 told to_ten
unfolding accept new
run_unacceptable_example =
    run_unacceptable ascii decimal (accept locked) 0 new_client 5 (1 ∷ []) to_ten refl refl refl
      ((refl, refl), tt)

-- 2001::1, port 443.
parse_address-2001_example :
    (t : Target) × (parse_address ascii
        (5 ∷ 1 ∷ 0 ∷ 4 ∷ 0x20 ∷ 0x01 ∷ 0 ∷ 0 ∷ 0 ∷ 0 ∷ 0 ∷ 0 ∷ 0 ∷ 0 ∷ 0 ∷ 0 ∷ 0 ∷ 0 ∷ 0 ∷ 1 ∷ 1
          ∷ 187 ∷ [])
        3
      ≡ ok t)
    × (take 5 t.host ≡ ascii_text "[201:")
parse_address-2001_example =
    parse_address-2001 ascii 5 1 0 0 1 187 (0 ∷ 0 ∷ 0 ∷ 0 ∷ 0 ∷ 0 ∷ 0 ∷ 0 ∷ 0 ∷ 0 ∷ 0 ∷ 1 ∷ []) []
      refl

payload_datagram-reply_frame_example :
    let address = dotted (decimal 10) (decimal 0) (decimal 0) (decimal 200) in
    (p : Bytes) × (round_of (reply_frame address 53 (7 ∷ 8 ∷ []) ++ (0 ∷ [])) ≡ cuts p (0 ∷ []))
    × (payload_datagram ascii p ≡ some (record { host = address; port = 53; content = 7 ∷ 8 ∷ [] }))
payload_datagram-reply_frame_example =
    payload_datagram-reply_frame ascii 10 0 0 200 53 7 (8 ∷ []) (0 ∷ []) (omega arith) (omega arith)
      (omega arith) (omega arith) (omega arith) (omega arith)

talk_counts :
    let s = run ascii decimal locked talk in
    (s.accepted_tcp ≡ 1)
    × (s.rejected_tcp ≡ 1)
    × (s.closed_tcp ≡ 1)
    × (s.active_tcp ≡ 0)
    × (s.handshaking_sockets ≡ 0)
unfolding run new step accept client_chunk handshake_data on_greeting choose_method choose_from
    on_credentials authorized read_credentials password_at text_eq on_request on_command
    parse_address parse_typed with_port join dotted_bytes response connect_request is_http_ok
    answered on_answer proxy_answers proxy_connected proxy_data finish_handshake handle_tcp_request
    tcp_cleanup udp_cleanup client_closed decimal index_from has_prefix
talk_counts = (refl, refl, refl, refl, refl)

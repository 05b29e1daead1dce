-- ===== src/Chain/Tests.antt =====
-- The chain proxy at concrete inputs.
use block_proxy.Common.{false, text_eq, ◌≡◌, refl, arith, get_elem?, [], ◌∷◌, ◌++◌, some}
use block_proxy.Common.Texts.{ascii_text}
use block_proxy.Wire.Buffer.{Bytes, Text, decimal, well_formed}
use block_proxy.Wire.Tests.{ascii}
use block_proxy.Socks.State.{Client, Server, new, accept, connecting}
use block_proxy.Socks.Steps.{client_sends, run}
use block_proxy.Xhttp.Routes.{parse_seq, signed, skip_spaces, unsigned, digits_value}
use block_proxy.Chain.Config.{parse_chain_proxy_address}
use block_proxy.Chain.Agents.{
  AgentKey, Agent, http_agent, cached, auth_of, new_agent, get_chain_proxy_agent,
}
use block_proxy.Chain.Link.{Link, waiting, resolved}
use block_proxy.Chain.Socks.{
  socks5_connect, on_data, on_stage, on_step, connect_response, get_socks5_connect_response_length,
}
use block_proxy.Chain.Meets.{run-socks5_connect}
use block_proxy.Chain.Response.{on_data-append}
use block_proxy.Chain.RoundTrip.{parse_chain_proxy_address-append}

abbrev site : Text
site = ascii_text "ab.c"

abbrev upstream : Server
upstream = accept (new (some (b'u' ∷ [])) (some (b'p' ∷ [])) 4)

run-socks5_connect_example :
    let answer = on_data ascii site 443 (b'u' ∷ []) (b'p' ∷ []) in
    (first second third : Bytes) × (c : Client) × ((answer
        (answer (socks5_connect ascii site 443 (b'u' ∷ []) (b'p' ∷ [])) (5 ∷ 2 ∷ []))
        (1 ∷ 0 ∷ [])).written
      ≡ first ∷ second ∷ third ∷ [])
    × (get_elem?
          (run ascii decimal upstream
            (client_sends 0 first ∷ client_sends 0 second ∷ client_sends 0 third ∷ [])).clients
          0
        ≡ some c)
    × (c.phase ≡ connecting)
    × (c.host ≡ site)
    × (c.port ≡ 443)
    × (c.written ≡ (5 ∷ 2 ∷ []) ∷ (1 ∷ 0 ∷ []) ∷ [])
unfolding accept new well_formed
run-socks5_connect_example =
    run-socks5_connect ascii site 443 b'u' [] (b'p' ∷ []) decimal upstream 0 refl refl refl
      (omega arith) refl refl refl (omega arith) (omega arith) (omega arith) (omega arith)

abbrev asked : Link
asked = record { stage = waiting 2; buffer = 5 ∷ []; written = []; put_back = [] }

on_data-append_example :
    let answer = on_data ascii site 443 [] [] in
    answer (answer asked (0 ∷ 0 ∷ [])) (1 ∷ 0 ∷ 0 ∷ 0 ∷ 0 ∷ 0 ∷ 0 ∷ 7 ∷ [])
    ≡ answer asked ((0 ∷ 0 ∷ []) ++ (1 ∷ 0 ∷ 0 ∷ 0 ∷ 0 ∷ 0 ∷ 0 ∷ 7 ∷ []))
on_data-append_example =
    on_data-append ascii site 443 [] [] asked (0 ∷ 0 ∷ []) (1 ∷ 0 ∷ 0 ∷ 0 ∷ 0 ∷ 0 ∷ 0 ∷ 7 ∷ []) refl

put_back_seven :
    on_data ascii site 443 [] [] asked (0 ∷ 0 ∷ 1 ∷ 0 ∷ 0 ∷ 0 ∷ 0 ∷ 0 ∷ 0 ∷ 7 ∷ [])
    ≡ record { stage = resolved; buffer = []; written = []; put_back = 7 ∷ [] }
unfolding on_data on_stage on_step connect_response get_socks5_connect_response_length
put_back_seven = refl

parse_chain_proxy_address-append_example :
    parse_chain_proxy_address (ascii_text "me:p@:x@h.io:1080")
    ≡ some (record {
      username = ascii_text "me";
      password = ascii_text "p@:x";
      host = ascii_text "h.io";
      port = 1080;
    })
unfolding parse_seq signed skip_spaces unsigned digits_value
parse_chain_proxy_address-append_example =
    parse_chain_proxy_address-append (ascii_text "me") (ascii_text "p@:x") (ascii_text ".io")
      (ascii_text "1080") b'h' 1080 (refl, (refl, tt))
      (refl, (refl, (refl, (refl, (refl, (refl, (refl, (refl, (refl, tt)))))))))
      (refl, (refl, (refl, (refl, tt)))) refl (omega arith) (omega arith)

abbrev to_h : AgentKey
to_h = record {
  is_https = false;
  is_socks5 = false;
  proxy = record {
    username = ascii_text "u";
    password = ascii_text "p";
    host = ascii_text "h";
    port = 80;
  };
}

abbrev agent_h : Agent
agent_h = record { kind = http_agent; url = ascii_text "http://u:p@h:80" }

agent_cached :
    (get_chain_proxy_agent (λ t. t) decimal [] to_h ≡ (agent_h, (to_h, agent_h) ∷ []))
    × (get_chain_proxy_agent (λ t. t) decimal ((to_h, agent_h) ∷ []) to_h
        ≡ (agent_h, (to_h, agent_h) ∷ []))
unfolding get_chain_proxy_agent cached new_agent auth_of decimal text_eq
agent_cached = (refl, refl)

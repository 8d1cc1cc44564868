-- ===== src/Tests/NetRuns.antt =====
-- Runs of the loops of antarc/src.
use antarc.Shared.HashMap.{get, insert, remove}
use antarc.Packets.Decode.{try_for_server, try_for_client}
use antarc.Packets.Raw.{inner_decode, decode_header, common_decode}
use antarc.Net.ClientRuns.{connecting, ClientRun-ClientInv}
use antarc.Client.Invariant.{ClientInv}
use antarc.Server.Requests.{Inv}
use antarc.Client.{poll_requests, Client}
use antarc.Net.ServerRuns.{ServerRun-Inv}
use antarc.Net.ServerRuns
use antarc.Net.ClientRuns
use antarc.Net.ClientLoop
use antarc.Protocol.Sides.{new_client_protocol, new_server_protocol}
use antarc.Packets.Framing.{body, framed}
use antarc.Server.{poll_accepted, Server}
use antarc.Shared.{◌*◌, [], ◌∷◌, refl, ◌≡◌}
use antarc.Base.Results.{done, failed, panicked, Reply, Result, ok, err, panic}
use antarc.Packets.Encode.{connection_accepted_encoder, connection_request_encoder}
use antarc.Net.{zeroed, AntarcNet}
use antarc.Net.ServerLoop
use antarc.Tests.Host.{LogHost, log_host}
use antarc.Tests.Data.{acceptance, release, to_send, request}

abbrev ok_or_else : {A : Type 0} → A → Result A → A
ok_or_else default panic = default
ok_or_else default (ok a) = a
ok_or_else default (err problem) = default

-- A host to which a connection request comes in.
abbrev asked : LogHost
asked = record {
  clock = 100;
  outgoing = [];
  incoming = framed release 77 (body (to_send request)) ∷ [];
}

abbrev opened_server : AntarcNet Server LogHost
opened_server = record {
  antarc = new_server_protocol 8 30;
  address = 55;
  socket = asked;
  recv_buffer = zeroed (1500 * 5);
}

opened_once : ServerLoop.new_server log_host asked 55 8 30 ≡ ok opened_server
unfolding ServerLoop.new_server
opened_once = refl

-- The server after a poll, in which the request comes in.
served_server : AntarcNet Server LogHost
unfolding ServerLoop.poll
served_server = (ok_or_else (opened_server, []) (ServerLoop.poll log_host release opened_server)).0

served : ServerLoop.poll log_host release opened_server ≡ ok (served_server, [])
unfolding ServerLoop.poll served_server new_server_protocol inner_decode decode_header common_decode
    try_for_server get insert poll_accepted
served = refl

-- It sends its answer at the next poll, and would wait for ever if nothing more came in.
ServerRun-Inv_example : Inv served_server.antarc.service
ServerRun-Inv_example =
    ServerRun-Inv log_host release
      (ServerRuns.polled [] (ServerRuns.opened asked 55 30 opened_once) served)

-- A host to which a server's answer comes in.
abbrev answered : LogHost
answered = record {
  clock = 100;
  outgoing = [];
  incoming = framed release 55 (body (to_send acceptance)) ∷ [];
}

abbrev opened_client : AntarcNet Client LogHost
opened_client = record {
  antarc = new_client_protocol;
  address = 77;
  socket = answered;
  recv_buffer = zeroed (1500 * 5);
}

opened_client_once : ClientLoop.new_client log_host answered 77 ≡ ok opened_client
unfolding ClientLoop.new_client
opened_client_once = refl

done_or_else : {S A : Type 0} → S → Reply S A → S
done_or_else default panicked = default
done_or_else default (done s answer) = s
done_or_else default (failed s problem) = default

connecting_client : AntarcNet Client LogHost
unfolding ClientLoop.connect done_or_else
connecting_client =
    done_or_else opened_client (ClientLoop.connect log_host release opened_client 55)

connecting_once : ClientLoop.connect log_host release opened_client 55 ≡ done connecting_client tt
unfolding ClientLoop.connect connecting_client done_or_else get new_client_protocol
connecting_once = refl

-- The client after a poll, in which it sends its request and the answer comes in.
connected_client : AntarcNet Client LogHost
unfolding ClientLoop.poll connecting_client
connected_client =
    (ok_or_else (opened_client, []) (ClientLoop.poll log_host release connecting_client)).0

connected_once : ClientLoop.poll log_host release connecting_client ≡ ok (connected_client, [])
unfolding ClientLoop.poll connecting_client connected_client new_client_protocol inner_decode
    decode_header common_decode try_for_client get insert remove poll_requests
connected_once = refl

ClientRun-ClientInv_example : ClientInv connected_client.antarc.service
ClientRun-ClientInv_example = ClientRun-ClientInv log_host release (
    ClientRuns.polled []
      (connecting 55 (ClientRuns.opened answered 77 opened_client_once) connecting_once)
      connected_once)

-- ===== src/Tests/Runs.antt =====
-- A client that connects with the token of Tests/Tokens, and queues that are emptied.
use netcode_io.Base.{[], map, false, some, ◌≡◌, refl, arith}
use netcode_io.Wire.{ok}
use netcode_io.Token.Public.{read_connect_token, write_connect_token}
use netcode_io.Token.Public.Laws.{read-write_token}
use netcode_io.Token.Public.Accepts.{IsAccepted, read_token-IsAccepted}
use netcode_io.Queue.{PacketQueue, init, push}
use netcode_io.Queue.Refine.{IsPacketQueue, init-IsPacketQueue, contents, length-contents, push_lem}
use netcode_io.Queue.Drain.{drain, drain_ends}
use netcode_io.Client.{Client, disconnected}
use netcode_io.Client.Connection.{client_create, client_connect, reset_connection_data, zero_token}
use netcode_io.Client.Invariant.{IsClient, reset_connection_data_lem}
use netcode_io.Client.Step.{Reach, created, later, connect}
use netcode_io.Client.Reachable.{Reach-IsClient}
use netcode_io.Tests.Toy.{toy, toy_doubles}
use netcode_io.Tests.Tokens.{token, token-IsToken}
use netcode_io.Tests.Clients.{waiting}

abbrev pub holding : PacketQueue
holding = (push (push init 71 1).0 72 2).0

holding-IsPacketQueue : IsPacketQueue holding
holding-IsPacketQueue =
    (push_lem (push init 71 1).0 72 2 (push_lem init 71 1 init-IsPacketQueue).0).0

drain_ends_example :
    (queue' : PacketQueue) × (drain 300 holding ≡ some (queue', map (λ e. e.0) (contents holding)))
    × IsPacketQueue queue'
    × (contents queue' ≡ [])
drain_ends_example =
    drain_ends 300 holding holding-IsPacketQueue
      (omega (arith, length-contents holding, holding-IsPacketQueue.count))

token-read : read_connect_token (write_connect_token token) ≡ ok token
token-read = read-write_token token token-IsToken

read_token-IsAccepted_example : IsAccepted token
read_token-IsAccepted_example = read_token-IsAccepted (write_connect_token token) token token-read

abbrev pub busy : Client toy_doubles
busy = record waiting { packet_receive_queue = holding }

reset_connection_data_lem_example :
    ((reset_connection_data toy_doubles busy disconnected).0.state ≡ disconnected)
    × ((reset_connection_data toy_doubles busy disconnected).0.loopback ≡ false)
    × ((reset_connection_data toy_doubles busy disconnected).0.packet_receive_queue ≡ init)
    × ((reset_connection_data toy_doubles busy disconnected).1 ≡ map (λ e. e.0) (contents holding))
reset_connection_data_lem_example =
    reset_connection_data_lem toy_doubles busy disconnected holding-IsPacketQueue

abbrev pub fresh : Client toy_doubles
fresh = client_create toy_doubles 1000

fresh-Reach : Reach toy_doubles toy fresh
fresh-Reach = created 1000

abbrev pub asking : Client toy_doubles
asking = (client_connect toy_doubles toy fresh (write_connect_token token) zero_token).0

Reach-IsClient_example : IsClient toy_doubles asking
unfolding client_create
Reach-IsClient_example =
    Reach-IsClient toy_doubles toy asking
      (later fresh-Reach (connect (write_connect_token token) zero_token refl))

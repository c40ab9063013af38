-- ===== src/Server/Examples.antt =====
-- A server with one address that can be bound and one that cannot, and its first connection.
use ezwebsocket.Prelude.{◌+◌, ◌≡◌, refl, true, false, List, [], ◌∷◌, none, some, Ensures}
use ezwebsocket.Resources.{Live}
use ezwebsocket.SocketServer.{ServerList}
use ezwebsocket.Server.{
  ServerAnswers, websocket_server_open, start_connection, end_connection, unref_desc,
  server_on_open, server_on_close,
}
use ezwebsocket.Server.Accounting.{OpensServer, websocket_server_open-OpensServer}
use ezwebsocket.Server.Life.{IsSameList, connection_life, full_list-ends}
use ezwebsocket.Server.Dead.{Event, starts, opens, closes, ends, dead_connection}
use ezwebsocket.SocketServer.Registry.{count}
use ezwebsocket.SocketServer.{add_ref, drop_ref, add_connection, remove_connection, unlink}

abbrev two_addresses : ServerAnswers
two_addresses = record {
  desc_ok = true;
  addresses = some ((true, false) ∷ (true, true) ∷ []);
  socket_desc_ok = true;
  thread_ok = true;
}

abbrev nothing : Live
nothing = record { blocks = 0; fds = 0; threads = 0; tls = 0; infos = 0 }

websocket_server_open-OpensServer_example :
    Ensures (OpensServer two_addresses nothing) (websocket_server_open two_addresses nothing)
websocket_server_open-OpensServer_example = websocket_server_open-OpensServer two_addresses nothing

abbrev alone : ServerList
alone = record { list = []; num_connections = 0; refs = λ desc. 0 }

connection_life_example :
    Ensures
      (λ started.
        (started.0 ≡ true)
        × Ensures
            (λ opened.
              Ensures
                (λ gone. (gone.1 ≡ 2) × Ensures (IsSameList alone) (end_connection (gone.0) 7))
                (server_on_close (opened.0) 7 (opened.1 + 2)))
            (server_on_open true (started.1) 7))
      (start_connection true true true alone 7)
connection_life_example = connection_life alone 7 2

full_list-ends_example :
    Ensures
      (λ started. (started.0 ≡ true) × (end_connection (started.1) 7 ≡ none))
      (start_connection true false true alone 7)
full_list-ends_example = full_list-ends alone 7 refl

-- The list with the dead connection, and what becomes of it when another connection has come and gone.
abbrev dead : ServerList
dead = record {
  list = 7 ∷ [];
  num_connections = 1;
  refs = drop_ref (add_ref (add_ref (λ desc. 0) 7) 7) 7;
}

abbrev later : ServerList
later = record {
  list = 7 ∷ [];
  num_connections = 1;
  refs = drop_ref (drop_ref (drop_ref (add_ref (add_ref (add_ref dead.refs 8) 8) 8) 8) 8) 8;
}

abbrev another : List Event
another = starts true true true 8 ∷ opens 8 ∷ closes 8 ∷ ends 8 ∷ []

dead_connection_example : (false ≡ false) × (count 7 (7 ∷ []) ≡ 1) × (later.refs 7 ≡ 1)
unfolding start_connection server_on_open server_on_close end_connection unref_desc add_connection
    remove_connection unlink add_ref drop_ref count
dead_connection_example =
    dead_connection alone dead later 7 false another refl refl refl
      ((refl, (refl, (refl, (refl, tt))))) refl

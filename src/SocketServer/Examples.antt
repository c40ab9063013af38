-- ===== src/SocketServer/Examples.antt =====
-- A list of two connections, and a reader that takes one byte at a time.
use ezwebsocket.Prelude.{◌≡◌, refl, arith, true, [], ◌∷◌, none}
use ezwebsocket.SocketServer.{
  ServerList, add_connection, remove_connection, close_all_connections, unlink,
}
use ezwebsocket.SocketServer.Registry.{
  IsCounted, count, add_connection-IsCounted, remove_connection-IsCounted,
  close_all_connections_faults,
}

abbrev two : ServerList
two = record { list = 3 ∷ 4 ∷ []; num_connections = 2; refs = λ desc. 2 }

two-IsCounted : IsCounted two
unfolding count
two-IsCounted = record { number = refl; held = λ desc. ground arith }

add_connection-IsCounted_example : IsCounted (add_connection true two 5).1
add_connection-IsCounted_example = add_connection-IsCounted true two 5 two-IsCounted

remove_connection-IsCounted_example : IsCounted (remove_connection two 4).1
unfolding remove_connection unlink
remove_connection-IsCounted_example = remove_connection-IsCounted two 4 two-IsCounted refl

close_all_connections_faults_example : close_all_connections (3 ∷ 4 ∷ []) ≡ none
close_all_connections_faults_example = close_all_connections_faults (4 ∷ []) 3

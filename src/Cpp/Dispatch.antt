-- ===== src/Cpp/Dispatch.antt =====
-- `main` of socket_examples_cpp.cpp, and the scope of each example's object.
pub mod Resources
pub mod Whole
mod Tests
use linux_system_programming.Base.{
  ℕ, ℤ, pos, ltb, String, codes, Bool, List, [], ◌∷◌, get_or, length,
}
use linux_system_programming.Posix.{Libc, lit, num, text, Prog, ret, fault, and_then, zeros}
use linux_system_programming.Socket.Dispatch.{same_text, int_or}
use linux_system_programming.Cpp.Method.{
  Tried, ok, threw, what, Method, pure, ◌>>=◌, ◌>>◌, if◌then◌else◌, cout, cerr, try_catch_all,
  scoped, local,
}
use linux_system_programming.Cpp.Socket.{Socket, no_socket, destroy}
use linux_system_programming.Cpp.TcpServer.{tcp_server, tcp_server_run, destroy_tcp_server}
use linux_system_programming.Cpp.TcpClient.{
  tcp_client_connect, tcp_client_send_message, tcp_client_recv_message, tcp_client_disconnect,
}
use linux_system_programming.Cpp.UdpServer.{udp_server_run}
use linux_system_programming.Cpp.UdpClient.{
  udp_client_connect, udp_client_send_message, udp_client_recv_message,
}
use linux_system_programming.Cpp.SelectEchoServer.{
  select_echo_server, select_echo_server_run, destroy_select_echo_server,
}
use linux_system_programming.Cpp.Bandwidth.{bandwidth_client}

-- `main` has no locals but the examples' objects.
abbrev pub Main : Type 0 → Type 0
Main A = Method (Unit {0}) A

-- The end of `main`: a result is the program's, an exception that is still on its way ends the process
-- in `std::terminate`.
abbrev pub leave_main : Tried ℤ → Prog ℤ
leave_main (ok n) = ret n
leave_main (threw e) = fault

-- The rounds for the loops and the first content of the local buffers are arguments.
module _ (libc : Libc) (rounds : ℕ) (buffer : List ℕ) where
  -- also `bandwidth_test_server_cpp`, whose class differs in what its threads run
  unfoldable pub tcp_server_example : ℤ → Main (Unit {0})
  tcp_server_example port =
      scoped (tcp_server port) destroy_tcp_server (local (tcp_server_run libc rounds))

  unfoldable pub bandwidth_server_example : ℤ → Main (Unit {0})
  bandwidth_server_example port = do
    cout (lit "Bandwidth test server on port " ∷ num port ∷ [])
    scoped (tcp_server port) destroy_tcp_server
        (local (scoped (tcp_server port) destroy_tcp_server (local (tcp_server_run libc rounds))))

  unfoldable pub tcp_client_example : List ℕ → ℤ → List ℕ → Main (Unit {0})
  unfolding tcp_client_connect tcp_client_send_message tcp_client_recv_message tcp_client_disconnect
  tcp_client_example host port bytes = scoped no_socket destroy (do
    local (tcp_client_connect libc host port)
    local (tcp_client_send_message bytes)
    response ← local (tcp_client_recv_message buffer 4096)
    cout (lit "Response: " ∷ text response ∷ [])
    local tcp_client_disconnect)

  unfoldable pub udp_server_example : ℤ → Main (Unit {0})
  udp_server_example port =
      scoped no_socket destroy (local (udp_server_run libc rounds buffer port))

  -- `server_addr` has no value before `connect` writes it; 0 stands for that.
  unfoldable pub udp_client_example : List ℕ → ℤ → List ℕ → Main (Unit {0})
  unfolding udp_client_connect udp_client_send_message udp_client_recv_message
  udp_client_example host port bytes =
      scoped (no_socket, record { port = 0; host = 0 }) (λ s. destroy s.0)
        (do
          local (udp_client_connect libc host port)
          local (udp_client_send_message bytes)
          response ← local (udp_client_recv_message buffer)
          cout (lit "Response: " ∷ text response ∷ []))

  unfoldable pub select_server_example : ℤ → Main (Unit {0})
  select_server_example port =
      scoped select_echo_server destroy_select_echo_server
        (local (select_echo_server_run libc rounds buffer port))

  unfoldable pub bandwidth_client_example : List ℕ → ℤ → ℤ → Main (Unit {0})
  bandwidth_client_example host port duration_sec =
      scoped no_socket destroy (local (bandwidth_client libc rounds host port duration_sec))

  -- What stands in `try`.
  unfoldable pub dispatch : List (List ℕ) → Main ℤ
  dispatch argv = do
    let argc = length argv
    let arg = λ (i : ℕ). get_or argv i []
    let is = λ (name : String). same_text (arg 1) (codes name)
    if is "tcp_server"
        then (do tcp_server_example (int_or libc argv 2 (pos 8080)); pure (pos 0))
        else if is "tcp_client"
        then (if ltb argc 5
            then (do cerr (lit "Usage: tcp_client <host> <port> <message>" ∷ []); pure (pos 1))
            else (do tcp_client_example (arg 2) (libc.atoi (arg 3)) (arg 4); pure (pos 0)))
        else if is "udp_server"
        then (do udp_server_example (int_or libc argv 2 (pos 8081)); pure (pos 0))
        else if is "udp_client"
        then (if ltb argc 5
            then (do cerr (lit "Usage: udp_client <host> <port> <message>" ∷ []); pure (pos 1))
            else (do udp_client_example (arg 2) (libc.atoi (arg 3)) (arg 4); pure (pos 0)))
        else if is "select_server"
        then (do select_server_example (int_or libc argv 2 (pos 8080)); pure (pos 0))
        else if is "bandwidth_server"
        then (do bandwidth_server_example (int_or libc argv 2 (pos 9999)); pure (pos 0))
        else if is "bandwidth_client"
        then (if ltb argc 4
            then (do
              cerr (lit "Usage: bandwidth_client <host> <port> [duration]" ∷ [])
              pure (pos 1))
            else (do
              bandwidth_client_example (arg 2) (libc.atoi (arg 3)) (int_or libc argv 4 (pos 10))
              pure (pos 0)))
        else (do cerr (lit "Unknown example: " ∷ text (arg 1) ∷ []); pure (pos 1))

  unfoldable pub cpp_main : List (List ℕ) → Prog ℤ
  cpp_main argv =
      let usage : Main ℤ = (do
        cout (lit "Usage: " ∷ text (get_or argv 0 []) ∷ lit " <example>" ∷ [])
        cout (lit "Examples:" ∷ [])
        cout (lit "  tcp_server [port]      - TCP echo server" ∷ [])
        cout (lit "  tcp_client <host> <port> <message>  - TCP client" ∷ [])
        cout (lit "  udp_server [port]      - UDP echo server" ∷ [])
        cout (lit "  udp_client <host> <port> <message>  - UDP client" ∷ [])
        cout (lit "  select_server [port]   - Select-based server" ∷ [])
        cout (lit "  bandwidth_server [port] - Bandwidth test server" ∷ [])
        cout (lit "  bandwidth_client <host> <port> [duration]" ∷ [])
        pure (pos 1)) in
      let tried : Main ℤ =
        try_catch_all (dispatch argv) (λ e. do cerr (lit "Error: " ∷ what libc e); pure (pos 1)) in
      and_then ((if ltb (length argv) 2 then usage else tried) tt) (λ r. leave_main r.0)

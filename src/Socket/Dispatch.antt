-- ===== src/Socket/Dispatch.antt =====
-- socket_examples_c.c, `main`: the dispatch on the command line.
pub mod Usage
mod Tests
use linux_system_programming.Base.{
  ℕ, ℤ, pos, ◌==◌, ◌&&◌, Bool, true, false, ltb, String, codes, List, [], ◌∷◌, get_or, length,
}
use linux_system_programming.Posix.{Libc, Prog, ret, if◌then◌else◌, ◌>>=◌, ◌>>◌, printf, text}
use linux_system_programming.Socket.EchoServer.{simple_echo_server}
use linux_system_programming.Socket.TcpClient.{simple_tcp_client}
use linux_system_programming.Socket.ThreadServer.{multithreaded_echo_server}
use linux_system_programming.Socket.Udp.{udp_echo_server, udp_client}
use linux_system_programming.Socket.SelectServer.{select_based_server}
use linux_system_programming.Socket.Bandwidth.{bandwidth_test_server, bandwidth_test_client}

-- `strcmp(a, b) == 0`
abbrev pub same_text : List ℕ → List ℕ → Bool
same_text [] [] = true
same_text (x ∷ xs) (y ∷ ys) = x == y && same_text xs ys
same_text _ _ = false

-- `argc > i ? atoi(argv[i]) : d`
abbrev pub int_or : Libc → List (List ℕ) → ℕ → ℤ → ℤ
int_or libc argv i d = elim (ltb i (length argv)) [
  | true ↦ libc.atoi (get_or argv i [])
  | false ↦ d
]

-- The rounds for the example's loops and the first content of its buffer are arguments.
unfoldable pub socket_main : Libc → ℕ → List ℕ → List (List ℕ) → Prog ℤ
socket_main libc rounds buffer argv = do
  let argc = length argv
  let arg = λ (i : ℕ). get_or argv i []
  let is = λ (name : String). same_text (arg 1) (codes name)
  if ltb argc 2
      then (do
        printf "Usage: %s <example>\n" (text (arg 0) ∷ [])
        printf "Examples:\n" []
        printf "  1. simple_server     - Simple echo server\n" []
        printf "  2. simple_client     - Simple client\n" []
        printf "  3. multi_server      - Multithreaded server\n" []
        printf "  4. udp_server        - UDP echo server\n" []
        printf "  5. udp_client        - UDP client\n" []
        printf "  6. select_server     - Select-based multiplexing server\n" []
        printf "  7. bandwidth_server  - Bandwidth test server\n" []
        printf "  8. bandwidth_client  - Bandwidth test client\n" []
        ret (pos 1))
      else if is "simple_server"
      then (do simple_echo_server libc rounds buffer; ret (pos 0))
      else if is "simple_client"
      then (if ltb argc 5
          then (do
            printf "Usage: %s simple_client <host> <port> <message>\n" (text (arg 0) ∷ [])
            ret (pos 1))
          else (do simple_tcp_client libc (arg 2) (arg 3) (arg 4) buffer; ret (pos 0)))
      else if is "multi_server"
      then (do multithreaded_echo_server libc rounds; ret (pos 0))
      else if is "udp_server"
      then (do udp_echo_server libc rounds buffer; ret (pos 0))
      else if is "udp_client"
      then (if ltb argc 5
          then (do
            printf "Usage: %s udp_client <host> <port> <message>\n" (text (arg 0) ∷ [])
            ret (pos 1))
          else (do udp_client libc (arg 2) (arg 3) (arg 4) buffer; ret (pos 0)))
      else if is "select_server"
      then (do select_based_server libc rounds buffer; ret (pos 0))
      else if is "bandwidth_server"
      then (do bandwidth_test_server libc rounds (int_or libc argv 2 (pos 9999)); ret (pos 0))
      else if is "bandwidth_client"
      then (if ltb argc 4
          then (do
            printf "Usage: %s bandwidth_client <host> <port> [duration]\n" (text (arg 0) ∷ [])
            ret (pos 1))
          else (do
            bandwidth_test_client libc rounds (arg 2) (libc.atoi (arg 3))
                (int_or libc argv 4 (pos 10))
            ret (pos 0)))
      else (do printf "Unknown example: %s\n" (text (arg 1) ∷ []); ret (pos 1))

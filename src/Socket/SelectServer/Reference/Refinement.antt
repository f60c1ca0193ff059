-- ===== src/Socket/SelectServer/Reference/Refinement.antt =====
-- select_based_server against the server over a list.
use linux_system_programming.Base.{
  ℕ, zero, suc, ℤ, minus_one, fails, not, true, false, Bool, ltb→lt, lt→ltb, leb, ◌≡◌, refl, ◌<◌,
  ltb, ◌&&◌, List, [], ◌∷◌, ◌++◌, take, get_or, length, length-append, take-append, arith,
}
use linux_system_programming.Posix.{
  Libc, Reply, run, Refines, refines_ret, refines_call, refines_print, Refines-print, Refines-if,
  refines_if, refines_then, refines_else, refines_fault, refines_spent, Refines-bind, Refines-run,
  Refines-refl,
}
use linux_system_programming.Socket.SelectServer.{
  Clients, serve_ready, close_slots, accept_ready, select_loop, select_based_server, remove_at,
}
use linux_system_programming.Socket.SelectServer.Table.{
  AllOpen, IsTable, IsTable-empty, IsTable-next, IsTable-restart, IsTable-remove, IsTable-add,
  get_or-append,
}
use linux_system_programming.Socket.SelectServer.Reference.{
  serve_clients, close_all, admit, watch_clients, reference_server,
}
use linux_system_programming.Socket.Nonblocking.{set_nonblocking}

-- the array and the list that stand for the same clients
abbrev pub Same : ℕ → Clients → List ℤ → Type 0
Same size s clients = IsTable size s [] clients

abbrev Served : ℕ → Clients × List ℕ → List ℤ × List ℕ → Type 0
Served size a b = Same size a.0 b.0 × (a.1 ≡ b.1)

module _ {size : ℕ} {s : Clients} {seen : List ℤ} where
  past_end : (i : ℕ) → IsTable size s seen [] → i ≡ length seen → not (ltb i s.num_clients) ≡ true
  past_end i t e = ground (arith, t.number)

  inside :
      {clients : List ℤ} {c : ℤ} (i : ℕ)
      → IsTable size s seen (c ∷ clients)
      → i ≡ length seen
      → not (ltb i s.num_clients) ≡ false
  inside i t e = ground (arith, t.number)

  in_array :
      {clients : List ℤ} {c : ℤ} (i : ℕ)
      → IsTable size s seen (c ∷ clients)
      → i ≡ length seen
      → ltb i (length s.slots) ≡ true
  in_array {clients} {c} i t e =
      rw (t.array) (ground (arith, length-append seen (c ∷ (clients ++ t.rest))))

  all_in_array :
      {clients : List ℤ} {c : ℤ}
      → IsTable size s seen (c ∷ clients)
      → leb s.num_clients (length s.slots) ≡ true
  all_in_array {clients} {c} t = rw (t.array) (
      ground (
        arith,
        t.number,
        length-append seen (c ∷ (clients ++ t.rest)),
        length-append clients t.rest,
      ))

  found :
      {clients : List ℤ} {c : ℤ} (i : ℕ)
      → IsTable size s seen (c ∷ clients)
      → i ≡ length seen
      → get_or s.slots i minus_one ≡ c
  found {clients} {c} i t e = rw (e, t.array) (get_or-append seen (clients ++ t.rest) c minus_one)

module _ (fd_setsize : ℕ) (ready : List ℤ) where
  serve_ready-Refines :
      (clients : List ℤ) (rounds i : ℕ) (seen : List ℤ) (s : Clients) (buffer : List ℕ)
      → IsTable fd_setsize s seen clients
      → i ≡ length seen
      → length clients < rounds
      → Refines
          (Served fd_setsize)
          (serve_ready fd_setsize rounds ready i s buffer)
          (serve_clients fd_setsize ready seen clients buffer)
  unfolding serve_ready serve_clients
  serve_ready-Refines clients zero i seen s buffer t e lt = absurd (omega arith)
  serve_ready-Refines [] (suc rounds) i seen s buffer t e lt =
      refines_then (past_end i t e) (refines_ret (IsTable-restart t, refl))
  serve_ready-Refines (c ∷ clients) (suc rounds) i seen s buffer t e lt =
      let kept = λ (b : List ℕ).
        serve_ready-Refines clients rounds (suc i) (seen ++ c ∷ []) s b (IsTable-next t)
          (omega (arith, e, length-append seen (c ∷ []))) (omega arith) in
      let gone = λ (b : List ℕ).
        serve_ready-Refines clients rounds i seen (remove_at i s) b (rw e (IsTable-remove t)) e
          (omega arith) in
      refines_else (inside i t e) (
        refines_then (in_array i t e) (
          rw (found i t e) (
            refines_else t.clients_open.0 (
              refines_if
                (λ _.
                  refines_if (λ _. kept buffer)
                    λ _. refines_call λ r.
                      refines_if
                        (λ _.
                          refines_print (refines_call λ _. refines_then (all_in_array t) (gone _)))
                        (λ _. Refines-print (rw e refl) (refines_call λ _. kept _)))
                (λ _. refines_fault)))))

close_slots-Refines :
    (clients : List ℤ)
    → AllOpen clients
    → Refines (λ (a b : Unit {0}). a ≡ b) (close_slots clients) (close_all clients)
unfolding close_slots close_all
close_slots-Refines [] h = refines_ret refl
close_slots-Refines (c ∷ clients) h =
    refines_else h.0 (refines_call λ _. close_slots-Refines clients h.1)

live :
    {size : ℕ} {s : Clients} {clients : List ℤ}
    → Same size s clients
    → take s.num_clients s.slots ≡ clients
live {s = s} {clients} t =
    let number : s.num_clients ≡ length clients = omega (arith, t.number) in
    rw (t.array, number) (take-append clients t.rest)

both : (a b : Bool) → (not a && b) ≡ true → (a ≡ false) × (b ≡ true)
both a b h = ground arith

module _ (libc : Libc) where
  accept_ready-Refines :
      (x : ℤ) (ready : List ℤ) (s : Clients) (clients : List ℤ)
      → Same libc.fd_setsize s clients
      → Refines (Same libc.fd_setsize) (accept_ready libc x ready s) (admit libc x ready clients)
  unfolding accept_ready admit
  accept_ready-Refines x ready s clients t =
      let number : s.num_clients ≡ length clients = omega (arith, t.number) in
      refines_if
        (λ _. refines_call λ r.
          Refines-if (rw number refl)
            (λ e.
              let (o, lt) = both (fails r.value) (ltb (length clients) libc.fd_setsize) e in
              let free : length clients < libc.fd_setsize =
                ltb→lt (length clients) libc.fd_setsize lt in
              refines_print (
                refines_then
                  (lt→ltb s.num_clients (length s.slots) (omega (arith, number, t.sized, free)))
                  (refines_ret (IsTable-add r.value t o free))))
            (λ _. refines_ret t))
        (λ _. refines_ret t)

  select_loop-Refines :
      (rounds : ℕ) (x : ℤ) (s : Clients) (clients : List ℤ) (buffer : List ℕ)
      → Same libc.fd_setsize s clients
      → Refines
          (Same libc.fd_setsize)
          (select_loop libc rounds x s buffer)
          (watch_clients libc rounds x clients buffer)
  unfolding select_loop watch_clients
  select_loop-Refines zero x s clients buffer t = refines_spent
  select_loop-Refines (suc rounds) x s clients buffer t = rw (live t) (
      refines_if
        (λ _. refines_call λ r.
          refines_if (λ _. refines_print (refines_ret t))
            (λ _.
              refines_if (λ _. refines_print (select_loop-Refines rounds x s clients buffer t))
                (λ _.
                  Refines-bind _ _ (accept_ready-Refines x r.ready s clients t) λ s' clients' t'.
                    Refines-bind _ _
                      (serve_ready-Refines libc.fd_setsize r.ready clients' (suc s'.num_clients) 0
                        [] s' buffer t' refl (omega (arith, t'.number)))
                      λ a b h. rw (h.1) (select_loop-Refines rounds x a.0 b.0 b.1 h.0))))
        (λ _. refines_fault))

  select_based_server-Refines :
      (rounds : ℕ) (buffer : List ℕ)
      → Refines
          (λ (a b : Unit {0}). a ≡ b)
          (select_based_server libc rounds buffer)
          (reference_server libc rounds buffer)
  unfolding select_based_server reference_server
  select_based_server-Refines rounds buffer = refines_call λ fd.
      refines_if (λ _. refines_print (refines_ret refl))
        (λ _. refines_call λ _.
          Refines-bind _ _ (Refines-refl (set_nonblocking libc fd.value)) λ _ _ _.
            refines_call λ bound.
              refines_if (λ _. Refines-refl _)
                (λ _. refines_call λ listening.
                  refines_if (λ _. Refines-refl _)
                    (λ _. refines_print (
                      refines_print (
                        Refines-bind _ _
                          (select_loop-Refines rounds fd.value _ [] buffer
                            (IsTable-empty libc.fd_setsize))
                          λ s clients t.
                            refines_call
                              λ _. rw (live t) (close_slots-Refines clients t.clients_open))))))

-- Against every history of replies `select_based_server`, with its array of FD_SETSIZE places, its
-- indices and its `memmove`, makes the same calls, prints the same lines and ends in the same way as
-- `reference_server`, which keeps a list of clients and drops those that left: no client is served
-- twice or skipped in a round, and the checks of its indices never fail.
pub select_based_server-reference_server :
    (libc : Libc) (rounds : ℕ) (buffer : List ℕ) (rs : List Reply)
    → run (select_based_server libc rounds buffer) rs ≡ run (reference_server libc rounds buffer) rs
select_based_server-reference_server libc rounds buffer =
    Refines-run (select_based_server-Refines libc rounds buffer)

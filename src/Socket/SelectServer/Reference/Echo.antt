-- ===== src/Socket/SelectServer/Reference/Echo.antt =====
-- select_based_server against the promise of an echo.
use linux_system_programming.Base.{
  arith, ℕ, zero, suc, ℤ, fails, positive, not, ◌&&◌, true, false, ◌≡◌, refl, ◌≤◌, pos_part, List,
  [], ◌∷◌, ◌++◌, length, Bool,
}
use linux_system_programming.Posix.{
  Libc, on, recv, Reply, Prog, call, if◌then◌else◌, AllLawful, run, Obeys, Safe, safe_ret,
  safe_call, safe_print, safe_if, safe_spent, Safe-check, Safe-bind, Safe-Obeys, fits_set,
  fits_set-new,
}
use linux_system_programming.Spec.Echo.{echo, Debt, settled, owes}
use linux_system_programming.Spec.Echo.Rules.{take-fill, echo-send, echo_bind, echo_rules}
use linux_system_programming.Socket.Nonblocking.{set_nonblocking}
use linux_system_programming.Socket.SelectServer.{mark, all_fit, select_based_server}
use linux_system_programming.Socket.SelectServer.Reference.{
  serve_clients, close_all, admit, watch_clients, reference_server,
}
use linux_system_programming.Socket.SelectServer.Reference.Refinement.{
  select_based_server-reference_server,
}

-- every client fits a set
abbrev AllFit : ℕ → List ℤ → Type 0
AllFit size [] = Unit
AllFit size (c ∷ cs) = (fits_set size c ≡ true) × AllFit size cs

AllFit-append :
    (size : ℕ) (xs ys : List ℤ) → AllFit size xs → AllFit size ys → AllFit size (xs ++ ys)
AllFit-append size [] ys h k = k
AllFit-append size (x ∷ xs) ys h k = (h.0, AllFit-append size xs ys h.1 k)

all_fit-AllFit : (size : ℕ) (xs : List ℤ) → AllFit size xs → all_fit size xs ≡ true
all_fit-AllFit size [] h = refl
all_fit-AllFit size (x ∷ xs) h = rw (h.0) (all_fit-AllFit size xs h.1)

either :
    (size : ℕ) (b : Bool) (p q : List ℤ × ℤ)
    → AllFit size p.0
    → AllFit size q.0
    → AllFit size (elim b as (λ _. List ℤ × ℤ) [ true ↦ p | false ↦ q ]).0
either size true p q h k = h
either size false p q h k = k

marked_fit :
    (size : ℕ) (clients read_set : List ℤ) (max_fd : ℤ)
    → AllFit size clients
    → AllFit size read_set
    → AllFit size (mark clients read_set max_fd).0
marked_fit size [] read_set max_fd h k = k
marked_fit size (c ∷ clients) read_set max_fd h k =
    either size (fails c) _ _ (marked_fit size clients read_set max_fd h.1 k)
      (marked_fit size clients (c ∷ read_set) _ h.1 (h.0, k))

not-true : (b : Bool) → not b ≡ true → b ≡ false
not-true b h = ground arith

not-false : (b : Bool) → not b ≡ false → b ≡ true
not-false b h = ground arith

new_fits : (a b : Bool) → (not a && b) ≡ true → a ≡ false
new_fits a b h = ground arith

module _ {ℓ} {A : Type ℓ} {limit : ℕ} {Q : A → Debt → Type 0} where
  -- the read of the source's loop, which tests for the end first
  recv_then :
      {x : ℤ} {size : ℕ} {p q : Reply → Prog A}
      → ((r : Reply) → Safe limit echo Q (p r) settled)
      → ((r : Reply) → length r.bytes ≡ pos_part r.value → Safe limit echo Q (q r) (owes x r.bytes))
      → Safe limit echo Q
          (call (on x (recv size)) (λ r. if not (positive r.value) then p r else q r))
          settled
  recv_then {x} {size} {p} {q} hp hq = safe_call refl λ r l.
      safe_if {p = p r} {q = q r} {s = echo.next settled (on x (recv size)) r}
        (λ e. rw (not-true (positive r.value) e) (hp r))
        (λ e. rw (not-false (positive r.value) e) (hq r l.0))

module _ (fd_setsize : ℕ) {limit : ℕ} (ready : List ℤ) where
  serve_clients-Echo :
      (clients kept : List ℤ) (buffer : List ℕ)
      → AllFit fd_setsize kept
      → AllFit fd_setsize clients
      → Safe limit echo
          (λ result d. AllFit fd_setsize result.0 × (d ≡ settled))
          (serve_clients fd_setsize ready kept clients buffer)
          settled
  unfolding serve_clients
  serve_clients-Echo [] kept buffer k h = safe_ret (k, refl)
  serve_clients-Echo (c ∷ clients) kept buffer k h =
      let stays = λ (b : List ℕ).
        serve_clients-Echo clients (kept ++ c ∷ []) b
          (AllFit-append fd_setsize kept (c ∷ []) k (h.0, tt)) h.1 in
      let leaves = λ (b : List ℕ). serve_clients-Echo clients kept b k h.1 in
      Safe-check h.0 (
        safe_if (λ _. stays buffer)
          λ _.
            recv_then (λ r. safe_print (safe_call refl λ _ _. leaves _))
              (λ r l. safe_print (echo-send (take-fill buffer r l) (λ _. stays _))))

close_all-Echo :
    {limit : ℕ} (clients : List ℤ)
    → Safe limit echo (λ _ d. d ≡ settled) (close_all clients) settled
unfolding close_all
close_all-Echo [] = safe_ret refl
close_all-Echo (c ∷ clients) = safe_call refl λ _ _. close_all-Echo clients

module _ (libc : Libc) {limit : ℕ} (le : limit ≤ libc.fd_setsize) where
  set_nonblocking-Echo :
      (x : ℤ) → Safe limit echo (λ _ d. d ≡ settled) (set_nonblocking libc x) settled
  unfolding set_nonblocking
  set_nonblocking-Echo x = search echo_rules depth 20

  admit-Echo :
      (x : ℤ) (ready clients : List ℤ)
      → AllFit libc.fd_setsize clients
      → Safe limit echo
          (λ result d. AllFit libc.fd_setsize result × (d ≡ settled))
          (admit libc x ready clients)
          settled
  unfolding admit
  admit-Echo x ready clients h =
      safe_if
        (λ _. safe_call refl λ r l.
          safe_if
            (λ e.
              let fits =
                fits_set-new libc.fd_setsize r.value le l.0 l.1 (new_fits (fails r.value) _ e) in
              safe_print (
                safe_ret (AllFit-append libc.fd_setsize clients (r.value ∷ []) h (fits, tt), refl)))
            (λ _. safe_ret (h, refl)))
        (λ _. safe_ret (h, refl))

  watch_clients-Echo :
      (rounds : ℕ) (x : ℤ) (clients : List ℤ) (buffer : List ℕ)
      → fits_set libc.fd_setsize x ≡ true
      → AllFit libc.fd_setsize clients
      → Safe limit echo (λ _ d. d ≡ settled) (watch_clients libc rounds x clients buffer) settled
  unfolding watch_clients
  watch_clients-Echo zero x clients buffer f h = safe_spent
  watch_clients-Echo (suc rounds) x clients buffer f h =
      Safe-check
        (all_fit-AllFit libc.fd_setsize _ (marked_fit libc.fd_setsize clients (x ∷ []) x h (f, tt)))
        (safe_call refl λ r _.
          safe_if (λ _. safe_print (safe_ret refl))
            (λ _.
              safe_if (λ _. safe_print (watch_clients-Echo rounds x clients buffer f h))
                (λ _. Safe-bind _ (admit-Echo x r.ready clients h) λ clients' d h'. rw (h'.1) (
                  Safe-bind _
                    (serve_clients-Echo libc.fd_setsize r.ready clients' [] buffer tt h'.0)
                    λ served d' k.
                      rw (k.1) (watch_clients-Echo rounds x served.0 served.1 f k.0)))))

  reference_server-Echo :
      (rounds : ℕ) (buffer : List ℕ)
      → Safe limit echo (λ _ d. d ≡ settled) (reference_server libc rounds buffer) settled
  unfolding reference_server
  reference_server-Echo rounds buffer = safe_call refl λ fd l.
      safe_if (λ _. search echo_rules)
        (λ e. safe_call refl λ _ _. echo_bind _ _ (set_nonblocking-Echo fd.value) λ _.
          safe_call refl λ _ _.
            safe_if (λ _. search echo_rules)
              (λ _. safe_call refl λ _ _.
                safe_if (λ _. search echo_rules)
                  (λ _. safe_print (
                    safe_print (
                      Safe-bind _
                        (watch_clients-Echo rounds fd.value [] buffer
                          (fits_set-new libc.fd_setsize fd.value le l.0 l.1 e) tt)
                        λ clients d k. rw k (safe_call refl λ _ _. close_all-Echo clients))))))

-- With a limit on open descriptors that is at most FD_SETSIZE and any lawful history of replies,
-- `select_based_server` answers each received chunk with a `send` of just these bytes on the same
-- connection before it receives, accepts or closes again, sends nothing else, gives `FD_SET` only
-- descriptors that fit, and does not fault.
pub select_based_server-echoes :
    (libc : Libc) (limit rounds : ℕ) (buffer : List ℕ) (rs : List Reply)
    → limit ≤ libc.fd_setsize
    → AllLawful limit (run (select_based_server libc rounds buffer) rs).events
    → Obeys echo settled (λ _ d. d ≡ settled) (run (select_based_server libc rounds buffer) rs)
select_based_server-echoes libc limit rounds buffer rs le l =
    let same = select_based_server-reference_server libc rounds buffer rs in
    rw same (Safe-Obeys echo (reference_server-Echo libc le rounds buffer) rs (rw same at l))

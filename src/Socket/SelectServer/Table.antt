-- ===== src/Socket/SelectServer/Table.antt =====
-- The array of clients as a list.
use linux_system_programming.Base.{
  ℕ, zero, suc, ℤ, minus_one, fails, false, ◌≡◌, refl, ◌+◌, ◌<◌, ◌-◌, ap, List, [], ◌∷◌, ◌++◌, take,
  drop, set, get_or, replicate, length, length-append, take-append, length-drop_add, length-set,
  arith,
}
use linux_system_programming.Socket.SelectServer.{Clients, remove_at, add_client}

abbrev pub AllOpen : List ℤ → Type 0
AllOpen [] = Unit
AllOpen (c ∷ cs) = (fails c ≡ false) × AllOpen cs

pub AllOpen-append : (xs ys : List ℤ) → AllOpen xs → AllOpen ys → AllOpen (xs ++ ys)
AllOpen-append [] ys h k = k
AllOpen-append (x ∷ xs) ys h k = (h.0, AllOpen-append xs ys h.1 k)

-- The first `num_clients` places of the array are the clients, in order, and none of them is -1; the
-- array has its size. `seen` are those before a place, `clients` those from it on.
pub record IsTable (size : ℕ) (s : Clients) (seen clients : List ℤ) : Type 0 where
  pub rest : List ℤ
  pub array : s.slots ≡ seen ++ (clients ++ rest)
  pub number : s.num_clients ≡ length seen + length clients
  pub sized : length s.slots ≡ size
  pub seen_open : AllOpen seen
  pub clients_open : AllOpen clients

module _ {ℓ} {A : Type ℓ} where
  pub get_or-append : (xs ys : List A) (x d : A) → get_or (xs ++ x ∷ ys) (length xs) d ≡ x
  get_or-append [] ys x d = refl
  get_or-append (y ∷ xs) ys x d = get_or-append xs ys x d

  drop-append : (xs ys : List A) (x : A) → drop (suc (length xs)) (xs ++ x ∷ ys) ≡ ys
  drop-append [] ys x = refl
  drop-append (y ∷ xs) ys x = drop-append xs ys x

  append_assoc : (xs ys zs : List A) → (xs ++ ys) ++ zs ≡ xs ++ (ys ++ zs)
  append_assoc [] ys zs = refl
  append_assoc (x ∷ xs) ys zs = ap (λ l. x ∷ l) (append_assoc xs ys zs)

  append-nil : (xs : List A) → xs ++ [] ≡ xs
  append-nil [] = refl
  append-nil (x ∷ xs) = ap (λ l. x ∷ l) (append-nil xs)

  set-append : (xs ys : List A) (v : A) → set (xs ++ ys) (length xs) v ≡ xs ++ set ys 0 v
  set-append [] ys v = refl
  set-append (x ∷ xs) ys v = ap (λ l. x ∷ l) (set-append xs ys v)

  pub length-replicate : (n : ℕ) (a : A) → length (replicate n a) ≡ n
  length-replicate zero a = refl
  length-replicate (suc n) a = ap suc (length-replicate n a)

pub IsTable-empty :
    (size : ℕ) → IsTable size (record { slots = replicate size minus_one; num_clients = 0 }) [] []
IsTable-empty size = record {
  rest = replicate size minus_one;
  array = refl;
  number = refl;
  sized = length-replicate size minus_one;
  seen_open = tt;
  clients_open = tt;
}

module _ {size : ℕ} {s : Clients} where
  pub IsTable-next :
      {seen clients : List ℤ} {c : ℤ}
      → IsTable size s seen (c ∷ clients)
      → IsTable size s (seen ++ c ∷ []) clients
  IsTable-next {seen} {clients} {c} t = record {
    rest = t.rest;
    array = rw (append_assoc seen (c ∷ []) (clients ++ t.rest)) t.array;
    number = omega (arith, t.number, length-append seen (c ∷ []));
    sized = t.sized;
    seen_open = AllOpen-append seen (c ∷ []) t.seen_open (t.clients_open.0, tt);
    clients_open = t.clients_open.1;
  }

  pub IsTable-restart : {seen : List ℤ} → IsTable size s seen [] → IsTable size s [] seen
  IsTable-restart {seen} t = record {
    rest = t.rest;
    array = t.array;
    number = omega (arith, t.number);
    sized = t.sized;
    seen_open = tt;
    clients_open = t.seen_open;
  }

  -- The `memmove`: what was behind the place moves up by one.
  pub IsTable-remove :
      {seen clients : List ℤ} {c : ℤ}
      → IsTable size s seen (c ∷ clients)
      → IsTable size (remove_at (length seen) s) seen clients
  IsTable-remove {seen} {clients} {c} t = record {
    rest = drop (s.num_clients - 1) s.slots;
    array = rw (moved, kept) refl;
    number = omega (arith, t.number);
    sized = rw (moved, kept) (omega (arith, total, bound, t.number, t.sized, parts));
    seen_open = t.seen_open;
    clients_open = t.clients_open.1;
  }
    where
      kept : take (length seen) s.slots ≡ seen
      kept = rw (t.array) (take-append seen (c ∷ clients ++ t.rest))

      behind : drop (suc (length seen)) s.slots ≡ clients ++ t.rest
      behind = rw (t.array) (drop-append seen (clients ++ t.rest) c)

      left : s.num_clients - length seen - 1 ≡ length clients
      left = omega (arith, t.number)

      moved : take (s.num_clients - length seen - 1) (drop (suc (length seen)) s.slots) ≡ clients
      moved = rw (left, behind) (take-append clients t.rest)

      bound : length s.slots ≡ length seen + suc (length clients + length t.rest)
      bound = rw (t.array) (
          omega (arith, length-append seen (c ∷ (clients ++ t.rest)), length-append clients t.rest))

      total : s.num_clients - 1 + length (drop (s.num_clients - 1) s.slots) ≡ length s.slots
      total = length-drop_add s.slots (s.num_clients - 1) (omega (arith, bound, t.number))

      parts :
          length (seen ++ (clients ++ drop (s.num_clients - 1) s.slots))
          ≡ length seen + (length clients + length (drop (s.num_clients - 1) s.slots))
      parts = omega (
        arith,
        length-append seen (clients ++ drop (s.num_clients - 1) s.slots),
        length-append clients (drop (s.num_clients - 1) s.slots),
      )

  -- A new client goes to the first free place, if there is one.
  pub IsTable-add :
      {clients : List ℤ} (c : ℤ)
      → IsTable size s [] clients
      → fails c ≡ false
      → length clients < size
      → IsTable size (add_client c s) [] (clients ++ c ∷ [])
  IsTable-add {clients} c t o lt = record {
    rest = drop 1 t.rest;
    array = added;
    number = omega (arith, t.number, length-append clients (c ∷ []));
    sized = rw (length-set s.slots s.num_clients c) t.sized;
    seen_open = tt;
    clients_open = AllOpen-append clients (c ∷ []) t.clients_open (o, tt);
  }
    where
      room : 0 < length t.rest
      room =
          let e : length s.slots ≡ length (clients ++ t.rest) = ap length t.array in
          omega (arith, e, t.sized, lt, length-append clients t.rest)

      array : s.slots ≡ clients ++ t.rest
      array = t.array

      number : s.num_clients ≡ length clients
      number = omega (arith, t.number)

      first : (l : List ℤ) → 0 < length l → set l 0 c ≡ c ∷ drop 1 l
      first [] h = absurd (omega arith)
      first (x ∷ l) h = refl

      added : set s.slots s.num_clients c ≡ (clients ++ c ∷ []) ++ drop 1 t.rest
      added =
          rw
            (
              array,
              number,
              set-append clients t.rest c,
              first t.rest room,
              append_assoc clients (c ∷ []) (drop 1 t.rest),
            )
            refl

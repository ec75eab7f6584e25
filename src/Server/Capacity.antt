-- ===== src/Server/Capacity.antt =====
-- main/main.c: the tables have room for all sockets that the HTTP server opens.
use gateway_esp.Prelude.{
  ℕ, suc, ◌+◌, ◌≤◌, ◌≡◌, ◌≢◌, refl, ap, inl, inr, Bool-cases, true, false, List, [], ◌∷◌, some, ℤ,
  minus_one, ◌==ℤ◌, ==ℤ_iff, ==ℤ_refl, arith, if◌then◌else◌, length, Has,
}
use gateway_esp.Rtos.{Fifo}
use gateway_esp.KeepAlive.Defs.{ClientFdAction}
use gateway_esp.Clients.Defs.{ConnectedClient, Device, table, take_slot, put_table}
use gateway_esp.Clients.Register.{count_fd, take_slot_lem}
use gateway_esp.Clients.Close.{table-put_self}
use gateway_esp.Clients.Total.{total, one_table, take_slot-total}
use gateway_esp.Server.Uri.{scan_device}
use gateway_esp.Server.Defs.{Gateway, Features, Request, Received}
use gateway_esp.Server.Handler.{ws_handler, device_of_number}
use gateway_esp.Server.Session.{handshake_state}
use gateway_esp.Server.Tidy.{Live}
use gateway_esp.Server.Live.{Run, run-Tidy}

-- How often the entries hold the sockets of a list, and how many entries are in use.
abbrev held_of : List ℤ → List ConnectedClient → ℕ
held_of [] cs = 0
held_of (fd ∷ fds) cs = count_fd fd cs + held_of fds cs

abbrev used : List ConnectedClient → ℕ
used [] = 0
used (c ∷ cs) = if c.fd ==ℤ minus_one then used cs else suc (used cs)

used-free : (cs : List ConnectedClient) → used cs + count_fd minus_one cs ≡ length cs
used-free [] = refl
used-free (c ∷ cs) = ground (arith, used-free cs)

held_of-cons :
    (fds : List ℤ) (c : ConnectedClient) (cs : List ConnectedClient)
    → held_of fds cs ≤ held_of fds (c ∷ cs)
held_of-cons [] c cs = omega arith
held_of-cons (fd ∷ fds) c cs = ground (arith, held_of-cons fds c cs)

held_of-Has :
    (fds : List ℤ) (c : ConnectedClient) (cs : List ConnectedClient)
    → Has c.fd fds
    → suc (held_of fds cs) ≤ held_of fds (c ∷ cs)
held_of-Has [] c cs h = elim h [ ]
held_of-Has (fd ∷ fds) c cs h = elim h [
  | inl e ↦ ground (arith, (==ℤ_iff c.fd fd).1 e, held_of-cons fds c cs)
  | inr later ↦ ground (arith, held_of-Has fds c cs later)
]

used-held_of :
    (fds : List ℤ) (cs : List ConnectedClient)
    → ((fd : ℤ) → fd ≢ minus_one → count_fd fd cs ≢ 0 → Has fd fds)
    → used cs ≤ held_of fds cs
used-held_of fds [] h = omega arith
used-held_of fds (c ∷ cs) h =
    let rest = used-held_of fds cs (λ fd real held. h fd real (ground (arith, held))) in
    elim (Bool-cases (c.fd ==ℤ minus_one)) [
      | inl free ↦ rw free (omega (arith, rest, held_of-cons fds c cs))
      | inr taken ↦
          let real : c.fd ≢ minus_one = λ e. cc (taken, (==ℤ_iff c.fd minus_one).1 e) in
          rw taken (
            omega (arith, rest, held_of-Has fds c cs (h c.fd real (ground (arith, ==ℤ_refl c.fd)))))
    ]

held_of-length :
    (fds : List ℤ) (cs : List ConnectedClient)
    → ((fd : ℤ) → Has fd fds → count_fd fd cs ≤ 1)
    → held_of fds cs ≤ length fds
held_of-length [] cs h = omega arith
held_of-length (fd ∷ fds) cs h =
    omega (arith, h fd (inl refl), held_of-length fds cs (λ e m. h e (inr m)))

module _ (esp_timer : ℕ → ℕ) (fifo : Fifo ClientFdAction) (f : Features) where
  open fifo use {Queue}

  table-free :
      (g : Gateway Queue) (live : Live) (sockets : List ℤ) (d : Device)
      → Run esp_timer fifo f g live
      → ((fd : ℤ) → live fd ≡ true → Has fd sockets)
      → ((fd : ℤ) → Has fd sockets → fd ≢ minus_one)
      → length sockets ≤ 5
      → count_fd minus_one (table g.clients d) ≢ 0
  table-free g live sockets d run all real few none_free =
      let (sound, tidy) = run-Tidy esp_timer fifo f g live run in
      let cs = table g.clients d in
      let held : (fd : ℤ) → fd ≢ minus_one → count_fd fd cs ≢ 0 → Has fd sockets =
        λ fd socket is_held. elim (Bool-cases (live fd)) [
          | inl alive ↦ all fd alive
          | inr dead ↦
              absurd (is_held (omega (arith, one_table fd g.clients d, (tidy fd socket).1 dead)))
        ] in
      let once : (fd : ℤ) → Has fd sockets → count_fd fd cs ≤ 1 =
        λ fd m. omega (arith, one_table fd g.clients d, (tidy fd (real fd m)).0) in
      absurd (
        omega (
          arith,
          used-free cs,
          used-held_of sockets cs held,
          held_of-length sockets cs once,
          (sound d).0,
          few,
          none_free,
        ))

  -- While at most five other sockets are live, as `max_open_sockets` = 6 has it, a handshake for a
  -- device's path always gets an entry: its socket then stands in one entry of the device's table, and
  -- in no other.
  pub handshake-total :
      (g : Gateway Queue) (live : Live) (sockets : List ℤ) (d : Device) (req : Request)
      (r : Received) (n : ℕ)
      → Run esp_timer fifo f g live
      → ((fd : ℤ) → live fd ≡ true → Has fd sockets)
      → ((fd : ℤ) → Has fd sockets → fd ≢ minus_one)
      → length sockets ≤ 5
      → req.is_get ≡ true
      → req.sockfd ≢ minus_one
      → live req.sockfd ≡ false
      → device_of_number (scan_device req.uri) ≡ some d
      → let g' = (ws_handler esp_timer fifo f req r g n).1.clients in
        (count_fd req.sockfd (table g' d) ≡ 1) × (total req.sockfd g' ≡ 1)
  handshake-total g live sockets d req r n run all real few get socket new path =
      let free = table-free g live sockets d run all real few in
      let (sound, tidy) = run-Tidy esp_timer fifo f g live run in
      let facts = take_slot_lem (table g.clients d) req.handle req.sockfd minus_one socket in
      let before : total req.sockfd g.clients ≡ 0 = (tidy req.sockfd socket).1 new in
      let absent : count_fd req.sockfd (table g.clients d) ≡ 0 =
        omega (arith, one_table req.sockfd g.clients d, before) in
      let added : count_fd req.sockfd (take_slot (table g.clients d) req.handle req.sockfd).0 ≡ 1 =
        ground (arith, facts.0, facts.3, absent, free) in
      let bound = take_slot-total req.sockfd g.clients d req.handle req.sockfd socket socket in
      let cs' = (take_slot (table g.clients d) req.handle req.sockfd).0 in
      rw (handshake_state esp_timer fifo f req r g n d get path, table-put_self)
        (
          added,
          omega (
            arith,
            bound.0,
            before,
            added,
            one_table req.sockfd (put_table g.clients d cs') d,
            ap (count_fd req.sockfd) (table-put_self g.clients d cs'),
          ),
        )

-- ===== src/Clients/Held.antt =====
-- main/main.c: which tables hold a socket after a handshake, and after it is forgotten.
use gateway_esp.Prelude.{
  ℕ, suc, ◌≡◌, refl, ◌∙◌, ap, ◌≢◌, true, false, List, [], ◌∷◌, map, length, ℤ, minus_one, ==ℤ_iff,
  arith,
}
use gateway_esp.Clients.Defs.{
  Clients, ConnectedClient, Device, table, put_table, take_slot, value_in_array,
}
use gateway_esp.Clients.Register.{count_fd, take_slot_lem, value_in_array-six, length-take_slot}
use gateway_esp.Clients.Close.{forget, table-put_self, table-put_ne}

-- All tables have `MAX_CLIENT_NUM` entries.
abbrev pub SixEach : Clients → Type 0
SixEach g = (d : Device) → length (table g d) ≡ 6

-- No table holds the socket.
abbrev pub HeldNowhere : Clients → ℤ → Type 0
HeldNowhere g fd = (d : Device) → count_fd fd (table g d) ≡ 0

pub held_nowhere :
    (g : Clients) (fd : ℤ) (d : Device)
    → SixEach g
    → HeldNowhere g fd
    → value_in_array fd (table g d) 0 6 ≡ false
held_nowhere g fd d six none' = ground (arith, none' d, value_in_array-six (table g d) fd (six d))

module _ (g : Clients) (d : Device) (handle : ℕ) (fd : ℤ) (six : SixEach g) (real : fd ≢ minus_one)
    (new : HeldNowhere g fd) where
  pub held_by_device :
      count_fd minus_one (table g d) ≢ 0
      → value_in_array fd (table (put_table g d (take_slot (table g d) handle fd).0) d) 0 6 ≡ true
  held_by_device free = rw table-put_self (
      ground (
        arith,
        new d,
        length-take_slot (table g d) handle fd,
        six d,
        take_slot_lem (table g d) handle fd fd real,
        value_in_array-six (take_slot (table g d) handle fd).0 fd
            (length-take_slot (table g d) handle fd ∙ six d),
      ))

  pub held_by_no_other :
      (e : Device)
      → d ≢ e
      → value_in_array fd (table (put_table g d (take_slot (table g d) handle fd).0) e) 0 6 ≡ false
  held_by_no_other e ne = rw (table-put_ne g d e _ ne) (held_nowhere g fd e six new)

pub count-forget :
    (fd : ℤ) (cs : List ConnectedClient) → fd ≢ minus_one → count_fd fd (map (forget fd) cs) ≡ 0
count-forget fd [] h = refl
count-forget fd (c ∷ cs) h =
    ground (arith, ==ℤ_iff c.fd fd, ==ℤ_iff minus_one fd, count-forget fd cs h)

pub length-forget : (fd : ℤ) (cs : List ConnectedClient) → length (map (forget fd) cs) ≡ length cs
length-forget fd [] = refl
length-forget fd (c ∷ cs) = ap suc (length-forget fd cs)

-- ===== src/Rtos/ListFifo.antt =====
-- A queue that is a bounded list, which shows that the interface of a queue can be met.
use gateway_esp.Prelude.{
  if◌then◌else◌, ℕ, ◌≡◌, refl, List, [], ◌∷◌, ◌++◌, Option, none, some, length, ltb, arith,
}
use gateway_esp.Rtos.{Fifo}

module _ (A : Type 0) where
  -- The room of a queue, and its messages.
  abbrev pub ListQueue : Type 0
  ListQueue = ℕ × List A

  abbrev pub list_send : ListQueue → A → Option ListQueue
  list_send (room, l) a = if ltb (length l) room then some (room, l ++ (a ∷ [])) else none

  abbrev pub list_receive : ListQueue → Option (A × ListQueue)
  list_receive (room, []) = none
  list_receive (room, a ∷ l) = some (a, (room, l))

  pub list_send-items :
      (q q' : ListQueue) (a : A) → list_send q a ≡ some q' → q'.1 ≡ q.1 ++ (a ∷ [])
  list_send-items (room, l) q' a h = ground arith

  pub list_receive-items :
      (q q' : ListQueue) (a : A) → list_receive q ≡ some (a, q') → q.1 ≡ a ∷ q'.1
  list_receive-items (room, []) q' a h = cc
  list_receive-items (room, b ∷ l) (room', l') a h = cc

  pub list_receive-none : (q : ListQueue) → list_receive q ≡ none → q.1 ≡ []
  list_receive-none (room, []) h = refl
  list_receive-none (room, b ∷ l) h = cc

  abbrev pub list_fifo : Fifo A
  list_fifo = record {
    Queue = ListQueue;
    create = λ n. (n, []);
    send_to_back = list_send;
    receive = list_receive;
    items = λ q. q.1;
    items-create = λ n. refl;
    items-send_to_back = list_send-items;
    items-receive = list_receive-items;
    receive-none = list_receive-none;
  }

-- ===== src/Rtos.antt =====
-- The parts of FreeRTOS that the program calls, as parameters: a queue of messages, and a byte ring
-- buffer.
pub mod ListFifo
use gateway_esp.Prelude.{ℕ, suc, ◌-◌, ◌≤◌, ◌≡◌, List, [], ◌∷◌, ◌++◌, Option, none, some, length}

-- A queue made by `xQueueCreate`. `send_to_back` is `xQueueSendToBack` with no wait: `none` is
-- `errQUEUE_FULL`. `receive` is `xQueueReceive` at the moment when its wait ends: `none` is a
-- timeout, with the queue still empty. `items` are the waiting messages, the oldest first.
pub record Fifo (A : Type 0) : Type 1 where
  pub Queue : Type 0
  pub create : ℕ → Queue
  pub send_to_back : Queue → A → Option Queue
  pub receive : Queue → Option (A × Queue)
  pub items : Queue → List A
  pub items-create : (n : ℕ) → items (create n) ≡ []
  pub items-send_to_back :
      (q q' : Queue) (a : A) → send_to_back q a ≡ some q' → items q' ≡ items q ++ (a ∷ [])
  pub items-receive : (q q' : Queue) (a : A) → receive q ≡ some (a, q') → items q ≡ a ∷ items q'
  pub receive-none : (q : Queue) → receive q ≡ none → items q ≡ []

-- A byte ring buffer made by `xRingbufferCreate` with RINGBUF_TYPE_BYTEBUF. `create` is `none` when
-- there is no memory. `send` is `xRingbufferSend`: `none` is a timeout with no room. `receive_up_to`
-- is `xRingbufferReceiveUpTo`: `none` is NULL. `return_item` is `vRingbufferReturnItem`. `bytes` are
-- the waiting bytes, the oldest first, and `lent` is the number of items that were received and not
-- returned.
pub record ByteRing : Type 1 where
  pub Ring : Type 0
  pub create : ℕ → Option Ring
  pub send : Ring → List ℕ → Option Ring
  pub receive_up_to : ℕ → Ring → Option (List ℕ × Ring)
  pub return_item : Ring → List ℕ → Ring
  pub bytes : Ring → List ℕ
  pub lent : Ring → ℕ
  pub create-empty : (n : ℕ) (r : Ring) → create n ≡ some r → (bytes r ≡ []) × (lent r ≡ 0)
  pub send-some :
      (r r' : Ring) (payload : List ℕ)
      → send r payload ≡ some r'
      → (bytes r' ≡ bytes r ++ payload) × (lent r' ≡ lent r)
  pub receive_up_to-some :
      (n : ℕ) (r r' : Ring) (payload : List ℕ)
      → receive_up_to n r ≡ some (payload, r')
      → (bytes r ≡ payload ++ bytes r')
        × (lent r' ≡ suc (lent r))
        × (1 ≤ length payload)
        × (length payload ≤ n)
  pub receive_up_to-none :
      (n : ℕ) (r : Ring) → 1 ≤ n → lent r ≡ 0 → receive_up_to n r ≡ none → bytes r ≡ []
  pub return_item_lem :
      (r : Ring) (payload : List ℕ)
      → (bytes (return_item r payload) ≡ bytes r) × (lent (return_item r payload) ≡ lent r - 1)

-- ===== src/Server/Async.antt =====
-- main/main.c: trigger_async_send, which queues an answer with the HTTP server, and ws_async_send, which
-- the server runs later.
use gateway_esp.Prelude.{
  ℕ, ◌+◌, ◌-◌, ◌≡◌, refl, ap, sym, Bool, true, false, List, [], ◌∷◌, ◌++◌, length, length-append,
  ◌∙◌, Option, none, some, arith,
}
use mathlib.Core.List.{append_assoc, append-nil}
use gateway_esp.Esp.{EspErr, esp_ok, esp_fail, esp_err_no_mem, esp_err}
use gateway_esp.Clients.Defs.{ConnectedClient}
use gateway_esp.Server.Defs.{Effect, send_text}

-- How many of the `resp_arg` that `malloc` gave are not freed, and the ones that are queued.
pub record Async : Type 0 where
  pub args : ℕ
  pub queued : List ConnectedClient

abbrev pub async_data : List ℕ
async_data = b'A' ∷ b's' ∷ b'y' ∷ b'n' ∷ b'c' ∷ b' ' ∷ b'd' ∷ b'a' ∷ b't' ∷ b'a' ∷ []

-- The result of `httpd_queue_work`, which queues the work if it is ESP_OK.
abbrev pub queue_result : EspErr → ConnectedClient → List ConnectedClient → List ConnectedClient
queue_result esp_ok arg queued = queued ++ (arg ∷ [])
queue_result _ arg queued = queued

-- `trigger_async_send` for a request's handle and socket. Without memory it writes through NULL: `none`.
unfoldable pub trigger_async_send :
    Bool → EspErr → ConnectedClient → Async → Option (EspErr × Async)
trigger_async_send false err req s = none
trigger_async_send true err req s =
    some (err, record { args = s.args + 1; queued = queue_result err req s.queued })

-- `ws_async_send` with its argument.
unfoldable pub ws_async_send : ConnectedClient → Async → Async × List Effect
ws_async_send arg s = (record s { args = s.args - 1 }, send_text arg.hd arg.fd async_data ∷ [])

-- Requests, with memory, and turns of the HTTP server, which runs the work that was queued first.
pub data AsyncEvent : Type 0 where
  asks : EspErr → ConnectedClient → AsyncEvent
  turn : AsyncEvent

abbrev pub after_asking : Option (EspErr × Async) → Async → Async
after_asking none s = s
after_asking (some r) s = r.1

abbrev pub run_work : List ConnectedClient → Async → Async × List Effect
run_work [] s = (s, [])
run_work (arg ∷ queued) s = ws_async_send arg (record s { queued = queued })

unfoldable pub async_run : List AsyncEvent → Async → Async × List Effect
async_run [] s = (s, [])
async_run (asks err req ∷ es) s = async_run es (after_asking (trigger_async_send true err req s) s)
async_run (turn ∷ es) s =
    let here = run_work s.queued s in let rest = async_run es here.0 in (rest.0, here.1 ++ rest.1)

abbrev pub answers : List ConnectedClient → List Effect
answers [] = []
answers (c ∷ cs) = send_text c.hd c.fd async_data ∷ answers cs

answers-append : (l k : List ConnectedClient) → answers (l ++ k) ≡ answers l ++ answers k
answers-append [] k = refl
answers-append (c ∷ l) k = ap (λ r. send_text c.hd c.fd async_data ∷ r) (answers-append l k)

-- The requests that were queued, and how many were not.
abbrev pub accepted : List AsyncEvent → List ConnectedClient
accepted [] = []
accepted (asks esp_ok req ∷ es) = req ∷ accepted es
accepted (_ ∷ es) = accepted es

abbrev pub refused : List AsyncEvent → ℕ
refused [] = 0
refused (asks esp_ok req ∷ es) = refused es
refused (asks _ req ∷ es) = refused es + 1
refused (turn ∷ es) = refused es

abbrev state : ℕ → List ConnectedClient → Async
state n q = record { args = n; queued = q }

async_run-sent :
    (es : List AsyncEvent) (n : ℕ) (q : List ConnectedClient)
    → let (s', sent) = async_run es (state n q) in
      sent ++ answers s'.queued ≡ answers (q ++ accepted es)
unfolding async_run trigger_async_send ws_async_send
async_run-sent [] n q = ap answers (sym (append-nil q))
async_run-sent (asks esp_ok req ∷ es) n q =
    async_run-sent es (n + 1) (q ++ (req ∷ []))
    ∙ ap answers (append_assoc q (req ∷ []) (accepted es))
async_run-sent (asks esp_fail req ∷ es) n q = async_run-sent es (n + 1) q
async_run-sent (asks esp_err_no_mem req ∷ es) n q = async_run-sent es (n + 1) q
async_run-sent (asks (esp_err k) req ∷ es) n q = async_run-sent es (n + 1) q
async_run-sent (turn ∷ es) n [] = async_run-sent es n []
async_run-sent (turn ∷ es) n (c ∷ q) =
    ap (λ r. send_text c.hd c.fd async_data ∷ r) (async_run-sent es (n - 1) q)

async_run-args :
    (es : List AsyncEvent) (n : ℕ) (q : List ConnectedClient) (lost : ℕ)
    → n ≡ length q + lost
    → let s' = (async_run es (state n q)).0 in s'.args ≡ length s'.queued + (lost + refused es)
unfolding async_run trigger_async_send ws_async_send
async_run-args [] n q lost h = omega (arith, h)
async_run-args (asks esp_ok req ∷ es) n q lost h =
    async_run-args es (n + 1) (q ++ (req ∷ [])) lost (omega (arith, h, length-append q (req ∷ [])))
async_run-args (asks esp_fail req ∷ es) n q lost h =
    omega (arith, async_run-args es (n + 1) q (lost + 1) (omega (arith, h)))
async_run-args (asks esp_err_no_mem req ∷ es) n q lost h =
    omega (arith, async_run-args es (n + 1) q (lost + 1) (omega (arith, h)))
async_run-args (asks (esp_err k) req ∷ es) n q lost h =
    omega (arith, async_run-args es (n + 1) q (lost + 1) (omega (arith, h)))
async_run-args (turn ∷ es) n [] lost h = async_run-args es n [] lost h
async_run-args (turn ∷ es) n (c ∷ q) lost h = async_run-args es (n - 1) q lost (omega (arith, h))

-- While `malloc` succeeds: each queued request is answered once, in the order of the requests, or still
-- waits; and if at first `lost` of the allocated arguments belong to no queued request, then afterwards
-- these are `lost` and one for each request that the HTTP server did not queue.
pub async_run-answers :
    (es : List AsyncEvent) (s : Async) (lost : ℕ)
    → s.args ≡ length s.queued + lost
    → let (s', sent) = async_run es s in
      (sent ++ answers s'.queued ≡ answers (s.queued ++ accepted es))
      × (s'.args ≡ length s'.queued + (lost + refused es))
async_run-answers es s lost h =
    (async_run-sent es s.args s.queued, async_run-args es s.args s.queued lost h)

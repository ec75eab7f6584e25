-- ===== src/Wifi.antt =====
-- main/main.c: the Wi-Fi station: event_handler, the static address, and the wait of wifi_init_sta.
pub mod Setup
mod Tests
use gateway_esp.Prelude.{
  ap, ℕ, zero, suc, ◌+◌, ◌-◌, ◌≤◌, ◌<◌, ◌≡◌, refl, Bool, true, false, not, ◌||◌, ◌&&◌, List, [],
  ◌∷◌, ◌++◌, Option, none, some, ltb, replicate, if◌then◌else◌, ◌==◌, arith,
}

-- WIFI_EVENT_STA_START, …_CONNECTED and …_DISCONNECTED, and IP_EVENT_STA_GOT_IP.
pub data NetEvent : Type 0 where
  sta_start sta_connected sta_disconnected sta_got_ip : NetEvent

pub data NetCall : Type 0 where
  wifi_connect stop_dhcp set_ip_info : NetCall
  set_dns_main set_dns_backup : ℕ → NetCall

-- `s_retry_num`, and the bits of `s_wifi_event_group`.
pub record Wifi : Type 0 where
  pub retry_num : ℕ
  pub connected_bit : Bool
  pub fail_bit : Bool

-- The addresses of the configuration, as 32-bit words, and which calls of the network interface
-- succeed.
pub record NetConfig : Type 0 where
  pub maximum_retry : ℕ
  pub main_dns : ℕ
  pub backup_dns : ℕ
  pub dhcp_stopped : Bool
  pub ip_set : Bool

-- The test of `example_set_dns_server`: neither 0 nor IPADDR_NONE.
unfoldable pub set_dns_server : ℕ → (ℕ → NetCall) → List NetCall
set_dns_server addr call =
    if not (addr == 0) && not (addr == 4_294_967_295) then call addr ∷ [] else []

unfoldable pub set_static_ip : NetConfig → List NetCall
set_static_ip cfg =
    stop_dhcp
    ∷ (if cfg.dhcp_stopped
        then set_ip_info
          ∷ (if cfg.ip_set
              then set_dns_server cfg.main_dns set_dns_main
                ++ set_dns_server cfg.backup_dns set_dns_backup
              else [])
        else [])

unfoldable pub event_handler : NetConfig → NetEvent → Wifi → Wifi × List NetCall
event_handler cfg sta_start w = (w, wifi_connect ∷ [])
event_handler cfg sta_connected w = (w, set_static_ip cfg)
event_handler cfg sta_disconnected w =
    if ltb w.retry_num cfg.maximum_retry
    then (record w { retry_num = suc w.retry_num }, wifi_connect ∷ [])
    else (record w { fail_bit = true }, [])
event_handler cfg sta_got_ip w = (record w { retry_num = 0; connected_bit = true }, [])

-- The events one after the other.
unfoldable pub handle_all : NetConfig → List NetEvent → Wifi → Wifi × List NetCall
handle_all cfg [] w = (w, [])
handle_all cfg (e ∷ es) w =
    let here = event_handler cfg e w in
    let rest = handle_all cfg es here.0 in (rest.0, here.1 ++ rest.1)

-- What `wifi_init_sta` reports when its wait for one of the bits ends; `none` is a wait that goes on.
unfoldable pub wait_bits : Wifi → Option Bool
wait_bits w = if w.connected_bit || w.fail_bit then some w.connected_bit else none

abbrev pub fresh_wifi : Wifi
fresh_wifi = record { retry_num = 0; connected_bit = false; fail_bit = false }

abbrev waiting : ℕ → Bool → Wifi
waiting r failed = record { retry_num = r; connected_bit = false; fail_bit = failed }

few :
    (cfg : NetConfig) (n r : ℕ)
    → r + n ≤ cfg.maximum_retry
    → handle_all cfg (replicate n sta_disconnected) (waiting r false)
      ≡ (waiting (n + r) false, replicate n wifi_connect)
unfolding handle_all event_handler
few cfg zero r h = let e : zero + r ≡ r = omega arith in rw e refl
few cfg (suc n) r h =
    let more : ltb r cfg.maximum_retry ≡ true = ground arith in
    let e : suc n + r ≡ n + suc r = omega arith in
    rw (more, e, few cfg n (suc r) (omega arith)) refl

too_many :
    (cfg : NetConfig) (n : ℕ)
    → handle_all cfg (replicate n sta_disconnected) (waiting cfg.maximum_retry true)
      ≡ (waiting cfg.maximum_retry true, [])
unfolding handle_all event_handler
too_many cfg zero = refl
too_many cfg (suc n) =
    let no_more : ltb cfg.maximum_retry cfg.maximum_retry ≡ false = ground arith in
    rw (no_more, too_many cfg n) refl

many :
    (cfg : NetConfig) (k m r n : ℕ)
    → n ≡ k + suc m
    → r + k ≡ cfg.maximum_retry
    → handle_all cfg (replicate n sta_disconnected) (waiting r false)
      ≡ (waiting cfg.maximum_retry true, replicate k wifi_connect)
unfolding handle_all event_handler
many cfg zero m r n e h =
    let n' : n ≡ suc m = omega arith in
    let full : r ≡ cfg.maximum_retry = omega arith in
    let no_more : ltb cfg.maximum_retry cfg.maximum_retry ≡ false = ground arith in
    rw (n', full, no_more, too_many cfg m) refl
many cfg (suc k) m r n e h =
    let n' : n ≡ suc (k + suc m) = omega arith in
    let more : ltb r cfg.maximum_retry ≡ true = ground arith in
    rw (n', more, many cfg k m (suc r) (k + suc m) refl (omega arith)) refl

-- From the start, `n` failed attempts in a row are each answered by a new attempt while they are at
-- most the maximum, and `wifi_init_sta` waits on; with more of them it reports a failure, after as many
-- new attempts as the maximum.
pub wifi_retries :
    (cfg : NetConfig) (n : ℕ)
    → let (w, out) = handle_all cfg (sta_start ∷ replicate n sta_disconnected) fresh_wifi in
      (n ≤ cfg.maximum_retry → (wait_bits w ≡ none) × (out ≡ replicate (suc n) wifi_connect))
      × (cfg.maximum_retry < n
          → (wait_bits w ≡ some false) × (out ≡ replicate (suc cfg.maximum_retry) wifi_connect))
unfolding handle_all event_handler wait_bits
wifi_retries cfg n = (
  λ low.
      let p = few cfg n 0 (omega arith) in
      (
        ap (λ (x : Wifi × List NetCall). wait_bits x.0) p,
        ap (λ (x : Wifi × List NetCall). wifi_connect ∷ x.1) p,
      ),
  λ high.
      let p =
        many cfg cfg.maximum_retry (n - suc cfg.maximum_retry) 0 n (omega arith) (omega arith) in
      (
        ap (λ (x : Wifi × List NetCall). wait_bits x.0) p,
        ap (λ (x : Wifi × List NetCall). wifi_connect ∷ x.1) p,
      ),
)

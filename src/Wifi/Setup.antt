-- ===== src/Wifi/Setup.antt =====
-- main/main.c, wifi_init_sta: the calls of ESP-IDF that set the station up, and when events are handled.
use gateway_esp.Prelude.{
  ◌≡◌, refl, Bool, true, false, List, [], ◌∷◌, ◌++◌, Option, none, some, if◌then◌else◌,
}
use mathlib.Core.Path.{fun_ext}
use gateway_esp.Wifi.{
  NetEvent, sta_start, sta_connected, sta_disconnected, sta_got_ip, NetCall, Wifi, NetConfig,
  event_handler, handle_all,
}

-- WIFI_EVENT with any id, and IP_EVENT with IP_EVENT_STA_GOT_IP.
pub data Registration : Type 0 where
  wifi_any got_ip : Registration

-- The calls, in the order of the source.
pub data SetupCall : Type 0 where
  event_group_create netif_init event_loop_create create_default_sta wifi_init : SetupCall
  register unregister : Registration → SetupCall
  set_mode set_config wifi_start wait_for_bits event_group_delete : SetupCall

-- How `wifi_init_sta` ends: in an abort by ESP_ERROR_CHECK or `assert`, not yet, or with the bit that it
-- has seen.
pub data Setup : Type 0 where
  aborted : List SetupCall → Setup
  waiting : List SetupCall → Setup
  finished : Bool → List SetupCall → Setup

abbrev before_wait : List SetupCall
before_wait =
    event_group_create
    ∷ netif_init
    ∷ event_loop_create
    ∷ create_default_sta
    ∷ wifi_init
    ∷ register wifi_any
    ∷ register got_ip
    ∷ set_mode
    ∷ set_config
    ∷ wifi_start
    ∷ wait_for_bits
    ∷ []

abbrev after_wait : List SetupCall
after_wait = unregister got_ip ∷ unregister wifi_any ∷ event_group_delete ∷ []

-- Calls up to the first that fails, and whether all succeed.
abbrev pub checked : (SetupCall → Bool) → List SetupCall → List SetupCall × Bool
checked succeeds [] = ([], true)
checked succeeds (c ∷ cs) =
    let rest = checked succeeds cs in if succeeds c then (c ∷ rest.0, rest.1) else (c ∷ [], false)

abbrev after_bits : (SetupCall → Bool) → List SetupCall → Option Bool → Setup
after_bits succeeds calls none = waiting calls
after_bits succeeds calls (some connected) =
    let rest = checked succeeds after_wait in
    if rest.1 then finished connected (calls ++ rest.0) else aborted (calls ++ rest.0)

-- `bits` is what `wait_bits` makes of the bits, in a build without CONFIG_EXAMPLE_STATIC_DNS_RESOLVE_TEST.
-- A call that the source does not check succeeds.
unfoldable pub wifi_init_sta : (SetupCall → Bool) → Option Bool → Setup
wifi_init_sta succeeds bits =
    let first = checked succeeds before_wait in
    if first.1 then after_bits succeeds first.0 bits else aborted first.0

-- Which handlers are registered after the calls: of Wi-Fi events, and of the address.
abbrev pub registered_from : Bool × Bool → List SetupCall → Bool × Bool
registered_from r [] = r
registered_from r (register wifi_any ∷ cs) = registered_from (true, r.1) cs
registered_from r (register got_ip ∷ cs) = registered_from (r.0, true) cs
registered_from r (unregister wifi_any ∷ cs) = registered_from (false, r.1) cs
registered_from r (unregister got_ip ∷ cs) = registered_from (r.0, false) cs
registered_from r (c ∷ cs) = registered_from r cs

abbrev pub calls_of : Setup → List SetupCall
calls_of (aborted calls) = calls
calls_of (waiting calls) = calls
calls_of (finished connected calls) = calls

abbrev pub registered : Setup → Bool × Bool
registered s = registered_from (false, false) (calls_of s)

abbrev is_registered : Bool × Bool → NetEvent → Bool
is_registered r sta_got_ip = r.1
is_registered r e = r.0

-- Events reach `event_handler` while it is registered for them.
abbrev pub deliver : Bool × Bool → NetConfig → List NetEvent → Wifi → Wifi × List NetCall
deliver r cfg [] w = (w, [])
deliver r cfg (e ∷ es) w =
    let here = if is_registered r e then event_handler cfg e w else (w, []) in
    let rest = deliver r cfg es here.0 in (rest.0, here.1 ++ rest.1)

deliver-all :
    (cfg : NetConfig) (es : List NetEvent) (w : Wifi)
    → deliver (true, true) cfg es w ≡ handle_all cfg es w
unfolding handle_all
deliver-all cfg [] w = refl
deliver-all cfg (sta_got_ip ∷ es) w =
    rw (deliver-all cfg es (event_handler cfg sta_got_ip w).0) refl
deliver-all cfg (sta_start ∷ es) w = rw (deliver-all cfg es (event_handler cfg sta_start w).0) refl
deliver-all cfg (sta_connected ∷ es) w =
    rw (deliver-all cfg es (event_handler cfg sta_connected w).0) refl
deliver-all cfg (sta_disconnected ∷ es) w =
    rw (deliver-all cfg es (event_handler cfg sta_disconnected w).0) refl

deliver-none :
    (cfg : NetConfig) (es : List NetEvent) (w : Wifi) → deliver (false, false) cfg es w ≡ (w, [])
deliver-none cfg [] w = refl
deliver-none cfg (sta_got_ip ∷ es) w = deliver-none cfg es w
deliver-none cfg (_ ∷ es) w = deliver-none cfg es w

-- When the calls of the set-up succeed: while wifi_init_sta waits for a bit, every event is handled;
-- once a bit ends its wait, it finishes, and from then on no event is handled, so that a connection that
-- is lost later is not made again.
pub wifi_init_sta-handles :
    (succeeds : SetupCall → Bool)
    → ((c : SetupCall) → succeeds c ≡ true)
    → (cfg : NetConfig) (es : List NetEvent) (w : Wifi)
    → (deliver (registered (wifi_init_sta succeeds none)) cfg es w ≡ handle_all cfg es w)
      × ((connected : Bool)
          → (calls : List SetupCall) × (wifi_init_sta succeeds (some connected)
              ≡ finished connected calls)
            × (deliver (registered (finished connected calls)) cfg es w ≡ (w, [])))
unfolding wifi_init_sta
wifi_init_sta-handles succeeds all cfg es w =
    let always : succeeds ≡ (λ c. true) = fun_ext all in
    rw always (deliver-all cfg es w, λ connected. (_, refl, deliver-none cfg es w))

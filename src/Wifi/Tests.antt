-- ===== src/Wifi/Tests.antt =====
-- The Wi-Fi station at a concrete configuration.
use gateway_esp.Prelude.{
  refl, Bool, List, [], suc, ◌≡◌, ◌≤◌, ◌<◌, true, false, ◌∷◌, none, some, replicate,
}
use gateway_esp.Wifi.{
  NetConfig, sta_start, sta_disconnected, wifi_connect, fresh_wifi, handle_all, wait_bits,
  wifi_retries,
}
use gateway_esp.Wifi.Setup.{
  SetupCall, wifi_init_sta, finished, registered, deliver, wifi_init_sta-handles,
}

abbrev config : NetConfig
config = record {
  maximum_retry = 6;
  main_dns = 134_744_072;
  backup_dns = 0;
  dhcp_stopped = true;
  ip_set = true;
}

wifi_retries_example :
    let (w, out) = handle_all config (sta_start ∷ replicate 7 sta_disconnected) fresh_wifi in
    (7 ≤ 6 → (wait_bits w ≡ none) × (out ≡ replicate (suc 7) wifi_connect))
    × (6 < 7 → (wait_bits w ≡ some false) × (out ≡ replicate (suc 6) wifi_connect))
wifi_retries_example = wifi_retries config 7

wifi_init_sta-handles_example :
    (deliver (registered (wifi_init_sta (λ c. true) none)) config (sta_disconnected ∷ []) fresh_wifi
      ≡ handle_all config (sta_disconnected ∷ []) fresh_wifi)
    × ((connected : Bool)
        → (calls : List SetupCall) × (wifi_init_sta (λ c. true) (some connected)
            ≡ finished connected calls)
          × (deliver
                (registered (finished connected calls))
                config
                (sta_disconnected ∷ [])
                fresh_wifi
              ≡ (fresh_wifi, [])))
wifi_init_sta-handles_example =
    wifi_init_sta-handles (λ c. true) (λ c. refl) config (sta_disconnected ∷ []) fresh_wifi

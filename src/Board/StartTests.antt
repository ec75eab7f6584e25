-- ===== src/Board/StartTests.antt =====
-- The start of a board with a scanner, a printer, a trigger, a relay and a camera.
use gateway_esp.Prelude.{◌≡◌, refl, true, false, arith, List, some, pos}
use gateway_esp.Esp.{esp_ok}
use gateway_esp.KeepAlive.Defs.{ClientFdAction}
use gateway_esp.KeepAlive.Timer.{IsTimer}
use gateway_esp.Rtos.ListFifo.{ListQueue, list_fifo}
use gateway_esp.Clients.Sample.{busy_clients, busy_clients-SixEach}
use gateway_esp.Server.Sample.{clock, features}
use gateway_esp.Devices.Relay.{offline, RelayConfig}
use gateway_esp.Printer.Sample.{esc_state}
use gateway_esp.Camera.Start.{init_camera}
use gateway_esp.Camera.Usb.{initialize_usb_host_lib}
use gateway_esp.Board.Machine.{Board}
use gateway_esp.Board.Start.{
  StartupAnswers, StartupCall, Statics, wifi, nvs_ok, nvs_new_version, init_nvs, app_main, up,
}
use gateway_esp.Board.Up.{IsUp, app_main-IsUp}

abbrev pin_7 : RelayConfig
pin_7 = record { pin = 7; inverse = false }

-- The flash is of another version and is erased.
abbrev answers : StartupAnswers
answers = record {
  uart_installed = true;
  led_installed = true;
  nvs = nvs_new_version;
  erased = true;
  nvs_again = nvs_ok;
  network_up = true;
  allocated = true;
  queue_made = true;
  task_created = true;
  http_started = some 1;
  camera = record {
    event_group = true;
    gpio_err = esp_ok;
    host_answers = record { install_err = esp_ok; semaphore = true; task = true };
    init_err = pos 0;
    ring_made = true;
    sender_made = true;
    main_loop_made = true;
  };
}

abbrev statics : Statics
statics = record {
  clients = busy_clients;
  esc = esc_state;
  relay_of = record { relay_status = offline; relay_state = false };
  trigger_of = record { trigger_status = offline; trigger_stat = false };
  barcode_status = offline;
  led_status = offline;
}

clock-IsTimer : IsTimer clock
clock-IsTimer = omega arith

app_main-IsUp_example :
    (b : Board (ListQueue ClientFdAction)) × (calls : List StartupCall) × (app_main clock
        (list_fifo ClientFdAction)
        features
        pin_7
        wifi
        true
        answers
        statics
      ≡ up b 1 calls)
    × IsUp clock clock-IsTimer (list_fifo ClientFdAction) features 1 b
unfolding init_nvs init_camera initialize_usb_host_lib
app_main-IsUp_example =
    app_main-IsUp clock clock-IsTimer (list_fifo ClientFdAction) features pin_7 wifi true answers
      statics 1 refl refl (refl, refl) refl refl (λ e. refl) busy_clients-SixEach

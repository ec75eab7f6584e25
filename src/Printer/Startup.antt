-- ===== src/Printer/Startup.antt =====
-- main/printer/ESC.c: initESC and the starts of its tasks, host_lib_daemon_task and class_driver_task,
-- which meet at a semaphore.
use gateway_esp.Prelude.{◌≡◌, Bool, true, false, not, ◌&&◌, ◌||◌, Option, none, some, if◌then◌else◌}

-- Where `host_lib_daemon_task` is: before `usb_host_install`, before `xSemaphoreGive`, in the loop over
-- the events with `has_clients` and `has_devices`, after the loop, and before the second take.
pub data DaemonPlace : Type 0 where
  installing giving uninstalling reinstalling : DaemonPlace
  handling : Bool → Bool → DaemonPlace

-- Where `class_driver_task` is: before it makes its queue and semaphores, before it takes the
-- semaphore, before it registers with the USB host library, and in its event loop, which it never leaves.
pub data DriverPlace : Type 0 where
  creating taking registering running : DriverPlace

-- `signaling_sem` tells whether the semaphore can be taken, `queues` whether `callback_sem`,
-- `printingQueue_sem` and `xQueue` are there, `installed` whether the USB host library is installed, and
-- `registered` whether the driver is a client of it.
pub record UsbHost : Type 0 where
  pub signaling_sem : Bool
  pub queues : Bool
  pub installed : Bool
  pub registered : Bool
  pub daemon : DaemonPlace
  pub driver : DriverPlace

-- `initESC`: the semaphore is made, not given, and the tasks are created.
unfoldable pub init_esc : UsbHost
init_esc = record {
  signaling_sem = false;
  queues = false;
  installed = false;
  registered = false;
  daemon = installing;
  driver = creating;
}

-- The loop over the events, after `usb_host_lib_handle_events`.
abbrev pub after_events : Bool → Bool → DaemonPlace
after_events has_clients has_devices =
    if has_clients || has_devices then handling has_clients has_devices else uninstalling

-- A step of the daemon from a place; `no_clients` and `all_free` are the flags of the events. `none` is
-- a wait.
abbrev pub daemon_from : DaemonPlace → Bool → Bool → UsbHost → Option UsbHost
daemon_from installing no_clients all_free s = some (record s { installed = true; daemon = giving })
daemon_from giving no_clients all_free s =
    some (record s { signaling_sem = true; daemon = handling true true })
daemon_from (handling has_clients has_devices) no_clients all_free s = some (record s {
  daemon = after_events (has_clients && not no_clients) (has_devices && not all_free);
})
daemon_from uninstalling no_clients all_free s =
    some (record s { installed = false; daemon = reinstalling })
daemon_from reinstalling no_clients all_free s =
    if s.signaling_sem
    then some (record s { signaling_sem = false; installed = true; daemon = giving })
    else none

unfoldable pub daemon_step : Bool → Bool → UsbHost → Option UsbHost
daemon_step no_clients all_free s = daemon_from s.daemon no_clients all_free s

-- A step of the driver from a place; `made` tells whether the queue and the semaphores can be made. A
-- queue that is not there is only logged.
abbrev pub driver_from : DriverPlace → Bool → UsbHost → Option UsbHost
driver_from creating made s = some (record s { queues = made; driver = taking })
driver_from taking made s =
    if s.signaling_sem
    then some (record s { signaling_sem = false; driver = registering })
    else none
driver_from registering made s = some (record s { registered = true; driver = running })
driver_from running made s = some s

unfoldable pub driver_step : Bool → UsbHost → Option UsbHost
driver_step made s = driver_from s.driver made s

-- The states that the tasks lead to. The library reports that no client is left when one deregisters,
-- which no task does.
pub data Started (made : Bool) : UsbHost → Type 0 where
  at_first : Started made init_esc
  daemon_ran :
      (s t : UsbHost) (all_free : Bool)
      → daemon_step false all_free s ≡ some t
      → Started made s
      → Started made t
  driver_ran : (s t : UsbHost) → driver_step made s ≡ some t → Started made s → Started made t

abbrev before_taking : Bool → DriverPlace
before_taking queues = if queues then taking else creating

abbrev after_taking : Bool → DriverPlace
after_taking registered = if registered then running else registering

-- How far the two have come: the library is not installed, the semaphore not given, not taken, taken.
data Meeting (made : Bool) : UsbHost → Type 0 where
  not_installed :
      (q : Bool) → Meeting made (record init_esc { queues = q && made; driver = before_taking q })
  not_given :
      (q : Bool)
      → Meeting made (record init_esc {
        queues = q && made;
        driver = before_taking q;
        installed = true;
        daemon = giving;
      })
  given :
      (q has_devices : Bool)
      → Meeting made (record {
        signaling_sem = true;
        queues = q && made;
        installed = true;
        registered = false;
        daemon = handling true has_devices;
        driver = before_taking q;
      })
  taken :
      (r has_devices : Bool)
      → Meeting made (record {
        signaling_sem = false;
        queues = made;
        installed = true;
        registered = r;
        daemon = handling true has_devices;
        driver = after_taking r;
      })

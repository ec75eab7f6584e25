-- ===== src/Camera/Usb.antt =====
-- main/camera/usb_camera.c: initialize_usb_host_lib and usb_lib_handler_task.
use gateway_esp.Prelude.{◌≡◌, ◌≢◌, Bool, true, false, List, [], ◌∷◌, ◌++◌, if◌then◌else◌, arith}
use gateway_esp.Esp.{EspErr, esp_ok, esp_err_no_mem}

-- The calls of the USB host library and of FreeRTOS, with what they return.
pub data HostCall : Type 0 where
  host_install : EspErr → HostCall
  host_uninstall : HostCall
  create_binary create_task : Bool → HostCall
  semaphore_delete : HostCall
  device_free_all semaphore_give : HostCall

-- What the calls of `initialize_usb_host_lib` return: whether a semaphore and a task are made.
pub record HostAnswers : Type 0 where
  pub install_err : EspErr
  pub semaphore : Bool
  pub task : Bool

abbrev after_semaphore : HostAnswers → EspErr × List HostCall
after_semaphore a =
    if a.task
    then (esp_ok, create_task true ∷ [])
    else (esp_err_no_mem, create_task false ∷ semaphore_delete ∷ host_uninstall ∷ [])

abbrev after_install : HostAnswers → EspErr × List HostCall
after_install a =
    let made = after_semaphore a in
    if a.semaphore
    then (made.0, create_binary true ∷ made.1)
    else (esp_err_no_mem, create_binary false ∷ host_uninstall ∷ [])

abbrev installed : EspErr → HostAnswers → EspErr × List HostCall
installed esp_ok a = let made = after_install a in (made.0, host_install esp_ok ∷ made.1)
installed e a = (e, host_install e ∷ [])

unfoldable pub initialize_usb_host_lib : HostAnswers → EspErr × List HostCall
initialize_usb_host_lib a = installed a.install_err a

-- One round of `usb_lib_handler_task`, at the flags of the events.
unfoldable pub usb_lib_handler_round : Bool → Bool → List HostCall
usb_lib_handler_round no_clients all_free =
    (if no_clients then device_free_all ∷ [] else [])
    ++ (if all_free then semaphore_give ∷ [] else [])

-- What the calls leave behind.
pub record Resources : Type 0 where
  pub library : Bool
  pub semaphore_held : Bool
  pub task_runs : Bool

abbrev pub nothing : Resources
nothing = record { library = false; semaphore_held = false; task_runs = false }

abbrev is_ok : EspErr → Bool
is_ok esp_ok = true
is_ok _ = false

abbrev after_call : HostCall → Resources → Resources
after_call (host_install e) r = record r { library = is_ok e }
after_call host_uninstall r = record r { library = false }
after_call (create_binary made) r = record r { semaphore_held = made }
after_call (create_task made) r = record r { task_runs = made }
after_call semaphore_delete r = record r { semaphore_held = false }
after_call device_free_all r = r
after_call semaphore_give r = r

abbrev pub after_calls : List HostCall → Resources → Resources
after_calls [] r = r
after_calls (c ∷ cs) r = after_calls cs (after_call c r)

-- The start of the USB host either succeeds, with the library installed, the semaphore made and the
-- task running, or fails and leaves nothing behind. It fails with the error of the installation, or
-- with ESP_ERR_NO_MEM after it.
pub initialize_usb_host_lib-resources :
    (a : HostAnswers)
    → let (err, calls) = initialize_usb_host_lib a in
      (err ≡ esp_ok
        → after_calls calls nothing
          ≡ record { library = true; semaphore_held = true; task_runs = true })
      × (err ≢ esp_ok → after_calls calls nothing ≡ nothing)
      × (a.install_err ≢ esp_ok → err ≡ a.install_err)
      × (a.install_err ≡ esp_ok → err ≢ esp_ok → err ≡ esp_err_no_mem)
unfolding initialize_usb_host_lib
initialize_usb_host_lib-resources a = ground arith

-- ===== src/Camera/Tests.antt =====
-- The camera's code on sample frames, clients and answers.
use gateway_esp.Prelude.{
  ℕ, zero, suc, ◌≡◌, refl, ◌≢◌, false, true, List, [], ◌∷◌, ◌++◌, ℤ, some, replicate, pos, negsuc,
  ◌==ℤ◌, minus_one, arith,
}
use gateway_esp.Esp.{esp_ok, esp_err_no_mem}
use gateway_esp.Clients.Defs.{ConnectedClient, resp_arg_defaults}
use gateway_esp.Camera.Stream.{
  Camera, StreamEvent, frame, sender, ring_send, ws_send_data, ring_return, log_rate, send_frames,
  ws_send_loop, ws_send, count_frame, frame_callback, sender_round, stream_step, stream_run,
}
use gateway_esp.Camera.Received.{taken, received_by, offered}
use gateway_esp.Camera.Sent.{stream_run-received_by, stream_run-unserved}
use gateway_esp.Camera.Drain.{stream_run-drains}
use gateway_esp.Camera.ListRing.{BytesLent, list_ring}
use gateway_esp.Camera.Usb.{
  HostAnswers, initialize_usb_host_lib, after_calls, nothing, initialize_usb_host_lib-resources,
}
use gateway_esp.Camera.Loop.{UvcAnswers, main_loop}
use gateway_esp.Camera.Handle.{closed, Takes, main_loop-Takes}
use gateway_esp.Camera.Start.{StartAnswers}

-- Sockets 54 to 57 in the first four entries.
abbrev four : List ConnectedClient
four =
    record { hd = some 1; fd = pos 54 }
    ∷ record { hd = some 1; fd = pos 55 }
    ∷ record { hd = some 1; fd = pos 56 }
    ∷ record { hd = some 1; fd = pos 57 }
    ∷ replicate 2 resp_arg_defaults

abbrev one : List ConnectedClient
one = record { hd = some 1; fd = pos 54 } ∷ replicate 5 resp_arg_defaults

abbrev idle : Camera BytesLent
idle = record {
  frame_buffer = record { capacity = 4; waiting = []; out = 0 };
  fps = 0;
  bytes_per_second = 0;
  start_time = 0;
}

-- The second frame finds no room.
abbrev events : List StreamEvent
events =
    frame 5 (1 ∷ 2 ∷ 3 ∷ []) four
    ∷ frame 6 (4 ∷ 5 ∷ []) one
    ∷ sender one
    ∷ frame 2000000 (6 ∷ []) four
    ∷ []

stream_run_test :
    (stream_run list_ring events idle).1
    ≡ ring_send (1 ∷ 2 ∷ 3 ∷ []) true
      ∷ ring_send (4 ∷ 5 ∷ []) false
      ∷ ws_send_data (some 1) (pos 54) (1 ∷ 2 ∷ 3 ∷ [])
      ∷ ring_return (1 ∷ 2 ∷ 3 ∷ [])
      ∷ log_rate 3 6
      ∷ ring_send (6 ∷ []) true
      ∷ []
unfolding stream_run stream_step frame_callback count_frame ws_send ws_send_loop sender_round
    send_frames ◌==ℤ◌
stream_run_test = refl

socket_ne : (n : ℕ) → pos n ≢ minus_one
socket_ne n e = cc

stream_run-received_by_example :
    let (c', calls) = stream_run list_ring events idle in
    (taken calls ≡ received_by (pos 54) calls ++ c'.frame_buffer.waiting)
    × (offered calls ≡ (1 ∷ 2 ∷ 3 ∷ []) ∷ (4 ∷ 5 ∷ []) ∷ (6 ∷ []) ∷ [])
    × (c'.frame_buffer.out ≡ 0)
unfolding ◌==ℤ◌
stream_run-received_by_example =
    stream_run-received_by list_ring (pos 54) events idle (socket_ne 54)
      (refl, (refl, (refl, (refl, tt)))) refl

stream_run-unserved_example : received_by (pos 57) (stream_run list_ring events idle).1 ≡ []
unfolding ◌==ℤ◌
stream_run-unserved_example =
    stream_run-unserved list_ring (pos 57) events idle (socket_ne 57)
      (refl, (refl, (refl, (refl, tt))))

abbrev waiting : Camera BytesLent
waiting = record idle { frame_buffer = record { capacity = 4; waiting = 7 ∷ 8 ∷ []; out = 0 } }

stream_run-drains_example :
    let c' = (stream_run list_ring (replicate 2 (sender four)) waiting).0 in
    (c'.frame_buffer.waiting ≡ []) × (c'.frame_buffer.out ≡ 0)
stream_run-drains_example = stream_run-drains list_ring four 2 waiting refl (omega arith)

abbrev no_task : HostAnswers
no_task = record { install_err = esp_ok; semaphore = true; task = false }

initialize_usb_host_lib-resources_example :
    let (err, calls) = initialize_usb_host_lib no_task in
    (err ≡ esp_ok
      → after_calls calls nothing
        ≡ record { library = true; semaphore_held = true; task_runs = true })
    × (err ≢ esp_ok → after_calls calls nothing ≡ nothing)
    × (esp_ok ≢ esp_ok → err ≡ esp_ok)
    × (esp_ok ≡ esp_ok → err ≢ esp_ok → err ≡ esp_err_no_mem)
initialize_usb_host_lib-resources_example = initialize_usb_host_lib-resources no_task

abbrev second_format : ℕ → ℤ
second_format zero = negsuc 50
second_format (suc n) = pos 0

abbrev two_rounds : List UvcAnswers
two_rounds =
    replicate 2 (record {
      find_err = pos 0;
      open_err = pos 0;
      format_errs = second_format;
      start_err = pos 0;
    })

main_loop-Takes_example : Takes closed closed (main_loop 1 two_rounds)
main_loop-Takes_example =
    main_loop-Takes 1 two_rounds ((1, omega arith, refl), ((1, omega arith, refl), tt))

abbrev no_ring : StartAnswers
no_ring = record {
  event_group = true;
  gpio_err = esp_ok;
  host_answers = record { install_err = esp_ok; semaphore = true; task = true };
  init_err = pos 0;
  ring_made = false;
  sender_made = true;
  main_loop_made = true;
}

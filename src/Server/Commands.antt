-- ===== src/Server/Commands.antt =====
-- main/main.c, ws_handler: which command handlers a text frame reaches.
use gateway_esp.Prelude.{
  ℕ, ◌≡◌, refl, true, false, List, [], ◌∷◌, Option, some, if◌then◌else◌, ◌≢◌, ℤ, pos, negsuc, arith,
}
use gateway_esp.Clients.Defs.{
  Clients, Device, camera, printer, barcode_scanner, led, trigger, relay, table, value_in_array,
}
use gateway_esp.Server.Defs.{Features, Request, handle_command}
use gateway_esp.Server.Handler.{device_of_number, has_device, text_command, text_commands}

pub text_commands-none :
    (f : Features) (g : Clients) (req : Request) (payload : Option (List ℕ))
    → ((e : Device) → e ≢ camera → value_in_array req.sockfd (table g e) 0 6 ≡ false)
    → text_commands f g req payload ≡ []
unfolding text_commands text_command
text_commands-none f g req payload out = ground (
  arith,
  out printer (λ q. cc),
  out barcode_scanner (λ q. cc),
  out led (λ q. cc),
  out trigger (λ q. cc),
  out relay (λ q. cc),
)

pub text_commands-one :
    (f : Features) (g : Clients) (req : Request) (payload : Option (List ℕ)) (d : Device)
    → d ≢ camera
    → value_in_array req.sockfd (table g d) 0 6 ≡ true
    → ((e : Device) → d ≢ e → value_in_array req.sockfd (table g e) 0 6 ≡ false)
    → text_commands f g req payload
      ≡ (if has_device f d then handle_command d payload req.handle req.sockfd ∷ [] else [])
unfolding text_commands text_command
text_commands-one f g req payload camera real at out = absurd (real refl)
text_commands-one f g req payload printer real at out = ground (
  arith,
  at,
  out barcode_scanner (λ q. cc),
  out led (λ q. cc),
  out trigger (λ q. cc),
  out relay (λ q. cc),
)
text_commands-one f g req payload barcode_scanner real at out = ground (
  arith,
  at,
  out printer (λ q. cc),
  out led (λ q. cc),
  out trigger (λ q. cc),
  out relay (λ q. cc),
)
text_commands-one f g req payload led real at out = ground (
  arith,
  at,
  out barcode_scanner (λ q. cc),
  out printer (λ q. cc),
  out trigger (λ q. cc),
  out relay (λ q. cc),
)
text_commands-one f g req payload trigger real at out = ground (
  arith,
  at,
  out barcode_scanner (λ q. cc),
  out led (λ q. cc),
  out printer (λ q. cc),
  out relay (λ q. cc),
)
text_commands-one f g req payload relay real at out = ground (
  arith,
  at,
  out barcode_scanner (λ q. cc),
  out led (λ q. cc),
  out trigger (λ q. cc),
  out printer (λ q. cc),
)

pub device_of_number-ne-camera : (n : ℤ) (d : Device) → device_of_number n ≡ some d → d ≢ camera
device_of_number-ne-camera (pos n) d h = ground arith
device_of_number-ne-camera (negsuc n) d h = cc

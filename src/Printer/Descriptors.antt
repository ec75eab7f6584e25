-- ===== src/Printer/Descriptors.antt =====
-- main/printer/ESC.c: the functions action_get_…, which read the descriptors of the device. The event loop
-- calls none of them.
use gateway_esp.Prelude.{
  ℕ, ◌≡◌, refl, Bool, ◌&&◌, not, Bool-cases, inl, inr, ◌∙◌, List, [], ◌∷◌, ◌++◌, Option, none, some,
  ◌==◌, if◌then◌else◌,
}

-- A descriptor in the configuration: its type, and `bEndpointAddress` where it is an endpoint's.
pub record Descriptor : Type 0 where
  pub descriptor_type : ℕ
  pub endpoint_address : ℕ

-- `endPointAddressIn` and `endPointAddressOut`.
pub record Endpoints : Type 0 where
  pub end_point_address_in : ℕ
  pub end_point_address_out : ℕ

abbrev pub initial_endpoints : Endpoints
initial_endpoints = record { end_point_address_in = 0x82; end_point_address_out = 0x01 }

-- `usb_device_info_t`: the string descriptors, or NULL.
pub record DeviceInfo : Type 0 where
  pub str_desc_manufacturer : Option ℕ
  pub str_desc_product : Option ℕ
  pub str_desc_serial_num : Option ℕ

pub data DescriptorCall : Type 0 where
  device_info get_device_descriptor print_device_descriptor get_config_descriptor : DescriptorCall
  print_string_descriptor : ℕ → DescriptorCall

-- `assert` and ESP_ERROR_CHECK: `opened` tells whether `dev_hdl` is not NULL, and `ok` whether the call of the
-- library succeeds. `none` is an abort.
abbrev pub checked_info {ℓ} : {A : Type ℓ} → Bool → Bool → A → Option A
checked_info opened ok a = if opened && ok then some a else none

unfoldable pub action_get_info : Bool → Bool → Option (List DescriptorCall)
action_get_info opened ok = checked_info opened ok (device_info ∷ [])

unfoldable pub action_get_dev_desc : Bool → Bool → Option (List DescriptorCall)
action_get_dev_desc opened ok =
    checked_info opened ok (get_device_descriptor ∷ print_device_descriptor ∷ [])

abbrev pub print_if : Option ℕ → List DescriptorCall
print_if none = []
print_if (some string) = print_string_descriptor string ∷ []

unfoldable pub action_get_str_desc : Bool → Bool → DeviceInfo → Option (List DescriptorCall)
action_get_str_desc opened ok info = checked_info opened ok (
    device_info ∷ print_if info.str_desc_manufacturer
    ++ print_if info.str_desc_product
    ++ print_if info.str_desc_serial_num)

-- USB_B_DESCRIPTOR_TYPE_ENDPOINT.
abbrev pub endpoint_type : ℕ
endpoint_type = 5

-- The addresses of the endpoints of one direction.
abbrev pub addresses : (ℕ → Bool) → List Descriptor → List ℕ
addresses dir [] = []
addresses dir (d ∷ ds) =
    let rest = addresses dir ds in
    if (d.descriptor_type == endpoint_type) && dir d.endpoint_address
    then d.endpoint_address ∷ rest
    else rest

abbrev pub last_or : ℕ → List ℕ → ℕ
last_or a [] = a
last_or a (b ∷ l) = last_or b l

-- USB_EP_DESC_GET_EP_DIR.
module _ (is_in : ℕ → Bool) where
  -- The `switch` on a descriptor.
  abbrev pub read_descriptor : Descriptor → Endpoints → Endpoints
  read_descriptor d e =
      if d.descriptor_type == endpoint_type
      then (if is_in d.endpoint_address
          then record e { end_point_address_in = d.endpoint_address }
          else record e { end_point_address_out = d.endpoint_address })
      else e

  -- The loop over the descriptors that `usb_parse_next_descriptor` gives after the first.
  unfoldable pub descriptor_loop : Descriptor → List Descriptor → Endpoints → Endpoints
  descriptor_loop d [] e = read_descriptor d e
  descriptor_loop d (d' ∷ ds) e = descriptor_loop d' ds (read_descriptor d e)

  unfoldable pub action_get_config_desc :
      Bool
      → Bool
      → Descriptor
      → List Descriptor
      → Endpoints
      → Option (Endpoints × List DescriptorCall)
  action_get_config_desc opened ok d ds e =
      checked_info opened ok (descriptor_loop d ds e, get_config_descriptor ∷ [])

  abbrev pub is_out : ℕ → Bool
  is_out a = not (is_in a)

  abbrev pub last_endpoints : Endpoints → List Descriptor → Endpoints
  last_endpoints e ds = record {
    end_point_address_in = last_or e.end_point_address_in (addresses is_in ds);
    end_point_address_out = last_or e.end_point_address_out (addresses is_out ds);
  }

  last_endpoints-cons :
      (d : Descriptor) (ds : List Descriptor) (e : Endpoints)
      → last_endpoints (read_descriptor d e) ds ≡ last_endpoints e (d ∷ ds)
  last_endpoints-cons d ds e = elim (Bool-cases (d.descriptor_type == endpoint_type)) [
    | inr other ↦ rw other refl
    | inl endpoint ↦ elim (Bool-cases (is_in d.endpoint_address)) [
      | inl inward ↦ rw (endpoint, inward) refl
      | inr outward ↦ rw (endpoint, outward) refl
    ]
  ]

  -- The loop leaves, in each direction, the address of the last endpoint that the descriptors name, and
  -- the address that was there if they name none.
  pub descriptor_loop-last :
      (d : Descriptor) (ds : List Descriptor) (e : Endpoints)
      → descriptor_loop d ds e ≡ last_endpoints e (d ∷ ds)
  unfolding descriptor_loop
  descriptor_loop-last d [] e = last_endpoints-cons d [] e
  descriptor_loop-last d (d' ∷ ds) e =
      descriptor_loop-last d' ds (read_descriptor d e) ∙ last_endpoints-cons d (d' ∷ ds) e

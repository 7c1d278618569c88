-- ===== src/Usb.antt =====
-- The USB side of the firmware, in firmware/hid_bootloader/src/ASF/common/services/usb: the requests
-- of the host on the control endpoint, as udc.c decodes them, and the HID interface that they reach.
-- This file has the requests and the state; the driver below, usb_device.c, is a parameter.
pub mod Protocol
pub mod Descriptors
pub mod Hid
pub mod Interface
pub mod Requests
pub mod Process
pub mod Endpoint
pub mod Jobs
pub mod Driver
pub mod Tests
use hid_bootloader.Base.{
  ℕ, ◌+◌, ◌*◌, ◌/◌, ◌%◌, ◌^◌, bit_and, ◌==◌, Bool, true, false, if◌then◌else◌, ◌&&◌, List, [], ◌∷◌,
}
use hid_bootloader.Firmware.{State}
use hid_bootloader.Usb.Protocol.{
  req_dir_mask, req_dir_in, req_dir_out, req_type_mask, req_recip_mask, ep_dir_in,
}

-- usb_setup_req_t, in machine order.
pub record Setup : Type 0 where
  pub bm_request_type : ℕ
  pub b_request : ℕ
  pub w_value : ℕ
  pub w_index : ℕ
  pub w_length : ℕ

-- Udd_setup_is_in, Udd_setup_is_out, Udd_setup_type and Udd_setup_recipient
abbrev pub is_in : Setup → Bool
is_in r = req_dir_in == bit_and r.bm_request_type req_dir_mask

abbrev pub is_out : Setup → Bool
is_out r = req_dir_out == bit_and r.bm_request_type req_dir_mask

abbrev pub setup_type : Setup → ℕ
setup_type r = bit_and r.bm_request_type req_type_mask

abbrev pub recipient : Setup → ℕ
recipient r = bit_and r.bm_request_type req_recip_mask

-- The routines that are registered for the end of a request.
pub data Callback : Type 0 where
  no_callback valid_address setfeature_valid : Callback

-- What `payload` points to: bytes that are sent, or the buffer udi_hid_generic_report_feature, which
-- is filled.
pub data Payload : Type 0 where
  unset : Payload
  sends : List ℕ → Payload
  fills_feature : Payload

-- udd_g_ctrlreq without the request. `over_under_run` is never set here but to NULL.
pub record Control : Type 0 where
  pub payload : Payload
  pub payload_size : ℕ
  pub callback : Callback

-- The variables of udc.c, udi_hid_generic.c and the firmware.
pub record Bus (Hw : Type 0) : Type 0 where
  pub device : State Hw
  pub control : Control
  pub device_status : ℕ
  pub num_configuration : ℕ
  pub iface_setting : ℕ
  -- udc_ptr_iface, as an offset in the configuration descriptor
  pub ptr_iface : ℕ
  pub rate : ℕ
  pub protocol : ℕ
  -- udi_hid_generic_report_feature
  pub report_feature : List ℕ

-- The routines of usb_device.c that are called. A transfer that is aborted ends in its callback: the
-- first result of `ep_free` and `ep_abort` is whether there was one.
pub record Udd (Hw : Type 0) : Type 0 where
  pub enable : Hw → Hw
  pub disable : Hw → Hw
  pub set_address : ℕ → Hw → Hw
  pub getaddress : Hw → ℕ
  -- endpoint, attributes and size
  pub ep_alloc : ℕ → ℕ → ℕ → Hw → Bool × Hw
  pub ep_free : ℕ → Hw → Bool × Hw
  pub ep_abort : ℕ → Hw → Bool × Hw
  pub ep_is_halted : ℕ → Hw → Bool
  pub ep_set_halt : ℕ → Hw → Bool × Hw
  pub ep_clear_halt : ℕ → Hw → Bool × Hw
  -- udd_ep_run on the OUT endpoint, with the buffer udi_hid_generic_report_out
  pub run_out_endpoint : Hw → Bool × Hw

module _ {Hw : Type 0} where
  abbrev pub with_bus_hw : Bus Hw → Hw → Bus Hw
  with_bus_hw s hw = record s { device = record s.device { hw = hw } }

  -- udd_set_setup_payload
  abbrev pub set_setup_payload : List ℕ → ℕ → Bus Hw → Bus Hw
  set_setup_payload bytes size s = record s {
    control = record s.control { payload = sends bytes; payload_size = size };
  }

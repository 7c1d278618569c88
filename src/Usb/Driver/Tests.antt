-- ===== src/Usb/Driver/Tests.antt =====
-- The theorems about the reset of the bus and the start-up, on the sample chip.
use hid_bootloader.Base.{◌≡◌, refl, true, false, none}
use hid_bootloader.Chip.Sample.{Silicon, small_chip}
use hid_bootloader.Firmware.{hid_set_feature_report_out}
use hid_bootloader.Usb.Tests.{noise, fresh, command}
use hid_bootloader.Usb.Process.Configure.Enable.{set_configuration}
use hid_bootloader.Usb.Endpoint.{Endpoint, setup, data_in}
use hid_bootloader.Usb.Jobs.{Slot, bulk, bufsize_64, in_buf}
use hid_bootloader.Usb.Driver.{Driver, wired, bus_reset}
use hid_bootloader.Usb.Driver.Start.{
  StartAccess, firmware_main, cleared_bus, first_armed, firmware_main-takes_commands,
}
use hid_bootloader.Usb.Driver.Reset.{IsInitial, recovered, rearmed, bus_reset-recovers}

-- Every endpoint at work
abbrev at_work : Slot
at_work = record {
  job = record {
    busy = true;
    b_shortpacket = false;
    b_use_out_cache_buffer = false;
    buf = λ i. 0;
    buf_size = 64;
    nb_trans = 0;
  };
  kind = bulk;
  size = bufsize_64;
  stall = false;
  nack = false;
  cnt = 64;
  aux = 0;
  dataptr = in_buf 0;
  cache = λ i. 0;
}

abbrev worn : Driver Silicon
worn = record { hw = fresh.device.hw; slot = λ i. at_work; address = 5 }

-- In the middle of an answer to the host
abbrev interrupted : Endpoint (wired small_chip).Hw
interrupted = record {
  bus = record {
    device = record {
      page_buffer = λ i. i;
      page_ptr = 64;
      feature_response = record { version = 1; busy_flags = 0; page_ptr = 0; result = 0 };
      report_in_free = false;
      report_in = λ i. 0;
      hw = worn;
    };
    control = fresh.control;
    device_status = 1;
    num_configuration = 1;
    iface_setting = 0;
    ptr_iface = 9;
    rate = 4;
    protocol = 0;
    report_feature = fresh.report_feature;
  };
  request = set_configuration 1;
  state = data_in;
  payload_nb_trans = 8;
  prev_payload_nb_trans = 0;
  b_shortpacket = false;
  in_packet = none;
  out_ready = false;
  stalled = true;
}

bus_reset-recovers_example :
    IsInitial (bus_reset small_chip interrupted)
    × ((recovered small_chip 9 command noise interrupted).bus.device
        ≡ hid_set_feature_report_out
            (wired small_chip)
            command
            noise
            (record interrupted.bus.device {
              hw = rearmed small_chip 9 interrupted;
              report_in_free = true;
            }))
    × ((recovered small_chip 9 command noise interrupted).state ≡ setup)
    × ((rearmed small_chip 9 interrupted).address ≡ 9)
    × ((rearmed small_chip 9 interrupted).hw ≡ worn.hw)
    × (((rearmed small_chip 9 interrupted).slot 4).job.busy ≡ true)
    × (((rearmed small_chip 9 interrupted).slot 3).job.busy ≡ false)
bus_reset-recovers_example =
    bus_reset-recovers small_chip interrupted 9 command noise refl refl refl refl

-- Start-up steps that leave the tables as they are.
abbrev powered : StartAccess → Driver Silicon → Driver Silicon
powered a d = d

abbrev after_main : Endpoint (wired small_chip).Hw
after_main = record interrupted { bus = firmware_main small_chip powered worn }

firmware_main-takes_commands_example :
    ((bus_reset small_chip after_main).state ≡ setup)
    × ((recovered small_chip 9 command noise after_main).bus.device
        ≡ hid_set_feature_report_out
            (wired small_chip)
            command
            noise
            (record (cleared_bus small_chip powered worn).device {
              hw = first_armed small_chip 9 after_main.bus;
              report_in_free = true;
            }))
    × ((recovered small_chip 9 command noise after_main).state ≡ setup)
    × ((first_armed small_chip 9 after_main.bus).address ≡ 9)
    × (((first_armed small_chip 9 after_main.bus).slot 4).job.busy ≡ true)
    × (((first_armed small_chip 9 after_main.bus).slot 3).job.busy ≡ false)
firmware_main-takes_commands_example =
    firmware_main-takes_commands small_chip powered (λ d. refl) worn after_main 9 command noise refl
      refl refl

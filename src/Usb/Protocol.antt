-- ===== src/Usb/Protocol.antt =====
-- The numbers of the USB and HID specifications that the firmware uses, from usb_protocol.h and
-- usb_protocol_hid.h.
use hid_bootloader.Base.{ℕ}

abbrev pub req_dir_mask : ℕ
req_dir_mask = 0x80

abbrev pub req_dir_in : ℕ
req_dir_in = 0x80

abbrev pub req_dir_out : ℕ
req_dir_out = 0x00

abbrev pub req_type_mask : ℕ
req_type_mask = 0x60

abbrev pub req_type_standard : ℕ
req_type_standard = 0x00

abbrev pub req_type_class : ℕ
req_type_class = 0x20

abbrev pub req_recip_mask : ℕ
req_recip_mask = 0x1F

abbrev pub req_recip_device : ℕ
req_recip_device = 0

abbrev pub req_recip_interface : ℕ
req_recip_interface = 1

abbrev pub req_recip_endpoint : ℕ
req_recip_endpoint = 2

abbrev pub req_get_status : ℕ
req_get_status = 0

abbrev pub req_clear_feature : ℕ
req_clear_feature = 1

abbrev pub req_set_feature : ℕ
req_set_feature = 3

abbrev pub req_set_address : ℕ
req_set_address = 5

abbrev pub req_get_descriptor : ℕ
req_get_descriptor = 6

abbrev pub req_get_configuration : ℕ
req_get_configuration = 8

abbrev pub req_set_configuration : ℕ
req_set_configuration = 9

abbrev pub req_get_interface : ℕ
req_get_interface = 10

abbrev pub req_set_interface : ℕ
req_set_interface = 11

abbrev pub dev_status_bus_powered : ℕ
dev_status_bus_powered = 0

abbrev pub dev_status_remotewakeup : ℕ
dev_status_remotewakeup = 2

abbrev pub ep_status_halted : ℕ
ep_status_halted = 1

abbrev pub dev_feature_remote_wakeup : ℕ
dev_feature_remote_wakeup = 1

abbrev pub ep_feature_halt : ℕ
ep_feature_halt = 0

abbrev pub dt_device : ℕ
dt_device = 1

abbrev pub dt_configuration : ℕ
dt_configuration = 2

abbrev pub dt_string : ℕ
dt_string = 3

abbrev pub dt_interface : ℕ
dt_interface = 4

abbrev pub dt_endpoint : ℕ
dt_endpoint = 5

abbrev pub ep_type_interrupt : ℕ
ep_type_interrupt = 3

abbrev pub ep_dir_in : ℕ
ep_dir_in = 0x80

abbrev pub config_attr_must_set : ℕ
config_attr_must_set = 0x80

abbrev pub langid_en_us : ℕ
langid_en_us = 0x0409

abbrev pub dt_bos : ℕ
dt_bos = 0x0F

abbrev pub req_hid_get_report : ℕ
req_hid_get_report = 0x01

abbrev pub req_hid_get_idle : ℕ
req_hid_get_idle = 0x02

abbrev pub req_hid_get_protocol : ℕ
req_hid_get_protocol = 0x03

abbrev pub req_hid_set_report : ℕ
req_hid_set_report = 0x09

abbrev pub req_hid_set_idle : ℕ
req_hid_set_idle = 0x0A

abbrev pub req_hid_set_protocol : ℕ
req_hid_set_protocol = 0x0B

abbrev pub dt_hid : ℕ
dt_hid = 0x21

abbrev pub dt_hid_report : ℕ
dt_hid_report = 0x22

abbrev pub hid_report_type_feature : ℕ
hid_report_type_feature = 3

abbrev pub hid_class : ℕ
hid_class = 3

abbrev pub hid_bdc_v1_11 : ℕ
hid_bdc_v1_11 = 0x0111

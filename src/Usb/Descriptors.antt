-- ===== src/Usb/Descriptors.antt =====
-- The descriptors of udi_hid_generic_desc.c, udi_hid_generic.h and udi_hid_generic.c, filled from
-- conf_usb.h, as bytes in memory, and the strings of udc.c.
use hid_bootloader.Base.{ℕ, ◌+◌, ◌*◌, ◌/◌, ◌%◌, ◌^◌, List, [], ◌∷◌, get_or}
use hid_bootloader.Usb.Protocol

-- LE16
abbrev pub le16 : ℕ → List ℕ → List ℕ
le16 v rest = v % 2 ^ 8 ∷ v / 2 ^ 8 ∷ rest

abbrev pub usb_device_vendor_id : ℕ
usb_device_vendor_id = 0x8282

abbrev pub usb_device_product_id : ℕ
usb_device_product_id = 0xB71D

abbrev pub usb_device_power : ℕ
usb_device_power = 100

abbrev pub udi_hid_report_feature_size : ℕ
udi_hid_report_feature_size = 5

abbrev pub udi_hid_generic_ep_size : ℕ
udi_hid_generic_ep_size = 64

abbrev pub usb_device_ep_ctrl_size : ℕ
usb_device_ep_ctrl_size = 8

abbrev pub udi_hid_generic_ep_out : ℕ
udi_hid_generic_ep_out = 0x02

abbrev pub udi_hid_generic_ep_in : ℕ
udi_hid_generic_ep_in = 0x81

-- udi_hid_generic_report_desc
abbrev pub udi_hid_generic_report_desc : List ℕ
udi_hid_generic_report_desc =
    0x06 ∷ 0x00 ∷ 0xFF ∷ 0x09 ∷ 0x01 ∷ 0xA1 ∷ 0x01 ∷ 0x15 ∷ 0x00 ∷ 0x26 ∷ 0xFF ∷ 0x00 ∷ 0x75 ∷ 0x08
    ∷ 0x95 ∷ 0x05 ∷ 0x09 ∷ 0x00 ∷ 0xB2 ∷ 0x02 ∷ 0x01 ∷ 0x95 ∷ 0x40 ∷ 0x09 ∷ 0x00 ∷ 0x82 ∷ 0x02
    ∷ 0x01 ∷ 0x09 ∷ 0x00 ∷ 0x92 ∷ 0x02 ∷ 0x01 ∷ 0xC0 ∷ []

-- udc_device_desc
abbrev pub udc_device_desc : List ℕ
udc_device_desc =
    18
    ∷ Protocol.dt_device
    ∷ le16 0x0200 (
        0
        ∷ 0
        ∷ 0
        ∷ usb_device_ep_ctrl_size
        ∷ le16 usb_device_vendor_id
            (le16 usb_device_product_id (le16 (1 * 2 ^ 8) (1 ∷ 2 ∷ 0 ∷ 1 ∷ []))))

-- An endpoint descriptor of UDI_HID_GENERIC_DESC.
abbrev pub endpoint_desc : ℕ → List ℕ → List ℕ
endpoint_desc ep rest =
    7
    ∷ Protocol.dt_endpoint
    ∷ ep
    ∷ Protocol.ep_type_interrupt
    ∷ le16 udi_hid_generic_ep_size (4 ∷ rest)

-- UDI_HID_GENERIC_DESC
abbrev pub udi_hid_generic_desc : List ℕ
udi_hid_generic_desc =
    9
    ∷ Protocol.dt_interface
    ∷ 0
    ∷ 0
    ∷ 2
    ∷ Protocol.hid_class
    ∷ 0
    ∷ 0
    ∷ 0
    ∷ 9
    ∷ Protocol.dt_hid
    ∷ le16 Protocol.hid_bdc_v1_11 (
        0
        ∷ 1
        ∷ Protocol.dt_hid_report
        ∷ le16 34 (endpoint_desc udi_hid_generic_ep_in (endpoint_desc udi_hid_generic_ep_out [])))

-- udc_desc: the configuration descriptor and what follows it.
abbrev pub udc_desc : List ℕ
udc_desc =
    9
    ∷ Protocol.dt_configuration
    ∷ le16 41 (
        1
        ∷ 1
        ∷ 0
        ∷ Protocol.config_attr_must_set
        ∷ (usb_device_power + 1) / 2
        ∷ udi_hid_generic_desc)

-- The byte at an offset of udc_desc.
abbrev pub conf_byte : ℕ → ℕ
conf_byte i = get_or udc_desc i 0

abbrev pub conf_word : ℕ → ℕ
conf_word i = conf_byte i + conf_byte (i + 1) * 2 ^ 8

-- udc_string_desc_languageid
abbrev pub udc_string_desc_languageid : List ℕ
udc_string_desc_languageid = 4 ∷ Protocol.dt_string ∷ le16 Protocol.langid_en_us []

-- Keio
abbrev pub udc_string_manufacturer_name : List ℕ
udc_string_manufacturer_name = b'K' ∷ b'e' ∷ b'i' ∷ b'o' ∷ []

-- USB Bootloader
abbrev pub udc_string_product_name : List ℕ
udc_string_product_name =
    b'U' ∷ b'S' ∷ b'B' ∷ b' ' ∷ b'B' ∷ b'o' ∷ b'o' ∷ b't' ∷ b'l' ∷ b'o' ∷ b'a' ∷ b'd' ∷ b'e' ∷ b'r'
    ∷ []

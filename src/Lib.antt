-- ===== src/Lib.antt =====
-- The USB HID bootloader for Atmel XMEGA chips: the firmware that takes commands in HID reports and
-- programs the flash memory, and the Windows program that drives it.
--
-- Parts and files
--
--   Base      shared tests on numbers, machine words, arrays as functions of the index, and the laws
--             of bit operations.
--   Protocol  firmware/hid_bootloader/protocol.h and pc/hid_bootloader/bootloader.h: the command
--             codes, and BLCOMMAND_t and BLSTATUS_t with their bytes. Protocol/Wire has what one end
--             reads of the other's bytes.
--   Crc       pc/hid_bootloader/crc.c: xmega_nvm_crc32. Crc/Register is about one round, Crc/Detect
--             about whole buffers.
--   Serial    the text of the serial number, in the handler of CMD_READ_SERIAL and in
--             firmware/hid_bootloader/serial_num.c.
--   Eeprom    firmware/hid_bootloader/eeprom.c: each routine as the sequence of its accesses to the
--             registers of the NVM controller.
--   Chip      what the firmware takes from the device header, the self-programming driver and the
--             USB stack: a parameter. Chip/Sample is a concrete one.
--   Firmware  firmware/hid_bootloader/hid_bootloader.c: HID_report_out, HID_get_feature_report_out
--             and HID_set_feature_report_out with every case of its switch, over the record State of
--             the globals page_buffer, page_ptr and feature_response, the buffer of the IN report,
--             and the hardware. Firmware/Buffer is about the page buffer, Firmware/Commands about
--             single commands.
--   Usb       firmware/hid_bootloader/src/ASF/common/services/usb, the device side of USB: requests
--             and state over the parameter Udd, the driver of the endpoints. Usb/Protocol has the
--             constants, Usb/Descriptors the descriptors as bytes, Usb/Hid udi_hid.c and
--             udi_hid_generic.c, Usb/Interface, Usb/Requests and Usb/Process udc.c with
--             udc_process_setup, and Usb/Endpoint the control endpoint of
--             src/ASF/xmega/drivers/usb/usb_device.c: udd_ctrl_setup_received, udd_ctrl_in_sent,
--             udd_ctrl_out_received, udd_ctrl_underflow and udd_ctrl_overflow. Usb/Process/Within is
--             about the buffers, Usb/Process/Configure about the configuration,
--             Usb/Process/Enumerate about a host that brings the device up, Usb/Endpoint/Stages,
--             Usb/Endpoint/Packets and Usb/Endpoint/Commands about whole transfers,
--             Usb/Endpoint/BringUp about the same way of the host packet by packet, Usb/Endpoint/Events about any sequence of
--             events. Usb/Jobs has the other endpoints of usb_device.c: udd_ep_alloc, udd_ep_free,
--             udd_ep_run, udd_ep_abort, the halts, and udd_ep_trans_complet, over a record of the job
--             of an endpoint and its registers; Usb/Jobs/Sending and Usb/Jobs/Sent are about the IN
--             direction, Usb/Jobs/Receiving, Usb/Jobs/Safe, Usb/Jobs/Reachable, Usb/Jobs/Storing and
--             Usb/Jobs/Received about the OUT direction. Usb/Driver puts the jobs together to an
--             instance of Udd, with the interrupts for the reset of the bus, the errors and the end of
--             a transfer; Usb/Driver/Freed, Usb/Driver/Rearmed and Usb/Driver/Reset are about the
--             reset. Usb/Driver/Start has main of firmware/hid_bootloader/hid_bootloader.c.
--   Host      pc/hid_bootloader/hid_bootloader.c: CheckBusy, WaitNotBusy, ExecuteHIDCommand and
--             ExecuteHIDCommandWithResponse over the parameter Hid, an open device of HIDAPI.
--             Host/Update has UpdateFirmware and VerifyFirmware, Host/Session has GetBootloaderInfo
--             and main from the open device on, Host/Args parse_args and main from the command line
--             on, over a parameter for strtol and what getopt returns. Host/Polling and Host/Assemble
--             are about the wait and about the reading of a checksum.
--   IntelHex  pc/hid_bootloader/intel_hex.c: ReadBase16, FindEmbeddedInfo and ReadHexFile, for a file
--             that opens. IntelHex/Digits is about numbers, IntelHex/Records and IntelHex/Described
--             about records and files of them, IntelHex/Print has a printer, IntelHex/Info is about
--             the search for the embedded structure, IntelHex/File about the whole.
--   TestImage test_image/test_image/test_image.c: the structure that an application embeds for the
--             host's program.
--   System    both ends together. Cable says that HIDAPI and the USB stacks run the handlers of the
--             firmware and lose no report, FlashLaws what the self-programming driver does to the
--             flash memory, Fits that the image was built for the board. System/Main is about
--             the program from its command line on, System/Sample has an instance of each.
--
-- How the parts meet: the host sends a command as a feature report, which runs
-- HID_set_feature_report_out; it then fetches the status, which runs HID_get_feature_report_out. Page
-- data go to HID_report_out. A command with a reply starts an IN report, which waits in the host's
-- queue until the host reads it.
--
-- Conventions. Bytes and words are natural numbers, with the wrap-around of uint8_t, uint16_t and
-- uint32_t written out. The host's routines are functions into Outcome: a value, undefined behaviour
-- (a read outside the firmware buffer, a division by zero), or no end within the fuel. Fuel bounds one
-- loop, the reading of unread reports before a command; all others count down what is left. The
-- fuel has to exceed the number of reports that can be unread, which the results about both ends
-- state. Uninitialised arrays are parameters.
--
-- The loops of udc.c over the descriptors count down the bytes of the configuration, since each step
-- passes at least one. Usb and System meet in HID_set_feature_report_out, HID_get_feature_report_out
-- and HID_report_out: Usb has the way of a request to them, System takes it as part of Cable. A host that fetches a payload, Usb/Endpoint/Stages, or
-- the transfers of a job, Usb/Jobs/Sent, has fuel for one of each byte and two more; one that sends
-- the bytes of a job, Usb/Jobs/Received, has fuel for one of each byte and one more. What the hardware
-- does with an endpoint is what udd_ep_trans_complet relies on: it sends or stores the bytes that the
-- registers name, counts them, and sets the bit NACK0.
--
-- Not modelled: what is printed, the opening of the file, which interrupt comes when, the registers of
-- the USB module for the bus itself, and the copies of other projects' code: HIDAPI, getopt, the
-- self-programming driver, and the Atmel software framework but for the parts named above, whose
-- branches for high speed and remote wakeup are not compiled.
pub mod Base
pub mod Protocol
pub mod Crc
pub mod Serial
pub mod Eeprom
pub mod Chip
pub mod Firmware
pub mod Usb
pub mod Host
pub mod IntelHex
pub mod System
pub mod TestImage

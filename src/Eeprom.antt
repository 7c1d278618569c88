-- ===== src/Eeprom.antt =====
-- firmware/hid_bootloader/eeprom.c and the macros of eeprom.h: each routine as the sequence of
-- accesses that it makes to the registers of the NVM controller.
use hid_bootloader.Base.{
  ℕ, zero, suc, ◌+◌, ◌*◌, ◌/◌, ◌^◌, bit_and, u8, u16, ltb, if◌then◌else◌, Memory, List, [], ◌∷◌,
  ◌++◌,
}

-- The values of NVM.CMD that the routines write.
pub data NvmCommand : Type 0 where
  load_eeprom_buffer erase_write_eeprom_page erase_eeprom : NvmCommand

-- One access: a wait for NVM.STATUS, a write to a register, NVM_EXEC, or EEP_EnableMapping and
-- EEP_DisableMapping.
pub data NvmAccess : Type 0 where
  wait exec enable_mapping disable_mapping : NvmAccess
  set_cmd : NvmCommand → NvmAccess
  set_addr0 set_addr1 set_addr2 set_data0 : ℕ → NvmAccess

-- The loop over the bytes, with those that are left and the index of the next.
unfoldable pub load_bytes : Memory → ℕ → ℕ → List NvmAccess
load_bytes bytes zero i = []
load_bytes bytes (suc left) i = set_addr0 i ∷ set_data0 (bytes i) ∷ load_bytes bytes left (i + 1)

module _ (eeprom_page_size : ℕ) where
  unfoldable pub load_page_buffer : Memory → ℕ → List NvmAccess
  load_page_buffer bytes size =
      let count = if ltb eeprom_page_size size then u8 eeprom_page_size else size in
      wait
      ∷ set_cmd load_eeprom_buffer
      ∷ set_addr1 0x00
      ∷ set_addr2 0x00
      ∷ (load_bytes bytes count 0 ++ wait ∷ [])

  unfoldable pub atomic_write_page : ℕ → List NvmAccess
  atomic_write_page page_addr =
      let address = u16 (page_addr * eeprom_page_size) in
      wait
      ∷ set_addr0 (bit_and address 0xFF)
      ∷ set_addr1 (bit_and (address / 2 ^ 8) 0x1F)
      ∷ set_addr2 0x00
      ∷ set_cmd erase_write_eeprom_page
      ∷ exec
      ∷ wait
      ∷ []

  unfoldable pub erase_all : List NvmAccess
  unfolding load_page_buffer
  erase_all = load_page_buffer (λ i. 0xFF) 32 ++ wait ∷ set_cmd erase_eeprom ∷ exec ∷ wait ∷ []

-- ===== src/Serial/Text.antt =====
-- What the serial number tells: the text gives back the bytes, and the two routines that build it
-- differ in one of them.
use hid_bootloader.Base.{
  ℕ, zero, suc, ◌+◌, ◌*◌, ◌/◌, ◌%◌, ◌^◌, ◌<◌, ◌≡◌, ◌↔◌, refl, sym, ap, ◌∙◌, arith, bit_and, List,
  get_or, ltb, if◌then◌else◌,
}
use Prim.{absurd}
use hid_bootloader.Base.Bits.{bit_and_mask}
use hid_bootloader.Serial.{hex_to_char, serial_text, usb_serial_text}

hex_to_char_injective : (a b : ℕ) → a < 16 → b < 16 → hex_to_char a ≡ hex_to_char b → a ≡ b
unfolding hex_to_char
hex_to_char_injective a b ha hb e = ground arith

-- The two characters of a byte.
high_char : ℕ → ℕ
high_char b = hex_to_char (b / 2 ^ 4)

low_char : ℕ → ℕ
low_char b = hex_to_char (bit_and b 0x0F)

chars_injective :
    (a b : ℕ) → a < 256 → b < 256 → high_char a ≡ high_char b → low_char a ≡ low_char b → a ≡ b
unfolding high_char low_char
chars_injective a b ha hb h l =
    let high : a / 16 ≡ b / 16 =
      hex_to_char_injective (a / 16) (b / 16) (omega arith) (omega arith) h in
    let low : a % 16 ≡ b % 16 =
      hex_to_char_injective (a % 16) (b % 16) (omega arith) (omega arith)
        (ap hex_to_char (sym (bit_and_mask 4 a)) ∙ l ∙ ap hex_to_char (bit_and_mask 4 b)) in
    omega arith

-- The byte that two characters of the text stand for.
byte_of_chars :
    (f g : ℕ → ℕ)
    → ((i : ℕ) → i < 11 → (f i < 256) × (g i < 256))
    → (i : ℕ) → i < 11
    → high_char (f i) ≡ high_char (g i)
    → low_char (f i) ≡ low_char (g i)
    → f i ≡ g i
byte_of_chars f g bytes i h high low =
    chars_injective (f i) (g i) (bytes i h).0 (bytes i h).1 high low

-- The position of the first character of a byte: a dash stands before and behind the byte 6.
abbrev place : ℕ → ℕ
place i = i * 2 + (if ltb i 6 then 0 else if ltb i 7 then 1 else 2)

-- A family at each number below `n`, as a product.
abbrev Each : ℕ → (ℕ → Type 0) → Type 0
Each zero P = Unit
Each (suc n) P = P 0 × Each n (λ i. P (suc i))

at_each : (n : ℕ) (P : ℕ → Type 0) → Each n P → (i : ℕ) → i < n → P i
at_each zero P ps i h = absurd (omega arith)
at_each (suc n) P (p, ps) zero h = p
at_each (suc n) P (p, ps) (suc i) h = at_each n (λ k. P (suc k)) ps i (omega arith)

serial_text-high :
    (f : ℕ → ℕ) (i : ℕ) → i < 11 → get_or (serial_text f) (place i) 0 ≡ high_char (f i)
unfolding serial_text high_char
serial_text-high f =
    at_each 11 (λ i. get_or (serial_text f) (place i) 0 ≡ high_char (f i))
      (refl, (refl, (refl, (refl, (refl, (refl, (refl, (refl, (refl, (refl, (refl, tt)))))))))))

serial_text-low :
    (f : ℕ → ℕ) (i : ℕ) → i < 11 → get_or (serial_text f) (place i + 1) 0 ≡ low_char (f i)
unfolding serial_text low_char
serial_text-low f =
    at_each 11 (λ i. get_or (serial_text f) (place i + 1) 0 ≡ low_char (f i))
      (refl, (refl, (refl, (refl, (refl, (refl, (refl, (refl, (refl, (refl, (refl, tt)))))))))))

-- The handler's text determines the eleven bytes that it is made of.
pub serial_text_injective :
    (f g : ℕ → ℕ)
    → ((i : ℕ) → i < 11 → (f i < 256) × (g i < 256))
    → serial_text f ≡ serial_text g
    → (i : ℕ) → i < 11
    → f i ≡ g i
serial_text_injective f g bytes e i h =
    byte_of_chars f g bytes i h
      (sym (serial_text-high f i h)
        ∙ ap (λ (l : List ℕ). get_or l (place i) 0) e
        ∙ serial_text-high g i h)
      (sym (serial_text-low f i h)
        ∙ ap (λ (l : List ℕ). get_or l (place i + 1) 0) e
        ∙ serial_text-low g i h)

-- The text of serial_num.c is the handler's exactly if the bytes 6 and 7 behind LOTNUM0 are equal:
-- it has the byte 7 twice and the byte 6 not at all.
pub usb_serial_text-eq_iff :
    (f : ℕ → ℕ) → f 6 < 256 → f 7 < 256 → (usb_serial_text f ≡ serial_text f) ↔ (f 6 ≡ f 7)
unfolding usb_serial_text serial_text high_char low_char
usb_serial_text-eq_iff f h6 h7 = (
  λ e.
      chars_injective (f 6) (f 7) h6 h7 (sym (ap (λ (l : List ℕ). get_or l 13 0) e))
        (sym (ap (λ (l : List ℕ). get_or l 14 0) e)),
  λ e. rw e refl,
)

-- ===== src/IntelHex/Info.antt =====
-- FindEmbeddedInfo finds the first magic string that begins below its bound.
use hid_bootloader.Base.{
  ℕ, zero, suc, ◌+◌, ◌-◌, ◌≤◌, ◌<◌, ◌≡◌, ◌↔◌, refl, sym, ap, ◌∙◌, arith, Memory, true, false, Bool,
  Bool-cases, inl, inr, some,
}
use hid_bootloader.Host.{firmware_buffer_size}
use hid_bootloader.IntelHex.{is_magic, find_from, find_embedded_info}

-- The first address from `addr` on, of `left` addresses, at which the magic string begins.
pub record First (b : Memory) (left addr found : ℕ) : Type 0 where
  pub from : addr ≤ found
  pub below : found < addr + left
  pub magic : is_magic b found ≡ true
  pub first : (i : ℕ) → addr ≤ i → i < found → is_magic b i ≡ false

true_and_false : {c : Bool} → c ≡ true → c ≡ false → ⊥
true_and_false h k = cc

find_from_here :
    (b : Memory) (left addr : ℕ) → is_magic b addr ≡ true → find_from b (suc left) addr ≡ some addr
unfolding find_from
find_from_here b left addr h = rw h refl

find_from_later :
    (b : Memory) (left addr : ℕ)
    → is_magic b addr ≡ false
    → find_from b (suc left) addr ≡ find_from b left (addr + 1)
unfolding find_from
find_from_later b left addr h = rw h refl

find_from-First :
    (b : Memory) (left addr found : ℕ)
    → First b left addr found
    → find_from b left addr ≡ some found
find_from-First b zero addr found f = absurd (omega (arith, f.from, f.below))
find_from-First b (suc left) addr found f = elim (Bool-cases (is_magic b addr)) [
  | inl here ↦
      let not_later : ¬ (addr < found) = λ h. true_and_false here (f.first addr (omega arith) h) in
      let same : addr ≡ found = omega (arith, not_later, f.from) in
      find_from_here b left addr here ∙ ap (λ (a : ℕ). some a) same
  | inr later ↦
      let not_here : ¬ (addr ≡ found) =
        λ e. true_and_false f.magic (sym (ap (λ (a : ℕ). is_magic b a) e) ∙ later) in
      find_from_later b left addr later
      ∙ find_from-First b left (addr + 1) found (record {
        from = omega (arith, not_here, f.from);
        below = omega (arith, f.below);
        magic = f.magic;
        first = λ i p q. f.first i (omega arith) q;
      })
]

find_from-nowhere : (b : Memory) (addr found : ℕ) → find_from b zero addr ≡ some found → ⊥
unfolding find_from
find_from-nowhere b addr found e = cc

First-find_from :
    (b : Memory) (left addr found : ℕ)
    → find_from b left addr ≡ some found
    → First b left addr found
First-find_from b zero addr found e = absurd (find_from-nowhere b addr found e)
First-find_from b (suc left) addr found e = elim (Bool-cases (is_magic b addr)) [
  | inl here ↦ at_once (some_injective (sym (find_from_here b left addr here) ∙ e)) here
  | inr later ↦
      behind later
        (First-find_from b left (addr + 1) found (sym (find_from_later b left addr later) ∙ e))
]
  where
    some_injective : {x y : ℕ} → some x ≡ some y → x ≡ y
    some_injective h = cc

    at_once : addr ≡ found → is_magic b addr ≡ true → First b (suc left) addr found
    at_once same here = record {
      from = omega (arith, same);
      below = omega (arith, same);
      magic = sym (ap (λ (a : ℕ). is_magic b a) same) ∙ here;
      first = λ i p q. absurd (omega (arith, same));
    }

    behind : is_magic b addr ≡ false → First b left (addr + 1) found → First b (suc left) addr found
    behind later f = record {
      from = omega (arith, f.from);
      below = omega (arith, f.below);
      magic = f.magic;
      first = λ i p q. grind (arith, later, f.first i);
    }

-- FindEmbeddedInfo returns an address exactly if the magic string begins there and at no lower
-- address, and the address is below the size of the buffer less eight.
pub find_embedded_info_iff :
    (b : Memory) (found : ℕ)
    → (find_embedded_info b ≡ some found) ↔ First b (firmware_buffer_size - 8) 0 found
unfolding find_embedded_info
find_embedded_info_iff b found = (
  First-find_from b (firmware_buffer_size - 8) 0 found,
  find_from-First b (firmware_buffer_size - 8) 0 found,
)

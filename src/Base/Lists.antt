-- ===== src/Base/Lists.antt =====
-- Sublists, over the machine's numbers.
use Prim.Native.Nat.{ℕ, zero, suc, ◌+◌, ◌-◌, ◌≤◌}
use mathlib.Core.Path.{◌≡◌, refl, sym, ap, ◌∙◌}
use mathlib.Core.List.{List, [], ◌∷◌, ◌++◌}
use native.Mathlib.Omega.{arith}
use hid_bootloader.Base.Bytes.{length}

abbrev pub take {ℓ} : {A : Type ℓ} → ℕ → List A → List A
take zero xs = []
take (suc n) [] = []
take (suc n) (x ∷ xs) = x ∷ take n xs

abbrev pub drop {ℓ} : {A : Type ℓ} → ℕ → List A → List A
drop zero xs = xs
drop (suc n) [] = []
drop (suc n) (x ∷ xs) = drop n xs

take-none {ℓ} : {A : Type ℓ} (n : ℕ) → take {A = A} n [] ≡ []
take-none zero = refl
take-none (suc n) = refl

drop-none {ℓ} : {A : Type ℓ} (n : ℕ) → drop {A = A} n [] ≡ []
drop-none zero = refl
drop-none (suc n) = refl

-- The first n of a list and the m behind them.
take-split {ℓ} :
    {A : Type ℓ} (n m : ℕ) (xs : List A) → take (n + m) xs ≡ take n xs ++ take m (drop n xs)
take-split zero m xs = let e : 0 + m ≡ m = omega arith in ap (λ i. take i xs) e
take-split (suc n) m [] = take-none (suc n + m) ∙ sym (take-none m)
take-split (suc n) m (x ∷ xs) =
    let e : suc n + m ≡ suc (n + m) = omega arith in
    ap (λ i. take i (x ∷ xs)) e ∙ ap (λ ys. x ∷ ys) (take-split n m xs)

drop-drop {ℓ} : {A : Type ℓ} (n k : ℕ) (xs : List A) → drop n (drop k xs) ≡ drop (k + n) xs
drop-drop n zero xs = let e : n ≡ 0 + n = omega arith in ap (λ i. drop i xs) e
drop-drop n (suc k) [] = drop-none n ∙ sym (drop-none (suc k + n))
drop-drop n (suc k) (x ∷ xs) =
    let e : suc (k + n) ≡ suc k + n = omega arith in drop-drop n k xs ∙ ap (λ i. drop i (x ∷ xs)) e

pub take-add {ℓ} :
    {A : Type ℓ} (n m k : ℕ) (xs : List A)
    → take (n + m) (drop k xs) ≡ take n (drop k xs) ++ take m (drop (k + n) xs)
take-add n m k xs =
    take-split n m (drop k xs) ∙ ap (λ ys. take n (drop k xs) ++ take m ys) (drop-drop n k xs)

pub take-all {ℓ} : {A : Type ℓ} (n : ℕ) (xs : List A) → n ≡ length xs → take n xs ≡ xs
take-all zero [] e = refl
take-all zero (x ∷ xs) e = absurd (omega (arith, e))
take-all (suc n) [] e = refl
take-all (suc n) (x ∷ xs) e = ap (λ ys. x ∷ ys) (take-all n xs (omega (arith, e)))

pub drop-all {ℓ} : {A : Type ℓ} (xs : List A) → drop (length xs) xs ≡ []
drop-all [] = refl
drop-all (x ∷ xs) = drop-all xs

pub append-none {ℓ} : {A : Type ℓ} (xs : List A) → xs ++ [] ≡ xs
append-none [] = refl
append-none (x ∷ xs) = ap (λ ys. x ∷ ys) (append-none xs)

length-append {ℓ} : {A : Type ℓ} (xs ys : List A) → length (xs ++ ys) ≡ length xs + length ys
length-append [] ys = omega arith
length-append (x ∷ xs) ys = let ih = length-append xs ys in omega (arith, ih)

pub length-take {ℓ} : {A : Type ℓ} (n : ℕ) (xs : List A) → length (take n xs) ≤ n
length-take zero xs = omega arith
length-take (suc n) [] = omega arith
length-take (suc n) (x ∷ xs) = omega (arith, length-take n xs)

length-take-all {ℓ} : {A : Type ℓ} (n : ℕ) (xs : List A) → n ≤ length xs → length (take n xs) ≡ n
length-take-all zero xs h = refl
length-take-all (suc n) [] h = absurd (omega (arith, h))
length-take-all (suc n) (x ∷ xs) h =
    let ih = length-take-all n xs (omega (arith, h)) in omega (arith, ih)

length-drop {ℓ} : {A : Type ℓ} (n : ℕ) (xs : List A) → length (drop n xs) ≡ length xs - n
length-drop zero xs = omega arith
length-drop (suc n) [] = omega arith
length-drop (suc n) (x ∷ xs) = let ih = length-drop n xs in omega (arith, ih)

-- A part of a list that is put in the place of as many elements.
pub length-replaced {ℓ} :
    {A : Type ℓ} (n : ℕ) (new old : List A)
    → n + length new ≤ length old
    → length (take n old ++ new ++ drop (n + length new) old) ≡ length old
length-replaced n new old h =
    let rest = drop (n + length new) old in
    let a = length-append (take n old ++ new) rest in
    let b = length-append (take n old) new in
    let c = length-take-all n old (omega (arith, h)) in
    let d = length-drop (n + length new) old in omega (arith, h, a, b, c, d)

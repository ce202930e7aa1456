-- ===== src/Api/Numbers/Printed.antt =====
-- The printed numbers read back.
use koala_v.Prelude.{
  ℕ, zero, suc, ◌+◌, ◌*◌, ◌/◌, ◌%◌, ◌<◌, ◌==◌, ℤ, pos, negsuc, ◌-ℤ◌, leb_ℤ, ◌-◌, sub_ℕ, IsInt64,
  wrap64, two63, two64, Text, [], ◌∷◌, true, false, none, some, Option, ◌≡◌, ◌⊎◌, inl, inr, refl,
  ap, ◌∙◌, arith, Bool-cases, if◌then◌else◌,
}
use native.Mathlib.Nat.{mul_assoc}
use koala_v.Matcher.Number.{is_digit, parse_digits, parse_uint, parse_int}
use koala_v.Api.Numbers.{write_digits, uint_to_string, int_to_string, put_sign, above_zero}

-- 10 ^ k.
abbrev power : ℕ → ℕ
power zero = 1
power (suc k) = power k * 10

-- The text starts with a digit.
abbrev pub Starts : Text → Type 0
Starts [] = ⊥
Starts (c ∷ cs) = is_digit c ≡ true

-- What the loop writes in front of a text, and what reading it back does.
record Written (room n : ℕ) (rest : Text) : Type 0 where
  left : ℕ
  text : Text
  scale : ℕ
  writes : write_digits room n rest ≡ some (left, text)
  reads : (acc : ℕ) → parse_digits acc text ≡ parse_digits (acc * scale + n) rest
  starts : ((n ≡ 0) × (text ≡ rest)) ⊎ Starts text

write-Written : (room n : ℕ) (rest : Text) → n < power room → Written room n rest
unfolding write_digits parse_digits
write-Written zero n rest h = record {
  left = 0;
  text = rest;
  scale = 1;
  writes = ground arith;
  reads = λ acc. ap (λ a. parse_digits a rest) (omega arith);
  starts = inl (omega arith, refl);
}
write-Written (suc room) n rest h = elim (Bool-cases (n == 0)) [
  | inl e ↦ record {
    left = suc room;
    text = rest;
    scale = 1;
    writes = ground (arith, e);
    reads = λ acc. ap (λ a. parse_digits a rest) (ground (arith, e));
    starts = inl (ground (arith, e), refl);
  }
  | inr e ↦
      let w = write-Written room (n / 10) ((b'0' + n % 10) ∷ rest) (omega (arith, h)) in
      record {
        left = w.left;
        text = w.text;
        scale = w.scale * 10;
        writes = ground (arith, e, w.writes);
        reads = λ acc. ground (arith, w.reads acc, mul_assoc acc w.scale 10);
        starts = ground (arith, w.starts);
      }
]

-- The loop with one more free byte leaves one more.
write_digits-more :
    (room n left : ℕ) (rest text : Text)
    → write_digits room n rest ≡ some (left, text)
    → write_digits (suc room) n rest ≡ some (suc left, text)
unfolding write_digits
write_digits-more zero n left rest text h = ground (arith, h)
write_digits-more (suc room) n left rest text h =
    ground (arith, h, write_digits-more room (n / 10) left ((b'0' + n % 10) ∷ rest) text)

-- A text that starts with a digit reads as its digits.
parse_uint-Starts : (t : Text) → Starts t → parse_uint t ≡ parse_digits 0 t
unfolding parse_uint
parse_uint-Starts [] h = elim h [ ]
parse_uint-Starts (c ∷ cs) h = refl

pub parse_int-Starts :
    (t : Text) (n : ℕ) → Starts t → parse_uint t ≡ some n → n < two63 → parse_int t ≡ some (pos n)
unfolding parse_int
parse_int-Starts [] n h e b = elim h [ ]
parse_int-Starts (c ∷ cs) n h e b = ground (arith, h, e)

parse_int-minus :
    (t : Text) (n : ℕ) → parse_uint t ≡ some n → n < two63 → parse_int (b'-' ∷ t) ≡ some (sub_ℕ 0 n)
unfolding parse_int
parse_int-minus t n e b = ground (arith, e)

-- A positive number below 10 ^ 20 is written in the buffer and read back.
digits-Read :
    (room n : ℕ)
    → n < power room
    → (n ≡ 0 → ⊥)
    → (left : ℕ) × (t : Text) × (write_digits room n [] ≡ some (left, t))
      × Starts t
      × (parse_uint t ≡ some n)
unfolding parse_digits
digits-Read room n h nz =
    let w = write-Written room n [] h in
    let st : Starts w.text = ground (arith, w.starts, nz) in
    (w.left, w.text, w.writes, st, parse_uint-Starts w.text st ∙ w.reads 0 ∙ ap some (omega arith))

-- uintToString fills its buffer of 20 bytes with every uint64 without running over its start, and
-- the text that it returns parses back to the number.
pub parse_uint-uint_to_string :
    (n : ℕ) → n < two64 → (t : Text) × (uint_to_string n ≡ some t) × (parse_uint t ≡ some n)
unfolding uint_to_string parse_uint parse_digits
parse_uint-uint_to_string n h = elim (Bool-cases (n == 0)) [
  | inl e ↦ (b'0' ∷ [], ground (arith, e), ground (arith, e))
  | inr e ↦
      let (left, t, w, st, r) = digits-Read 20 n (omega (arith, h)) (ground (arith, e)) in
      (t, ground (arith, e, w), r)
]

-- The negation of an int64 below zero: the smallest one is its own negation.
above_zero-negated :
    (m : ℕ)
    → m < two63
    → above_zero (wrap64 (pos 0 -ℤ negsuc m)) ≡ (if suc m == two63 then 0 else suc m)
unfolding wrap64 ◌-ℤ◌
above_zero-negated m h = ground arith

abbrev unless_smallest : ℤ → Option ℤ
unless_smallest z = if leb_ℤ z (negsuc (two63 - 1)) then none else some z

pos-unless_smallest : (n : ℕ) → some (pos n) ≡ unless_smallest (pos n)
pos-unless_smallest n = ground arith

negsuc-unless_smallest :
    (m : ℕ)
    → m < two63
    → (suc m == two63) ≡ false
    → some (sub_ℕ 0 (suc m)) ≡ unless_smallest (negsuc m)
negsuc-unless_smallest m h e = ground arith

print_pos :
    (n left : ℕ) (t : Text)
    → (n == 0) ≡ false
    → write_digits 20 n [] ≡ some (left, t)
    → int_to_string (pos n) ≡ some t
unfolding int_to_string
print_pos n left t e w = ground (arith, e, w)

print_negsuc :
    (m left : ℕ) (t : Text)
    → m < two63
    → (suc m == two63) ≡ false
    → write_digits 20 (suc m) [] ≡ some (suc left, t)
    → int_to_string (negsuc m) ≡ some (b'-' ∷ t)
unfolding int_to_string
print_negsuc m left t h e w =
    let n : above_zero (wrap64 (pos 0 -ℤ negsuc m)) ≡ suc m =
      ground (arith, above_zero-negated m h, e) in
    ap (λ k. put_sign (write_digits 20 k [])) n ∙ ap put_sign w

-- intToString fills its buffer of 20 bytes with every int64 without running over its start. The
-- text that it returns parses back to the number, except that of the smallest int64, which does
-- not parse at all.
pub parse_int-int_to_string :
    (z : ℤ)
    → IsInt64 z
    → (t : Text) × (int_to_string z ≡ some t)
      × (parse_int t ≡ (if leb_ℤ z (negsuc (two63 - 1)) then none else some z))
unfolding int_to_string parse_int parse_uint parse_digits write_digits
parse_int-int_to_string (pos n) h = elim (Bool-cases (n == 0)) [
  | inl e ↦ (b'0' ∷ [], ground (arith, e), ground (arith, e))
  | inr e ↦
      let (left, t, w, st, r) = digits-Read 20 n (omega (arith, h)) (ground (arith, e)) in
      (t, print_pos n left t e w, parse_int-Starts t n st r h ∙ pos-unless_smallest n)
]
parse_int-int_to_string (negsuc m) h = elim (Bool-cases (suc m == two63)) [
  | inl e ↦ (b'-' ∷ [], ground (arith, e, above_zero-negated m h), ground (arith, e))
  | inr e ↦
      let (left, t, w, st, r) = digits-Read 19 (suc m) (omega (arith, h)) (ground arith) in
      (
        b'-' ∷ t,
        print_negsuc m left t h e (write_digits-more 19 (suc m) left [] t w),
        parse_int-minus t (suc m) r (ground (arith, e, h)) ∙ negsuc-unless_smallest m h e,
      )
]

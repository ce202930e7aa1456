-- ===== src/Api/Metrics/Ids.antt =====
-- Request identifiers differ.
use koala_v.Prelude.{
  ℕ, suc, ◌+◌, ◌<◌, two64, Text, bytes, length, [], ◌∷◌, ◌++◌, some, ◌≡◌, ◌≢◌, arith,
}
use koala_v.Matcher.Number.{parse_uint}
use koala_v.Api.Numbers.Printed.{parse_uint-uint_to_string}
use koala_v.Api.Metrics.{append, generate_request_id}

-- Texts of one length in front of two texts that are then equal.
++-suffix : (a b c d : Text) → length a ≡ length b → a ++ c ≡ b ++ d → c ≡ d
++-suffix [] [] c d h e = e
++-suffix [] (y ∷ b) c d h e = absurd (omega (arith, h))
++-suffix (x ∷ a) [] c d h e = absurd (omega (arith, h))
++-suffix (x ∷ a) (y ∷ b) c d h e = ++-suffix a b c d (omega (arith, h)) (ground (arith, e))

length-append : (a b : Text) → length (a ++ b) ≡ length a + length b
length-append [] b = omega arith
length-append (x ∷ a) b = omega (arith, length-append a b)

id_of :
    (time : Text) (n : ℕ)
    → suc n < two64
    → (t : Text) × ((generate_request_id time n).0 ≡ some (time ++ bytes "-" ++ t))
      × (parse_uint t ≡ some (suc n))
unfolding generate_request_id append
id_of time n h = let (t, e, p) = parse_uint-uint_to_string (suc n) h in (t, ground (arith, e), p)

-- Two request identifiers from different values of the counter, which has not reached 2^64 - 1,
-- are texts, and differ, provided that the formatted times have one length, as those of the layout
-- 20060102150405 have.
generate_request_id_unique :
    (time time' : Text) (n m : ℕ)
    → length time ≡ length time'
    → suc n < two64
    → suc m < two64
    → n ≢ m
    → (generate_request_id time n).0 ≢ (generate_request_id time' m).0
generate_request_id_unique time time' n m len hn hm ne e =
    let (t, p, r) = id_of time n hn in
    let (t', p', r') = id_of time' m hm in
    let same : t ≡ t' =
      ++-suffix (time ++ bytes "-") (time' ++ bytes "-") t t'
        (omega (arith, length-append time (bytes "-"), length-append time' (bytes "-"), len))
        (ground (arith, p, p', e)) in
    ne (ground (arith, r, r', same))

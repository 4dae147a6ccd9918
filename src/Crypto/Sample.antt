-- ===== src/Crypto/Sample.antt =====
-- A platform that meets the laws of `Platform`, for the witnesses: a prefix code in place of JSON
-- text, and a cipher that only checks its key and the
-- associated data.
mod Codec
use depix_sdk.Common.{
  ℕ, zero, suc, ◌+◌, ◌≤◌, ◌≡◌, refl, true, false, Option, none, some, [], ◌∷◌, ◌++◌, ◌==◌,
  if◌then◌else◌, length, length-append, ap, ◌<◌, arith,
}
use depix_sdk.Common.Text.{Text}
use depix_sdk.Common.Js.{
  JsNumber, pos, negsuc, above, below, nan, infinity, neg_infinity, Json, Items, Fields, null,
  boolean, num, str, arr, obj, nil, cons, end, field,
}
use depix_sdk.Crypto.{Platform}
use mathlib.Core.List.{append_assoc}
use depix_sdk.Crypto.Sample.Codec.{
  print, print_items, print_fields, size, size_items, size_fields, read, print_number, print_text,
  read-print,
}

print_number-append : (n : JsNumber) (r t : Text) → print_number n r ++ t ≡ print_number n (r ++ t)
unfolding print_number
print_number-append (pos n) r t = refl
print_number-append _ r t = refl

print_text-append : (s r t : Text) → print_text s r ++ t ≡ print_text s (r ++ t)
unfolding print_text
print_text-append s r t = ap (λ x. length s ∷ x) (append_assoc s r t)

mutual
  unfolding print

  print-append : (j : Json) (r t : Text) → print j r ++ t ≡ print j (r ++ t)
  print-append null r t = refl
  print-append (boolean true) r t = refl
  print-append (boolean false) r t = refl
  print-append (num n) r t = ap (λ x. 3 ∷ x) (print_number-append n r t)
  print-append (str s) r t = ap (λ x. 4 ∷ x) (print_text-append s r t)
  print-append (arr xs) r t = ap (λ x. 5 ∷ x) (print_items-append xs r t)
  print-append (obj fs) r t = ap (λ x. 6 ∷ x) (print_fields-append fs r t)

  print_items-append : (xs : Items) (r t : Text) → print_items xs r ++ t ≡ print_items xs (r ++ t)
  print_items-append nil r t = refl
  print_items-append (cons x xs) r t =
      rw (print-append x (print_items xs r) t, print_items-append xs r t)

  print_fields-append :
      (fs : Fields) (r t : Text) → print_fields fs r ++ t ≡ print_fields fs (r ++ t)
  print_fields-append end r t = refl
  print_fields-append (field k v fs) r t = rw (
    print_text-append k (print v (print_fields fs r)) t,
    print-append v (print_fields fs r) t,
    print_fields-append fs r t,
  )

length-print_text : (s r : Text) → length r < length (print_text s r)
unfolding print_text
length-print_text s r = omega (arith, length-append s r)

mutual
  unfolding print size print_number

  size-le-length : (j : Json) (r : Text) → size j + length r ≤ length (print j r)
  size-le-length null r = omega arith
  size-le-length (boolean true) r = omega arith
  size-le-length (boolean false) r = omega arith
  size-le-length (num (pos n)) r = omega arith
  size-le-length (num (negsuc n)) r = omega arith
  size-le-length (num (above n)) r = omega arith
  size-le-length (num (below n)) r = omega arith
  size-le-length (num nan) r = omega arith
  size-le-length (num infinity) r = omega arith
  size-le-length (num neg_infinity) r = omega arith
  size-le-length (str s) r = omega (arith, length-print_text s r)
  size-le-length (arr xs) r = omega (arith, size_items-le-length xs r)
  size-le-length (obj fs) r = omega (arith, size_fields-le-length fs r)

  size_items-le-length :
      (xs : Items) (r : Text) → size_items xs + length r ≤ length (print_items xs r)
  size_items-le-length nil r = omega arith
  size_items-le-length (cons x xs) r =
      omega (arith, size-le-length x (print_items xs r), size_items-le-length xs r)

  size_fields-le-length :
      (fs : Fields) (r : Text) → size_fields fs + length r ≤ length (print_fields fs r)
  size_fields-le-length end r = omega arith
  size_fields-le-length (field k v fs) r = omega (
    arith,
    length-print_text k (print v (print_fields fs r)),
    size-le-length v (print_fields fs r),
    size_fields-le-length fs r,
  )

abbrev first : Option (Json × Text) → Option Json
first none = none
first (some (j, r)) = some j

-- As many rounds as the text has units.
unfoldable pub parse : Text → Option Json
unfolding read
parse s = first (read (length s) s)

unfoldable pub stringify : Json → Text
unfolding print
stringify j = print j []

pub parse-stringify-append : (j : Json) (t : Text) → parse (stringify j ++ t) ≡ some j
unfolding parse stringify
parse-stringify-append j t =
    rw print-append
      (ap first (read-print j (length (print j t)) t (omega (arith, size-le-length j t))))

pub parse-stringify : (j : Json) → parse (stringify j) ≡ some j
unfolding parse stringify
parse-stringify j =
    ap first (read-print j (length (print j [])) [] (omega (arith, size-le-length j [])))

-- The text behind a prefix.
unfoldable pub strip : Text → Text → Option Text
strip [] s = some s
strip (c ∷ cs) [] = none
strip (c ∷ cs) (d ∷ s) = let rest = strip cs s in if c == d then rest else none

unfoldable pub encrypt : ℕ → Text → Text → Text → Text
encrypt key iv aad s = key ∷ length aad ∷ aad ++ s

unfoldable pub decrypt : ℕ → Text → Text → Text → Option Text
unfolding strip
decrypt key iv aad (k ∷ n ∷ s) =
    if key == k then (if n == length aad then strip aad s else none) else none
decrypt key iv aad _ = none

strip-append : (aad s : Text) → strip aad (aad ++ s) ≡ some s
unfolding strip
strip-append [] s = refl
strip-append (c ∷ cs) s = ground (arith, strip-append cs s)

strip-same :
    (aad aad' s s' : Text) → length aad ≡ length aad' → strip aad' (aad ++ s) ≡ some s' → aad' ≡ aad
unfolding strip
strip-same [] [] s s' n h = refl
strip-same [] (d ∷ ds) s s' n h = absurd (omega (arith, n))
strip-same (c ∷ cs) [] s s' n h = absurd (omega (arith, n))
strip-same (c ∷ cs) (d ∷ ds) s s' n h = ground (arith, strip-same cs ds s s')

pub decrypt-encrypt : (k : ℕ) (iv aad s : Text) → decrypt k iv aad (encrypt k iv aad s) ≡ some s
unfolding decrypt encrypt
decrypt-encrypt k iv aad s = ground (arith, strip-append aad s)

pub decrypt-aad :
    (k : ℕ) (iv aad aad' s s' : Text)
    → decrypt k iv aad' (encrypt k iv aad s) ≡ some s'
    → aad' ≡ aad
unfolding decrypt encrypt
decrypt-aad k iv aad aad' s s' h = ground (arith, strip-same aad aad' s s')

abbrev pub sample : Platform
sample = record {
  Key = ℕ;
  Bytes = Text;
  encode = λ b. b;
  decode = some;
  stringify = stringify;
  parse = parse;
  encrypt = encrypt;
  decrypt = decrypt;
  decode-encode = λ b. refl;
  parse-stringify = λ j h. parse-stringify j;
  parse-line = λ j h. parse-stringify-append j (b'\n' ∷ []);
  decrypt-encrypt = decrypt-encrypt;
  decrypt-aad = decrypt-aad;
}

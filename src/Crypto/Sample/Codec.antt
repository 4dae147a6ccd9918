-- ===== src/Crypto/Sample/Codec.antt =====
-- A prefix code for JSON values, in place of JSON text: printing, reading, and that what is printed is
-- read back.
use depix_sdk.Common.{
  ℕ, zero, suc, ◌+◌, ◌≤◌, ◌≡◌, refl, true, false, Option, none, some, [], ◌∷◌, ◌++◌, length, arith,
}
use depix_sdk.Common.Text.{Text}
use depix_sdk.Common.Js.{
  JsNumber, pos, negsuc, above, below, nan, infinity, neg_infinity, Json, Items, Fields, null,
  boolean, num, str, arr, obj, nil, cons, end, field,
}

unfoldable pub print_number : JsNumber → Text → Text
print_number (pos n) r = 0 ∷ n ∷ r
print_number (negsuc n) r = 1 ∷ n ∷ r
print_number (above n) r = 2 ∷ n ∷ r
print_number (below n) r = 3 ∷ n ∷ r
print_number nan r = 4 ∷ 0 ∷ r
print_number infinity r = 5 ∷ 0 ∷ r
print_number neg_infinity r = 6 ∷ 0 ∷ r

number_of : ℕ → ℕ → JsNumber
number_of zero n = pos n
number_of (suc zero) n = negsuc n
number_of (suc (suc zero)) n = above n
number_of (suc (suc (suc zero))) n = below n
number_of (suc (suc (suc (suc zero)))) n = nan
number_of (suc (suc (suc (suc (suc zero))))) n = infinity
number_of _ n = neg_infinity

unfoldable pub print_text : Text → Text → Text
print_text s r = length s ∷ s ++ r

-- The first `n` units, and the rest.
split_at : ℕ → Text → Option (Text × Text)
split_at zero s = some ([], s)
split_at (suc n) [] = none
split_at (suc n) (c ∷ s) = elim (split_at n s) [ some (a, b) ↦ some (c ∷ a, b) | none ↦ none ]

split_at-append : (s r : Text) → split_at (length s) (s ++ r) ≡ some (s, r)
unfolding split_at
split_at-append [] r = refl
split_at-append (c ∷ s) r = ground (arith, split_at-append s r)

-- Each value with the text that follows it.
unfoldable mutual
  pub print : Json → Text → Text
  print null r = 0 ∷ r
  print (boolean true) r = 1 ∷ r
  print (boolean false) r = 2 ∷ r
  print (num n) r = 3 ∷ print_number n r
  print (str s) r = 4 ∷ print_text s r
  print (arr xs) r = 5 ∷ print_items xs r
  print (obj fs) r = 6 ∷ print_fields fs r

  pub print_items : Items → Text → Text
  print_items nil r = 0 ∷ r
  print_items (cons x xs) r = 1 ∷ print x (print_items xs r)

  pub print_fields : Fields → Text → Text
  print_fields end r = 0 ∷ r
  print_fields (field k v fs) r = 1 ∷ print_text k (print v (print_fields fs r))

unfoldable mutual
  pub size : Json → ℕ
  size (arr xs) = suc (size_items xs)
  size (obj fs) = suc (size_fields fs)
  size null = 1
  size (boolean b) = 1
  size (num n) = 1
  size (str s) = 1

  pub size_items : Items → ℕ
  size_items nil = 1
  size_items (cons x xs) = suc (size x + size_items xs)

  pub size_fields : Fields → ℕ
  size_fields end = 1
  size_fields (field k v fs) = suc (size v + size_fields fs)

pub read_number : Text → Option (Json × Text)
unfolding number_of
read_number (k ∷ n ∷ r) = some (num (number_of k n), r)
read_number _ = none

pub read_string : Text → Option (Text × Text)
unfolding split_at
read_string (n ∷ r) = split_at n r
read_string [] = none

abbrev then_read : {A B : Type 0} → Option (A × Text) → (A → Text → Option B) → Option B
then_read none f = none
then_read (some (a, r)) f = f a r

unfoldable mutual
  pub read : ℕ → Text → Option (Json × Text)
  read zero s = none
  read (suc f) [] = none
  read (suc f) (zero ∷ r) = some (null, r)
  read (suc f) (suc zero ∷ r) = some (boolean true, r)
  read (suc f) (suc (suc zero) ∷ r) = some (boolean false, r)
  read (suc f) (suc (suc (suc zero)) ∷ r) = read_number r
  read (suc f) (suc (suc (suc (suc zero))) ∷ r) =
      then_read (read_string r) (λ s r'. some (str s, r'))
  read (suc f) (suc (suc (suc (suc (suc zero)))) ∷ r) =
      then_read (read_items f r) (λ xs r'. some (arr xs, r'))
  read (suc f) (suc (suc (suc (suc (suc (suc k))))) ∷ r) =
      then_read (read_fields f r) (λ fs r'. some (obj fs, r'))

  pub read_items : ℕ → Text → Option (Items × Text)
  read_items zero s = none
  read_items (suc f) [] = none
  read_items (suc f) (zero ∷ r) = some (nil, r)
  read_items (suc f) (suc k ∷ r) =
      then_read (read f r) (λ x r'. then_read (read_items f r') (λ xs r''. some (cons x xs, r'')))

  pub read_fields : ℕ → Text → Option (Fields × Text)
  read_fields zero s = none
  read_fields (suc f) [] = none
  read_fields (suc f) (zero ∷ r) = some (end, r)
  read_fields (suc f) (suc c ∷ r) = then_read (read_string r) (λ k r₁.
      then_read (read f r₁)
        (λ v r₂. then_read (read_fields f r₂) (λ fs r₃. some (field k v fs, r₃))))

mutual
  unfolding print size read read_number read_string print_number print_text number_of

  pub read-print : (j : Json) (f : ℕ) (r : Text) → size j ≤ f → read f (print j r) ≡ some (j, r)
  read-print null (suc f) r h = refl
  read-print (boolean true) (suc f) r h = refl
  read-print (boolean false) (suc f) r h = refl
  read-print (num n) (suc f) r h = ground arith
  read-print (str s) (suc f) r h = ground (arith, split_at-append s r)
  read-print (arr xs) (suc f) r h = ground (arith, read_items-print_items xs f r (omega arith))
  read-print (obj fs) (suc f) r h = ground (arith, read_fields-print_fields fs f r (omega arith))
  read-print null zero r h = absurd (omega arith)
  read-print (boolean b) zero r h = absurd (omega arith)
  read-print (num n) zero r h = absurd (omega arith)
  read-print (str s) zero r h = absurd (omega arith)
  read-print (arr xs) zero r h = absurd (omega arith)
  read-print (obj fs) zero r h = absurd (omega arith)

  read_items-print_items :
      (xs : Items) (f : ℕ) (r : Text)
      → size_items xs ≤ f
      → read_items f (print_items xs r) ≡ some (xs, r)
  read_items-print_items nil zero r h = absurd (omega arith)
  read_items-print_items (cons x xs) zero r h = absurd (omega arith)
  read_items-print_items nil (suc f) r h = refl
  read_items-print_items (cons x xs) (suc f) r h = ground (
    arith,
    read-print x f (print_items xs r) (omega arith),
    read_items-print_items xs f r (omega arith),
  )

  read_fields-print_fields :
      (fs : Fields) (f : ℕ) (r : Text)
      → size_fields fs ≤ f
      → read_fields f (print_fields fs r) ≡ some (fs, r)
  read_fields-print_fields end zero r h = absurd (omega arith)
  read_fields-print_fields (field k v fs) zero r h = absurd (omega arith)
  read_fields-print_fields end (suc f) r h = refl
  read_fields-print_fields (field k v fs) (suc f) r h = ground (
    arith,
    split_at-append k (print v (print_fields fs r)),
    read-print v f (print_fields fs r) (omega arith),
    read_fields-print_fields fs f r (omega arith),
  )

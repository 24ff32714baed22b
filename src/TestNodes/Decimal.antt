-- ===== src/TestNodes/Decimal.antt =====
-- std::to_string, which test_nodes.cpp uses for topics: the digits of a number, read back.
use deadline_driven_enhancem.Base.{
  ℕ, zero, suc, ◌+◌, ◌-◌, ◌*◌, ◌/◌, ◌%◌, ◌<◌, ◌≤◌, ◌≡◌, refl, ap, sym, ◌∙◌, inl, inr, [], ◌∷◌, ◌++◌,
  arith, ltb, Bool-cases, All, All-append,
}
use deadline_driven_enhancem.TestNodes.{Text, digits, to_string}

abbrev pub value : ℕ → Text → ℕ
value acc [] = acc
value acc (c ∷ cs) = value (acc * 10 + (c - b'0')) cs

value-append :
    (acc : ℕ) (cs : Text) (c : ℕ) → value acc (cs ++ (c ∷ [])) ≡ value acc cs * 10 + (c - b'0')
value-append acc [] c = refl
value-append acc (d ∷ cs) c = value-append (acc * 10 + (d - b'0')) cs c

value-digits : (fuel n : ℕ) → n < fuel → value 0 (digits fuel n) ≡ n
unfolding digits
value-digits zero n h = absurd (omega arith)
value-digits (suc fuel) n h = elim (Bool-cases (ltb n 10)) [
  | inl small ↦ rw (digits, small) (ground (arith, small))
  | inr large ↦
      rw (digits, large)
        (value-append 0 (digits fuel (n / 10)) (b'0' + n % 10)
          ∙ ap (λ m. m * 10 + (b'0' + n % 10 - b'0'))
              (value-digits fuel (n / 10) (ground (arith, large, h)))
          ∙ omega arith)
]

pub value-to_string : (n : ℕ) → value 0 (to_string n) ≡ n
unfolding to_string
value-to_string n = value-digits (suc n) n (omega arith)

-- Every byte is that of a digit.
abbrev pub IsDigit : ℕ → Type 0
IsDigit c = (b'0' ≤ c) × (c ≤ b'9')

digits-IsDigit : (fuel n : ℕ) → All IsDigit (digits fuel n)
unfolding digits
digits-IsDigit zero n = tt
digits-IsDigit (suc fuel) n = elim (Bool-cases (ltb n 10)) [
  | inl small ↦ rw (digits, small) ((omega arith, ground (arith, small)), tt)
  | inr large ↦
      rw (digits, large)
        (All-append IsDigit (digits fuel (n / 10)) _ (digits-IsDigit fuel (n / 10))
          ((omega arith, omega arith), tt))
]

pub to_string-IsDigit : (n : ℕ) → All IsDigit (to_string n)
unfolding to_string
to_string-IsDigit n = digits-IsDigit (suc n) n

pub to_string-injective : (m n : ℕ) → to_string m ≡ to_string n → m ≡ n
to_string-injective m n h = sym (value-to_string m) ∙ ap (value 0) h ∙ value-to_string n

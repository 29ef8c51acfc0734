-- ===== src/StreamClients/Addresses.antt =====
-- An address that is printed with its port is read back.
use tpool.StreamClients.{int_from, is_digit, parse_address, parse_port}
use tpool.Base.{
  Bool-cases, [], all, ap, arith, drop, false, inl, inr, length, ltb, ltb→lt, not, refl, some, suc,
  take, take-append, true, zero, ℕ, ◌%◌, ◌++◌, ◌+◌, ◌/◌, ◌<◌, ◌==◌, ◌∙◌, ◌∷◌, ◌≡◌,
}
use tpool.Text.{Text, decimal, digits_onto, find, is_empty, starts_with, text}

int_from-digits_onto :
    (fuel n : ℕ) (out : Text) → n < fuel → int_from 0 (digits_onto fuel n out) ≡ int_from n out
unfolding int_from digits_onto
int_from-digits_onto zero n out lt = absurd (omega arith)
int_from-digits_onto (suc fuel) n out lt = elim (Bool-cases (ltb n 10)) [
  | inl small ↦ rw small (ap (λ k. int_from k out) (omega (arith, ltb→lt n 10 small)))
  | inr large ↦ rw large (
      int_from-digits_onto fuel (n / 10) ((b'0' + n % 10) ∷ out) (ground arith)
      ∙ ap (λ k. int_from k out) (omega arith))
]

digits_onto-digits :
    (fuel n : ℕ) (out : Text)
    → all is_digit out ≡ true
    → all is_digit (digits_onto fuel n out) ≡ true
unfolding is_digit digits_onto
digits_onto-digits zero n out h = h
digits_onto-digits (suc fuel) n out h =
    let more : all is_digit ((b'0' + n % 10) ∷ out) ≡ true = ground arith in
    elim (Bool-cases (ltb n 10)) [
      | inl small ↦ rw small more
      | inr large ↦ rw large (digits_onto-digits fuel (n / 10) ((b'0' + n % 10) ∷ out) more)
    ]

digits_onto-is_empty :
    (fuel n : ℕ) (out : Text) → is_empty out ≡ false → is_empty (digits_onto fuel n out) ≡ false
unfolding digits_onto is_empty
digits_onto-is_empty zero n out h = h
digits_onto-is_empty (suc fuel) n out h = elim (Bool-cases (ltb n 10)) [
  | inl small ↦ rw small refl
  | inr large ↦ rw large (digits_onto-is_empty fuel (n / 10) ((b'0' + n % 10) ∷ out) refl)
]

decimal-is_empty : (n : ℕ) → is_empty (decimal n) ≡ false
unfolding decimal digits_onto is_empty
decimal-is_empty n = elim (Bool-cases (ltb n 10)) [
  | inl small ↦ rw small refl
  | inr large ↦ rw large (digits_onto-is_empty n (n / 10) ((b'0' + n % 10) ∷ []) refl)
]

parse_port-digits :
    (host port : Text)
    → is_empty port ≡ false
    → all is_digit port ≡ true
    → parse_port host port ≡ some (host, int_from 0 port)
unfolding parse_port
parse_port-digits host port full digits = rw (full, digits) refl

parse_port-decimal : (host : Text) (n : ℕ) → parse_port host (decimal n) ≡ some (host, n)
unfolding decimal int_from
parse_port-decimal host n =
    parse_port-digits host (decimal n) (decimal-is_empty n) (digits_onto-digits (suc n) n [] refl)
    ∙ ap (λ k. some (host, k)) (int_from-digits_onto (suc n) n [] (omega arith))

find-append :
    (host rest : Text)
    → all (λ c. not (c == b':')) host ≡ true
    → find (host ++ b':' ∷ rest) (text ":") ≡ some (length host)
unfolding find text starts_with
find-append [] rest h = refl
find-append (c ∷ host) rest h = ground (arith, find-append host rest)

drop-behind :
    (host : Text) (c : ℕ) (rest : Text) → drop (suc (length host)) (host ++ c ∷ rest) ≡ rest
drop-behind [] c rest = refl
drop-behind (d ∷ host) c rest = drop-behind host c rest

-- An address of a host without a colon, a colon and the decimal digits of a port is read as that
-- host and that port.
pub parse_address-decimal :
    (host : Text) (port : ℕ)
    → all (λ c. not (c == b':')) host ≡ true
    → parse_address (host ++ b':' ∷ decimal port) ≡ some (host, port)
unfolding parse_address
parse_address-decimal host port h =
    let found = find-append host (decimal port) h in
    let addr = host ++ b':' ∷ decimal port in
    let split : parse_address addr
        ≡ parse_port (take (length host) addr) (drop (suc (length host)) addr) =
      rw (found, parse_address) refl in
    split
    ∙ (ap (λ s. parse_port s (drop (suc (length host)) addr)) (take-append host _)
        ∙ (ap (parse_port host) (drop-behind host b':' (decimal port))
            ∙ parse_port-decimal host port))

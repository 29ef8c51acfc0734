-- ===== src/MessageReader/RoundTrip.antt =====
-- Which of the packages that the client makes the server reads.
use tpool.Packing.Laws.{length-pack, pack-word}
use tpool.TcpClient.{Message, get_package}
use tpool.Packing.{pack, pack_two}
use tpool.MessageReader.{
  c_string, filled, message_bytes, parse_message, parse_package, process_message_package, read_long,
  read_message, signed,
}
use tpool.Base.{
  Bool-cases, List, Option-cases, [], all, ap, append-nil, append_assoc, arith, drop, drop-append,
  false, if◌then◌else◌, inl, inr, length, length-append, ltb, ltb→lt, lt→ltb, min, negsuc, none,
  not, pos, refl, some, subst, sym, take, take-append, true, ℕ, ◌%◌, ◌++◌, ◌+◌, ◌-◌, ◌<◌, ◌==◌, ◌^◌,
  ◌∙◌, ◌∷◌, ◌≡◌, ◌≤◌,
}
use tpool.Text.{Text}

c_string-append :
    (name rest : Text)
    → all (λ c. not (c == 0)) name ≡ true
    → c_string (name ++ 0 ∷ rest) ≡ some name
unfolding c_string
c_string-append [] rest h = refl
c_string-append (c ∷ name) rest h = ground (arith, c_string-append name rest)

take_of {ℓ} : {A : Type ℓ} (n : ℕ) (xs ys : List A) → length xs ≡ n → take n (xs ++ ys) ≡ xs
take_of n xs ys e = subst (λ k. take k (xs ++ ys) ≡ xs) e (take-append xs ys)

drop_of {ℓ} : {A : Type ℓ} (n : ℕ) (xs ys : List A) → length xs ≡ n → drop n (xs ++ ys) ≡ ys
drop_of n xs ys e = subst (λ k. drop k (xs ++ ys) ≡ ys) e (drop-append xs ys)

drop_whole {ℓ} : {A : Type ℓ} (n : ℕ) (xs : List A) → length xs ≡ n → drop n xs ≡ []
drop_whole n xs e = ap (drop n) (sym (append-nil xs)) ∙ drop_of n xs [] e

filled_whole : (got buffer : Text) → length buffer ≡ length got → filled got buffer ≡ got
filled_whole got buffer e = ap (λ l. got ++ l) (drop_whole (length got) buffer e) ∙ append-nil got

-- The parts of a package: the two lengths, and then the name with its NUL and the bytes.
record Parts (m : Message) (packed : Text) : Type 0 where
  first : Text
  second : Text
  packs_first : pack (4 + length (m.full_name ++ 0 ∷ []) + length m.serialized) ≡ some first
  packs_second : pack (length (m.full_name ++ 0 ∷ [])) ≡ some second
  parted : packed ≡ first ++ (second ++ ((m.full_name ++ 0 ∷ []) ++ m.serialized))

get_package-Parts : (m : Message) (packed : Text) → get_package m ≡ some packed → Parts m packed
unfolding get_package pack_two
get_package-Parts m packed h =
    let name = m.full_name ++ 0 ∷ [] in
    elim (Option-cases (pack (4 + length name + length m.serialized))) [
      | inl e ↦ ground arith
      | inr (first, e) ↦ elim (Option-cases (pack (length name))) [
        | inl e2 ↦ ground arith
        | inr (second, e2) ↦ record {
          first = first;
          second = second;
          packs_first = e;
          packs_second = e2;
          parted = ground arith;
        }
      ]
    ]

take_all {ℓ} : {A : Type ℓ} (xs : List A) → take (length xs) xs ≡ xs
take_all [] = refl
take_all (x ∷ xs) = ap (◌∷◌ x) (take_all xs)

ge_of : (a b : ℕ) → ltb a b ≡ false → b ≤ a
ge_of a b h = ground arith

signed-small : (n : ℕ) → n < 2 ^ 31 → signed 32 n ≡ pos n
unfolding signed
signed-small n lt =
    let same : n % 2 ^ 32 ≡ n = omega (arith, lt) in rw (same, lt→ltb n (2 ^ 31) lt) refl

signed-large : (n : ℕ) → 2 ^ 31 ≤ n → n < 2 ^ 32 → signed 32 n ≡ negsuc (2 ^ 32 - 1 - n)
unfolding signed
signed-large n le lt =
    let same : n % 2 ^ 32 ≡ n = omega (arith, lt) in
    let big : ltb n (2 ^ 31) ≡ false = ground (arith, le) in rw (same, big) refl

module _ (network_to_host_long : Text → ℕ)
    (reads_words : (n : ℕ) (s : Text) → pack n ≡ some s → network_to_host_long s ≡ n) where
  read_long-small :
      (s : Text) (n : ℕ)
      → network_to_host_long s ≡ n
      → n < 2 ^ 31
      → read_long 4 network_to_host_long s ≡ pos n
  unfolding read_long
  read_long-small s n e lt = ap (signed 32) e ∙ signed-small n lt

  read_long-large :
      (s : Text) (n : ℕ)
      → network_to_host_long s ≡ n
      → 2 ^ 31 ≤ n
      → n < 2 ^ 32
      → read_long 4 network_to_host_long s ≡ negsuc (2 ^ 32 - 1 - n)
  unfolding read_long
  read_long-large s n e le lt = ap (signed 32) e ∙ signed-large n le lt

  parse_message-name :
      (n k : ℕ) (name body : Text)
      → all (λ c. not (c == 0)) name ≡ true
      → length (name ++ 0 ∷ []) ≡ k
      → n ≡ 4 + k + length body
      → n < 2 ^ 31
      → parse_message 4 network_to_host_long n k ((name ++ 0 ∷ []) ++ body) ≡ some (name, body)
  unfolding parse_message message_bytes
  parse_message-name n k name body named long size small =
      let ends : c_string ((name ++ 0 ∷ []) ++ body) ≡ some name =
        ap c_string (append_assoc name (0 ∷ []) body) ∙ c_string-append name body named in
      let fits : ltb n (4 + k) ≡ false = ground arith in
      let left : n - 4 - k ≡ length body = omega (arith, size) in
      let few = signed-small (length body) (omega (arith, size, small)) in
      rw (fits, ends, left, few, drop_of k (name ++ 0 ∷ []) body long, take_all body) refl

  parse_package-name :
      (n k : ℕ) (name body bytes : Text)
      → all (λ c. not (c == 0)) name ≡ true
      → length bytes ≡ 4
      → network_to_host_long bytes ≡ k
      → length (name ++ 0 ∷ []) ≡ k
      → n ≡ 4 + k + length body
      → n < 2 ^ 31
      → parse_package 4 network_to_host_long n (bytes ++ ((name ++ 0 ∷ []) ++ body))
        ≡ some (name, body)
  unfolding parse_package
  parse_package-name n k name body bytes named four reads long size small =
      let tail = (name ++ 0 ∷ []) ++ body in
      let k_small : k < 2 ^ 31 = omega (arith, size, small) in
      rw
        (
          take_of 4 bytes tail four,
          read_long-small bytes k reads k_small,
          drop_of 4 bytes tail four,
          parse_package,
        )
        (parse_message-name n k name body named long size small)

  process_message_package-whole :
      (n given : ℕ) (body rest : Text) (message : Text × Text)
      → length body ≡ n
      → n ≤ given
      → parse_package 4 network_to_host_long n body ≡ some message
      → process_message_package 4 network_to_host_long (pos n) given (body ++ rest)
        ≡ some (message, rest)
  unfolding process_message_package
  process_message_package-whole n given body rest message long enough parsed =
      let whole : min given n ≡ n = omega (arith, enough) in
      let full : ltb (length body) n ≡ false = ground arith in
      rw (whole, take_of n body rest long, full, parsed, drop_of n body rest long) refl

  process_message_package-negative :
      (n given : ℕ) (stream : Text)
      → process_message_package 4 network_to_host_long (negsuc n) given stream ≡ none
  unfolding process_message_package
  process_message_package-negative n given stream = refl

  -- What the server does with the bytes behind a length that it has read.
  process_message_package-Parts :
      (m : Message) (packed rest : Text) (given : ℕ) (p : Parts m packed)
      → all (λ c. not (c == 0)) m.full_name ≡ true
      → length packed ≤ given + 4
      → process_message_package 4 network_to_host_long
          (read_long 4 network_to_host_long p.first)
          given
          ((p.second ++ ((m.full_name ++ 0 ∷ []) ++ m.serialized)) ++ rest)
        ≡ (if ltb (length packed) (2 ^ 31 + 4)
            then some ((m.full_name, m.serialized), rest)
            else none)
  process_message_package-Parts m packed rest given p named enough =
      let name = m.full_name ++ 0 ∷ [] in
      let body = p.second ++ (name ++ m.serialized) in
      let size = 4 + length name + length m.serialized in
      let long_body : length body ≡ size = omega (
        arith,
        length-append p.second (name ++ m.serialized),
        length-pack (length name) p.second p.packs_second,
        length-append name m.serialized,
      ) in
      let long_packed : length packed ≡ 4 + length body = omega (
        arith,
        ap length p.parted,
        length-append p.first body,
        length-pack size p.first p.packs_first,
      ) in
      let reads = reads_words size p.first p.packs_first in
      elim (Bool-cases (ltb (length packed) (2 ^ 31 + 4))) [
        | inl small ↦
            let lt = ltb→lt (length packed) (2 ^ 31 + 4) small in
            let size_small : size < 2 ^ 31 = omega (arith, lt, long_packed, long_body) in
            rw (small, read_long-small p.first size reads size_small)
              (process_message_package-whole size given body rest (m.full_name, m.serialized)
                long_body (omega (arith, enough, long_packed, long_body))
                (parse_package-name size (length name) m.full_name m.serialized p.second named
                  (length-pack (length name) p.second p.packs_second)
                  (reads_words (length name) p.second p.packs_second) refl refl size_small))
        | inr large ↦
            let le : 2 ^ 31 + 4 ≤ length packed = ge_of (length packed) (2 ^ 31 + 4) large in
            let size_large : 2 ^ 31 ≤ size = omega (arith, le, long_packed, long_body) in
            let size_word : size < 2 ^ 32 = pack-word size p.first p.packs_first in
            rw (large, read_long-large p.first size reads size_large size_word)
              (process_message_package-negative (2 ^ 32 - 1 - size) given (body ++ rest))
      ]

  -- For a long of four bytes whose network order is that of struct.pack('!I'), and where each
  -- read_some fills its buffer. Of a package of the client of fewer than 2^31 bytes behind its
  -- length, whatever follows it and whatever the length buffer held, the server reads the full name
  -- of the message and its bytes, and what follows is left; a larger package, whose length is
  -- negative in a signed long, is not read. The full name has no NUL in it.
  pub read_message-get_package :
      (m : Message) (packed rest length_buffer : Text) (given_length given : ℕ)
      → all (λ c. not (c == 0)) m.full_name ≡ true
      → get_package m ≡ some packed
      → length length_buffer ≡ 4
      → 4 ≤ given_length
      → length packed ≤ given + 4
      → (read_message 4 network_to_host_long length_buffer given_length given (packed ++ rest)).1
        ≡ (if ltb (length packed) (2 ^ 31 + 4)
            then some ((m.full_name, m.serialized), rest)
            else none)
  unfolding read_message
  read_message-get_package m packed rest length_buffer given_length given named h four few enough =
      let p = get_package-Parts m packed h in
      let name = m.full_name ++ 0 ∷ [] in
      let body = p.second ++ (name ++ m.serialized) in
      let long1 = length-pack (4 + length name + length m.serialized) p.first p.packs_first in
      let stream : packed ++ rest ≡ p.first ++ (body ++ rest) =
        ap (λ l. l ++ rest) p.parted ∙ append_assoc p.first body rest in
      let few4 : min given_length 4 ≡ 4 = omega (arith, few) in
      let got : take (min given_length 4) (packed ++ rest) ≡ p.first =
        ap (λ k. take k (packed ++ rest)) few4
        ∙ ap (take 4) stream
        ∙ take_of 4 p.first (body ++ rest) long1 in
      let buffer : filled p.first length_buffer ≡ p.first =
        filled_whole p.first length_buffer (four ∙ sym long1) in
      rw (got, buffer, stream, drop-append p.first (body ++ rest))
        (process_message_package-Parts m packed rest given p named enough)

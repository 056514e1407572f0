-- ===== src/Acquisition/Bencode/RoundTrip.antt =====
-- The decoder of dsh-tool-acquisition/src/bencode.ts reads what is bencoded.
use deepseek_harness_web3_ag.Prelude.{
  ℕ, zero, suc, ◌-◌, ◌≤◌, ◌<◌, ◌≡◌, refl, sym, ap, ◌∙◌, subst, false, none, some, [], ◌∷◌, ◌++◌,
  append_assoc, Text, length, length-append, arith,
}
use deepseek_harness_web3_ag.Prelude.Maps.{Dict, insert}
use deepseek_harness_web3_ag.Acquisition.Bencode.{
  BencodeValue, integer, bytes, items, dictionary, Items, nil, cons, Fields, end, field, set_field,
  get_field, Parsed, at_e, read_items, Entries, slice, read_fields, decode_at, max_depth, decode,
}
use deepseek_harness_web3_ag.Acquisition.Bencode.Encode.{
  encode, encode_bytes, encode_items, encode_fields, Fresh, Fits, FitsItems, FitsFields,
}
use deepseek_harness_web3_ag.Acquisition.Bencode.Rounded.{
  rounded, rounded_items, rounded_fields, IsExact, rounded-IsExact, Fresh-rounded,
}
use deepseek_harness_web3_ag.Acquisition.Bencode.Leaves.{
  take-length, decode_at-bytes, decode_at-integer, at_e-encode, length-encode_bytes_pos,
  length-encode_pos,
}

-- One round of the loop over the items.
read_items-cons :
    (value : Text → Parsed) (fuel : ℕ) (v : BencodeValue) (xs : Items) (s t rest : Text)
    → at_e s ≡ false
    → value s ≡ some (v, t)
    → read_items value fuel t ≡ some (xs, rest)
    → read_items value (suc fuel) s ≡ some (cons v xs, rest)
unfolding read_items
read_items-cons value fuel v xs s t rest goes one more = rw (goes, one, more) refl

-- One round of the loop over the entries.
read_fields-field :
    (value : Text → Parsed) (fuel : ℕ) (read : Entries) (k : Text) (v : BencodeValue) (s t u : Text)
    → at_e s ≡ false
    → value s ≡ some (bytes k, t)
    → value t ≡ some (v, u)
    → read_fields value (suc fuel) read s
      ≡ read_fields value fuel (set_field k v read.0, insert k (slice t u) read.1) u
unfolding read_fields
read_fields-field value fuel read k v s t u goes one two = rw (goes, one, two) refl

abbrev pub merge : Fields → Fields → Fields
merge read end = read
merge read (field k v m) = merge (set_field k v read) m

-- The bytes of the values, after those that were kept before.
abbrev pub spans_of : Dict Text → Fields → Dict Text
spans_of spans end = spans
spans_of spans (field k v m) = spans_of (insert k (encode v) spans) m

slice-append : (b rest : Text) → slice (b ++ rest) rest ≡ b
slice-append b rest =
    let e : length (b ++ rest) - length rest ≡ length b = omega (arith, length-append b rest) in
    rw (e, take-length b rest) refl

Fits-pos : (v : BencodeValue) (left : ℕ) → Fits v left → 0 < left
unfolding Fits
Fits-pos (integer n) left f = f
Fits-pos (bytes b) left f = f
Fits-pos (items xs) left f = f.0
Fits-pos (dictionary m) left f = f.0

decode_at-items :
    (left : ℕ) (s rest : Text) (xs : Items)
    → read_items (decode_at left) (suc (length s)) s ≡ some (xs, rest)
    → decode_at (suc left) (b'l' ∷ s) ≡ some (items xs, rest)
unfolding decode_at
decode_at-items left s rest xs e = rw e refl

decode_at-dictionary :
    (left : ℕ) (s rest : Text) (m : Fields) (spans : Dict Text)
    → read_fields (decode_at left) (suc (length s)) (end, []) s ≡ some ((m, spans), rest)
    → decode_at (suc left) (b'd' ∷ s) ≡ some (dictionary m, rest)
unfolding decode_at
decode_at-dictionary left s rest m spans e = rw e refl

read_items-nil :
    (value : Text → Parsed) (fuel : ℕ) (rest : Text)
    → read_items value (suc fuel) (b'e' ∷ rest) ≡ some (nil, rest)
unfolding read_items
read_items-nil value fuel rest = refl

read_fields-end :
    (value : Text → Parsed) (fuel : ℕ) (read : Entries) (rest : Text)
    → read_fields value (suc fuel) read (b'e' ∷ rest) ≡ some (read, rest)
unfolding read_fields
read_fields-end value fuel read rest = refl

-- A field that is new goes to the end.
append_fields : Fields → Fields → Fields
append_fields end m = m
append_fields (field k v read) m = field k v (append_fields read m)

set_field-append :
    (k : Text) (v : BencodeValue) (read m : Fields)
    → get_field k read ≡ none
    → append_fields (set_field k v read) m ≡ append_fields read (field k v m)
unfolding set_field get_field append_fields
set_field-append k v end m h = refl
set_field-append k v (field j w read) m h = ground (arith, set_field-append k v read m)

merge-append : (read m : Fields) → Fresh read m → merge read m ≡ append_fields read m
unfolding append_fields
merge-append read end f = sym (append-end read)
  where
    append-end : (r : Fields) → append_fields r end ≡ r
    append-end end = refl
    append-end (field k v r) = ap (field k v) (append-end r)
merge-append read (field k v m) f =
    merge-append (set_field k v read) m f.1 ∙ set_field-append k v read m f.0

pub merge-end : (m : Fields) → Fresh end m → merge end m ≡ m
unfolding append_fields
merge-end m f = merge-append end m f

mutual
  unfolding encode Fits rounded

  reads :
      (v : BencodeValue) (left : ℕ) (rest : Text)
      → Fits v left
      → decode_at left (encode v ++ rest) ≡ some (rounded v, rest)
  reads v zero rest f = absurd (omega (arith, Fits-pos v 0 f))
  reads (integer n) (suc left) rest f = decode_at-integer left n rest
  reads (bytes b) (suc left) rest f = decode_at-bytes left b rest
  reads (items xs) (suc left) rest f =
      let same : suc left - 1 ≡ left = omega arith in
      decode_at-items left (encode_items xs ++ rest) rest (rounded_items xs) (
        reads_items xs left (suc (length (encode_items xs ++ rest))) rest
          (omega (arith, length-append (encode_items xs) rest)) (subst (FitsItems xs) same f.1))
  reads (dictionary m) (suc left) rest f =
      let same : suc left - 1 ≡ left = omega arith in
      decode_at-dictionary left (encode_fields m ++ rest) rest (rounded_fields m) (spans_of [] m) (
        reads_fields m left (suc (length (encode_fields m ++ rest))) (end, []) rest
          (omega (arith, length-append (encode_fields m) rest)) (subst (FitsFields m) same f.2)
        ∙ ap (λ x. some ((x, spans_of [] m), rest))
            (merge-end (rounded_fields m) (Fresh-rounded end m f.1)))

  reads_items :
      (xs : Items) (left fuel : ℕ) (rest : Text)
      → length (encode_items xs) ≤ fuel
      → FitsItems xs left
      → read_items (decode_at left) fuel (encode_items xs ++ rest) ≡ some (rounded_items xs, rest)
  reads_items nil left zero rest h f = absurd (omega arith)
  reads_items (cons v xs) left zero rest h f =
      absurd (omega (arith, length-append (encode v) (encode_items xs), length-encode_pos v))
  reads_items nil left (suc fuel) rest h f = read_items-nil (decode_at left) fuel rest
  reads_items (cons v xs) left (suc fuel) rest h f =
      let apart = append_assoc (encode v) (encode_items xs) rest in
      read_items-cons (decode_at left) fuel (rounded v) (rounded_items xs)
        ((encode v ++ encode_items xs) ++ rest) (encode_items xs ++ rest) rest
        (ap at_e apart ∙ at_e-encode v (encode_items xs ++ rest))
        (ap (decode_at left) apart ∙ reads v left (encode_items xs ++ rest) f.0)
        (reads_items xs left fuel rest
          (omega (arith, length-append (encode v) (encode_items xs), length-encode_pos v)) f.1)

  pub reads_fields :
      (m : Fields) (left fuel : ℕ) (read : Entries) (rest : Text)
      → length (encode_fields m) ≤ fuel
      → FitsFields m left
      → read_fields (decode_at left) fuel read (encode_fields m ++ rest)
        ≡ some ((merge read.0 (rounded_fields m), spans_of read.1 m), rest)
  reads_fields end left zero read rest h f = absurd (omega arith)
  reads_fields (field k v m) left zero read rest h f = absurd (
      omega (
        arith,
        length-append (encode_bytes k) (encode v ++ encode_fields m),
        length-encode_bytes_pos k,
      ))
  reads_fields end left (suc fuel) read rest h f = read_fields-end (decode_at left) fuel read rest
  reads_fields (field k v m) left (suc fuel) read rest h f =
      let s = encode_fields m ++ rest in
      let apart =
        append_assoc (encode_bytes k) (encode v ++ encode_fields m) rest
        ∙ ap (λ t. encode_bytes k ++ t) (append_assoc (encode v) (encode_fields m) rest) in
      read_fields-field (decode_at left) fuel read k (rounded v) _ (encode v ++ s) s
        (ap at_e apart ∙ at_e-encode (bytes k) (encode v ++ s))
        (ap (decode_at left) apart ∙ key left f.0 (encode v ++ s)) (reads v left s f.1)
      ∙ ap
          (λ b.
            read_fields (decode_at left) fuel (set_field k (rounded v) read.0, insert k b read.1) s)
          (slice-append (encode v) s)
      ∙ reads_fields m left fuel (set_field k (rounded v) read.0, insert k (encode v) read.1) rest
          (omega (
            arith,
            length-append (encode_bytes k) (encode v ++ encode_fields m),
            length-append (encode v) (encode_fields m),
            length-encode_bytes_pos k,
          ))
          f.2
    where
      key : (n : ℕ) → 0 < n → (t : Text) → decode_at n (encode_bytes k ++ t) ≡ some (bytes k, t)
      key zero p t = absurd (omega arith)
      key (suc n) p t = decode_at-bytes n k t

decode-encode-rounded :
    (v : BencodeValue) (rest : Text)
    → Fits v (suc max_depth)
    → decode (encode v ++ rest) ≡ some (rounded v)
unfolding decode
decode-encode-rounded v rest f = rw (reads v (suc max_depth) rest f) refl

-- A value that is nested at most 64 deep, in whose dictionaries no key stands twice, and whose integers are
-- all less than 2^53 away from 0, is read back from its encoding, whatever follows the encoding.
pub decode-encode :
    (v : BencodeValue) (rest : Text)
    → Fits v (suc max_depth)
    → IsExact v
    → decode (encode v ++ rest) ≡ some v
decode-encode v rest f exact = decode-encode-rounded v rest f ∙ ap some (rounded-IsExact v exact)

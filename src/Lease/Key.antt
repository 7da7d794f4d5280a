-- ===== src/Lease/Key.antt =====
-- leaseKey and parseLeaseKey of pkg/lease/lease.go.
use cloudetcd.Base.{
  drop-append, has_prefix-append, ℕ, zero, suc, ◌+◌, ◌*◌, ◌/◌, ◌%◌, ◌^◌, ◌<◌, ◌≡◌, refl, ap, ◌∙◌,
  Bytes, [], ◌∷◌, ◌++◌, Option, none, some, arith, length, length-append,
}
use native.Mathlib.Nat.{pow-suc}
use cloudetcd.Lease.{
  lease_key_prefix, hex_digit, hex, lease_key, digit_value, parse_step, parse_digits, parse_uint,
  parse_lease_key,
}

digit_value-hex_digit : (d : ℕ) → d < 16 → digit_value (hex_digit d) ≡ some d
unfolding digit_value hex_digit
digit_value-hex_digit d h = ground arith

last_step : (o : Option ℕ) → elim o [ none ↦ none | some acc ↦ some acc ] ≡ o
last_step none = refl
last_step (some acc) = refl

parse_digits-snoc :
    (acc acc' : ℕ) (cs : Bytes) (c : ℕ)
    → parse_digits acc cs ≡ some acc'
    → parse_digits acc (cs ++ c ∷ []) ≡ parse_step acc' c
unfolding parse_digits
parse_digits-snoc acc acc' [] c h =
    let same : acc ≡ acc' = ground arith in
    last_step (parse_step acc c) ∙ ap (λ a. parse_step a c) same
parse_digits-snoc acc acc' (d ∷ cs) c h =
    by_step (parse_step acc d) refl (λ a. parse_digits-snoc a acc' cs c)
  where
    by_step :
        (o : Option ℕ)
        → parse_step acc d ≡ o
        → ((a : ℕ)
            → parse_digits a cs ≡ some acc'
            → parse_digits a (cs ++ c ∷ []) ≡ parse_step acc' c)
        → parse_digits acc ((d ∷ cs) ++ c ∷ []) ≡ parse_step acc' c
    by_step none e ih = absurd (ground arith)
    by_step (some a) e ih = rw (e, parse_digits) (ih a (rw (e, parse_digits) at h))

parse_step-digit :
    (acc c d n : ℕ)
    → digit_value c ≡ some d
    → acc * 16 + d ≡ n
    → n < 2 ^ 64
    → parse_step acc c ≡ some n
unfolding parse_step
parse_step-digit acc c d n e sum small = ground arith

-- `%x` for any number of places, read back.
parse_digits-hex :
    (places n : ℕ) → n < 16 ^ places → n < 2 ^ 64 → parse_digits 0 (hex places n) ≡ some n
unfolding hex
parse_digits-hex zero n h k = unfold parse_digits in ground arith
parse_digits-hex (suc places) n h k =
    let ih = parse_digits-hex places (n / 16) (omega (arith, pow-suc 16 places)) (omega arith) in
    parse_digits-snoc 0 (n / 16) (hex places (n / 16)) (hex_digit (n % 16)) ih
    ∙ parse_step-digit (n / 16) (hex_digit (n % 16)) (n % 16) n
        (digit_value-hex_digit (n % 16) (omega arith)) (omega arith) k

parse_uint-digits : (cs : Bytes) → 0 < length cs → parse_uint cs ≡ parse_digits 0 cs
unfolding parse_uint
parse_uint-digits [] h = absurd (omega arith)
parse_uint-digits (c ∷ cs) h = refl

pub length-hex : (places n : ℕ) → length (hex places n) ≡ places
unfolding hex
length-hex zero n = refl
length-hex (suc places) n = omega (
  arith,
  length-append (hex places (n / 16)) (hex_digit (n % 16) ∷ []),
  length-hex places (n / 16),
)

-- ParseUint reads back the 16 digits of `%016x`.
pub parse_uint-hex : (n : ℕ) → n < 2 ^ 64 → parse_uint (hex 16 n) ≡ some n
parse_uint-hex n h =
    parse_uint-digits (hex 16 n) (omega (arith, length-hex 16 n))
    ∙ parse_digits-hex 16 n (omega arith) h

-- Every 64-bit lease id is read back from its key.
pub parse_lease_key-lease_key : (id : ℕ) → id < 2 ^ 64 → parse_lease_key (lease_key id) ≡ some id
unfolding parse_lease_key lease_key
parse_lease_key-lease_key id h =
    rw (has_prefix-append lease_key_prefix (hex 16 id))
      (rw (drop-append lease_key_prefix (hex 16 id)) (parse_uint-hex id h))

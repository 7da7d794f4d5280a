-- ===== src/FileLog/Names.antt =====
-- The names of the log files, pkg/persistence/filesystemlog/filesystem_log.go.
use cloudetcd.Base.{
  ℕ, zero, suc, ◌-◌, ◌/◌, ◌%◌, ◌^◌, ◌≤◌, ◌<◌, ◌≡◌, refl, sym, Bytes, Bool, true, false, ◌&&◌, [],
  ◌∷◌, ◌++◌, Option, none, some, arith, length, length-append, take, drop, take-append, drop-append,
  ltb, leb, nat_beq, bytes_equal, bytes_equal_refl, All, All-append, if◌then◌else◌,
}
use mathlib.Core.List.{append_assoc}
use cloudetcd.Lease.{hex, hex_digit, parse_uint}
use cloudetcd.Lease.Key.{parse_uint-hex}

-- What a name says about its file. The last revision of a dense file comes from its content.
pub record FileInfo : Type 0 where
  pub first : ℕ
  pub last : ℕ
  pub sparse : Bool

abbrev pub log_suffix : Bytes
log_suffix = b'.' ∷ b'l' ∷ b'o' ∷ b'g' ∷ []

unfoldable pub filename : FileInfo → Bytes
filename fi =
    if fi.sparse
    then hex 16 fi.first ++ (b'-' ∷ (hex 16 fi.last ++ log_suffix))
    else hex 16 fi.first ++ log_suffix

-- strings.TrimSuffix behind strings.HasSuffix: none without the suffix.
unfoldable pub trim_suffix : Bytes → Bytes → Option Bytes
trim_suffix s suffix =
    if leb (length suffix) (length s) && bytes_equal (drop (length s - length suffix) s) suffix
    then some (take (length s - length suffix) s)
    else none

-- strings.SplitN(s, "-", 2): the part before the first dash, and the part behind it if there is one.
unfoldable pub split_dash : Bytes → Bytes × Option Bytes
split_dash [] = ([], none)
split_dash (b ∷ s) =
    let rest = split_dash s in if nat_beq b b'-' then ([], some s) else (b ∷ rest.0, rest.1)

parse_last : ℕ → Option Bytes → Option FileInfo
parse_last first none = some (record { first = first; last = 0; sparse = false })
parse_last first (some part) = elim (parse_uint part) [
  | none ↦ none
  | some last ↦
      if ltb last first then none else some (record { first = first; last = last; sparse = true })
]

parse_parts : Bytes × Option Bytes → Option FileInfo
unfolding parse_last
parse_parts (part, rest) = elim (parse_uint part) [
  | none ↦ none
  | some first ↦ parse_last first rest
]

-- parseFilename; none is the error.
unfoldable pub parse_filename : Bytes → Option FileInfo
unfolding parse_parts
parse_filename name = elim (trim_suffix name log_suffix) [
  | none ↦ none
  | some base ↦ parse_parts (split_dash base)
]

trim_suffix-append : (s suffix : Bytes) → trim_suffix (s ++ suffix) suffix ≡ some s
unfolding trim_suffix
trim_suffix-append s suffix =
    let size = length-append s suffix in
    let cut : length (s ++ suffix) - length suffix ≡ length s = omega arith in
    let long : leb (length suffix) (length (s ++ suffix)) ≡ true = ground (arith, size) in
    rw (cut, long) (rw (drop-append s suffix, take-append s suffix) (rw (bytes_equal_refl suffix)))

IsPlain : Bytes → Type 0
IsPlain = All (λ b. nat_beq b b'-' ≡ false)

hex-IsPlain : (places n : ℕ) → IsPlain (hex places n)
unfolding hex IsPlain
hex-IsPlain zero n = tt
hex-IsPlain (suc places) n =
    All-append (λ b. nat_beq b b'-' ≡ false) (hex places (n / 16)) (hex_digit (n % 16) ∷ [])
      (hex-IsPlain places (n / 16)) (plain_digit (n % 16), tt)
  where
    plain_digit : (d : ℕ) → nat_beq (hex_digit d) b'-' ≡ false
    plain_digit d = unfold hex_digit in ground arith

split_dash-IsPlain : (s : Bytes) → IsPlain s → split_dash s ≡ (s, none)
unfolding split_dash IsPlain
split_dash-IsPlain [] h = refl
split_dash-IsPlain (b ∷ s) h = rw (h.0) (rw (split_dash-IsPlain s h.1))

split_dash-dash : (s rest : Bytes) → IsPlain s → split_dash (s ++ (b'-' ∷ rest)) ≡ (s, some rest)
unfolding split_dash IsPlain
split_dash-dash [] rest h = refl
split_dash-dash (b ∷ s) rest h = rw (h.0) (rw (split_dash-dash s rest h.1))

parse_filename-append :
    (base : Bytes) → parse_filename (base ++ log_suffix) ≡ parse_parts (split_dash base)
unfolding parse_filename
parse_filename-append base = rw (parse_filename, trim_suffix-append base log_suffix) refl

-- What the name of a file keeps of it.
abbrev pub named : FileInfo → FileInfo
named fi = record fi { last = if fi.sparse then fi.last else 0 }

-- parseFilename reads back the name of every file whose revisions are in order: whether it is sparse,
-- its first revision, and the last one of a sparse file.
pub parse_filename-filename :
    (fi : FileInfo)
    → fi.first ≤ fi.last
    → fi.last < 2 ^ 64
    → parse_filename (filename fi) ≡ some (named fi)
unfolding parse_filename filename parse_last parse_parts
parse_filename-filename fi ordered fits = by_kind fi.sparse refl
  where
    a : Bytes
    a = hex 16 fi.first

    b : Bytes
    b = hex 16 fi.last

    read_first : parse_uint a ≡ some fi.first
    read_first = parse_uint-hex fi.first (omega (arith, ordered, fits))

    read_last : parse_uint b ≡ some fi.last
    read_last = parse_uint-hex fi.last fits

    by_kind : (k : Bool) → fi.sparse ≡ k → parse_filename (filename fi) ≡ some (named fi)
    by_kind false e =
        rw (e, filename)
          (rw (parse_filename-append a) (
            rw (split_dash-IsPlain a (hex-IsPlain 16 fi.first))
              (rw (read_first, parse_parts, parse_last) refl)))
    by_kind true e =
        let joined : a ++ (b'-' ∷ (b ++ log_suffix)) ≡ (a ++ (b'-' ∷ b)) ++ log_suffix =
          sym (append_assoc a (b'-' ∷ b) log_suffix) in
        let in_order : ltb fi.last fi.first ≡ false = ground (arith, ordered) in
        rw (e, filename)
          (rw joined (
            rw (parse_filename-append (a ++ (b'-' ∷ b))) (
              rw (split_dash-dash a b (hex-IsPlain 16 fi.first))
                (rw (read_first, parse_parts) (rw (read_last, parse_last) (rw in_order refl))))))

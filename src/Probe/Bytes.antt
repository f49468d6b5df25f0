-- ===== src/Probe/Bytes.antt =====
-- Python's `bytes` as lists of numbers, with `struct.unpack_from` of little-endian numbers.
use dalvikvm_multiplatform.Common.{
  ℕ, zero, suc, ◌+◌, ◌*◌, ◌<◌, Bool, true, false, List, [], ◌∷◌, if◌then◌else◌, nat_eq, leb, length,
  index_error, struct_error, probe_error, Result, ok, err, ◌≡◌, refl, arith, Ends, returned, raised,
}
use dalvikvm_multiplatform.Overlay.{drop_chars}

abbrev pub Bytes : Type 0
Bytes = List ℕ

-- `data[i]`
unfoldable pub byte_at : Bytes → ℕ → Result ℕ
byte_at [] i = err index_error
byte_at (b ∷ data_) zero = ok b
byte_at (b ∷ data_) (suc i) = byte_at data_ i

unfoldable pub take : ℕ → Bytes → Bytes
take zero data_ = []
take (suc n) [] = []
take (suc n) (b ∷ data_) = b ∷ take n data_

-- `data[first : first + n]`
unfoldable pub slice : Bytes → ℕ → ℕ → Bytes
slice data_ first n = take n (drop_chars first data_)

-- The number that some bytes are, the lowest one in front.
unfoldable pub little : Bytes → ℕ
little [] = zero
little (b ∷ bs) = b + 256 * little bs

-- `struct.unpack_from("<III", data, offset)`
unfoldable pub unpack_words : Bytes → ℕ → Result (ℕ × ℕ × ℕ)
unpack_words data_ offset =
    if leb (offset + 12) (length data_)
    then ok (
      little (slice data_ offset 4),
      little (slice data_ (offset + 4) 4),
      little (slice data_ (offset + 8) 4),
    )
    else err struct_error

-- Dex2OatProbeError
unfoldable pub reject : {A : Type 0} → Result A
reject = err probe_error

pub byte_at-inside : (data_ : Bytes) (i : ℕ) → i < length data_ → (b : ℕ) × (byte_at data_ i ≡ ok b)
unfolding byte_at
byte_at-inside [] i h = absurd (omega (arith, h))
byte_at-inside (b ∷ data_) zero h = (b, refl)
byte_at-inside (b ∷ data_) (suc i) h = byte_at-inside data_ i (omega (arith, h))

pub byte_at-Ends :
    (data_ : Bytes) (i : ℕ)
    → i < length data_
    → Ends (λ x. x ≡ probe_error) (λ b. Unit {0}) (byte_at data_ i)
byte_at-Ends data_ i h = let (b, e) = byte_at-inside data_ i h in rw e (returned tt)

-- A check that raises Dex2OatProbeError where the test is true.
pub reject-Ends :
    {A : Type 0} (P : A → Type 0) (b : Bool) (r : Result A)
    → (b ≡ false → Ends (λ x. x ≡ probe_error) P r)
    → Ends (λ x. x ≡ probe_error) P (if b then reject else r)
unfolding reject
reject-Ends P true r h = raised refl
reject-Ends P false r h = h refl

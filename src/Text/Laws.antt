-- ===== src/Text/Laws.antt =====
-- The comparisons of C strings as equations.
use wolf_clu.Base.{true, [], ◌∷◌, ◌++◌, ◌≡◌, ◌↔◌, refl, arith, length}
use wolf_clu.Text.{Bytes, bytes_eq, strncmp_eq, starts_with}

pub bytes_eq_iff : (a b : Bytes) → (bytes_eq a b ≡ true) ↔ (a ≡ b)
unfolding bytes_eq
bytes_eq_iff (x ∷ a) (y ∷ b) = ground (arith, bytes_eq_iff a b)
bytes_eq_iff _ _ = ground arith

pub bytes_eq_refl : (a : Bytes) → bytes_eq a a ≡ true
bytes_eq_refl a = (bytes_eq_iff a a).1 refl

-- On a string of `n` bytes a comparison of `n` bytes is a test for a prefix.
pub strncmp_eq-length : (a b : Bytes) → strncmp_eq (length a) a b ≡ starts_with b a
unfolding strncmp_eq starts_with
strncmp_eq-length [] b = refl
strncmp_eq-length (x ∷ a) [] = refl
strncmp_eq-length (x ∷ a) (y ∷ b) = ground (arith, strncmp_eq-length a b)

pub starts_with-split : (s p : Bytes) → starts_with s p ≡ true → (rest : Bytes) × (s ≡ p ++ rest)
unfolding starts_with
starts_with-split s [] h = (s, refl)
starts_with-split [] (y ∷ p) h = cc
starts_with-split (x ∷ s) (y ∷ p) h =
    let (rest, e) = starts_with-split s p (ground (arith, h)) in
    let same : x ≡ y = ground (arith, h) in (rest, rw (same, e))

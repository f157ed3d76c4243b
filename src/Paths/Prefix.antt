-- ===== src/Paths/Prefix.antt =====
-- Laws of `starts_with` and `strip_prefix`: a partial order by whole components.
use rattler_sandbox.Prelude.{◌≤◌, ◌≡◌, refl, true, some, [], ◌∷◌, ◌++◌, length, arith, is_some}
use rattler_sandbox.Paths.Std.{PathBuf, component_eq, starts_with, strip_prefix}

pub starts_with_refl : (p : PathBuf) → starts_with p p ≡ true
unfolding starts_with
starts_with_refl [] = refl
starts_with_refl (c ∷ p) = ground (arith, starts_with_refl p)

pub starts_with_trans :
    (p q r : PathBuf) → starts_with p q ≡ true → starts_with q r ≡ true → starts_with p r ≡ true
unfolding starts_with
starts_with_trans p q [] h k = refl
starts_with_trans [] [] (_ ∷ _) h k = k
starts_with_trans [] (_ ∷ _) (_ ∷ _) h k = h
starts_with_trans (_ ∷ _) [] (_ ∷ _) h k = ground arith
starts_with_trans (c ∷ p) (d ∷ q) (e ∷ r) h k = ground (arith, starts_with_trans p q r)

-- Of two prefixes of one path the shorter is a prefix of the longer.
pub starts_with_linear :
    (p q r : PathBuf)
    → starts_with p q ≡ true
    → starts_with p r ≡ true
    → length r ≤ length q
    → starts_with q r ≡ true
unfolding starts_with
starts_with_linear p q [] h k l = refl
starts_with_linear p [] (_ ∷ _) h k l = absurd (omega arith)
starts_with_linear [] (_ ∷ _) (_ ∷ _) h k l = absurd (ground arith)
starts_with_linear (c ∷ p) (d ∷ q) (e ∷ r) h k l = ground (arith, starts_with_linear p q r)

pub length_le_of_starts_with : (p q : PathBuf) → starts_with p q ≡ true → length q ≤ length p
unfolding starts_with
length_le_of_starts_with p [] h = omega arith
length_le_of_starts_with [] (_ ∷ _) h = absurd (ground arith)
length_le_of_starts_with (c ∷ p) (d ∷ q) h = ground (arith, length_le_of_starts_with p q)

pub starts_with_antisym : (p q : PathBuf) → starts_with p q ≡ true → length p ≤ length q → p ≡ q
unfolding starts_with
starts_with_antisym [] [] h l = refl
starts_with_antisym (_ ∷ _) [] h l = absurd (omega arith)
starts_with_antisym [] (_ ∷ _) h l = absurd (ground arith)
starts_with_antisym (c ∷ p) (d ∷ q) h l = ground (arith, starts_with_antisym p q)

pub starts_with-append : (p q : PathBuf) → starts_with (p ++ q) p ≡ true
unfolding starts_with
starts_with-append [] q = refl
starts_with-append (c ∷ p) q = ground (arith, starts_with-append p q)

-- `strip_prefix` succeeds exactly where `starts_with` holds.
pub is_some-strip_prefix : (p q : PathBuf) → is_some (strip_prefix p q) ≡ starts_with p q
unfolding starts_with strip_prefix
is_some-strip_prefix p [] = refl
is_some-strip_prefix [] (_ ∷ _) = refl
is_some-strip_prefix (c ∷ p) (d ∷ q) = ground (arith, is_some-strip_prefix p q)

pub strip_prefix-append : (p q : PathBuf) → strip_prefix (p ++ q) p ≡ some q
unfolding strip_prefix
strip_prefix-append [] q = refl
strip_prefix-append (c ∷ p) q = ground (arith, strip_prefix-append p q)

pub append_of_strip_prefix : (p q r : PathBuf) → strip_prefix p q ≡ some r → p ≡ q ++ r
unfolding strip_prefix
append_of_strip_prefix p [] r h = ground arith
append_of_strip_prefix [] (_ ∷ _) r h = ground arith
append_of_strip_prefix (c ∷ p) (d ∷ q) r h = ground (arith, append_of_strip_prefix p q r)

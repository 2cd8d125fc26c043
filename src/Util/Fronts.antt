-- ===== src/Util/Fronts.antt =====
-- tg_util.c: a text is split in one way at its first separator, and in one way at its last.
use tgserver.Base.{
  ℕ, suc, ◌≡◌, refl, sym, ap, subst, ◌∙◌, [], ◌∷◌, ◌++◌, length, pos, negsuc, ℤ, Run, ok, fault,
  Bytes,
}
use tgserver.Util.Search.{Lacks, FindsFirst}

-- Two fronts without the separator are the same.
pub same_front :
    (s : ℕ) (a b c d : Bytes)
    → a ++ s ∷ b ≡ c ++ s ∷ d
    → Lacks s a
    → Lacks s c
    → length a ≡ length c
same_front s [] b [] d e h k = refl
same_front s [] b (y ∷ c) d e h k = let same : y ≡ s = cc in absurd (k.0 same)
same_front s (x ∷ a) b [] d e h k = let same : x ≡ s = cc in absurd (h.0 same)
same_front s (x ∷ a) b (y ∷ c) d e h k = ap suc (same_front s a b c d (cc) h.1 k.1)

pub Lacks-front : (s : ℕ) (c d : Bytes) → Lacks s (c ++ s ∷ d) → ⊥
Lacks-front s [] d h = h.0 refl
Lacks-front s (x ∷ c) d h = Lacks-front s c d h.1

pub found_at :
    (s : ℕ) (c d : Bytes) (r : Run ℤ)
    → FindsFirst s (c ++ s ∷ d) r
    → Lacks s c
    → r ≡ ok (pos (length c))
found_at s c d (ok (pos p)) (front, back, e, l, k) h =
    ap (λ n. ok (pos n)) (sym l ∙ same_front s front back c d (sym e) k h)
found_at s c d (ok (negsuc n)) (z, h) k = absurd (Lacks-front s c d h)
found_at s c d fault h k = absurd h

-- Two texts behind the last separator are the same.
pub same_back : (s : ℕ) (a b c d : Bytes) → a ++ s ∷ b ≡ c ++ s ∷ d → Lacks s b → Lacks s d → b ≡ d
same_back s [] b [] d e h k = cc
same_back s [] b (y ∷ c) d e h k =
    let within : b ≡ c ++ s ∷ d = cc in absurd (Lacks-front s c d (subst (Lacks s) within h))
same_back s (x ∷ a) b [] d e h k =
    let within : a ++ s ∷ b ≡ d = cc in absurd (Lacks-front s a b (subst (Lacks s) (sym within) k))
same_back s (x ∷ a) b (y ∷ c) d e h k = same_back s a b c d (cc) h k

-- ===== src/Log/Lines.antt =====
-- tg_log.c: which lines are printed, and how long they are.
use tgserver.Base.{
  sizes, ℕ, ◌≤◌, ◌≡◌, refl, sym, ◌∙◌, ◌⊎◌, inl, inr, true, false, [], ◌∷◌, ◌++◌, Option, ok, Bytes,
  length, take, ℤ, leb_int, Bool-cases,
}
use tgserver.Log.{limit, head, log, log_n}

-- What the log prints for one message: nothing, or one line, of at most 99 bytes before the
-- message, of 1023 of the message and of the end of the line.
abbrev pub OneLine : Bytes → Bytes → Type 0
OneLine text printed =
    (printed ≡ [])
    ⊎ ((front : Bytes) × (printed ≡ front ++ (take 1023 text ++ 10 ∷ []))
        × (length front ≤ 99)
        × (length printed ≤ 1123))

line-OneLine :
    (text front : Bytes) → length front ≤ 99 → OneLine text (front ++ (take 1023 text ++ 10 ∷ []))
line-OneLine text front h = inr (front, refl, h, omega sizes)

take_short : (n : ℕ) (xs : Bytes) → length (take n xs) ≤ n
take_short n xs = omega sizes

head-short : (clock tag : Bytes) (level : ℤ) → length (head clock tag level) ≤ 99
unfolding head
head-short clock tag level = take_short 99 _

-- Where LOG_LEVEL is no number that faults, logN prints at most one line; a message of a level
-- above the limit prints nothing, and one of a level up to it prints its line.
pub log_n-OneLine :
    (env : Option Bytes) (clock tag text : Bytes) (level l : ℤ)
    → limit env ≡ ok l
    → (printed : Bytes) × (log_n env clock tag level text ≡ ok printed)
      × OneLine text printed
      × (leb_int level l ≡ false → printed ≡ [])
      × (leb_int level l ≡ true → printed ≡ head clock tag level ++ (take 1023 text ++ 10 ∷ []))
unfolding log_n log
log_n-OneLine env clock tag text level l e = elim (Bool-cases (leb_int level l)) [
  | inl b ↦ (
    line,
    rw (e, b) refl,
    line-OneLine text (head clock tag level) (head-short clock tag level),
    (λ f. let same : true ≡ false = sym b ∙ f in cc),
    λ f. refl,
  )
  | inr b ↦
      ([], rw (e, b) refl, inl refl, (λ f. refl), λ t. let same : true ≡ false = sym t ∙ b in cc)
]
  where
    line : Bytes
    line = head clock tag level ++ (take 1023 text ++ 10 ∷ [])

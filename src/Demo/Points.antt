-- ===== src/Demo/Points.antt =====
-- plugins/demo/demo.c: what the initialization of the plugin leaves in the shared memory.
use tgserver.Base.{
  sizes, ℕ, zero, suc, ◌+◌, ◌*◌, ◌≡◌, refl, sym, ap, ◌∙◌, [], ◌∷◌, ◌++◌, append_assoc, some, length,
  take, drop, take-append-drop, ok, Bytes, le_bytes, write_at, write_at-append, arith,
}
use tgserver.Demo.{point, fill_points, init_point}

-- The points from number i on.
abbrev pub points_from : ℕ → ℕ → Bytes
points_from i zero = []
points_from i (suc n) = point i ++ points_from (suc i) n

fill_points-from :
    (left i : ℕ) (front old rest : Bytes)
    → length front ≡ 14 + i * 8
    → length old ≡ left * 8
    → fill_points left i (front ++ (old ++ rest)) ≡ ok (front ++ (points_from i left ++ rest))
unfolding fill_points
fill_points-from zero i front [] rest f l = refl
fill_points-from zero i front (x ∷ old) rest f l = absurd (omega arith)
fill_points-from (suc left) i front old rest f l =
    let eight = take 8 old in
    let others = drop 8 old in
    let whole : old ++ rest ≡ eight ++ (others ++ rest) =
      ap (λ o. o ++ rest) (sym (take-append-drop 8 old)) ∙ append_assoc eight others rest in
    let written : write_at (14 + i * 8) (point i) (front ++ (old ++ rest))
        ≡ ok (front ++ (point i ++ (others ++ rest))) =
      (λ j. write_at (sym f j) (point i) (front ++ whole j))
      ∙ write_at-append front (point i) eight (others ++ rest) (omega sizes) in
    let later =
      fill_points-from left (suc i) (front ++ point i) others rest (omega sizes) (omega sizes) in
    rw written (
      ap (fill_points left (suc i)) (sym (append_assoc front (point i) (others ++ rest)))
      ∙ later
      ∙ ap ok (
          append_assoc front (point i) (points_from (suc i) left ++ rest)
          ∙ ap (λ t. front ++ t) (sym (append_assoc (point i) (points_from (suc i) left) rest))))

-- The initialization leaves the ten reserved bytes and all that lies behind the points, and writes
-- the number 18 and the 18 points between them, whatever the memory held.
pub init_point-points :
    (reserved count old rest : Bytes)
    → length reserved ≡ 10
    → length count ≡ 4
    → length old ≡ 144
    → init_point (some (reserved ++ (count ++ (old ++ rest))))
      ≡ ok (reserved ++ (le_bytes 18 ++ (points_from 0 18 ++ rest)))
unfolding init_point
init_point-points reserved count old rest r c o = rw filled (
    ap (write_at 10 (le_bytes 18)) (append_assoc reserved count (points_from 0 18 ++ rest))
    ∙ (λ j. write_at (sym r j) (le_bytes 18) (reserved ++ (count ++ (points_from 0 18 ++ rest))))
    ∙ write_at-append reserved (le_bytes 18) count (points_from 0 18 ++ rest) c)
  where
    filled :
        fill_points 18 0 (reserved ++ (count ++ (old ++ rest)))
        ≡ ok ((reserved ++ count) ++ (points_from 0 18 ++ rest))
    filled =
        ap (fill_points 18 0) (sym (append_assoc reserved count (old ++ rest)))
        ∙ fill_points-from 18 0 (reserved ++ count) old rest (omega sizes) o

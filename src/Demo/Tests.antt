-- ===== src/Demo/Tests.antt =====
-- plugins/demo/demo.c: the memory of four points, and the memory that the initialization leaves.
use tgserver.Base.{
  length-replicate, ℕ, ◌≢◌, true, false, minus_one, ◌*◌, ◌≤◌, ◌<◌, ◌≡◌, refl, ◌⊎◌, [], ◌∷◌, ◌++◌,
  none, some, pos, replicate, ok, fault, Bytes, codes, le_bytes, strcmp_eq, with_nul, arith,
}
use tgserver.Context.Signals.{is_minus_one}
use tgserver.Demo.Served.{segment}
use tgserver.Demo.Memories.{Shared, null, at, create, init, request, release}
use tgserver.Demo.Lives.{init-create}
use tgserver.Demo.{init_point, do_request}
use tgserver.Demo.Points.{points_from, init_point-points}
use tgserver.Demo.Answers.{all_points, holding, numbered, do_request-points}

abbrev reserved : Bytes
reserved = replicate 10 7

abbrev old_points : Bytes
old_points = replicate 144 9

initialized :
    init_point (some (reserved ++ ((1 ∷ 2 ∷ 3 ∷ 4 ∷ []) ++ (old_points ++ (5 ∷ [])))))
    ≡ ok (reserved ++ (le_bytes 18 ++ (points_from 0 18 ++ (5 ∷ []))))
initialized = init_point-points reserved (1 ∷ 2 ∷ 3 ∷ 4 ∷ []) old_points (5 ∷ []) refl refl refl

abbrev four : Bytes
four = points_from 0 4

abbrev zeroed : Bytes
zeroed = replicate 4 0

do_request-points_example :
    (4 ≤ 4
      → 4 < 128
      → do_request (some (holding reserved 4 (four ++ zeroed))) (all_points ++ [])
        ≡ ok (le_bytes (4 * 9) ++ numbered 4 four))
    × ((4 < 4) ⊎ (128 ≤ 4)
        → do_request (some (holding reserved 4 (four ++ zeroed))) (all_points ++ []) ≡ fault)
do_request-points_example =
    do_request-points reserved four zeroed [] 4 refl refl (omega arith) (omega arith)

-- Another request, and a shared memory that could not be made.
other_requests :
    (do_request
        (some (holding reserved 4 (four ++ zeroed)))
        (with_nul (codes "tg://libdemo.so/one"))
      ≡ fault)
    × (do_request none all_points ≡ fault)
    × (init_point none ≡ fault)
unfolding do_request strcmp_eq init_point
other_requests = (refl, refl, refl)

abbrev whole_segment : Bytes
whole_segment = replicate segment 3

-- Both memories are to be the same one.
abbrev made : Shared
made = record {
  line_id = minus_one;
  point_id = minus_one;
  line_head = null;
  point_head = null;
  memories = λ j. some whole_segment;
}

init-create_example :
    (is_minus_one (pos 5) ≡ false
      → at 5 ≡ at 5
      → (u : Shared) × (v : Shared) × (init (create (pos 5) (pos 5) (λ id. at 5) made).1 ≡ ok u)
        × ((j : ℕ) → j ≢ 5 → u.memories j ≡ made.memories j)
        × (init u ≡ ok v)
        × ((j : ℕ) → v.memories j ≡ u.memories j)
        × (request v (all_points ++ []) ≡ ok (le_bytes 162 ++ numbered 18 (points_from 0 18)))
        × (request (release v) (all_points ++ []) ≡ fault))
    × (is_minus_one (pos 5) ≡ true → init (create (pos 5) (pos 5) (λ id. at 5) made).1 ≡ fault)
init-create_example =
    init-create (pos 5) (pos 5) (λ id. at 5) made 5 whole_segment [] refl
      (length-replicate {A = ℕ} segment 3) refl

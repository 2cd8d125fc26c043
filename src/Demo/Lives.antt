-- ===== src/Demo/Lives.antt =====
-- plugins/demo/demo.c: the life of the plugin, over the processes of the server: made by the main
-- process, initialized by each client process, asked, and given up.
use tgserver.Base.{
  sizes, Bool, if◌then◌else◌, strcmp_eq, ℕ, ◌==◌, ◌≡◌, ◌≢◌, refl, ◌∙◌, ◌++◌, Option, some, length,
  ℤ, true, false, ok, fault, Bytes, le_bytes, arith, take, drop,
}
use tgserver.Context.Signals.{is_minus_one}
use tgserver.Demo.{init_point, do_request}
use tgserver.Demo.Points.{points_from, init_point-points}
use tgserver.Demo.Answers.{numbered, all_points}
use tgserver.Demo.Served.{segment, filled, init_point-filled, do_request-filled, length-points_from}
use tgserver.Demo.Memories.{
  attach, pointed, Shared, Pointer, null, at, create, init, request, release,
}

-- A second initialization, by another client process, finds and leaves the same memory.
pub init_point-again :
    (shared : Bytes)
    → length shared ≡ segment
    → init_point (some (filled shared)) ≡ ok (filled shared)
init_point-again shared l =
    init_point-points (take 10 shared) (le_bytes 18) (points_from 0 18)
      (drop 144 (drop 4 (drop 10 shared))) (omega sizes) refl (length-points_from 18 0)

-- The memory k holds x.
abbrev pub put : ℕ → Bytes → Shared → Shared
put k x s = record s { memories = λ j. if j == k then some x else s.memories j }

same_address : (k : ℕ) → (k == k) ≡ true
same_address k = ground arith

other_address : (j k : ℕ) → j ≢ k → (j == k) ≡ false
other_address j k h = ground arith

if_twice :
    (b : Bool) (x y : Option Bytes) → (if b then x else if b then x else y) ≡ (if b then x else y)
if_twice true x y = refl
if_twice false x y = refl

init-at :
    (s : Shared) (k : ℕ) (m x : Bytes)
    → s.point_head ≡ at k
    → s.memories k ≡ some m
    → init_point (some m) ≡ ok x
    → init s ≡ ok (put k x s)
unfolding init
init-at s k m x head memory done = rw (head, memory) (rw done refl)

request-at :
    (s : Shared) (k : ℕ) (m behind : Bytes)
    → s.point_head ≡ at k
    → s.memories k ≡ some (filled m)
    → length m ≡ segment
    → request s (all_points ++ behind) ≡ ok (le_bytes 162 ++ numbered 18 (points_from 0 18))
unfolding request
request-at s k m behind head memory l =
    (λ i. do_request (pointed (head i) s) (all_points ++ behind))
    ∙ rw (memory, do_request-filled m behind l) refl

request-release :
    (s : Shared) (k : ℕ) (behind : Bytes)
    → s.point_head ≡ at k
    → request (release s) (all_points ++ behind) ≡ fault
unfolding request release do_request strcmp_eq
request-release s k behind head = rw head refl

-- Where the kernel gives create the memory k of 102400 bytes for the points, init fills it and
-- touches no other memory, a second init changes nothing, a request for all the points is answered
-- with 18 of them, and after release such a request is a fault. Where shmget gives no memory,
-- create does not tell, and init is a fault.
pub init-create :
    (line_id point_id : ℤ) (shmat : ℤ → Pointer) (s : Shared) (k : ℕ) (m behind : Bytes)
    → s.memories k ≡ some m
    → length m ≡ segment
    → s.point_head ≡ null
    → (is_minus_one point_id ≡ false
        → shmat point_id ≡ at k
        → (u : Shared) × (v : Shared) × (init (create line_id point_id shmat s).1 ≡ ok u)
          × ((j : ℕ) → j ≢ k → u.memories j ≡ s.memories j)
          × (init u ≡ ok v)
          × ((j : ℕ) → v.memories j ≡ u.memories j)
          × (request v (all_points ++ behind) ≡ ok (le_bytes 162 ++ numbered 18 (points_from 0 18)))
          × (request (release v) (all_points ++ behind) ≡ fault))
      × (is_minus_one point_id ≡ true → init (create line_id point_id shmat s).1 ≡ fault)
unfolding create init init_point
init-create line_id point_id shmat s k m behind at_k l n = (
  (λ valid given.
      let head : attach shmat point_id s.point_head ≡ at k = rw valid given in
      let first =
        init-at (create line_id point_id shmat s).1 k m (filled m) head at_k
          (init_point-filled m l) in
      let u : Shared = put k (filled m) (create line_id point_id shmat s).1 in
      let now : u.memories k ≡ some (filled m) = rw (same_address k) refl in
      let second = init-at u k (filled m) (filled m) head now (init_point-again m l) in
      let v : Shared = put k (filled m) u in
      (
        u,
        v,
        first,
        (λ j h. rw (other_address j k h) refl),
        second,
        (λ j. if_twice (j == k) (some (filled m)) (s.memories j)),
        request-at v k m behind head (rw (same_address k) refl) l,
        request-release v k behind head,
      )),
  λ failed. rw (failed, n) refl,
)

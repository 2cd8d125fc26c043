-- ===== src/Demo1/Breaches.antt =====
-- plugins/demo1/demo1.cpp and tg_service.h: the plugin does not do what the server asks of it.
use tgserver.Base.{
  minus_one, List, length, ℕ, ◌≡◌, sym, ap, ◌∙◌, inl, inr, [], ◌∷◌, ◌++◌, Option, none, some, ◌==◌,
  Bool-cases, Run, ok, fault, ◌>>=◌, Bytes, codes, le_bytes,
}
use tgserver.Context.{init_client, write_fd}
use tgserver.Response.{reply, act, Effect}
use tgserver.Response.Contracts.{KeepsContract, KeepsContract-Frames}
use tgserver.Demo.Points.{points_from}
use tgserver.Demo1.{do_request, Mapped}
use tgserver.Demo1.Answers.{ten_points, page_of, all_of_demo1, do_request-overread}

-- Wherever the header and mmap have the ten points, and also where open fails, there are no bytes
-- for which the plugin keeps the contract for its one request.
pub do_request-breaks :
    (mapped lines : Option ℕ) (a : ℕ) (rest d : Bytes)
    → KeepsContract
        (λ memory. do_request mapped (ten_points a lines) memory (page_of rest) >>= λ r. ok (r.0))
        (codes "libdemo1.so")
        (codes "all")
        d
    → ⊥
do_request-breaks none lines a rest d k =
    let nothing = (do_request-overread init_client a a lines rest (0 ∷ [])).2 in
    let some_memory = k.returned 0 in
    let none_there : ok none ≡ ok (some (le_bytes (length d) ++ (d ++ k.more))) =
      sym (ap (λ r. r >>= λ p. ok (p.0)) nothing) ∙ some_memory in
    cc
do_request-breaks (some b) lines a rest d k =
    let (answered, overread, nothing) = do_request-overread init_client a b lines rest (0 ∷ []) in
    let (first, second, sent, framed) =
      KeepsContract-Frames _ (codes "libdemo1.so") (codes "all") d 0 init_client k in
    let sends : Run (Option Bytes × Mapped) → Run (List Effect) =
      λ r. (r >>= λ p. ok (p.0)) >>= reply init_client in
    elim (Bool-cases (a == b)) [
      | inl e ↦
          let now : do_request (some b) (ten_points a lines) (all_of_demo1 ++ 0 ∷ []) (page_of rest)
              ≡ ok (some (le_bytes 88 ++ (le_bytes 10 ++ points_from 0 10)), page_of rest) =
            (rw e at answered) in
          let faults : sends
                (ok (some (le_bytes 88 ++ (le_bytes 10 ++ points_from 0 10)), page_of rest))
              ≡ fault =
            overread in
          let both = sym faults ∙ ap sends (sym now) ∙ sent in cc
      | inr e ↦
          let now : do_request (some b) (ten_points a lines) (all_of_demo1 ++ 0 ∷ []) (page_of rest)
              ≡ fault =
            (rw e at answered) in
          let both : fault
              ≡ ok (act (write_fd minus_one first) ∷ act (write_fd minus_one second) ∷ []) =
            ap sends (sym now) ∙ sent in
          cc
    ]

-- ===== src/Response/Requests.antt =====
-- tg_process_response.c: which answer a request gets, and the frame of the answer.
use tgserver.Base.{
  ℕ, suc, ◌+◌, ◌-◌, ◌<◌, ◌≤◌, ◌≡◌, ◌≢◌, refl, sym, ap, ◌∙◌, ◌⊎◌, true, false, ◌&&◌, ltb, leb,
  if◌then◌else◌, List, [], ◌∷◌, ◌++◌, append_assoc, with_nul, map, Option, none, some, length,
  take-append, All, All-append, pos, minus_one, Run, ok, fault, ◌>>=◌, Bytes, strncmp_eq, string_at,
  to_int, le_bytes, le_value-le_bytes, to_int-small, memcpy-length, arith,
}
use tgserver.Context.{Client, State, write_fd}
use tgserver.Service.{Service, Slot, Services, service, find_service_n}
use tgserver.Service.Table.{NoNul, named, at_null, behind_slots, found, find_service_n-found}
use tgserver.Util.Fronts.{found_at}
use tgserver.Util.Search.{Lacks, find_separator-FindsFirst}
use tgserver.Response.{
  NameArray, codes, header, Effect, act, returns, Handled, send, accepted, not_found, check_name,
  check_request, reply, reply_sized, answer_request, handle_response_client_request, handler,
  handle_response,
}

pub string_at-nul : (a rest : Bytes) → NoNul a → string_at (a ++ 0 ∷ rest) ≡ ok a
unfolding string_at
string_at-nul [] rest h = refl
string_at-nul (x ∷ a) rest h = ground (arith, h.0, string_at-nul a rest h.1)

-- The memory of a request for a service, with what stands behind its NUL.
abbrev pub request_for : Bytes → Bytes → Bytes → Bytes
request_for name args tail = header ++ ((name ++ b'/' ∷ args) ++ 0 ∷ tail)

-- The array of the name is long enough for the copy.
abbrev pub Fits : (ℕ → ℕ) → Bytes → Type 0
Fits reserved name = (5 < length name) × (length name ≤ reserved (length name - 5))

-- It is not.
abbrev pub Overflows : (ℕ → ℕ) → Bytes → Type 0
Overflows reserved name = (length name ≤ 5) ⊎ (reserved (length name - 5) < length name)

fits-true : (p r : ℕ) → 5 < p → p ≤ r → (ltb 5 p && leb p r) ≡ true
fits-true p r h k = ground arith

fits-false : (p r : ℕ) → (p ≤ 5) ⊎ (r < p) → (ltb 5 p && leb p r) ≡ false
fits-false p r h = ground arith

check_request-name :
    (stack : Bytes) (array : NameArray) (s : Services) (name args tail : Bytes)
    → NoNul name
    → Lacks b'/' name
    → NoNul args
    → check_request stack array s (request_for name args tail) ≡ (
        if ltb 5 (length name) && leb (length name) (array.reserved (length name - 5))
        then (find_service_n (name ++ array.behind) s >>= λ r.
            ok (elim r [ none ↦ not_found | some q ↦ accepted q ]))
        else fault)
unfolding check_request strncmp_eq check_name
check_request-name stack array s name args tail n l a =
    rw
      (string_at-nul (name ++ b'/' ∷ args) tail
        (All-append (λ x. x ≢ 0) name (b'/' ∷ args) n ((λ q. omega arith), a)))
      (rw (found_at b'/' name args _ (find_separator-FindsFirst stack (name ++ b'/' ∷ args) b'/') l)
        (rw (take-append name (b'/' ∷ args)) refl))

-- What the client process sends and returns, by the service that is found for a request.
abbrev pub Answer : Type 0
Answer = Option Service → Run Handled

abbrev pub answer_by : (ℕ → Bytes → Run (Option Bytes)) → Client → Bytes → Answer
answer_by do_request c memory none = ok (record {
  effects = act (write_fd c.sockfd (codes "tg://2004/")) ∷ [];
  after = returns minus_one;
})
answer_by do_request c memory (some q) = do
  data_returned ← do_request q.do_request memory
  es ← reply c data_returned
  ok (record { effects = es; after = returns (pos 0) })

after_find :
    (do_request : ℕ → Bytes → Run (Option Bytes)) (stack : Bytes) (array : NameArray)
    (memory : Bytes) (c : Client) (r : Run (Option Service))
    → ((r >>= λ o. ok (elim o [ none ↦ not_found | some q ↦ accepted q ]))
        >>= answer_request do_request stack array c memory)
      ≡ (r >>= answer_by do_request c memory)
unfolding answer_request send
after_find do_request stack array memory c (ok none) = refl
after_find do_request stack array memory c (ok (some q)) = refl
after_find do_request stack array memory c fault = refl

-- What handle_response does with the request "tg://name/args", by the services and the stack.
abbrev pub asks :
    (ℕ → Bytes → Run (Option Bytes))
    → Bytes
    → (ℕ → ℕ)
    → List (Bytes × Service)
    → List Slot
    → ℕ
    → State
    → Client
    → Bytes
    → Bytes
    → Bytes
    → Bytes
    → Run Handled
asks do_request stack reserved ss rest counts g c name after args tail =
    handle_response do_request stack (record { reserved = reserved; behind = with_nul after })
      (record {
        table = some (map service (map named ss) ++ behind_slots (at_null rest));
        counts = counts;
      })
      g c (some (record { type_id = pos 1001; payload = some (request_for name args tail) }))

-- A request "tg://name/args": where the compiler keeps as many bytes for an array of five bytes
-- less than the name as the name has, it is answered with what a plugin returns for the whole memory
-- of the request, with the return code 0; where no service is found and a NULL slot stands behind
-- the services, with "tg://2004/" and -1. The service is the first one under the name lengthened by
-- `after`, the bytes that stand on the stack behind the copy up to the next 0. Where the compiler
-- keeps fewer bytes, or the name has at most five, the copy leaves the array.
pub handle_response-answers :
    (do_request : ℕ → Bytes → Run (Option Bytes)) (stack : Bytes) (reserved : ℕ → ℕ)
    (ss : List (Bytes × Service)) (rest : List Slot) (counts : ℕ) (g : State) (c : Client)
    (name after args tail : Bytes)
    → NoNul name
    → Lacks b'/' name
    → NoNul after
    → NoNul args
    → All (λ x. NoNul x.0) ss
    → (Fits reserved name
        → asks do_request stack reserved ss rest counts g c name after args tail ≡ (
            found (name ++ after) ss (at_null rest)
            >>= answer_by do_request c (request_for name args tail)))
      × (Overflows reserved name
          → asks do_request stack reserved ss rest counts g c name after args tail ≡ fault)
unfolding handle_response handler handle_response_client_request
handle_response-answers do_request stack reserved ss rest counts g c name after args tail n l m a
      h =
    let array : NameArray = record { reserved = reserved; behind = with_nul after } in
    let checked =
      check_request-name stack array
        (record {
          table = some (map service (map named ss) ++ behind_slots (at_null rest));
          counts = counts;
        })
        name args tail n l a in
    (
      (λ f. rw checked (
          rw
            (
              fits-true (length name) (reserved (length name - 5)) f.0 f.1,
              sym (append_assoc name after (0 ∷ [])),
            )
            (rw
              (find_service_n-found (name ++ after) ss (at_null rest) counts
                (All-append (λ x. x ≢ 0) name after n m) h)
              (after_find do_request stack array (request_for name args tail) c
                (found (name ++ after) ss (at_null rest)))))),
      λ o. rw checked (rw (fits-false (length name) (reserved (length name - 5)) o) refl),
    )

-- The effects of an answer that is sent in two writes, and the bytes that the client gets from
-- them.
abbrev pub Frames : Client → Bytes → Run (List Effect) → Type 0
Frames c d r =
    (first : Bytes) × (second : Bytes) × (r
      ≡ ok (act (write_fd c.sockfd first) ∷ act (write_fd c.sockfd second) ∷ []))
    × (first ++ second ≡ le_bytes (length (first ++ second)) ++ (codes "tg://2000/" ++ d))

-- A plugin that returns less than 2 ^ 31 bytes, with their number in front, has them sent in two
-- writes. The client gets one frame: the length of the whole frame, its own four bytes included,
-- "tg://2000/", and the bytes.
pub reply-Frames :
    (c : Client) (d rest : Bytes)
    → 0 < length d
    → length d < 2147483648
    → Frames c d (reply c (some (le_bytes (length d) ++ (d ++ rest))))
unfolding reply reply_sized
reply-Frames c [] rest z w = absurd (omega arith)
reply-Frames c (x ∷ d) rest z w = (
  le_bytes (14 + suc (length d)) ++ codes "tg://2000/",
  x ∷ d,
  ap (reply_sized c (x ∷ (d ++ rest))) (
        ap to_int (le_value-le_bytes (suc (length d)) (omega arith))
        ∙ to_int-small (suc (length d)) w)
      ∙ rw (memcpy-length (x ∷ d) rest) refl,
  (λ i. le_bytes (fourteen (length d) i) ++ (codes "tg://2000/" ++ x ∷ d)),
)
  where
    fourteen :
        (n : ℕ)
        → 14 + suc n
          ≡ suc
              (suc (suc (suc (suc (suc (suc (suc (suc (suc (suc (suc (suc (suc (suc n))))))))))))))
    fourteen n = omega arith

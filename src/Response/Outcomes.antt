-- ===== src/Response/Outcomes.antt =====
-- tg_process_response.c: the events that are refused, the illegal requests, and the ends of the
-- process.
use tgserver.Base.{
  ℕ, ◌-◌, ◌≤◌, ◌<◌, ◌≡◌, refl, ap, ◌⊎◌, inl, inr, true, false, List, [], ◌∷◌, ◌++◌, map, Option,
  some, ◌==◌, ℤ, pos, negsuc, minus_one, Run, ok, fault, Bytes, strncmp_eq, with_nul, arith,
}
use tgserver.Context.{Client, State, write_fd, Context, Slots, release_client, release_context}
use tgserver.Context.Loops.{registered}
use tgserver.Context.Table.{with_table}
use tgserver.Context.Counts.{release_all, release-release_all}
use tgserver.Service.{
  Call, init_all_services, Service, Slot, null, release_call, Services, service,
  release_all_services,
}
use tgserver.Service.Table.{NoNul}
use tgserver.Util.Search.{Lacks, FindsFirst, find_separator-FindsFirst}
use tgserver.Response.{
  NameArray, handle_response_client_init, Handled, exits, act, codes, header, call, returns,
  bad_type, send, check_request, answer_request, handle_response_client_request,
  handle_response_client_quit, handle_response_server_shut_down,
  handle_response_client_conn_closed_by_admin, farewell, handler, handle_response,
}
use tgserver.Response.Requests.{string_at-nul}

-- The range of the types that handle_response lets through is wider than its table: a type outside
-- 1000 to 1050 is refused with -1 and no effect, and one from 1006 to 1050 reads behind the table
-- of six handlers.
pub handle_response-range :
    (do_request : ℕ → Bytes → Run (Option Bytes)) (stack : Bytes) (array : NameArray) (s : Services)
    (g : State) (c : Client) (n : ℕ) (data_of : Option Bytes)
    → ((n < 1000) ⊎ (1050 < n)
        → handle_response do_request stack array s g c
            (some (record { type_id = pos n; payload = data_of }))
          ≡ ok (record { effects = []; after = returns minus_one }))
      × (handle_response do_request stack array s g c
            (some (record { type_id = negsuc n; payload = data_of }))
          ≡ ok (record { effects = []; after = returns minus_one }))
      × (1006 ≤ n
          → n ≤ 1050
          → handle_response do_request stack array s g c
              (some (record { type_id = pos n; payload = data_of }))
            ≡ fault)
unfolding handle_response handler
handle_response-range do_request stack array s g c n data_of = (
  (λ h. rw (bad n h)),
  refl,
  λ h k. rw (good n h k) (
      rw (
        other (n - 1000) 0 (omega arith),
        other (n - 1000) 1 (omega arith),
        other (n - 1000) 2 (omega arith),
        other (n - 1000) 3 (omega arith),
        other (n - 1000) 4 (omega arith),
        other (n - 1000) 5 (omega arith),
      )),
)
  where
    bad : (t : ℕ) → (t < 1000) ⊎ (1050 < t) → bad_type (pos t) ≡ true
    bad t h = ground arith

    good : (t : ℕ) → 1006 ≤ t → t ≤ 1050 → bad_type (pos t) ≡ false
    good t h k = ground arith

    other : (i n : ℕ) → n < i → (i == n) ≡ false
    other i n h = ground arith

Lacks-minus_one :
    (s : ℕ) (source : Bytes) (r : Run ℤ) → FindsFirst s source r → Lacks s source → r ≡ ok minus_one
Lacks-minus_one s source (ok (pos p)) (front, back, e, l, k) h = absurd (found_in front source e h)
  where
    found_in : (a b : Bytes) → b ≡ a ++ s ∷ back → Lacks s b → ⊥
    found_in [] [] e h = cc
    found_in [] (y ∷ b) e h = let same : y ≡ s = cc in h.0 same
    found_in (x ∷ a) [] e h = cc
    found_in (x ∷ a) (y ∷ b) e h = found_in a b (cc) h.1
Lacks-minus_one s source (ok (negsuc n)) (z, k) h = ap (λ m. ok (negsuc m)) z
Lacks-minus_one s source fault k h = absurd k

-- A request that does not begin with "tg://", or has no "/" behind that, is answered with
-- "tg://2002/" and the return code 1, whatever services there are.
pub handle_response-illegal :
    (do_request : ℕ → Bytes → Run (Option Bytes)) (stack : Bytes) (array : NameArray) (s : Services)
    (g : State) (c : Client) (memory : Bytes)
    → (strncmp_eq 5 memory (with_nul header) ≡ ok false)
      ⊎ ((body : Bytes) × (tail : Bytes) × (memory ≡ header ++ (body ++ 0 ∷ tail))
          × NoNul body
          × Lacks b'/' body)
    → handle_response do_request stack array s g c
        (some (record { type_id = pos 1001; payload = some memory }))
      ≡ ok (record {
        effects = act (write_fd c.sockfd (codes "tg://2002/")) ∷ [];
        after = returns (pos 1);
      })
unfolding handle_response handler handle_response_client_request check_request answer_request send
    strncmp_eq
handle_response-illegal do_request stack array s g c memory (inl e) = rw e
handle_response-illegal do_request stack array s g c memory (inr (body, tail, e, n, l)) = rw e (
    rw (string_at-nul body tail n)
      (rw (Lacks-minus_one b'/' body _ (find_separator-FindsFirst stack body b'/') l) (refl)))

-- The services of a table that ends with a NULL slot are called one after the other.
release_each :
    (ss : List Service) (rest : List Slot) (counts : ℕ)
    → release_all_services
        (record { table = some (map service ss ++ null ∷ rest); counts = counts })
      ≡ ok (map release_call ss)
unfolding release_all_services
release_each [] rest counts = refl
release_each (p ∷ ss) rest counts = rw (release_each ss rest counts)

-- When the client quits, its process calls release of each service, in their order, closes the
-- client's descriptors and then those of all clients that it has inherited and of the context, and
-- exits.
pub handle_response-quits :
    (do_request : ℕ → Bytes → Run (Option Bytes)) (stack : Bytes) (array : NameArray)
    (ss : List Service) (rest : List Slot) (counts : ℕ) (xs : Slots) (g : Context) (c : Client)
    (unread : Option Bytes)
    → handle_response do_request stack array
        (record { table = some (map service ss ++ null ∷ rest); counts = counts })
        (with_table xs g)
        c
        (some (record { type_id = pos 1000; payload = unread }))
      ≡ ok (record {
        effects =
            map call (map release_call ss)
            ++ (map act (release_client (some c))
                ++ map act (release_all (registered xs) ++ release_context (some g)));
        after = exits;
      })
unfolding handle_response handler handle_response_client_quit
handle_response-quits do_request stack array ss rest counts xs g c unread =
    rw (release_each ss rest counts) (rw (release-release_all xs g) (refl))

-- What a process that ends without its client's wish does: it writes the message, closes its
-- client's descriptors and then those of all clients that it has inherited and of the context, and
-- exits.
abbrev pub ends_with : Bytes → Slots → Context → Client → Run Handled
ends_with message xs g c = ok (record {
  effects =
      act (write_fd c.sockfd message)
      ∷ (map act (release_client (some c))
          ++ map act (release_all (registered xs) ++ release_context (some g)));
  after = exits;
})

-- The events 1003, of a shutdown, and 1005, of the administrator, end the process: it tells the
-- client "tg://2003/" or "tg://2007/" first. The services are not released.
pub handle_response-ends_with :
    (do_request : ℕ → Bytes → Run (Option Bytes)) (stack : Bytes) (array : NameArray) (s : Services)
    (xs : Slots) (g : Context) (c : Client) (unread : Option Bytes)
    → (handle_response do_request stack array s
          (with_table xs g)
          c
          (some (record { type_id = pos 1003; payload = unread }))
        ≡ ends_with (codes "tg://2003/") xs g c)
      × (handle_response do_request stack array s
            (with_table xs g)
            c
            (some (record { type_id = pos 1005; payload = unread }))
          ≡ ends_with (codes "tg://2007/") xs g c)
unfolding handle_response handler handle_response_server_shut_down
    handle_response_client_conn_closed_by_admin farewell send release_client
handle_response-ends_with do_request stack array s xs g c unread =
    (rw (release-release_all xs g) refl, rw (release-release_all xs g) refl)

-- The event of the initialization is answered with the calls of initAllServices.
pub handle_response-inits :
    (do_request : ℕ → Bytes → Run (Option Bytes)) (stack : Bytes) (array : NameArray) (s : Services)
    (g : State) (c : Client) (unread : Option Bytes) (calls : List Call)
    → init_all_services s ≡ ok calls
    → handle_response do_request stack array s g c
        (some (record { type_id = pos 1004; payload = unread }))
      ≡ ok (record { effects = map call calls; after = returns (pos 0) })
unfolding handle_response handler handle_response_client_init
handle_response-inits do_request stack array s g c unread calls e = rw e refl

-- ===== src/Service/Loading/Loads.antt =====
-- tg_service.c: a library that is loaded is the one that is found under its file name.
use tgserver.Base.{
  codes, ℕ, zero, suc, ◌+◌, ◌≡◌, refl, sym, ap, subst, ◌∙◌, inl, inr, false, List, [], ◌∷◌, ◌++◌,
  map, Option, none, some, length, replicate, Run, ok, fault, Bytes, with_nul, All, All-append,
}
use tgserver.Service.{
  Services, Service, new_service, Slot, null, service, default_service_size, add_service,
  find_service_n,
}
use tgserver.Service.Table.{
  holding, free_behind, NoNul, named, Behind, ends, at_null, behind_slots, found, bytes_equal,
  bytes_equal_iff, add_service-holding, find_service_n-found,
}
use tgserver.Service.Loading.{
  Linker, Loader, service_of, check_lib, add_named, load_library, load_service,
}
use tgserver.Util.{get_lib_name}
use tgserver.Util.Fronts.{same_back, Lacks-front}
use tgserver.Util.Search.{Lacks, CutsName, get_lib_name-CutsName}

-- The library has the five functions, at these addresses.
pub record HasSymbols (linker : Linker) (h : ℕ) (p : Service) : Type 0 where
  pub has_create : linker.dlsym h (codes "create") ≡ some p.do_create
  pub has_init : linker.dlsym h (codes "init") ≡ some p.do_init
  pub has_do_request : linker.dlsym h (codes "do_request") ≡ some p.do_request
  pub has_release : linker.dlsym h (codes "release") ≡ some p.do_release
  pub has_destroy : linker.dlsym h (codes "destroy") ≡ some p.do_destroy

-- The service of these functions under this number.
abbrev pub fresh : ℕ → Service → Service
fresh id p = record new_service {
  s_id = id;
  do_create = p.do_create;
  do_init = p.do_init;
  do_request = p.do_request;
  do_release = p.do_release;
  do_destroy = p.do_destroy;
}

check_lib-fresh :
    (linker : Linker) (h id : ℕ) (p : Service)
    → HasSymbols linker h p
    → check_lib linker h id ≡ some (fresh id p)
unfolding check_lib
check_lib-fresh linker h id p s =
    rw (s.has_create, s.has_init, s.has_do_request, s.has_release, s.has_destroy) refl

-- The service of five addresses, none where one of them is missing.
abbrev five_of : ℕ → Option ℕ → Option ℕ → Option ℕ → Option ℕ → Option ℕ → Option Service
five_of id create init do_request release destroy = elim create [
  | none ↦ none
  | some c ↦ elim init [
    | none ↦ none
    | some i ↦ elim do_request [
      | none ↦ none
      | some q ↦ elim release [
        | none ↦ none
        | some r ↦ elim destroy [
          | none ↦ none
          | some d ↦ some (record new_service {
            s_id = id;
            do_create = c;
            do_init = i;
            do_request = q;
            do_release = r;
            do_destroy = d;
          })
        ]
      ]
    ]
  ]
]

-- The service that a library with the five functions gives under a number.
abbrev pub five_functions : Linker → ℕ → ℕ → Option Service
five_functions linker h id =
    five_of id (linker.dlsym h (codes "create")) (linker.dlsym h (codes "init"))
      (linker.dlsym h (codes "do_request")) (linker.dlsym h (codes "release"))
      (linker.dlsym h (codes "destroy"))

service_of-five : (id : ℕ) (c i q r d : Option ℕ) → service_of id c i q r d ≡ five_of id c i q r d
unfolding service_of
service_of-five id none i q r d = refl
service_of-five id (some c) none q r d = refl
service_of-five id (some c) (some i) none r d = refl
service_of-five id (some c) (some i) (some q) none d = refl
service_of-five id (some c) (some i) (some q) (some r) none = refl
service_of-five id (some c) (some i) (some q) (some r) (some d) = refl

pub check_lib-five :
    (linker : Linker) (h id : ℕ) → check_lib linker h id ≡ five_functions linker h id
unfolding check_lib
check_lib-five linker h id = service_of-five id _ _ _ _ _

cut_base :
    (dir name : Bytes) (r : Run (Option Bytes))
    → Lacks b'/' name
    → CutsName (dir ++ b'/' ∷ name) none r
    → r ≡ ok (some name)
cut_base dir name (ok _) l (inl (front, base, e, k, q)) =
    ap ok (q ∙ ap some (sym (same_back b'/' dir name front base e l k)))
cut_base dir name (ok _) l (inr (h, q)) = absurd (Lacks-front b'/' dir name h)
cut_base dir name fault l h = absurd h

-- The last service is found where no other has its name.
found-last :
    (name : Bytes) (p : Service) (ss : List (Bytes × Service)) (b : Behind)
    → All (λ x. bytes_equal x.0 name ≡ false) ss
    → found name (ss ++ (name, p) ∷ []) b ≡ ok (some (record p { service_name = some name }))
found-last name p [] b h = rw ((bytes_equal_iff name name).1 refl) refl
found-last name p (x ∷ ss) b h = rw h.0 (found-last name p ss b h.1)

map-snoc :
    (p : Bytes × Service) (ss : List (Bytes × Service))
    → map named (ss ++ p ∷ []) ≡ map named ss ++ named p ∷ []
map-snoc p [] = refl
map-snoc p (x ∷ ss) = ap (◌∷◌ (named x)) (map-snoc p ss)

abbrev pub some_slots : ℕ → Behind
some_slots zero = ends
some_slots (suc free) = at_null (replicate free null)

pub slots-of : (free : ℕ) → behind_slots (some_slots free) ≡ replicate free null
slots-of zero = refl
slots-of (suc free) = refl

abbrev pub empty_room : Option (List Slot)
empty_room = some (replicate default_service_size null)

-- The loader with these services, the last of which was numbered id - 1.
abbrev pub loader : List (Bytes × Service) → ℕ → ℕ → Loader
loader ss free id = record { services = holding (map named ss) free; next_id = id }

-- A library that checkLib accepts, under what follows the last "/" of its path.
module _ (linker : Linker) (stack : Bytes) (before : ℕ) (name : Bytes) (h id : ℕ) (q : Service)
    (checks : check_lib linker h id ≡ some q) (base : Lacks b'/' name) where
  load_library-adds :
      (path dir : Bytes) (s t : Services)
      → path ≡ dir ++ b'/' ∷ name
      → add_service empty_room (some (named (name, q))) s ≡ ok t
      → load_library linker empty_room stack before path h (record { services = s; next_id = id })
        ≡ ok (record { services = t; next_id = id + 1 })
  unfolding load_library add_named
  load_library-adds path dir s t e added =
      rw (checks, load_library)
        (rw
          (cut_base dir name _ base (
            subst (λ q. CutsName q none (get_lib_name stack before (some path) none)) e
              (get_lib_name-CutsName before stack path none)))
          (rw added refl))

  pub load_service-adds :
      (dir : Bytes) (s t : Services)
      → linker.dlopen (dir ++ b'/' ∷ name) ≡ some h
      → add_service empty_room (some (named (name, q))) s ≡ ok t
      → load_service linker empty_room stack before
          (some (dir ++ b'/' ∷ name))
          (record { services = s; next_id = id })
        ≡ ok (record { services = t; next_id = id + 1 })
  unfolding load_service
  load_service-adds [] s t e added = rw e (load_library-adds (b'/' ∷ name) [] s t refl added)
  load_service-adds (x ∷ d) s t e added =
      rw e (load_library-adds (x ∷ (d ++ b'/' ∷ name)) (x ∷ d) s t refl added)

-- A file that the linker does not open, or that lacks a function, changes nothing.
pub load_service-skips :
    (linker : Linker) (stack : Bytes) (before c : ℕ) (path : Bytes) (s : Loader)
    → (linker.dlopen (c ∷ path) ≡ none
        → load_service linker empty_room stack before (some (c ∷ path)) s ≡ ok s)
      × ((h : ℕ)
          → linker.dlopen (c ∷ path) ≡ some h
          → check_lib linker h s.next_id ≡ none
          → load_service linker empty_room stack before (some (c ∷ path)) s ≡ ok s)
unfolding load_service load_library
load_service-skips linker stack before c path s =
    ((λ e. rw (load_service, e) refl), λ h e k. rw (load_service, e) (rw (k, load_library) refl))

-- The service goes behind the others.
pub added_behind :
    (name : Bytes) (q : Service) (ss : List (Bytes × Service)) (free : ℕ)
    → add_service empty_room (some (named (name, q))) (holding (map named ss) free)
      ≡ ok (holding (map named (ss ++ (name, q) ∷ [])) (free_behind free))
added_behind name q ss free =
    (add_service-holding (named (name, q)) (named (name, q)) (map named ss) free).1
    ∙ ap (λ l. ok (holding l (free_behind free))) (sym (map-snoc (name, q) ss))

module _ (linker : Linker) (stack : Bytes) (before : ℕ) (name : Bytes) (h id free : ℕ) (p : Service)
    (ss : List (Bytes × Service)) (symbols : HasSymbols linker h p) (base : Lacks b'/' name) where
  -- A library that has the five functions is loaded behind the other services, under what follows
  -- the last "/" of its path and with the next number; and findServiceN then gives it for that
  -- name, if no other service has the name. malloc gives memory that is all NULL.
  pub load_service-loader :
      (dir : Bytes)
      → linker.dlopen (dir ++ b'/' ∷ name) ≡ some h
      → NoNul name
      → All (λ x. NoNul x.0) ss
      → All (λ x. bytes_equal x.0 name ≡ false) ss
      → (load_service linker empty_room stack before (some (dir ++ b'/' ∷ name)) (loader ss free id)
          ≡ ok (loader (ss ++ (name, fresh id p) ∷ []) (free_behind free) (id + 1)))
        × (find_service_n
              (with_nul name)
              (holding (map named (ss ++ (name, fresh id p) ∷ [])) (free_behind free))
            ≡ ok (some (record (fresh id p) { service_name = some name })))
  load_service-loader dir opened k ks others = (
    load_service-adds linker stack before name h id (fresh id p)
        (check_lib-fresh linker h id p symbols) base dir (holding (map named ss) free) _ opened
        (added_behind name (fresh id p) ss free),
    ap
          (λ xs. find_service_n (with_nul name) (record {
            table = some (map service (map named (ss ++ (name, fresh id p) ∷ [])) ++ xs);
            counts = length (map named (ss ++ (name, fresh id p) ∷ [])) + free_behind free;
          }))
          (sym (slots-of (free_behind free)))
        ∙ find_service_n-found name (ss ++ (name, fresh id p) ∷ []) (some_slots (free_behind free))
            _ k (All-append (λ x. NoNul x.0) ss ((name, fresh id p) ∷ []) ks (k, tt))
        ∙ found-last name (fresh id p) ss (some_slots (free_behind free)) others,
  )
